-- ===== src/Coordinator/Starts.antt =====
-- coordinator.go: where a tick's scan starts.
use mathlib.Core.Path.{subst}
use multichain_indexer.Prelude.{
  Bool-cases, ℤ, pos, negsuc, ◌+ℤ◌, ◌-ℤ◌, ◌≤ℤ◌, ◌<ℤ◌, ltb_ℤ, leb_ℤ, ltb_ℤ→lt, ltb_ℤ→ge, leb_ℤ→le,
  leb_ℤ→gt, lt→ltb_ℤ, InInt64, InInt64-between, add64, sub64, add64_of_InInt64, sub64_of_InInt64,
  int_laws, ◌-◌, ◌^◌, ◌≡◌, refl, sym, ◌⊎◌, inl, inr, true, false, Option, none, some, arith,
}
use multichain_indexer.Autotune.Clamp.{floor_zero}
use multichain_indexer.Coordinator.{
  Coordinator, World, start_after, watermark_start, start_near_head, start_from, start_block_of,
}

-- The watermark, where there is one, is below the largest int64.
abbrev pub WatermarkFits : Option (Option ℤ) → Type 0
WatermarkFits (some (some n)) = InInt64 (n +ℤ pos 1)
WatermarkFits _ = Unit

-- Where a first scan starts: so that it takes the blocks of the look-back up to the head, or at zero
-- where there are fewer or no look-back is set.
abbrev pub NearHead : Coordinator → ℤ → ℤ → Type 0
NearHead c head start =
    let back = c.max_initial_lookback_blocks in
    ((start ≡ pos 0) × ((back ≤ℤ pos 0) ⊎ (head <ℤ back)))
    ⊎ ((pos 0 <ℤ back) × (back ≤ℤ head) × (start +ℤ back ≡ head +ℤ pos 1))

-- Where a scan starts: one block after the watermark where the repository has one above zero, else
-- near the head.
unfoldable pub StartsAt : Coordinator → World → ℤ → ℤ → Type 0
StartsAt c w head start =
    ((n : ℤ) × (c.has_wm_repo ≡ true)
      × (w.watermark ≡ some (some n))
      × (pos 0 <ℤ n)
      × (start ≡ n +ℤ pos 1))
    ⊎ (((c.has_wm_repo ≡ false)
          ⊎ (w.watermark ≡ none)
          ⊎ (w.watermark ≡ some none)
          ⊎ ((n : ℤ) × (w.watermark ≡ some (some n)) × (n ≤ℤ pos 0)))
        × NearHead c head start)

fits_below :
    (head a : ℤ)
    → InInt64 (head +ℤ pos 1)
    → negsuc (2 ^ 63 - 1) ≤ℤ a
    → a ≤ℤ head +ℤ pos 1
    → InInt64 a
fits_below head a i l h =
    InInt64-between (negsuc (2 ^ 63 - 1)) a (head +ℤ pos 1) (omega arith) i l h

look_back :
    (head back : ℤ)
    → pos 0 <ℤ head
    → pos 0 <ℤ back
    → InInt64 (head +ℤ pos 1)
    → InInt64 back
    → add64 (sub64 head back) (pos 1) ≡ head -ℤ back +ℤ pos 1
look_back head back n b i k =
    rw
      (sub64_of_InInt64 head back
        (fits_below head (head -ℤ back) i (omega (int_laws, n, b, k)) (omega (int_laws, b))))
      (add64_of_InInt64 (head -ℤ back) (pos 1) (
        fits_below head (head -ℤ back +ℤ pos 1) i (omega (int_laws, n, b, k))
          (omega (int_laws, b))))

floor_zero_cases :
    (v : ℤ) → (v <ℤ pos 0) × (floor_zero v ≡ pos 0) ⊎ (pos 0 ≤ℤ v) × (floor_zero v ≡ v)
unfolding floor_zero
floor_zero_cases v = elim (Bool-cases (ltb_ℤ v (pos 0))) [
  | inl h ↦ simp h (inl (ltb_ℤ→lt v (pos 0) h, refl))
  | inr h ↦ simp h (inr (ltb_ℤ→ge v (pos 0) h, refl))
]

-- The floor of the look-back's start.
NearHead-floor_zero :
    (c : Coordinator) (head : ℤ)
    → pos 0 <ℤ c.max_initial_lookback_blocks
    → NearHead c head (floor_zero (head -ℤ c.max_initial_lookback_blocks +ℤ pos 1))
NearHead-floor_zero c head b =
    let start = head -ℤ c.max_initial_lookback_blocks +ℤ pos 1 in
    elim (floor_zero_cases start) [
      | inl (l, z) ↦ rw z (inl (refl, inr (omega (int_laws, l))))
      | inr (l, z) ↦ elim (Bool-cases (leb_ℤ c.max_initial_lookback_blocks head)) [
        | inl k ↦ rw z (inr (b, leb_ℤ→le _ _ k, omega int_laws))
        | inr k ↦
            let k1 = leb_ℤ→gt c.max_initial_lookback_blocks head k in
            rw z (inl (omega (int_laws, l, k1), inr k1))
      ]
    ]

start_near_head_lem :
    (c : Coordinator) (head : ℤ)
    → pos 0 <ℤ head
    → InInt64 (head +ℤ pos 1)
    → InInt64 c.max_initial_lookback_blocks
    → NearHead c head (start_near_head c head)
unfolding start_near_head
start_near_head_lem c head n i k = elim (Bool-cases (ltb_ℤ (pos 0) c.max_initial_lookback_blocks)) [
  | inr z ↦
      rw (lt→ltb_ℤ (pos 0) head n, z)
        (inl (refl, inl (ltb_ℤ→ge (pos 0) c.max_initial_lookback_blocks z)))
  | inl p ↦
      let b = ltb_ℤ→lt (pos 0) c.max_initial_lookback_blocks p in
      rw (lt→ltb_ℤ (pos 0) head n, p)
        (rw (look_back head c.max_initial_lookback_blocks n b i k) (NearHead-floor_zero c head b))
]

start_from_watermark :
    (c : Coordinator) (w : World) (head : ℤ) (m : Option (Option ℤ))
    → w.watermark ≡ m
    → c.has_wm_repo ≡ true
    → WatermarkFits m
    → NearHead c head (start_near_head c head)
    → StartsAt c w head (start_from c head (start_after m))
unfolding StartsAt start_from start_after
start_from_watermark c w head none e r f near = inr (inr (inl e), near)
start_from_watermark c w head (some none) e r f near = inr (inr (inr (inl e)), near)
start_from_watermark c w head (some (some n)) e r f near = elim (Bool-cases (ltb_ℤ (pos 0) n)) [
  | inl p ↦ simp p (inl (n, r, e, ltb_ℤ→lt (pos 0) n p, add64_of_InInt64 n (pos 1) f))
  | inr p ↦ simp p (inr (inr (inr (inr (n, e, ltb_ℤ→ge (pos 0) n p))), near))
]

pub start_block_of-StartsAt :
    (c : Coordinator) (w : World) (head : ℤ)
    → pos 0 <ℤ head
    → InInt64 (head +ℤ pos 1)
    → InInt64 c.max_initial_lookback_blocks
    → WatermarkFits w.watermark
    → StartsAt c w head (start_block_of c w head)
unfolding start_block_of watermark_start StartsAt start_from
start_block_of-StartsAt c w head n i k f =
    let near = start_near_head_lem c head n i k in
    elim (Bool-cases c.has_wm_repo) [
      | inl r ↦
          let e : watermark_start c w ≡ start_after w.watermark = simp r in
          subst (λ m. StartsAt c w head (start_from c head m)) (sym e)
            (start_from_watermark c w head w.watermark refl r f near)
      | inr r ↦
          let e : watermark_start c w ≡ none = simp r in
          subst (λ m. StartsAt c w head (start_from c head m)) (sym e) (inr (inl r, near))
    ]
