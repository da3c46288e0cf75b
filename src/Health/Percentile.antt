-- ===== src/Health/Percentile.antt =====
-- health.go: the 95th percentile of the latencies in the window.
use mathlib.Core.Path.{subst}
use multichain_indexer.Prelude.{
  ltb, Bool-cases, All, length, get_or, take, length-take, ℤ, pos, ◌≤ℤ◌, ltb_ℤ, leb_ℤ, ltb_ℤ→ge,
  leb_ℤ→le, leb_ℤ→gt, ge→ltb_ℤ, ℕ, suc, ◌-◌, ◌≤◌, ◌<◌, ◌≡◌, refl, sym, ap, ◌∙◌, ◌⊎◌, inl, inr, Bool,
  true, false, ◌&&◌, ◌||◌, not, List, [], ◌∷◌, arith,
}
use multichain_indexer.Health.{
  latency_window_size, PipelineHealth, insert, sort, percentile_index, percentile_latency,
  is_latency_degraded,
}
use multichain_indexer.Health.Window.{HasRing}

pair_cases : (n : ℕ) → (n < 2) ⊎ (2 ≤ n)
pair_cases n = ground arith

abbrev pub last : List ℤ → ℤ
last [] = pos 0
last (d ∷ []) = d
last (e ∷ d ∷ es) = last (d ∷ es)

abbrev Below : ℤ → List ℤ → Type 0
Below m es = All (λ e. e ≤ℤ m) es

insert_here : (d e : ℤ) (es : List ℤ) → leb_ℤ d e ≡ true → insert d (e ∷ es) ≡ d ∷ e ∷ es
unfolding insert
insert_here d e es h = rw h refl

insert_later : (d e : ℤ) (es : List ℤ) → leb_ℤ d e ≡ false → insert d (e ∷ es) ≡ e ∷ insert d es
unfolding insert
insert_later d e es h = rw h refl

length-insert : (d : ℤ) (es : List ℤ) → length (insert d es) ≡ suc (length es)
unfolding insert
length-insert d [] = refl
length-insert d (e ∷ es) = ground (arith, length-insert d es)

length-sort : (ds : List ℤ) → length (sort ds) ≡ length ds
length-sort [] = refl
length-sort (d ∷ ds) = length-insert d (sort ds) ∙ ap suc (length-sort ds)

last_cons : (e : ℤ) (es : List ℤ) → 0 < length es → last (e ∷ es) ≡ last es
last_cons e [] h = absurd (omega arith)
last_cons e (d ∷ es) h = refl

last_at : (e : ℤ) (es : List ℤ) → get_or (e ∷ es) (length es) (pos 0) ≡ last (e ∷ es)
last_at e [] = refl
last_at e (d ∷ es) = last_at d es

get_or-last : (es : List ℤ) (n : ℕ) → 0 < n → length es ≡ n → get_or es (n - 1) (pos 0) ≡ last es
get_or-last [] n p h = absurd (omega arith)
get_or-last (e ∷ es) n p h = let k : n - 1 ≡ length es = omega (arith, h) in rw k (last_at e es)

-- Inserting keeps the largest element last.
insert-Below :
    (d : ℤ) (es : List ℤ)
    → Below (last es) es
    → (d ≤ℤ last (insert d es)) × Below (last (insert d es)) (insert d es)
insert-Below d [] b = unfold insert in ground arith
insert-Below d (e ∷ []) b = unfold insert in ground (arith, leb_ℤ→le d e, leb_ℤ→gt d e)
insert-Below d (e ∷ f ∷ fs) (b, bs) = elim (Bool-cases (leb_ℤ d e)) [
  | inl h ↦ rw (insert_here d e (f ∷ fs) h) (
      let below : d ≤ℤ last (f ∷ fs) = omega (arith, leb_ℤ→le d e h, b) in
      (below, (below, (b, bs))))
  | inr h ↦
      let ih = insert-Below d (f ∷ fs) bs in
      let top = last_cons e (insert d (f ∷ fs)) (omega (arith, length-insert d (f ∷ fs))) in
      rw (insert_later d e (f ∷ fs) h) (
        subst (λ m. (d ≤ℤ m) × ((e ≤ℤ m) × Below m (insert d (f ∷ fs)))) (sym top)
          (ih.0, (omega (arith, leb_ℤ→gt d e h, ih.0), ih.1)))
]

sort-Below : (ds : List ℤ) → Below (last (sort ds)) (sort ds)
sort-Below [] = tt
sort-Below (d ∷ ds) = (insert-Below d (sort ds) (sort-Below ds)).1

-- Whether a latency of a list exceeds a threshold.
unfoldable pub any_above : ℤ → List ℤ → Bool
any_above t [] = false
any_above t (d ∷ ds) = ltb_ℤ t d || any_above t ds

any_above-insert : (t d : ℤ) (es : List ℤ) → any_above t (insert d es) ≡ any_above t (d ∷ es)
unfolding any_above insert
any_above-insert t d [] = refl
any_above-insert t d (e ∷ es) = ground (arith, any_above-insert t d es)

any_above-sort : (t : ℤ) (ds : List ℤ) → any_above t (sort ds) ≡ any_above t ds
unfolding any_above
any_above-sort t [] = refl
any_above-sort t (d ∷ ds) =
    any_above-insert t d (sort ds) ∙ ap (λ b. ltb_ℤ t d || b) (any_above-sort t ds)

any_above-last :
    (t : ℤ) (es : List ℤ) → 0 < length es → ltb_ℤ t (last es) ≡ true → any_above t es ≡ true
unfolding any_above
any_above-last t [] p h = absurd (omega arith)
any_above-last t (d ∷ []) p h = ground (arith, h)
any_above-last t (e ∷ d ∷ es) p h = ground (arith, any_above-last t (d ∷ es) (omega arith) h)

none_above : (t m : ℤ) (es : List ℤ) → Below m es → ltb_ℤ t m ≡ false → any_above t es ≡ false
unfolding any_above
none_above t m [] b h = refl
none_above t m (e ∷ es) (b, bs) h =
    ground (arith, none_above t m es bs h, ltb_ℤ→ge t m, ge→ltb_ℤ t e)

last-sort : (t : ℤ) (ds : List ℤ) → 0 < length ds → ltb_ℤ t (last (sort ds)) ≡ any_above t ds
last-sort t ds p = elim (Bool-cases (ltb_ℤ t (last (sort ds)))) [
  | inl h ↦
      h ∙ sym (any_above-last t (sort ds) (omega (arith, length-sort ds)) h) ∙ any_above-sort t ds
  | inr h ↦
      h ∙ sym (none_above t (last (sort ds)) (sort ds) (sort-Below ds) h) ∙ any_above-sort t ds
]

percentile_index_last : (n : ℕ) → 0 < n → n ≤ latency_window_size → percentile_index 95 n ≡ n - 1
unfolding percentile_index
percentile_index_last n p h = ground arith

percentile_latency-last :
    (h : PipelineHealth)
    → HasRing h
    → 0 < h.latency_count
    → percentile_latency h 95 ≡ last (sort (take h.latency_count h.latency_buf))
unfolding percentile_latency
percentile_latency-last h v p =
    let window = take h.latency_count h.latency_buf in
    let n : length window ≡ h.latency_count =
      ground (arith, v, length-take h.latency_count h.latency_buf) in
    ground (
      arith,
      p,
      percentile_index_last h.latency_count p v.count,
      get_or-last (sort window) h.latency_count p (length-sort window ∙ n),
    )

-- Over a window of ten the 95th percentile is the maximum: a pipeline with a well-formed ring is
-- degraded exactly when it has recorded two latencies and one of those in the window exceeds the
-- threshold.
pub is_latency_degraded-any_above :
    (h : PipelineHealth)
    → HasRing h
    → is_latency_degraded h ≡ (
        not (ltb h.latency_count 2)
        && any_above h.degraded_latency_threshold (take h.latency_count h.latency_buf))
unfolding is_latency_degraded
is_latency_degraded-any_above h v =
    let window = take h.latency_count h.latency_buf in
    let n : length window ≡ h.latency_count =
      ground (arith, v, length-take h.latency_count h.latency_buf) in
    elim (pair_cases h.latency_count) [
      | inl z ↦ ground (arith, z)
      | inr m ↦ ground (
        arith,
        m,
        percentile_latency-last h v (omega (arith, m)),
        last-sort h.degraded_latency_threshold window (omega (arith, n, m)),
      )
    ]
