-- ===== src/Ingester/Promoted.antt =====
-- internal/pipeline/ingester/ingester.go: the events and blocks that a promotion leaves, which a
-- second one leaves as they are.
use multichain_indexer.Prelude.{
  if◌then◌else◌, Bool-cases, All, ℤ, ◌<ℤ◌, leb_ℤ, leb_ℤ→gt, gt→leb_ℤ, Text, codes, eq_text,
  eq_text_refl, eq_text_iff, text-cases, ◌≡◌, refl, ◌⊎◌, inl, inr, Bool, true, false, List, [], ◌∷◌,
  arith,
}
use multichain_indexer.Store.{EventRow}
use multichain_indexer.Ingester.Items.{
  select_events, finalizes, finalize_events, newly_applied, apply_events,
}
use multichain_indexer.Ingester.Reversal.{IndexedBlock, finalize_blocks}

-- What a promotion leaves of an event: it lies above the block, or it has no finality state, or it is
-- finalized and applied.
unfoldable pub Promoted : ℤ → EventRow → Type 0
Promoted block e =
    (block <ℤ e.block_cursor)
    ⊎ (e.finality_state ≡ [])
    ⊎ ((e.finality_state ≡ codes "finalized") × (e.balance_applied ≡ true))

stateless : (s : Text) → s ≡ [] → eq_text s (codes "finalized") ≡ false
unfolding eq_text
stateless s h = simp h

row-Promoted :
    (block : ℤ) (e : EventRow)
    → let f = (if finalizes block e then record e { finality_state = codes "finalized" } else e) in
      Promoted block (if newly_applied block f then record f { balance_applied = true } else f)
unfolding Promoted finalizes newly_applied
row-Promoted block e = elim (Bool-cases (leb_ℤ e.block_cursor block)) [
  | inr h ↦ simp h (inl (leb_ℤ→gt e.block_cursor block h))
  | inl h ↦ elim (text-cases e.finality_state []) [
    | inl (k, s) ↦ elim (Bool-cases e.balance_applied) [
      | inl b ↦ simp (h, k, stateless e.finality_state s, b) (inr (inl s))
      | inr b ↦ simp (h, k, stateless e.finality_state s, b) (inr (inl s))
    ]
    | inr (k, n) ↦ elim (text-cases e.finality_state (codes "finalized")) [
      | inl (l, s) ↦ elim (Bool-cases e.balance_applied) [
        | inl b ↦ simp (h, k, l, b) (inr (inr (s, refl)))
        | inr b ↦ simp (h, k, l, b) (inr (inr (s, refl)))
      ]
      | inr (l, m) ↦ elim (Bool-cases e.balance_applied) [
        | inl b ↦ simp (h, k, l, b) (inr (inr (refl, refl)))
        | inr b ↦ simp (h, k, l, b, eq_text_refl (codes "finalized")) (inr (inr (refl, refl)))
      ]
    ]
  ]
]

pub apply_events-Promoted :
    (block : ℤ) (es : List EventRow)
    → All (Promoted block) (apply_events block (finalize_events block es))
unfolding apply_events finalize_events
apply_events-Promoted block [] = tt
apply_events-Promoted block (e ∷ es) = (row-Promoted block e, apply_events-Promoted block es)

-- The blocks at the block or below are finalized, where there is a repository of blocks.
unfoldable pub BlocksFinal : Bool → ℤ → List IndexedBlock → Type 0
BlocksFinal has_block_repo block bs =
    (has_block_repo ≡ false)
    ⊎ All (λ (b : IndexedBlock). (block <ℤ b.block_number) ⊎ (b.finality_state ≡ codes "finalized"))
        bs

finalize_blocks-All :
    (block : ℤ) (bs : List IndexedBlock)
    → All
        (λ (b : IndexedBlock). (block <ℤ b.block_number) ⊎ (b.finality_state ≡ codes "finalized"))
        (finalize_blocks block bs)
unfolding finalize_blocks
finalize_blocks-All block [] = tt
finalize_blocks-All block (b ∷ bs) =
    let rest = finalize_blocks-All block bs in
    elim (Bool-cases (leb_ℤ b.block_number block)) [
      | inl h ↦ simp h (inr refl, rest)
      | inr h ↦ simp h (inl (leb_ℤ→gt b.block_number block h), rest)
    ]

pub finalize_blocks-BlocksFinal :
    (has_block_repo : Bool) (block : ℤ) (bs : List IndexedBlock)
    → BlocksFinal has_block_repo block (if has_block_repo then finalize_blocks block bs else bs)
unfolding BlocksFinal
finalize_blocks-BlocksFinal true block bs = inr (finalize_blocks-All block bs)
finalize_blocks-BlocksFinal false block bs = inl refl

-- A second promotion finds nothing to do.
finalizes-Promoted : (block : ℤ) (e : EventRow) → Promoted block e → finalizes block e ≡ false
unfolding Promoted finalizes
finalizes-Promoted block e (inl h) = simp (gt→leb_ℤ e.block_cursor block h)
finalizes-Promoted block e (inr (inl s)) = ground (arith, (eq_text_iff e.finality_state []).1 s)
finalizes-Promoted block e (inr (inr (s, b))) =
    ground (arith, (eq_text_iff e.finality_state (codes "finalized")).1 s)

newly_applied-Promoted :
    (block : ℤ) (e : EventRow) → Promoted block e → newly_applied block e ≡ false
unfolding Promoted newly_applied eq_text
newly_applied-Promoted block e (inl h) = simp (gt→leb_ℤ e.block_cursor block h)
newly_applied-Promoted block e (inr (inl s)) = ground (arith, stateless e.finality_state s)
newly_applied-Promoted block e (inr (inr (s, b))) = ground arith

pub finalize_events-again :
    (block : ℤ) (es : List EventRow) → All (Promoted block) es → finalize_events block es ≡ es
unfolding finalize_events
finalize_events-again block [] p = refl
finalize_events-again block (e ∷ es) (p, ps) =
    simp (finalizes-Promoted block e p, finalize_events-again block es ps)

pub apply_events-again :
    (block : ℤ) (es : List EventRow) → All (Promoted block) es → apply_events block es ≡ es
unfolding apply_events
apply_events-again block [] p = refl
apply_events-again block (e ∷ es) (p, ps) =
    simp (newly_applied-Promoted block e p, apply_events-again block es ps)

pub newly_applied-none :
    (block : ℤ) (es : List EventRow)
    → All (Promoted block) es
    → select_events (newly_applied block) es ≡ []
unfolding select_events
newly_applied-none block [] p = refl
newly_applied-none block (e ∷ es) (p, ps) =
    simp (newly_applied-Promoted block e p, newly_applied-none block es ps)

pub finalize_blocks-again :
    (block : ℤ) (bs : List IndexedBlock)
    → finalize_blocks block (finalize_blocks block bs) ≡ finalize_blocks block bs
unfolding finalize_blocks
finalize_blocks-again block [] = refl
finalize_blocks-again block (b ∷ bs) = elim (Bool-cases (leb_ℤ b.block_number block)) [
  | inl h ↦ simp (h, finalize_blocks-again block bs)
  | inr h ↦ simp (h, finalize_blocks-again block bs)
]
