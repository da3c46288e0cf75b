-- ===== src/Replay/Inputs.antt =====
-- internal/pipeline/replay/service.go: the two adjustments of a purge as the database reads them, and
-- what they sum to: together, what the ingester's one adjustment sums to.
use multichain_indexer.Prelude.{
  if◌then◌else◌, Bool-cases, pos, ◌+ℤ◌, codes, ◌≡◌, refl, sym, ◌∙◌, inl, inr, Bool, true, false,
  ◌&&◌, ◌||◌, some, List, [], ◌∷◌, arith,
}
use multichain_indexer.Prelude.Decimal.{negate, print_big}
use multichain_indexer.Identity.{is_staking_activity}
use multichain_indexer.Store.{BalanceKey, BulkAdjustItem, InputRow, cast_all, EventRow}
use multichain_indexer.Store.Sums.{delta_at, liquid_key, staked_key, has_input, DistinctInput}
use multichain_indexer.Store.Adjust.{+ℤ_zero, +ℤ_swap}
use multichain_indexer.Ingester.Inputs.{input_row, reversal_input, negate_printed, cast-cons}
use multichain_indexer.Ingester.Items.{adjust_item}
use multichain_indexer.Ingester.Balanced.{to_left}
use multichain_indexer.Replay.{liquid_items, staked_items}

unfoldable pub liquid_input : List EventRow → List InputRow
liquid_input [] = []
liquid_input (e ∷ es) =
    let rest = liquid_input es in
    if e.balance_applied then input_row e [] (negate e.delta) ∷ rest else rest

unfoldable pub staked_input : List EventRow → List InputRow
staked_input [] = []
staked_input (e ∷ es) =
    let rest = staked_input es in
    if e.balance_applied && is_staking_activity e.activity_type
    then input_row e (codes "staked") e.delta ∷ rest
    else rest

pub liquid_items-input :
    (es : List EventRow)
    → (items : List BulkAdjustItem) × (liquid_items es ≡ some items)
      × (cast_all items ≡ some (liquid_input es))
unfolding liquid_items liquid_input cast_all
liquid_items-input [] = ([], refl, refl)
liquid_items-input (e ∷ es) =
    let (items, b, c) = liquid_items-input es in
    elim (Bool-cases e.balance_applied) [
      | inl a ↦ (
        adjust_item e [] (print_big (negate e.delta)) ∷ items,
        simp (a, negate_printed e.delta, b),
        simp (a, cast-cons e [] (negate e.delta) items (liquid_input es) c),
      )
      | inr a ↦ (items, simp (a, b), simp (a, c))
    ]

pub staked_items-input : (es : List EventRow) → cast_all (staked_items es) ≡ some (staked_input es)
unfolding staked_items staked_input cast_all
staked_items-input [] = refl
staked_items-input (e ∷ es) =
    let c = staked_items-input es in
    elim (Bool-cases (e.balance_applied && is_staking_activity e.activity_type)) [
      | inl a ↦ simp (a, cast-cons e (codes "staked") e.delta (staked_items es) (staked_input es) c)
      | inr a ↦ simp (a, c)
    ]

-- A key that the one adjustment has not, neither of the two has.
has_input-two :
    (k : BalanceKey) (es : List EventRow)
    → has_input k (reversal_input es) ≡ false
    → (has_input k (liquid_input es) ≡ false) × (has_input k (staked_input es) ≡ false)
unfolding has_input reversal_input liquid_input staked_input input_row
has_input-two k [] h = (refl, refl)
has_input-two k (e ∷ es) h = ground (arith, has_input-two k es)

or_false_right : (a b : Bool) → (a || b) ≡ false → b ≡ false
or_false_right false b h = h
or_false_right true b h = absurd cc

pub DistinctInput-two :
    (es : List EventRow)
    → DistinctInput (reversal_input es)
    → DistinctInput (liquid_input es) × DistinctInput (staked_input es)
unfolding DistinctInput reversal_input liquid_input staked_input input_row has_input
DistinctInput-two [] h = (tt, tt)
DistinctInput-two (e ∷ es) h = elim (Bool-cases e.balance_applied) [
  | inl a ↦ elim (Bool-cases (is_staking_activity e.activity_type)) [
    | inl s ↦
        let r : DistinctInput (
            input_row e [] (negate e.delta)
            ∷ input_row e (codes "staked") e.delta
            ∷ reversal_input es) =
          simp (a, s) at h in
        let (dl, ds) = DistinctInput-two es r.1.1 in
        simp (a, s)
          (
            ((has_input-two (liquid_key e) es (or_false_right _ _ r.0)).0, dl),
            ((has_input-two (staked_key e) es r.1.0).1, ds),
          )
    | inr s ↦
        let r : DistinctInput (input_row e [] (negate e.delta) ∷ reversal_input es) =
          simp (a, s) at h in
        let (dl, ds) = DistinctInput-two es r.1 in
        simp (a, s) (((has_input-two (liquid_key e) es r.0).0, dl), ds)
  ]
  | inr a ↦
      let r : DistinctInput (reversal_input es) = simp a at h in simp a (DistinctInput-two es r)
]

pub delta_at-two :
    (k : BalanceKey) (es : List EventRow)
    → delta_at k (liquid_input es) +ℤ delta_at k (staked_input es) ≡ delta_at k (reversal_input es)
unfolding delta_at reversal_input liquid_input staked_input input_row
delta_at-two k [] = +ℤ_zero (pos 0)
delta_at-two k (e ∷ es) =
    let rest = delta_at-two k es in
    elim (Bool-cases e.balance_applied) [
      | inl a ↦ elim (Bool-cases (is_staking_activity e.activity_type)) [
        | inl s ↦ simp (a, s, sym rest) (+ℤ_swap _ _ _ _ ∙ sym (to_left _ _ _))
        | inr s ↦ simp (a, s, sym rest) (sym (to_left _ _ _))
      ]
      | inr a ↦ simp (a, rest)
    ]
