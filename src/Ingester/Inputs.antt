-- ===== src/Ingester/Inputs.antt =====
-- internal/pipeline/ingester/ingester.go: the adjustments of a rollback as the database reads them,
-- and what they sum to.
use multichain_indexer.Prelude.{
  if◌then◌else◌, Bool-cases, ℤ, pos, pos_part, neg_part, ◌+ℤ◌, +ℤ_parts, Text, codes, ◌≡◌, refl,
  inl, inr, some, List, [], ◌∷◌, arith,
}
use multichain_indexer.Prelude.Decimal.{negate, parse_big, print_big, parse_big-print_big}
use multichain_indexer.Identity.{negate_parsed, negate_decimal_string, is_staking_activity}
use multichain_indexer.Store.{BalanceKey, BulkAdjustItem, InputRow, cast_one, cast_all, EventRow}
use multichain_indexer.Store.Sums.{at_key, delta_at, liquid_key, staked_key, event_at, applied_at}
use multichain_indexer.Store.Adjust.{+ℤ_zero, zero_+ℤ, +ℤ_swap}
use multichain_indexer.Ingester.Items.{adjust_item, reversal_of, build_reversal_adjust_items}

unfoldable pub input_row : EventRow → Text → ℤ → InputRow
input_row e balance_type delta = record {
  key = record { address = e.address; token_id = e.token_id; balance_type = balance_type };
  wallet_id = e.wallet_id;
  organization_id = e.organization_id;
  delta = delta;
  cursor = e.block_cursor;
  tx_hash = e.tx_hash;
}

-- What a rollback of events sends to the database.
unfoldable pub reversal_input : List EventRow → List InputRow
reversal_input [] = []
reversal_input (e ∷ es) =
    let rest = reversal_input es in
    if e.balance_applied
    then input_row e [] (negate e.delta)
      ∷ (if is_staking_activity e.activity_type
          then input_row e (codes "staked") e.delta ∷ rest
          else rest)
    else rest

pub negate_printed : (d : ℤ) → negate_decimal_string (print_big d) ≡ some (print_big (negate d))
unfolding negate_decimal_string negate_parsed
negate_printed d = simp (parse_big-print_big d)

cast-item :
    (e : EventRow) (balance_type : Text) (d : ℤ)
    → cast_one (adjust_item e balance_type (print_big d)) (parse_big (print_big d))
      ≡ some (input_row e balance_type d)
unfolding cast_one adjust_item input_row
cast-item e balance_type d = simp (parse_big-print_big d)

pub cast-cons :
    (e : EventRow) (balance_type : Text) (d : ℤ) (is : List BulkAdjustItem) (rs : List InputRow)
    → cast_all is ≡ some rs
    → cast_all (adjust_item e balance_type (print_big d) ∷ is)
      ≡ some (input_row e balance_type d ∷ rs)
unfolding cast_all adjust_item
cast-cons e balance_type d is rs h = simp (cast-item e balance_type d, h)

reversal-cast :
    (e : EventRow) (is : List BulkAdjustItem) (rs : List InputRow)
    → cast_all is ≡ some rs
    → cast_all (reversal_of e (print_big (negate e.delta)) is)
      ≡ some (
          input_row e [] (negate e.delta)
          ∷ (if is_staking_activity e.activity_type
              then input_row e (codes "staked") e.delta ∷ rs
              else rs))
unfolding reversal_of
reversal-cast e is rs h = elim (Bool-cases (is_staking_activity e.activity_type)) [
  | inl s ↦ simp (
    s,
    cast-cons e [] (negate e.delta) (adjust_item e (codes "staked") (print_big e.delta) ∷ is)
        (input_row e (codes "staked") e.delta ∷ rs) (cast-cons e (codes "staked") e.delta is rs h),
  )
  | inr s ↦ simp (s, cast-cons e [] (negate e.delta) is rs h)
]

pub build-reversal_input :
    (es : List EventRow)
    → (items : List BulkAdjustItem) × (build_reversal_adjust_items es ≡ some items)
      × (cast_all items ≡ some (reversal_input es))
unfolding build_reversal_adjust_items reversal_input cast_all
build-reversal_input [] = ([], refl, refl)
build-reversal_input (e ∷ es) =
    let (items, b, c) = build-reversal_input es in
    elim (Bool-cases e.balance_applied) [
      | inl a ↦ (
        reversal_of e (print_big (negate e.delta)) items,
        simp (a, negate_printed e.delta, b),
        simp (a, reversal-cast e items (reversal_input es) c),
      )
      | inr a ↦ (items, simp (a, b), simp (a, c))
    ]

at_key-negate : (k own : BalanceKey) (d : ℤ) → at_key k own (negate d) +ℤ at_key k own d ≡ pos 0
unfolding at_key ◌+ℤ◌
at_key-negate k own d = ground arith

at_key-negate_right :
    (k own : BalanceKey) (d : ℤ) → at_key k own d +ℤ at_key k own (negate d) ≡ pos 0
unfolding at_key ◌+ℤ◌
at_key-negate_right k own d = ground arith

zero_parts : (a : ℤ) → a ≡ pos 0 → pos_part a ≡ neg_part a
zero_parts a h = ground arith

of_zero_parts : (a : ℤ) → pos_part a ≡ neg_part a → a ≡ pos 0
of_zero_parts a h = ground arith

cancel_two :
    (a a' b b' c c' : ℤ)
    → a +ℤ a' ≡ pos 0
    → b +ℤ b' ≡ pos 0
    → c +ℤ c' ≡ pos 0
    → ((a +ℤ b) +ℤ c) +ℤ (a' +ℤ (b' +ℤ c')) ≡ pos 0
cancel_two a a' b b' c c' x y z = of_zero_parts _ (
    omega (
      arith,
      zero_parts (a +ℤ a') x,
      zero_parts (b +ℤ b') y,
      zero_parts (c +ℤ c') z,
      +ℤ_parts a a',
      +ℤ_parts b b',
      +ℤ_parts c c',
      +ℤ_parts a b,
      +ℤ_parts (a +ℤ b) c,
      +ℤ_parts b' c',
      +ℤ_parts a' (b' +ℤ c'),
      +ℤ_parts ((a +ℤ b) +ℤ c) (a' +ℤ (b' +ℤ c')),
    ))

cancel_one :
    (a a' c c' : ℤ) → a +ℤ a' ≡ pos 0 → c +ℤ c' ≡ pos 0 → ((a +ℤ pos 0) +ℤ c) +ℤ (a' +ℤ c') ≡ pos 0
cancel_one a a' c c' x z = simp (+ℤ_zero a, +ℤ_swap a c a' c', x, z, +ℤ_zero (pos 0))

-- The input of a rollback takes out of a key what the events have put there.
pub reversal_input-applied_at :
    (k : BalanceKey) (es : List EventRow)
    → applied_at k es +ℤ delta_at k (reversal_input es) ≡ pos 0
unfolding applied_at delta_at reversal_input event_at input_row
reversal_input-applied_at k [] = +ℤ_zero (pos 0)
reversal_input-applied_at k (e ∷ es) =
    let rest = reversal_input-applied_at k es in
    elim (Bool-cases e.balance_applied) [
      | inl a ↦ elim (Bool-cases (is_staking_activity e.activity_type)) [
        | inl s ↦
            simp (a, s)
              (cancel_two _ _ _ _ _ _ (at_key-negate_right k (liquid_key e) e.delta)
                (at_key-negate k (staked_key e) e.delta) rest)
        | inr s ↦
            simp (a, s) (cancel_one _ _ _ _ (at_key-negate_right k (liquid_key e) e.delta) rest)
      ]
      | inr a ↦ simp (a, zero_+ℤ (applied_at k es), rest)
    ]
