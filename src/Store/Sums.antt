-- ===== src/Store/Sums.antt =====
-- What the tables amount to: for a key, the sum of the balances and the sum of the events that were
-- applied to them. This is the abstract view that rollbacks and promotions are judged by.
use multichain_indexer.Prelude.{
  if◌then◌else◌, ℤ, pos, ◌+ℤ◌, codes, ◌≡◌, Bool, false, ◌||◌, List, [], ◌∷◌,
}
use multichain_indexer.Prelude.Decimal.{negate}
use multichain_indexer.Identity.{is_staking_activity}
use multichain_indexer.Store.{BalanceKey, same_key, BalanceRow, InputRow, has_row, EventRow}

-- `a` where the keys agree, and nothing elsewhere
unfoldable pub at_key : BalanceKey → BalanceKey → ℤ → ℤ
at_key k own a = if same_key k own then a else pos 0

unfoldable pub amount_at : BalanceKey → List BalanceRow → ℤ
amount_at k [] = pos 0
amount_at k (b ∷ bs) = at_key k b.key b.amount +ℤ amount_at k bs

unfoldable pub delta_at : BalanceKey → List InputRow → ℤ
delta_at k [] = pos 0
delta_at k (i ∷ is) = at_key k i.key i.delta +ℤ delta_at k is

abbrev pub liquid_key : EventRow → BalanceKey
liquid_key e = record { address = e.address; token_id = e.token_id; balance_type = [] }

abbrev pub staked_key : EventRow → BalanceKey
staked_key e = record { address = e.address; token_id = e.token_id; balance_type = codes "staked" }

-- An event moves its delta into the balance of its address and token; staking moves the same out of
-- the staked balance beside it.
unfoldable pub event_at : BalanceKey → EventRow → ℤ
event_at k e =
    at_key k (liquid_key e) e.delta
    +ℤ (if is_staking_activity e.activity_type
        then at_key k (staked_key e) (negate e.delta)
        else pos 0)

unfoldable pub applied_at : BalanceKey → List EventRow → ℤ
applied_at k [] = pos 0
applied_at k (e ∷ es) = (if e.balance_applied then event_at k e else pos 0) +ℤ applied_at k es

-- No key twice.
unfoldable pub DistinctRows : List BalanceRow → Type 0
DistinctRows [] = Unit
DistinctRows (b ∷ bs) = (has_row b.key bs ≡ false) × DistinctRows bs

unfoldable pub has_input : BalanceKey → List InputRow → Bool
has_input k [] = false
has_input k (i ∷ is) = same_key k i.key || has_input k is

unfoldable pub DistinctInput : List InputRow → Type 0
DistinctInput [] = Unit
DistinctInput (i ∷ is) = (has_input i.key is ≡ false) × DistinctInput is
