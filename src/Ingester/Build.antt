-- ===== src/Ingester/Build.antt =====
-- internal/pipeline/ingester/ingester.go: buildEventModels, the third phase of a batch: balances as
-- they were before the batch go through the events in order. What the second phase has fetched is
-- a record; a map is a list of pairs, searched by key.
use multichain_indexer.Prelude.{
  if◌then◌else◌, ◌>>=◌, ℤ, ◌+ℤ◌, ltb_ℤ, Text, codes, eq_text, trim_space, ℕ, Bool, true, false,
  ◌&&◌, Option, none, some, List, [], ◌∷◌, ◌++◌,
}
use multichain_indexer.Prelude.Decimal.{parse_big}
use multichain_indexer.Identity.{negate_decimal_string, is_staking_activity}
use multichain_indexer.Store.{BalanceKey, same_key}
use multichain_indexer.Ingester.{NormalizedBalanceEvent, NormalizedBatch}
use multichain_indexer.Ingester.Amounts.{
  add_decimal_strings, meets_balance_threshold, detect_scam_signal,
}
use multichain_indexer.Ingester.Collect.{EventContext, or_empty_object, has_text}

-- `lookup` is the address index, or else the map of watched addresses, of a block scan: the wallet
-- and the organization of an address. `deny_works` says whether DenyTokenTx goes through.
pub record Prefetched : Type 0 where
  pub batch : NormalizedBatch
  pub tx_ids : Text → Option ℕ
  pub token_ids : Text → Option ℕ
  pub lookup : Text → Option (Option Text × Option Text)
  pub json_signal : Text → Text
  pub deny_works : Bool

pub record BalanceAccum : Type 0 where
  pub amount : Text
  pub exists : Bool

pub record AdjustmentKey : Type 0 where
  pub key : BalanceKey
  pub wallet_id : Text
  pub org_id : Text

pub record AdjustmentAccum : Type 0 where
  pub delta : ℤ
  pub cursor : ℤ
  pub tx_hash : Text

-- model.BalanceEvent; the fields that are copied from the normalized event are its field `event`.
pub record EventModel : Type 0 where
  pub transaction_id : ℕ
  pub tx_hash : Text
  pub token_id : ℕ
  pub event : NormalizedBalanceEvent
  pub chain_data : Text
  pub watched_address : Text
  pub wallet_id : Option Text
  pub organization_id : Option Text
  pub block_cursor : ℤ
  pub block_time : Option ℤ
  pub balance_applied : Bool
  pub balance_before : Option Text
  pub balance_after : Option Text

pub record Building : Type 0 where
  pub balances : List (BalanceKey × BalanceAccum)
  pub denied : List Text
  pub event_models : List EventModel
  pub aggregated_deltas : List (AdjustmentKey × AdjustmentAccum)

unfoldable pub deref_str : Option Text → Text
deref_str none = []
deref_str (some s) = s

unfoldable pub find_balance : BalanceKey → List (BalanceKey × BalanceAccum) → BalanceAccum
find_balance k [] = record { amount = codes "0"; exists = false }
find_balance k ((own, a) ∷ bs) = let rest = find_balance k bs in if same_key k own then a else rest

unfoldable pub set_balance :
    BalanceKey → BalanceAccum → List (BalanceKey × BalanceAccum) → List (BalanceKey × BalanceAccum)
set_balance k new_accum [] = (k, new_accum) ∷ []
set_balance k new_accum ((own, a) ∷ bs) =
    let rest = set_balance k new_accum bs in
    if same_key k own then (own, new_accum) ∷ bs else (own, a) ∷ rest

unfoldable pub same_adjustment : AdjustmentKey → AdjustmentKey → Bool
same_adjustment a b =
    same_key a.key b.key && eq_text a.wallet_id b.wallet_id && eq_text a.org_id b.org_id

-- existing.delta.Add, with the later cursor and its hash
unfoldable pub merge_accum : AdjustmentAccum → AdjustmentAccum → AdjustmentAccum
merge_accum existing a = record {
  delta = existing.delta +ℤ a.delta;
  cursor = if ltb_ℤ existing.cursor a.cursor then a.cursor else existing.cursor;
  tx_hash = if ltb_ℤ existing.cursor a.cursor then a.tx_hash else existing.tx_hash;
}

unfoldable pub add_delta :
    AdjustmentKey
    → AdjustmentAccum
    → List (AdjustmentKey × AdjustmentAccum)
    → List (AdjustmentKey × AdjustmentAccum)
add_delta k a [] = (k, a) ∷ []
add_delta k a ((own, existing) ∷ ds) =
    let rest = add_delta k a ds in
    if same_adjustment k own then (own, merge_accum existing a) ∷ ds else (own, existing) ∷ rest

-- Whose event it is: in a block scan the first of the address and its counterparty that is watched
unfoldable pub candidate_of :
    Text → Option (Option Text × Option Text) → Option (Text × Option Text × Option Text)
candidate_of [] found = none
candidate_of (c ∷ s) none = none
candidate_of (c ∷ s) (some (wallet, org)) = some (c ∷ s, wallet, org)

unfoldable pub first_candidate :
    Option (Text × Option Text × Option Text)
    → Option (Text × Option Text × Option Text)
    → Text
    → Text × Option Text × Option Text
    → Text × Option Text × Option Text
first_candidate (some o) second address owner = o
first_candidate none (some o) address owner = o
first_candidate none none address (watched, wallet, org) = (address, wallet, org)

unfoldable pub owner_of : Prefetched → NormalizedBalanceEvent → Text × Option Text × Option Text
owner_of p be =
    let batch_owner : Text × Option Text × Option Text =
      (p.batch.address, p.batch.wallet_id, p.batch.org_id) in
    if p.batch.block_scan_mode
    then first_candidate (candidate_of be.address (p.lookup be.address))
        (candidate_of be.counterparty_address (p.lookup be.counterparty_address)) be.address
        batch_owner
    else batch_owner

unfoldable pub event_model : Prefetched → EventContext → ℕ → ℕ → Text → Text → EventModel
event_model p ec token_id tx_id before after =
    let owner = owner_of p ec.be in
    let applied =
      meets_balance_threshold p.batch.chain ec.be.finality_state ec.be.token_type ec.be.delta in
    record {
      transaction_id = tx_id;
      tx_hash = ec.canonical_tx_hash;
      token_id = token_id;
      event = ec.be;
      chain_data = or_empty_object ec.be.chain_data;
      watched_address = owner.0;
      wallet_id = owner.1;
      organization_id = owner.2;
      block_cursor = ec.ntx.block_cursor;
      block_time = ec.ntx.block_time;
      balance_applied = applied;
      balance_before = if applied then some before else none;
      balance_after = if applied then some after else none;
    }

unfoldable pub adjustment_key : EventModel → Text → AdjustmentKey
adjustment_key m balance_type = record {
  key = record { address = m.event.address; token_id = m.token_id; balance_type = balance_type };
  wallet_id = deref_str m.wallet_id;
  org_id = deref_str m.organization_id;
}

unfoldable pub accum_of : EventModel → ℤ → AdjustmentAccum
accum_of m d = record { delta = d; cursor = m.block_cursor; tx_hash = m.tx_hash }

unfoldable pub adjusted : EventModel → Text → ℤ → Building → Building
adjusted m balance_type d s = record s {
  aggregated_deltas = add_delta (adjustment_key m balance_type) (accum_of m d) s.aggregated_deltas;
}

unfoldable pub with_stake : EventModel → Building → Option Building
with_stake m s = do
  inverted_delta ← negate_decimal_string m.event.delta
  stake_delta ← parse_big (trim_space inverted_delta)
  some (adjusted m (codes "staked") stake_delta s)

unfoldable pub with_model : EventModel → Building → Building
with_model m s = record s { event_models = s.event_models ++ m ∷ [] }

unfoldable pub with_balance : EventModel → Text → Building → Building
with_balance m after s = record s {
  balances =
      set_balance (adjustment_key m []).key (record { amount = after; exists = true }) s.balances;
}

unfoldable pub apply_model : EventModel → Text → Building → Option Building
apply_model m after s = do
  delta ← parse_big (trim_space m.event.delta)
  let t = adjusted m [] delta (with_balance m after (with_model m s))
  if is_staking_activity m.event.activity_type then with_stake m t else some t

unfoldable pub add_model : EventModel → Text → Building → Option Building
add_model m after s = if m.balance_applied then apply_model m after s else some (with_model m s)

-- After the test for a scam: the event is counted, or its token is denied and it is left out.
unfoldable pub judged : Prefetched → EventContext → ℕ → ℕ → Text → Text → Building → Option Building
judged p ec token_id tx_id before [] s = do
  after ← add_decimal_strings before ec.be.delta
  add_model (event_model p ec token_id tx_id before after) after s
judged p ec token_id tx_id before (c ∷ signal) s =
    if p.deny_works then some (record s { denied = ec.be.contract_address ∷ s.denied }) else none

unfoldable pub identified :
    Prefetched → EventContext → Option ℕ → Option ℕ → Building → Option Building
identified p ec none tx_id s = some s
identified p ec (some token_id) none s = some s
identified p ec (some token_id) (some tx_id) s =
    let before =
      find_balance (record { address = ec.be.address; token_id = token_id; balance_type = [] })
        s.balances in
    if has_text ec.be.contract_address s.denied
    then some s
    else judged p ec token_id tx_id before.amount
        (detect_scam_signal p.json_signal p.batch.chain ec.be before.exists) s

unfoldable pub build_event : Prefetched → EventContext → Building → Option Building
build_event p ec s =
    identified p ec (p.token_ids ec.be.contract_address) (p.tx_ids ec.canonical_tx_hash) s

unfoldable pub build_event_models : Prefetched → List EventContext → Building → Option Building
build_event_models p [] s = some s
build_event_models p (ec ∷ ecs) s = do t ← build_event p ec s; build_event_models p ecs t
