-- ===== src/Ingester/Collect.antt =====
-- internal/pipeline/ingester/ingester.go: collectEvents, the first phase of a batch. A map from a
-- hash or a contract to a model is a search of the list of models, which is in order of arrival.
use multichain_indexer.Prelude.{
  if◌then◌else◌, ℤ, pos, leb_ℤ, Text, codes, eq_text, trim_space, Bool, true, false, ◌&&◌, ◌||◌,
  not, Option, none, some, List, [], ◌∷◌, ◌++◌,
}
use multichain_indexer.Prelude.Decimal.{parse_big}
use multichain_indexer.Identity.{has_prefix, canonical_signature_identity}
use multichain_indexer.Ingester.{
  NormalizedBalanceEvent, NormalizedTransaction, NormalizedBatch, token_type_native,
}
use multichain_indexer.Ingester.Amounts.{
  native_token_contract, native_token_symbol, native_token_name, native_token_decimals, or_text,
  default_token_symbol, default_token_name,
}

pub record EventContext : Type 0 where
  pub ntx : NormalizedTransaction
  pub be : NormalizedBalanceEvent
  pub canonical_tx_hash : Text

-- model.Transaction and model.Token, less the chain and the network, which are the batch's
pub record TransactionModel : Type 0 where
  pub tx_hash : Text
  pub block_cursor : ℤ
  pub block_time : Option ℤ
  pub fee_amount : Text
  pub fee_payer : Text
  pub status : Text
  pub err : Option Text
  pub chain_data : Text
  pub block_hash : Text
  pub parent_hash : Text

pub record TokenModel : Type 0 where
  pub contract_address : Text
  pub symbol : Text
  pub name : Text
  pub decimals : ℤ
  pub token_type : Text

-- The outputs of the phase
pub record Collected : Type 0 where
  pub tx_models : List TransactionModel
  pub token_models : List TokenModel
  pub contracts_to_check : List Text
  pub all_events : List EventContext

abbrev pub empty_json_object : Text
empty_json_object = codes "{}"

unfoldable pub or_empty_object : Option Text → Text
or_empty_object none = empty_json_object
or_empty_object (some raw) = raw

unfoldable pub has_tx : Text → List TransactionModel → Bool
has_tx hash [] = false
has_tx hash (m ∷ ms) = eq_text hash m.tx_hash || has_tx hash ms

unfoldable pub has_token : Text → List TokenModel → Bool
has_token contract [] = false
has_token contract (m ∷ ms) = eq_text contract m.contract_address || has_token contract ms

unfoldable pub has_text : Text → List Text → Bool
has_text t [] = false
has_text t (s ∷ ss) = eq_text t s || has_text t ss

unfoldable pub add_token : TokenModel → Collected → Collected
add_token m c =
    if has_token m.contract_address c.token_models
    then c
    else record c { token_models = c.token_models ++ m ∷ [] }

unfoldable pub add_contract : Text → Collected → Collected
add_contract contract c =
    if has_text contract c.contracts_to_check
    then c
    else record c { contracts_to_check = c.contracts_to_check ++ contract ∷ [] }

unfoldable pub add_event :
    NormalizedTransaction → Text → NormalizedBalanceEvent → Collected → Collected
add_event ntx hash be c = record c {
  all_events = c.all_events ++ record { ntx = ntx; be = be; canonical_tx_hash = hash } ∷ [];
}

unfoldable pub transaction_model : NormalizedTransaction → Text → TransactionModel
transaction_model ntx hash = record {
  tx_hash = hash;
  block_cursor = ntx.block_cursor;
  block_time = ntx.block_time;
  fee_amount = ntx.fee_amount;
  fee_payer = ntx.fee_payer;
  status = ntx.status;
  err = ntx.err;
  chain_data = or_empty_object ntx.chain_data;
  block_hash = ntx.block_hash;
  parent_hash = ntx.parent_hash;
}

unfoldable pub token_model : NormalizedBalanceEvent → TokenModel
token_model be = record {
  contract_address = be.contract_address;
  symbol = default_token_symbol be;
  name = default_token_name be;
  decimals = be.token_decimals;
  token_type = be.token_type;
}

unfoldable pub native_token_model : Text → TokenModel
native_token_model chain = record {
  contract_address = native_token_contract chain;
  symbol = native_token_symbol chain;
  name = native_token_name chain;
  decimals = native_token_decimals chain;
  token_type = token_type_native;
}

unfoldable pub collect_balance_events :
    NormalizedTransaction → Text → List NormalizedBalanceEvent → Collected → Collected
collect_balance_events ntx hash [] c = c
collect_balance_events ntx hash (be ∷ bes) c =
    collect_balance_events ntx hash bes
      (add_event ntx hash be (add_contract be.contract_address (add_token (token_model be) c)))

unfoldable pub no_events : List NormalizedBalanceEvent → Bool
no_events [] = true
no_events (be ∷ bes) = false

-- A failed transaction with no events that has a fee and a payer
unfoldable pub pays_fee_only : NormalizedTransaction → Bool
pays_fee_only ntx =
    eq_text ntx.status (codes "FAILED")
    && no_events ntx.balance_events
    && not (eq_text ntx.fee_amount [])
    && not (eq_text ntx.fee_amount (codes "0"))
    && not (eq_text ntx.fee_payer [])

unfoldable pub is_fee : Option ℤ → Bool
is_fee none = false
is_fee (some fee) = leb_ℤ (pos 0) fee

unfoldable pub negative_fee : Text → Text
negative_fee fee_amount =
    if has_prefix fee_amount (codes "-") then fee_amount else codes "-" ++ fee_amount

unfoldable pub build_fee_only_event : Text → NormalizedTransaction → NormalizedBalanceEvent
build_fee_only_event chain ntx = record {
  outer_instruction_index = pos 0;
  inner_instruction_index = pos 0;
  activity_type = codes "FEE";
  event_action = codes "fee_only_failed_tx";
  program_id = [];
  contract_address = native_token_contract chain;
  address = ntx.fee_payer;
  counterparty_address = [];
  delta = negative_fee ntx.fee_amount;
  chain_data = some empty_json_object;
  token_symbol = native_token_symbol chain;
  token_name = native_token_name chain;
  token_decimals = native_token_decimals chain;
  token_type = token_type_native;
  event_id = codes "fee:" ++ chain ++ codes ":" ++ ntx.tx_hash;
  block_hash = ntx.block_hash;
  tx_index = pos 0;
  event_path = codes "fee_only";
  event_path_type = codes "synthetic";
  actor_address = [];
  asset_type = [];
  asset_id = [];
  finality_state = [];
  decoder_version = [];
  schema_version = [];
}

unfoldable pub collect_fee : Text → NormalizedTransaction → Text → Collected → Collected
collect_fee chain ntx hash c =
    if pays_fee_only ntx && is_fee (parse_big (trim_space ntx.fee_amount))
    then add_event ntx hash (build_fee_only_event chain ntx)
        (add_contract (native_token_contract chain) (add_token (native_token_model chain) c))
    else c

unfoldable pub add_transaction : NormalizedTransaction → Text → Collected → Collected
add_transaction ntx hash c =
    if has_tx hash c.tx_models
    then c
    else record c { tx_models = c.tx_models ++ transaction_model ntx hash ∷ [] }

unfoldable pub canonical_tx_hash_of : Text → Text → Text
canonical_tx_hash_of chain hash = or_text (canonical_signature_identity chain hash) hash

unfoldable pub collect_transactions : Text → List NormalizedTransaction → Collected → Collected
collect_transactions chain [] c = c
collect_transactions chain (ntx ∷ ntxs) c =
    let hash = canonical_tx_hash_of chain ntx.tx_hash in
    collect_transactions chain ntxs (
      collect_fee chain ntx hash
        (collect_balance_events ntx hash ntx.balance_events (add_transaction ntx hash c)))

unfoldable pub collect_events : NormalizedBatch → Collected
collect_events b =
    collect_transactions b.chain b.transactions
      (record { tx_models = []; token_models = []; contracts_to_check = []; all_events = [] })
