-- ===== src/Ingester.antt =====
-- internal/pipeline/ingester/ingester.go, with the types of internal/domain/event/normalized_batch.go:
-- the single writer that puts normalized batches into the database, rolls back a fork and promotes
-- what is finalized. A pointer that may be nil is an option; a time is nanoseconds; raw JSON is its
-- text. The files below follow the handler's phases.
use multichain_indexer.Prelude.{ℤ, Text, codes, Bool, Option, List}
pub mod Cursors
pub mod Forks
pub mod Items
pub mod Reversal
pub mod Inputs
pub mod Balanced
pub mod Reorg
pub mod Rollbacks
pub mod Promoted
pub mod Promotions
pub mod Retries
pub mod Delays
pub mod Amounts
pub mod Sums
pub mod Collect
pub mod Build
pub mod Trimmed
pub mod Conserved
pub mod Write
pub mod Commits

pub record NormalizedBalanceEvent : Type 0 where
  pub outer_instruction_index : ℤ
  pub inner_instruction_index : ℤ
  pub activity_type : Text
  pub event_action : Text
  pub program_id : Text
  pub contract_address : Text
  pub address : Text
  pub counterparty_address : Text
  pub delta : Text
  pub chain_data : Option Text
  pub token_symbol : Text
  pub token_name : Text
  pub token_decimals : ℤ
  pub token_type : Text
  pub event_id : Text
  pub block_hash : Text
  pub tx_index : ℤ
  pub event_path : Text
  pub event_path_type : Text
  pub actor_address : Text
  pub asset_type : Text
  pub asset_id : Text
  pub finality_state : Text
  pub decoder_version : Text
  pub schema_version : Text

pub record NormalizedTransaction : Type 0 where
  pub tx_hash : Text
  pub block_cursor : ℤ
  pub block_time : Option ℤ
  pub fee_amount : Text
  pub fee_payer : Text
  pub status : Text
  pub err : Option Text
  pub chain_data : Option Text
  pub block_hash : Text
  pub parent_hash : Text
  pub balance_events : List NormalizedBalanceEvent

-- The two times that only the metrics read are left out.
pub record NormalizedBatch : Type 0 where
  pub chain : Text
  pub network : Text
  pub address : Text
  pub wallet_id : Option Text
  pub org_id : Option Text
  pub previous_cursor_value : Option Text
  pub previous_cursor_sequence : ℤ
  pub transactions : List NormalizedTransaction
  pub new_cursor_value : Option Text
  pub new_cursor_sequence : ℤ
  pub block_scan_mode : Bool
  pub watched_addresses : List Text

-- model.ChainBTC and the other names that the ingester compares with
abbrev pub chain_btc : Text
chain_btc = codes "btc"

abbrev pub chain_solana : Text
chain_solana = codes "solana"

abbrev pub token_type_native : Text
token_type_native = codes "NATIVE"
