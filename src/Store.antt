-- ===== src/Store.antt =====
-- The tables that the ingester writes, of one chain and network, and the statements on them:
-- internal/store/postgres/balance_repo.go and indexer_config_repo.go. A column of type numeric is an
-- integer, which is scanned as its decimal text; a statement that fails returns `none`. What
-- PostgreSQL leaves open, which of several joined rows an UPDATE takes, is the parameter `pick`.
use multichain_indexer.Prelude.{
  ◌==◌, if◌then◌else◌, ◌>>=◌, ℤ, ◌+ℤ◌, ltb_ℤ, Text, eq_text, ℕ, Bool, true, false, ◌&&◌, ◌||◌,
  Option, none, some, List, [], ◌∷◌,
}
use multichain_indexer.Prelude.Decimal.{parse_big}
pub mod Sums
pub mod Adjust
pub mod Bulk

-- store.BalanceKey; a token's UUID is a number
pub record BalanceKey : Type 0 where
  pub address : Text
  pub token_id : ℕ
  pub balance_type : Text

unfoldable pub same_key : BalanceKey → BalanceKey → Bool
same_key a b =
    eq_text a.address b.address && a.token_id == b.token_id && eq_text a.balance_type b.balance_type

-- store.BulkAdjustItem
pub record BulkAdjustItem : Type 0 where
  pub key : BalanceKey
  pub wallet_id : Option Text
  pub org_id : Option Text
  pub delta : Text
  pub cursor : ℤ
  pub tx_hash : Text

pub record BalanceRow : Type 0 where
  pub key : BalanceKey
  pub wallet_id : Option Text
  pub organization_id : Option Text
  pub amount : ℤ
  pub last_updated_cursor : ℤ
  pub last_updated_tx_hash : Text

-- A row of the input of the statement, once `delta` is cast to numeric.
pub record InputRow : Type 0 where
  pub key : BalanceKey
  pub wallet_id : Option Text
  pub organization_id : Option Text
  pub delta : ℤ
  pub cursor : ℤ
  pub tx_hash : Text

unfoldable pub cast_one : BulkAdjustItem → Option ℤ → Option InputRow
cast_one i none = none
cast_one i (some d) = some (record {
  key = i.key;
  wallet_id = i.wallet_id;
  organization_id = i.org_id;
  delta = d;
  cursor = i.cursor;
  tx_hash = i.tx_hash;
})

unfoldable pub cast_all : List BulkAdjustItem → Option (List InputRow)
cast_all [] = some []
cast_all (i ∷ is) = do r ← cast_one i (parse_big i.delta); rs ← cast_all is; some (r ∷ rs)

unfoldable pub max_ℤ : ℤ → ℤ → ℤ
max_ℤ a b = if ltb_ℤ a b then b else a

unfoldable pub joined : BalanceKey → List InputRow → List InputRow
joined k [] = []
joined k (i ∷ is) = let rest = joined k is in if same_key k i.key then i ∷ rest else rest

unfoldable pub has_row : BalanceKey → List BalanceRow → Bool
has_row k [] = false
has_row k (b ∷ bs) = same_key k b.key || has_row k bs

unfoldable pub insert_row : InputRow → BalanceRow
insert_row i = record {
  key = i.key;
  wallet_id = i.wallet_id;
  organization_id = i.organization_id;
  amount = i.delta;
  last_updated_cursor = i.cursor;
  last_updated_tx_hash = i.tx_hash;
}

-- The rows to insert, each checked against the unique key of what is there; `none` is a violation.
unfoldable pub insert_rows : List InputRow → List BalanceRow → Option (List BalanceRow)
insert_rows [] rows = some rows
insert_rows (i ∷ is) rows = elim (has_row i.key rows) [
  | true ↦ none
  | false ↦ insert_rows is (insert_row i ∷ rows)
]

unfoldable pub without_row : List BalanceRow → List InputRow → List InputRow
without_row rows [] = []
without_row rows (i ∷ is) =
    let rest = without_row rows is in if has_row i.key rows then rest else i ∷ rest

module _ (pick : InputRow → List InputRow → InputRow) where
  unfoldable pub update_by : BalanceRow → List InputRow → BalanceRow
  update_by b [] = b
  update_by b (i ∷ is) =
      let chosen = pick i is in
      record b {
        amount = b.amount +ℤ chosen.delta;
        last_updated_cursor = max_ℤ b.last_updated_cursor chosen.cursor;
        last_updated_tx_hash = chosen.tx_hash;
      }

  unfoldable pub update_rows : List InputRow → List BalanceRow → List BalanceRow
  unfolding update_by
  update_rows input [] = []
  update_rows input (b ∷ bs) = update_by b (joined b.key input) ∷ update_rows input bs

  unfoldable pub adjust_cast : List BalanceRow → Option (List InputRow) → Option (List BalanceRow)
  adjust_cast rows none = none
  adjust_cast rows (some input) = insert_rows (without_row rows input) (update_rows input rows)

  -- BalanceRepo.BulkAdjustBalanceTx
  unfoldable pub bulk_adjust_balance :
      List BulkAdjustItem → List BalanceRow → Option (List BalanceRow)
  bulk_adjust_balance items rows = adjust_cast rows (cast_all items)

-- WatermarkRepo.UpdateWatermarkTx and RewindWatermarkTx, on the row's sequence, if there is a row
unfoldable pub update_watermark : Option ℤ → ℤ → Option ℤ
update_watermark none sequence = some sequence
update_watermark (some old) sequence = some (max_ℤ old sequence)

unfoldable pub rewind_watermark : Option ℤ → ℤ → Option ℤ
rewind_watermark row sequence = some sequence

-- A row of balance_events: the columns that the statements of the ingester read or write.
pub record EventRow : Type 0 where
  pub token_id : ℕ
  pub address : Text
  pub watched_address : Text
  pub delta : ℤ
  pub block_cursor : ℤ
  pub tx_hash : Text
  pub wallet_id : Option Text
  pub organization_id : Option Text
  pub activity_type : Text
  pub balance_applied : Bool
  pub finality_state : Text
