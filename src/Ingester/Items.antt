-- ===== src/Ingester/Items.antt =====
-- internal/pipeline/ingester/ingester.go: which events a rollback or a promotion is about, and the
-- adjustments of balances that it sends for them.
use multichain_indexer.Prelude.{
  if◌then◌else◌, ◌>>=◌, ℤ, leb_ℤ, Text, codes, eq_text, Bool, true, ◌&&◌, not, Option, none, some,
  List, [], ◌∷◌,
}
use multichain_indexer.Prelude.Decimal.{print_big}
use multichain_indexer.Identity.{negate_decimal_string, is_staking_activity}
use multichain_indexer.Store.{BulkAdjustItem, EventRow}

-- The SELECT of fetchReorgRollbackEvents and fetchRollbackEvents, less the order. A delta is scanned
-- as the text of its number.
unfoldable pub select_events : (EventRow → Bool) → List EventRow → List EventRow
select_events test [] = []
select_events test (e ∷ es) = let rest = select_events test es in if test e then e ∷ rest else rest

unfoldable pub reorg_rolls_back : ℤ → EventRow → Bool
reorg_rolls_back fork_block e = leb_ℤ fork_block e.block_cursor

unfoldable pub address_rolls_back : Text → ℤ → EventRow → Bool
address_rolls_back address fork_cursor e =
    eq_text e.watched_address address && leb_ℤ fork_cursor e.block_cursor

unfoldable pub adjust_item : EventRow → Text → Text → BulkAdjustItem
adjust_item e balance_type delta = record {
  key = record { address = e.address; token_id = e.token_id; balance_type = balance_type };
  wallet_id = e.wallet_id;
  org_id = e.organization_id;
  delta = delta;
  cursor = e.block_cursor;
  tx_hash = e.tx_hash;
}

unfoldable pub reversal_of : EventRow → Text → List BulkAdjustItem → List BulkAdjustItem
reversal_of e inverted_delta rest =
    adjust_item e [] inverted_delta
    ∷ (if is_staking_activity e.activity_type
        then adjust_item e (codes "staked") (print_big e.delta) ∷ rest
        else rest)

unfoldable pub build_reversal_adjust_items : List EventRow → Option (List BulkAdjustItem)
build_reversal_adjust_items [] = some []
build_reversal_adjust_items (e ∷ es) =
    let rest = build_reversal_adjust_items es in
    if not e.balance_applied then rest else do
      inverted_delta ← negate_decimal_string (print_big e.delta)
      items ← rest
      some (reversal_of e inverted_delta items)

unfoldable pub promotion_of :
    EventRow → Option Text → List BulkAdjustItem → Option (List BulkAdjustItem)
promotion_of e none rest = none
promotion_of e (some inverted_delta) rest =
    some
      (adjust_item e [] (print_big e.delta) ∷ adjust_item e (codes "staked") inverted_delta ∷ rest)

unfoldable pub build_promotion_adjust_items : List EventRow → Option (List BulkAdjustItem)
build_promotion_adjust_items [] = some []
build_promotion_adjust_items (e ∷ es) = do
  items ← build_promotion_adjust_items es
  if is_staking_activity e.activity_type
      then promotion_of e (negate_decimal_string (print_big e.delta)) items
      else some (adjust_item e [] (print_big e.delta) ∷ items)

-- The statements of promoteBalanceEvents: the first marks events finalized, the second marks the
-- finalized ones applied and returns those that it has marked.
unfoldable pub finalizes : ℤ → EventRow → Bool
finalizes up_to_block e =
    leb_ℤ e.block_cursor up_to_block
    && not (eq_text e.finality_state (codes "finalized"))
    && not (eq_text e.finality_state [])

unfoldable pub finalize_events : ℤ → List EventRow → List EventRow
finalize_events up_to_block [] = []
finalize_events up_to_block (e ∷ es) =
    (if finalizes up_to_block e then record e { finality_state = codes "finalized" } else e)
    ∷ finalize_events up_to_block es

unfoldable pub newly_applied : ℤ → EventRow → Bool
newly_applied up_to_block e =
    leb_ℤ e.block_cursor up_to_block
    && not e.balance_applied
    && eq_text e.finality_state (codes "finalized")

unfoldable pub apply_events : ℤ → List EventRow → List EventRow
apply_events up_to_block [] = []
apply_events up_to_block (e ∷ es) =
    (if newly_applied up_to_block e then record e { balance_applied = true } else e)
    ∷ apply_events up_to_block es
