-- ===== src/Ingester/Reversal.antt =====
-- internal/pipeline/ingester/ingester.go: the ways to take events out again and to let finalized
-- ones in. A handler runs in a database transaction: where a statement fails, its tables are those
-- before. Which statement fails is a record of flags, and how the commit ends is beside them. The
-- handler of reorgs, which may hand over to the replay service, is in Reorg.
use multichain_indexer.Prelude.{
  if◌then◌else◌, ◌>>=◌, ◌>>◌, ℤ, pos, ltb_ℤ, leb_ℤ, sub64, Text, codes, Bool, true, false, ◌||◌,
  not, Option, none, some, List, [], ◌∷◌,
}
use multichain_indexer.Store.{
  BulkAdjustItem, BalanceRow, InputRow, bulk_adjust_balance, rewind_watermark, EventRow,
}
use multichain_indexer.Ingester.{NormalizedBatch}
use multichain_indexer.Ingester.Items.{
  select_events, reorg_rolls_back, address_rolls_back, build_reversal_adjust_items,
  build_promotion_adjust_items, finalize_events, newly_applied, apply_events,
}
use multichain_indexer.Ingester.Cursors.{rollback_fork_cursor_sequence}

pub record TransactionRow : Type 0 where
  pub tx_hash : Text
  pub block_cursor : ℤ

pub record IndexedBlock : Type 0 where
  pub block_number : ℤ
  pub block_hash : Text
  pub parent_hash : Text
  pub finality_state : Text

-- The rows of one chain and network.
pub record Tables : Type 0 where
  pub events : List EventRow
  pub balances : List BalanceRow
  pub transactions : List TransactionRow
  pub blocks : List IndexedBlock
  pub watermark : Option ℤ

-- How a commit ends. The handler sees an error whether or not the commit took place.
pub data CommitOutcome : Type 0 where
  acknowledged failed_committed failed_rolled_back : CommitOutcome

-- Whether each statement of a handler goes through. The replay service adjusts the staked balances
-- in a statement of its own.
pub record Works : Type 0 where
  pub begin : Bool
  pub query : Bool
  pub adjust : Bool
  pub adjust_staked : Bool
  pub delete_events : Bool
  pub delete_transactions : Bool
  pub blocks : Bool
  pub watermark : Bool
  pub commit : CommitOutcome

unfoldable pub rewind_to : ℤ → ℤ
rewind_to fork =
    let rewind_sequence = sub64 fork (pos 1) in
    if ltb_ℤ rewind_sequence (pos 0) then pos 0 else rewind_sequence

unfoldable pub keep_transactions : ℤ → List TransactionRow → List TransactionRow
keep_transactions fork_block [] = []
keep_transactions fork_block (t ∷ ts) =
    let rest = keep_transactions fork_block ts in
    if leb_ℤ fork_block t.block_cursor then rest else t ∷ rest

-- IndexedBlockRepo.DeleteFromBlockTx and UpdateFinalityTx
unfoldable pub keep_blocks : ℤ → List IndexedBlock → List IndexedBlock
keep_blocks from_block [] = []
keep_blocks from_block (b ∷ bs) =
    let rest = keep_blocks from_block bs in
    if leb_ℤ from_block b.block_number then rest else b ∷ rest

unfoldable pub finalize_blocks : ℤ → List IndexedBlock → List IndexedBlock
finalize_blocks up_to_block [] = []
finalize_blocks up_to_block (b ∷ bs) =
    (if leb_ℤ b.block_number up_to_block
      then record b { finality_state = codes "finalized" }
      else b)
    ∷ finalize_blocks up_to_block bs

unfoldable pub guard : Bool → Option (Unit {0})
guard true = some tt
guard false = none

-- The events of a drift: of the whole chain for a block scan, else of the batch's address.
unfoldable pub drift_rolls_back : NormalizedBatch → EventRow → Bool
drift_rolls_back b =
    let fork_cursor = rollback_fork_cursor_sequence b in
    if b.block_scan_mode
    then reorg_rolls_back fork_cursor
    else address_rolls_back b.address fork_cursor

-- The tables after a handler, and whether it returned without an error.
unfoldable pub settle : Option Tables → CommitOutcome → Tables → Tables × Bool
settle none outcome before = (before, false)
settle (some after) acknowledged before = (after, true)
settle (some after) failed_committed before = (after, false)
settle (some after) failed_rolled_back before = (before, false)

module _ (pick : InputRow → List InputRow → InputRow) where
  -- BulkAdjustBalanceTx sends nothing where there are no items.
  unfoldable pub adjust_balances :
      Bool → List BulkAdjustItem → List BalanceRow → Option (List BalanceRow)
  adjust_balances works [] balances = some balances
  adjust_balances works (i ∷ is) balances = do
    guard works
    bulk_adjust_balance pick (i ∷ is) balances

  -- The statements of handleReorg and of the drift handler up to the deletion of the events.
  unfoldable pub revert_events : (EventRow → Bool) → Works → Tables → Option Tables
  revert_events rolls_back w t = do
    guard w.query
    items ← build_reversal_adjust_items (select_events rolls_back t.events)
    balances ← adjust_balances w.adjust items t.balances
    guard w.delete_events
    some (record t {
      balances = balances;
      events = select_events (λ e. not (rolls_back e)) t.events;
    })

  unfoldable pub rewind : Bool → ℤ → Tables → Option Tables
  rewind works fork t = do
    guard works
    some (record t { watermark = rewind_watermark t.watermark (rewind_to fork) })

  -- Ingester.handleReorg without a replay service, up to the commit
  unfoldable pub reorg_steps : Bool → Works → ℤ → Tables → Option Tables
  reorg_steps has_block_repo w fork_block t = do
    guard w.begin
    reverted ← revert_events (reorg_rolls_back fork_block) w t
    guard w.delete_transactions
    guard (not has_block_repo || w.blocks)
    rewind w.watermark fork_block (record reverted {
      transactions = keep_transactions fork_block t.transactions;
      blocks = if has_block_repo then keep_blocks fork_block t.blocks else t.blocks;
    })

  -- Ingester.rollbackCanonicalityDrift, in the caller's transaction
  unfoldable pub rollback_canonicality_drift : Works → NormalizedBatch → Tables → Option Tables
  rollback_canonicality_drift w b t = do
    reverted ← revert_events (drift_rolls_back b) w t
    rewind w.watermark (rollback_fork_cursor_sequence b) reverted

  -- Ingester.handleFinalityPromotion up to the commit
  unfoldable pub promotion_steps : Bool → Works → ℤ → Tables → Option Tables
  promotion_steps has_block_repo w new_finalized_block t = do
    guard w.begin
    guard (not has_block_repo || w.blocks)
    guard w.query
    items ← build_promotion_adjust_items (
        select_events (newly_applied new_finalized_block)
          (finalize_events new_finalized_block t.events))
    balances ← adjust_balances w.adjust items t.balances
    some (record t {
      events = apply_events new_finalized_block (finalize_events new_finalized_block t.events);
      balances = balances;
      blocks = if has_block_repo then finalize_blocks new_finalized_block t.blocks else t.blocks;
    })

  unfoldable pub handle_finality_promotion : Bool → Works → ℤ → Tables → Tables × Bool
  handle_finality_promotion has_block_repo w new_finalized_block t =
      settle (promotion_steps has_block_repo w new_finalized_block t) w.commit t
