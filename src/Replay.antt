-- ===== src/Replay.antt =====
-- internal/pipeline/replay/service.go: purging what was indexed from a block on, for the admin's
-- replay and for the ingester's reorgs, on the tables of the ingester. The pages in which the events
-- are read are one selection.
use multichain_indexer.Prelude.{
  if◌then◌else◌, ◌>>=◌, ◌>>◌, length, ℤ, eqb_ℤ, codes, eq_text, ℕ, ◌-◌, Bool, true, false, ◌&&◌,
  ◌||◌, not, Option, none, some, List, [], ◌∷◌,
}
use multichain_indexer.Prelude.Decimal.{print_big}
use multichain_indexer.Identity.{negate_decimal_string, is_staking_activity}
use multichain_indexer.Store.{BulkAdjustItem, BalanceRow, InputRow, rewind_watermark, EventRow}
use multichain_indexer.Ingester.Items.{select_events, reorg_rolls_back, adjust_item}
use multichain_indexer.Ingester.Reversal.{
  IndexedBlock, Tables, CommitOutcome, acknowledged, failed_committed, failed_rolled_back, Works,
  rewind_to, keep_transactions, keep_blocks, guard, adjust_balances,
}
pub mod Purge
pub mod Inputs
pub mod Balanced

pub record PurgeRequest : Type 0 where
  pub from_block : ℤ
  pub dry_run : Bool
  pub force : Bool

-- The fields that a purge always leaves at zero, and the duration, are left out.
pub record PurgeResult : Type 0 where
  pub purged_events : ℕ
  pub purged_transactions : ℕ
  pub purged_blocks : ℕ
  pub reversed_balances : ℕ
  pub new_watermark : ℤ
  pub is_dry_run : Bool

pub data PurgeError : Type 0 where
  finality_check_failed finalized_block dry_run_failed purge_failed : PurgeError

pub data Purged : Type 0 where
  purged : PurgeResult → Purged
  refused : PurgeError → Purged

-- The block at a number, if there is one
unfoldable pub find_block : ℤ → List IndexedBlock → Option IndexedBlock
find_block n [] = none
find_block n (b ∷ bs) =
    let rest = find_block n bs in if eqb_ℤ n b.block_number then some b else rest

unfoldable pub is_finalized : Option IndexedBlock → Bool
is_finalized none = false
is_finalized (some b) = eq_text b.finality_state (codes "finalized")

-- The two lists of items, for the liquid and for the staked balances
unfoldable pub liquid_items : List EventRow → Option (List BulkAdjustItem)
liquid_items [] = some []
liquid_items (e ∷ es) =
    let rest = liquid_items es in
    if not e.balance_applied then rest else do
      inverted_delta ← negate_decimal_string (print_big e.delta)
      items ← rest
      some (adjust_item e [] inverted_delta ∷ items)

unfoldable pub staked_items : List EventRow → List BulkAdjustItem
staked_items [] = []
staked_items (e ∷ es) =
    let rest = staked_items es in
    if e.balance_applied && is_staking_activity e.activity_type
    then adjust_item e (codes "staked") (print_big e.delta) ∷ rest
    else rest

unfoldable pub count_removed {ℓ} : {A : Type ℓ} → List A → List A → ℕ
count_removed before after = length before - length after

unfoldable pub purge_result : Bool → ℕ → Tables → Tables → ℤ → PurgeResult
purge_result dry reversed before after from_block = record {
  purged_events = count_removed before.events after.events;
  purged_transactions = count_removed before.transactions after.transactions;
  purged_blocks = count_removed before.blocks after.blocks;
  reversed_balances = reversed;
  new_watermark = rewind_to from_block;
  is_dry_run = dry;
}

unfoldable pub purge_tables : Bool → ℤ → List BalanceRow → Tables → Tables
purge_tables has_block_repo from_block balances t = record t {
  balances = balances;
  events = select_events (λ e. not (reorg_rolls_back from_block e)) t.events;
  transactions = keep_transactions from_block t.transactions;
  blocks = if has_block_repo then keep_blocks from_block t.blocks else t.blocks;
  watermark = rewind_watermark t.watermark (rewind_to from_block);
}

unfoldable pub finish :
    Option (Tables × PurgeResult) → CommitOutcome → Tables → PurgeError → Tables × Purged
finish none outcome before e = (before, refused e)
finish (some (after, r)) acknowledged before e = (after, purged r)
finish (some (after, r)) failed_committed before e = (after, refused e)
finish (some (after, r)) failed_rolled_back before e = (before, refused e)

-- dryRun counts the rows of the three tables and approximates the reversals by the events.
unfoldable pub dry_run_steps : Works → ℤ → Tables → Option (Tables × PurgeResult)
dry_run_steps w from_block t =
    let after = purge_tables true from_block t.balances t in
    do
      guard w.begin
      guard w.query
      some (t, purge_result true (count_removed t.events after.events) t after from_block)

module _ (pick : InputRow → List InputRow → InputRow) where
  -- executePurge up to the commit
  unfoldable pub purge_steps : Bool → Works → ℤ → Tables → Option (Tables × PurgeResult)
  purge_steps has_block_repo w from_block t =
      let events = select_events (reorg_rolls_back from_block) t.events in
      do
        guard w.begin
        guard w.query
        items ← liquid_items events
        reverted ← adjust_balances pick w.adjust items t.balances
        balances ← adjust_balances pick w.adjust_staked (staked_items events) reverted
        guard w.delete_events
        guard w.delete_transactions
        guard (not has_block_repo || w.blocks)
        guard w.watermark
        let after = purge_tables has_block_repo from_block balances t
        some (after, purge_result false (length items) t after from_block)

  unfoldable pub run_purge : Bool → Works → PurgeRequest → Tables → Tables × Purged
  run_purge has_block_repo w req t =
      if req.dry_run
      then finish (dry_run_steps w req.from_block t) acknowledged t dry_run_failed
      else finish (purge_steps has_block_repo w req.from_block t) w.commit t purge_failed

  -- `lookup_works` is the query of the block for the finality check.
  unfoldable pub purge_from_block : Bool → Bool → Works → PurgeRequest → Tables → Tables × Purged
  purge_from_block has_block_repo lookup_works w req t =
      if not req.force && has_block_repo
      then (if not lookup_works
          then (t, refused finality_check_failed)
          else if is_finalized (find_block req.from_block t.blocks)
          then (t, refused finalized_block)
          else run_purge has_block_repo w req t)
      else run_purge has_block_repo w req t
