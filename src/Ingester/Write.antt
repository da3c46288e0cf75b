-- ===== src/Ingester/Write.antt =====
-- internal/pipeline/ingester/ingester.go: writeBulkAndCommit, the last phase of a batch, and
-- processBatch around the phases. The answers of the database and the interleaver are a record;
-- what is sent to the database is returned as a list of statements.
use multichain_indexer.Prelude.{
  if◌then◌else◌, ℤ, leb_ℤ, eqb_ℤ, Text, codes, eq_text, Bool, true, false, ◌&&◌, ◌||◌, not, Option,
  none, some, List, [], ◌∷◌, ◌++◌,
}
use multichain_indexer.Prelude.Decimal.{print_big}
use multichain_indexer.Identity.{canonicalize_cursor_value}
use multichain_indexer.Store.{BulkAdjustItem}
use multichain_indexer.Ingester.{NormalizedBalanceEvent, NormalizedTransaction, NormalizedBatch}
use multichain_indexer.Ingester.Cursors.{
  is_canonicality_drift, is_btc_restart_anchor_replay, with_rollback_fork_cursor,
  should_continue_competing_branch_replay, should_advance_commit_checkpoint,
}
use multichain_indexer.Ingester.Reversal.{IndexedBlock}
use multichain_indexer.Ingester.Collect.{collect_events}
use multichain_indexer.Ingester.Build.{
  Prefetched, AdjustmentKey, AdjustmentAccum, EventModel, Building, build_event_models,
}

pub data Statement : Type 0 where
  roll_back : ℤ → Statement
  upsert_events : List EventModel → Statement
  adjust : List BulkAdjustItem → Statement
  upsert_blocks : List IndexedBlock → Statement
  move_watermark : ℤ → Statement

-- How a commit is answered: an error may leave open whether the commit took place.
pub data CommitAnswer : Type 0 where
  commit_ok commit_refused commit_ambiguous : CommitAnswer

-- `probe` is the watermark row that is read after an ambiguous commit, or an error.
pub record Answers : Type 0 where
  pub acquired : Bool
  pub begun : Bool
  pub rollback_works : Bool
  pub rollback_commit : Bool
  pub address_map : Bool
  pub prefetched : Option Prefetched
  pub start : Building
  pub events_work : Bool
  pub adjust_works : Bool
  pub has_block_repo : Bool
  pub blocks_work : Bool
  pub watermark_works : Bool
  pub commit : CommitAnswer
  pub probe : Option (Option ℤ)

pub data Ending : Type 0 where
  committed failed failed_terminal : Ending

unfoldable pub str_ptr_or_nil : Text → Option Text
str_ptr_or_nil [] = none
str_ptr_or_nil (c ∷ s) = some (c ∷ s)

unfoldable pub adjust_items : List (AdjustmentKey × AdjustmentAccum) → List BulkAdjustItem
adjust_items [] = []
adjust_items ((k, a) ∷ ds) =
    record {
      key = k.key;
      wallet_id = str_ptr_or_nil k.wallet_id;
      org_id = str_ptr_or_nil k.org_id;
      delta = print_big a.delta;
      cursor = a.cursor;
      tx_hash = a.tx_hash;
    }
    ∷ adjust_items ds

unfoldable pub first_finality : List NormalizedBalanceEvent → Text
first_finality [] = codes "pending"
first_finality (be ∷ bes) = elim be.finality_state [ [] ↦ codes "pending" | c ∷ s ↦ c ∷ s ]

unfoldable pub has_block : ℤ → List IndexedBlock → Bool
has_block n [] = false
has_block n (b ∷ bs) = eqb_ℤ n b.block_number || has_block n bs

-- One block for each number: of the first transaction of it that has a block hash
unfoldable pub blocks_of : List NormalizedTransaction → List IndexedBlock → List IndexedBlock
blocks_of [] bs = bs
blocks_of (t ∷ ts) bs = blocks_of ts (
    if eq_text t.block_hash [] || has_block t.block_cursor bs
    then bs
    else bs
      ++ record {
        block_number = t.block_cursor;
        block_hash = t.block_hash;
        parent_hash = t.parent_hash;
        finality_state = first_finality t.balance_events;
      }
        ∷ [])

unfoldable pub reached : NormalizedBatch → Option (Option ℤ) → Bool
reached b none = false
reached b (some none) = false
reached b (some (some ingested)) = leb_ℤ b.new_cursor_sequence ingested

-- reconcileAmbiguousCommitOutcome and reconcileBlockScanCommit after a failed commit
unfoldable pub commit_ending : NormalizedBatch → CommitAnswer → Option (Option ℤ) → Ending
commit_ending b commit_ok probe = committed
commit_ending b commit_refused probe = failed
commit_ending b commit_ambiguous probe = if reached b probe then committed else failed_terminal

-- A statement that goes through is followed by the rest, and one that fails ends the phase.
unfoldable pub send : Bool → Statement → Bool → List Statement × Ending → List Statement × Ending
send false statement works rest = rest
send true statement false rest = (statement ∷ [], failed)
send true statement true (log, ending) = (statement ∷ log, ending)

unfoldable pub is_nil {ℓ} : {A : Type ℓ} → List A → Bool
is_nil [] = true
is_nil (x ∷ xs) = false

unfoldable pub write_bulk_and_commit :
    NormalizedBatch → Answers → Building → List Statement × Ending
write_bulk_and_commit b w s =
    let blocks = blocks_of b.transactions [] in
    send (not (is_nil s.event_models)) (upsert_events s.event_models) w.events_work (
      send (not (is_nil s.aggregated_deltas)) (adjust (adjust_items s.aggregated_deltas))
        w.adjust_works
        (send (w.has_block_repo && not (is_nil blocks)) (upsert_blocks blocks) w.blocks_work (
          send true (move_watermark b.new_cursor_sequence) w.watermark_works
            ([], commit_ending b w.commit w.probe))))

unfoldable pub write_built : NormalizedBatch → Answers → Option Building → List Statement × Ending
write_built b w none = ([], failed)
write_built b w (some s) = write_bulk_and_commit b w s

unfoldable pub ingest_prefetched :
    NormalizedBatch → Answers → Option Prefetched → List Statement × Ending
ingest_prefetched b w none = ([], failed)
ingest_prefetched b w (some p) =
    write_built b w (build_event_models p (collect_events b).all_events w.start)

unfoldable pub ingest_batch : NormalizedBatch → Answers → List Statement × Ending
ingest_batch b w = if w.address_map then ingest_prefetched b w w.prefetched else ([], failed)

unfoldable pub after_rollback : NormalizedBatch → Answers → List Statement × Ending
after_rollback b w =
    if should_continue_competing_branch_replay b
    then ingest_batch b w
    else ([], if w.rollback_commit then committed else failed)

unfoldable pub settle_batch : NormalizedBatch → Answers → List Statement × Ending
settle_batch b w =
    if is_canonicality_drift b && not (is_btc_restart_anchor_replay b)
    then send true (roll_back (with_rollback_fork_cursor b).previous_cursor_sequence)
        w.rollback_works (after_rollback b w)
    else ingest_batch b w

unfoldable pub with_canonical_cursors : NormalizedBatch → NormalizedBatch
with_canonical_cursors b = record b {
  previous_cursor_value = canonicalize_cursor_value b.chain b.previous_cursor_value;
  new_cursor_value = canonicalize_cursor_value b.chain b.new_cursor_value;
}

unfoldable pub is_committed : Ending → Bool
is_committed committed = true
is_committed failed = false
is_committed failed_terminal = false

-- processBatch: what is sent, how it ends, and what the interleaver's turn is released with; a turn
-- that is not given is not released.
unfoldable pub process_batch : NormalizedBatch → Answers → List Statement × Ending × Option Bool
process_batch batch w =
    let b = with_canonical_cursors batch in
    let (log, ending) = if w.begun then settle_batch b w else ([], failed) in
    if w.acquired
    then (log, ending, some (is_committed ending && should_advance_commit_checkpoint b))
    else ([], failed, none)
