-- ===== src/Ingester/Reorg.antt =====
-- internal/pipeline/ingester/ingester.go: handleReorg, which hands over to the replay service where
-- there is one.
use multichain_indexer.Prelude.{ℤ, Bool, true, false, List}
use multichain_indexer.Store.{InputRow}
use multichain_indexer.Ingester.Reversal.{Tables, Works, settle, reorg_steps}
use multichain_indexer.Replay.{PurgeRequest, Purged, purged, refused, purge_from_block}

abbrev pub purge_request : ℤ → PurgeRequest
purge_request fork_block = record { from_block = fork_block; dry_run = false; force = true }

unfoldable pub delegated : Tables × Purged → Tables × Bool
delegated (t, purged r) = (t, true)
delegated (t, refused e) = (t, false)

module _ (pick : InputRow → List InputRow → InputRow) where
  -- The tables afterwards, and whether there was no error. With force, the replay service looks no
  -- block up. `has_block_repo` is that of the one that does the work.
  unfoldable pub handle_reorg : Bool → Bool → Works → ℤ → Tables → Tables × Bool
  handle_reorg true has_block_repo w fork_block t =
      delegated (purge_from_block pick has_block_repo w.query w (purge_request fork_block) t)
  handle_reorg false has_block_repo w fork_block t =
      settle (reorg_steps pick has_block_repo w fork_block t) w.commit t
