-- ===== src/Replay/Purge.antt =====
-- internal/pipeline/replay/service.go: what is never purged.
use multichain_indexer.Prelude.{Bool-cases, ℤ, ◌≡◌, inl, inr, Bool, true, false, List, arith}
use multichain_indexer.Store.{InputRow}
use multichain_indexer.Ingester.Reversal.{Tables, acknowledged, Works, guard}
use multichain_indexer.Replay.{
  PurgeRequest, PurgeError, dry_run_failed, find_block, is_finalized, finish, dry_run_steps,
  run_purge, purge_from_block,
}

module _ (pick : InputRow → List InputRow → InputRow) where
  -- A finalized block is not purged without force: the tables are as before.
  pub purge_from_block-finalized :
      (lookup_works : Bool) (w : Works) (req : PurgeRequest) (t : Tables)
      → req.force ≡ false
      → is_finalized (find_block req.from_block t.blocks) ≡ true
      → (purge_from_block pick true lookup_works w req t).0 ≡ t
  unfolding purge_from_block
  purge_from_block-finalized true w req t f h = simp (f, h)
  purge_from_block-finalized false w req t f h = simp f

  finish-same :
      (t : Tables) (w : Works) (from_block : ℤ) (e : PurgeError)
      → (finish (dry_run_steps w from_block t) acknowledged t e).0 ≡ t
  unfolding finish dry_run_steps guard
  finish-same t w from_block e = elim (Bool-cases w.begin) [
    | inl b ↦ elim (Bool-cases w.query) [ inl q ↦ simp (b, q) | inr q ↦ simp (b, q) ]
    | inr b ↦ simp b
  ]

  -- A dry run changes nothing.
  pub purge_from_block-dry_run :
      (has_block_repo lookup_works : Bool) (w : Works) (req : PurgeRequest) (t : Tables)
      → req.dry_run ≡ true
      → (purge_from_block pick has_block_repo lookup_works w req t).0 ≡ t
  unfolding purge_from_block run_purge
  purge_from_block-dry_run has_block_repo lookup_works w req t d =
      ground (arith, finish-same t w req.from_block dry_run_failed)
