-- ===== src/Tests/Tuning.antt =====
-- `withAutoTune` of internal/pipeline/coordinator/coordinator.go on concrete restart states.
use multichain_indexer.Prelude.{
  pos, ltb_ℤ, leb_ℤ, eqb_ℤ, codes, ◌≡◌, refl, inl, true, false, none, some, [],
}
use multichain_indexer.Autotune.Clamp.{clamp_int, min_int, max_int, positive_or, floor_zero}
use multichain_indexer.Autotune.Digest.{normalize_policy_version, normalize_policy_manifest_digest}
use multichain_indexer.Autotune.Construct.{
  initial_controller, new_with_seed_mode, new_with_seed, new_with_restart_seed,
}
use multichain_indexer.Autotune.Resolve.{reconcile_override_transition}
use multichain_indexer.Autotune.Policy.{reconcile_policy_transition}
use multichain_indexer.Autotune.Bounds.{IsValid}
use multichain_indexer.Coordinator.{Coordinator}
use multichain_indexer.Coordinator.Tuning.{
  RestartState, seeding_of, use_bounded_warm_start, reconciled, build, with_auto_tune, TurnedDown,
  OfConfig, with_auto_tune_foreign, with_auto_tune-IsValid,
}
use multichain_indexer.Tests.Autotune.{config, sample}

abbrev untuned : Coordinator
untuned = record {
  chain = codes "base";
  network = codes "mainnet";
  batch_size = pos 50;
  interval_ns = pos 1000;
  has_head_provider = true;
  has_wm_repo = true;
  has_backfill_ch = false;
  auto_tune = none;
  max_initial_lookback_blocks = pos 50;
  has_enqueued = false;
  last_enqueued_start = pos 0;
  last_enqueued_end = pos 0;
}

abbrev of_bsc : RestartState
of_bsc = record {
  chain = codes "bsc";
  network = codes "mainnet";
  batch_size = pos 70;
  override_manual_active = false;
  override_release_remaining = pos 0;
  policy_version = [];
  policy_manifest_digest = [];
  policy_epoch = pos 0;
  policy_activation_remaining = pos 0;
}

foreign : TurnedDown untuned of_bsc
foreign = inl cc

tuned : (with_auto_tune untuned config none).auto_tune ≡ some sample
unfolding with_auto_tune seeding_of build use_bounded_warm_start reconciled new_with_seed
    new_with_restart_seed new_with_seed_mode initial_controller reconcile_policy_transition
    reconcile_override_transition ltb_ℤ leb_ℤ eqb_ℤ clamp_int min_int max_int positive_or floor_zero
    normalize_policy_version normalize_policy_manifest_digest
tuned = refl

with_auto_tune_foreign_example :
    (with_auto_tune untuned config (some of_bsc)
      ≡ with_auto_tune (record untuned { auto_tune = none }) config none)
    × OfConfig config (with_auto_tune untuned config (some of_bsc)).auto_tune
with_auto_tune_foreign_example = with_auto_tune_foreign untuned config of_bsc foreign

with_auto_tune-IsValid_example : IsValid sample
with_auto_tune-IsValid_example = with_auto_tune-IsValid untuned config none sample tuned
