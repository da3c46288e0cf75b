-- ===== src/Autotune/Construct.antt =====
-- autotune.go: `newAutoTuneControllerWithSeedMode` and the three constructors over it.
use multichain_indexer.Prelude.{
  if◌then◌else◌, ℤ, pos, ltb_ℤ, eqb_ℤ, Bool, true, false, not, Option, none, some,
}
use multichain_indexer.Autotune.Types.{Config, hold, Controller}
use multichain_indexer.Autotune.Clamp.{
  clamp_int, min_int, max_int, positive_or, floor_zero, bounded_warm_start_batch,
}
use multichain_indexer.Autotune.Digest.{normalize_policy_version, normalize_policy_manifest_digest}

-- The bounds of the batch: `minBatch`, then `maxBatch`.
unfoldable pub min_batch_of : Config → ℤ
unfolding positive_or
min_batch_of cfg = positive_or cfg.min_batch_size (pos 1)

unfoldable pub max_batch_of : ℤ → Config → ℤ
unfolding positive_or min_batch_of max_int
max_batch_of base_batch_size cfg =
    max_int (min_batch_of cfg) (positive_or cfg.max_batch_size base_batch_size)

unfoldable pub lag_low_of : Config → ℤ
unfolding floor_zero
lag_low_of cfg =
    let lag_high = floor_zero cfg.lag_high_watermark in
    let lag_low = floor_zero cfg.lag_low_watermark in
    if ltb_ℤ lag_high lag_low then lag_high else lag_low

unfoldable pub queue_high_of : Config → ℤ
unfolding clamp_int
queue_high_of cfg =
    let queue_high = clamp_int cfg.queue_high_watermark_pct (pos 1) (pos 100) in
    if eqb_ℤ queue_high (pos 0) then pos 80 else queue_high

unfoldable pub queue_low_of : Config → ℤ
unfolding clamp_int min_int queue_high_of
queue_low_of cfg =
    if eqb_ℤ cfg.queue_low_watermark_pct (pos 0)
    then min_int (pos 30) (queue_high_of cfg)
    else clamp_int cfg.queue_low_watermark_pct (pos 0) (queue_high_of cfg)

unfoldable pub hysteresis_of : Config → ℤ
unfolding positive_or
hysteresis_of cfg = positive_or cfg.hysteresis_ticks (pos 2)

unfoldable pub cooldown_of : Config → ℤ
unfolding floor_zero hysteresis_of
cooldown_of cfg =
    let cooldown_ticks = floor_zero cfg.cooldown_ticks in
    if eqb_ℤ cooldown_ticks (pos 0) then hysteresis_of cfg else cooldown_ticks

unfoldable pub override_batch_of : ℤ → Config → ℤ
unfolding clamp_int min_batch_of max_batch_of
override_batch_of base_batch_size cfg =
    if ltb_ℤ (pos 0) cfg.operator_override_batch_size
    then clamp_int cfg.operator_override_batch_size (min_batch_of cfg)
        (max_batch_of base_batch_size cfg)
    else pos 0

-- `startBatchCandidate`: the clamped base, or the seed, which a bounded warm start approaches by
-- one step at most.
unfoldable pub start_candidate : ℤ → Config → Option ℤ → Bool → ℤ
unfolding clamp_int positive_or min_batch_of max_batch_of bounded_warm_start_batch
start_candidate base_batch_size cfg seed_batch bounded_warm_start =
    let min_batch = min_batch_of cfg in
    let max_batch = max_batch_of base_batch_size cfg in
    let base_start = positive_or (clamp_int base_batch_size min_batch max_batch) min_batch in
    elim seed_batch [
      | none ↦ base_start
      | some seed ↦
          if ltb_ℤ (pos 0) seed
          then if bounded_warm_start
            then bounded_warm_start_batch base_start (clamp_int seed min_batch max_batch)
                (positive_or cfg.step_up (pos 1)) (positive_or cfg.step_down (pos 1)) min_batch
                max_batch
            else clamp_int seed min_batch max_batch
          else base_start
    ]

unfoldable pub start_batch_of : ℤ → Config → Option ℤ → Bool → ℤ
unfolding clamp_int positive_or min_batch_of max_batch_of override_batch_of start_candidate
start_batch_of base_batch_size cfg seed_batch bounded_warm_start =
    let min_batch = min_batch_of cfg in
    let max_batch = max_batch_of base_batch_size cfg in
    let candidate = start_candidate base_batch_size cfg seed_batch bounded_warm_start in
    let start = positive_or (clamp_int candidate min_batch max_batch) min_batch in
    let override = override_batch_of base_batch_size cfg in
    if ltb_ℤ (pos 0) override then override else start

-- The controller that an enabled configuration builds.
unfoldable pub initial_controller : ℤ → Config → Option ℤ → Bool → Controller
unfolding positive_or floor_zero min_batch_of max_batch_of lag_low_of queue_high_of queue_low_of
    hysteresis_of cooldown_of override_batch_of start_batch_of normalize_policy_version
    normalize_policy_manifest_digest
initial_controller base_batch_size cfg seed_batch bounded_warm_start = record {
  min_batch_size = min_batch_of cfg;
  max_batch_size = max_batch_of base_batch_size cfg;
  step_up = positive_or cfg.step_up (pos 1);
  step_down = positive_or cfg.step_down (pos 1);
  lag_high_watermark = floor_zero cfg.lag_high_watermark;
  lag_low_watermark = lag_low_of cfg;
  queue_high_watermark_pct = queue_high_of cfg;
  queue_low_watermark_pct = queue_low_of cfg;
  hysteresis_ticks = hysteresis_of cfg;
  cooldown_ticks = cooldown_of cfg;
  cooldown_left = pos 0;
  telemetry_stale_ticks = positive_or cfg.telemetry_stale_ticks (pos 2);
  telemetry_recovery_ticks = positive_or cfg.telemetry_recovery_ticks (pos 1);
  operator_override_batch = override_batch_of base_batch_size cfg;
  operator_release_hold = floor_zero cfg.operator_release_hold_ticks;
  override_release_left = pos 0;
  policy_version = normalize_policy_version cfg.policy_version;
  policy_manifest_digest = normalize_policy_manifest_digest cfg.policy_manifest_digest;
  policy_activation_hold = floor_zero cfg.policy_activation_hold_ticks;
  policy_activation_left = pos 0;
  policy_epoch = floor_zero cfg.policy_manifest_refresh_epoch;
  telemetry_fallback = false;
  telemetry_armed = false;
  telemetry_stale_observed = pos 0;
  telemetry_recovery_seen = pos 0;
  current_batch = start_batch_of base_batch_size cfg seed_batch bounded_warm_start;
  last_signal = hold;
  last_applied = hold;
  saturation_signal = hold;
  streak = pos 0;
  decision_sequence = pos 0;
}

-- `newAutoTuneControllerWithSeedMode`; `none` is the nil controller of a disabled configuration.
unfoldable pub new_with_seed_mode : ℤ → Config → Option ℤ → Bool → Option Controller
unfolding initial_controller
new_with_seed_mode base_batch_size cfg seed_batch bounded_warm_start =
    if not cfg.enabled
    then none
    else some (initial_controller base_batch_size cfg seed_batch bounded_warm_start)

unfoldable pub new_with_seed : ℤ → Config → Option ℤ → Option Controller
unfolding new_with_seed_mode
new_with_seed base_batch_size cfg seed_batch =
    new_with_seed_mode base_batch_size cfg seed_batch false

unfoldable pub new_with_restart_seed : ℤ → Config → Option ℤ → Option Controller
unfolding new_with_seed_mode
new_with_restart_seed base_batch_size cfg seed_batch =
    new_with_seed_mode base_batch_size cfg seed_batch true

unfoldable pub new : ℤ → Config → Option Controller
unfolding new_with_seed
new base_batch_size cfg = new_with_seed base_batch_size cfg none
