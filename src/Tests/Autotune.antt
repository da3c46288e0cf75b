-- ===== src/Tests/Autotune.antt =====
-- The controller of internal/pipeline/coordinator/autotune on concrete ticks and digests.
use multichain_indexer.Prelude.{
  replicate, ℤ, pos, ◌+ℤ◌, ◌-ℤ◌, ◌*ℤ◌, ◌≤ℤ◌, ltb_ℤ, leb_ℤ, eqb_ℤ, wrap64, add64, sub64, mul64, Text,
  codes, ◌≡◌, refl, inr, true, false, none, some, List, [], ◌∷◌, arith,
}
use multichain_indexer.Autotune.Types.{
  Config, Inputs, hold, increase, defer_cooldown, PolicyTransition, Controller,
}
use multichain_indexer.Autotune.Clamp.{
  clamp_int, min_int, max_int, positive_or, floor_zero, is_queue_high, is_queue_low,
  bounded_warm_start_batch,
}
use multichain_indexer.Autotune.Digest.{
  normalize_policy_version, normalize_policy_manifest_digest, parse_seq, parse_rollback_lineage,
  parse_snapshot_cutover_lineage, parse_single_key, parse_tombstone_expiry_epoch,
  parse_late_marker_hold_epoch, parse_late_marker_release_epoch, has_epoch_compaction_tombstone,
}
use multichain_indexer.Autotune.Fence.{
  lineage_anchored, validate_rollback_lineage, same_lineage, validate_lineage_pair,
  is_epoch_compaction_digest, is_epoch_compaction_transition, is_tombstone_expiry_digest,
  is_late_marker_quarantine_digest, is_late_marker_release_digest, is_tombstone_expiry_transition,
  same_epoch, is_late_marker_quarantine_transition, is_late_marker_release_transition,
}
use multichain_indexer.Autotune.Ordering.{
  parse_ownership_prefix_fields, parse_all_epoch_markers, prefix_dependencies, marker_dependencies,
  strictly_rising, rising_from_third, watermarks_of, watermarks_rise, ordering_fields,
  ordering_checks, ordering_of, parse_ownership_ordering, compare_ownership_ordering,
  stage_progression_markers, stage_progress, window_wins, is_release_window_transition,
}
use multichain_indexer.Autotune.Construct.{initial_controller, new}
use multichain_indexer.Autotune.Telemetry.{
  has_lag_telemetry, telemetry_invalid, observe_stale, observe_valid, resolve_telemetry_state,
}
use multichain_indexer.Autotune.Signals.{
  lag_of, is_saturated_boundary, clamped_decision_for_signal, is_opposite_signal,
  is_critical_chain_scoped_signal, classify_signal,
}
use multichain_indexer.Autotune.Resolve.{
  reset_adaptive_control_state, resolve_override_state, report, resolve_manual, resolve_release,
  resolve_activation, blocked_by_cooldown, drop_saturation, bump_streak, next_batch, batch_changed,
  applied_decision, apply_signal, pursue, act_on, tick_cooldown, explain_hold, signal_of,
  resolve_adaptive, resolve_rest, resolve,
}
use multichain_indexer.Autotune.Policy.{
  resolve_same_epoch_lineage, meeting_of, reconcile_policy_transition,
}
use multichain_indexer.Autotune.Lineage.{Lineage, reconcile_policy_transition-Lineage}
use multichain_indexer.Autotune.Window.{is_release_window_transition_one_way}
use multichain_indexer.Autotune.Parsed.{WellOrdered, parse_ownership_ordering-WellOrdered}
use multichain_indexer.Autotune.Stages.{
  resolve_same_epoch_lineage_converges, compaction_replaces_expiry,
}
use multichain_indexer.Autotune.Bounds.{IsValid, new_with_seed_mode-IsValid, resolve-IsValid}
use multichain_indexer.Autotune.Truth.{Fits, Tells, resolve-Tells}
use multichain_indexer.Autotune.Holds.{ticks, ticks-Overridden}
use multichain_indexer.Autotune.Cooldown.{ticks-Cooling}

numbers : Unit {0}
unfolding ◌+ℤ◌ ◌-ℤ◌ ◌*ℤ◌ ltb_ℤ leb_ℤ eqb_ℤ wrap64 add64 sub64 mul64 clamp_int min_int max_int
    positive_or floor_zero is_queue_high is_queue_low bounded_warm_start_batch
numbers = tt

digests : Unit {0}
unfolding numbers normalize_policy_manifest_digest normalize_policy_version parse_rollback_lineage
    parse_snapshot_cutover_lineage parse_single_key parse_tombstone_expiry_epoch
    parse_late_marker_hold_epoch parse_late_marker_release_epoch has_epoch_compaction_tombstone
    parse_seq
digests = tt

fences : Unit {0}
unfolding digests lineage_anchored same_lineage validate_rollback_lineage validate_lineage_pair
    is_epoch_compaction_digest is_epoch_compaction_transition is_tombstone_expiry_digest
    is_tombstone_expiry_transition is_late_marker_quarantine_digest
    is_late_marker_quarantine_transition is_late_marker_release_digest
    is_late_marker_release_transition same_epoch
fences = tt

orderings : Unit {0}
unfolding fences parse_all_epoch_markers parse_ownership_prefix_fields prefix_dependencies
    marker_dependencies strictly_rising rising_from_third watermarks_of watermarks_rise
    ordering_fields ordering_checks ordering_of parse_ownership_ordering compare_ownership_ordering
    stage_progression_markers stage_progress window_wins is_release_window_transition
orderings = tt

ticking : Unit {0}
unfolding numbers has_lag_telemetry telemetry_invalid observe_stale observe_valid
    resolve_telemetry_state lag_of is_saturated_boundary clamped_decision_for_signal
    is_opposite_signal is_critical_chain_scoped_signal classify_signal reset_adaptive_control_state
    resolve_override_state report resolve_manual resolve_release resolve_activation
    blocked_by_cooldown drop_saturation bump_streak next_batch batch_changed applied_decision
    apply_signal pursue act_on tick_cooldown explain_hold signal_of resolve_adaptive resolve_rest
    resolve ticks
ticking = tt

abbrev pub config : Config
config = record {
  enabled = true;
  min_batch_size = pos 10;
  max_batch_size = pos 100;
  step_up = pos 20;
  step_down = pos 10;
  lag_high_watermark = pos 500;
  lag_low_watermark = pos 50;
  queue_high_watermark_pct = pos 80;
  queue_low_watermark_pct = pos 30;
  hysteresis_ticks = pos 1;
  cooldown_ticks = pos 3;
  telemetry_stale_ticks = pos 2;
  telemetry_recovery_ticks = pos 1;
  operator_override_batch_size = pos 0;
  operator_release_hold_ticks = pos 2;
  policy_version = codes " Policy-V2 ";
  policy_manifest_digest = codes "manifest-v2";
  policy_manifest_refresh_epoch = pos 1;
  policy_activation_hold_ticks = pos 1;
}

abbrev pub sample : Controller
sample = record {
  min_batch_size = pos 10;
  max_batch_size = pos 100;
  step_up = pos 20;
  step_down = pos 10;
  lag_high_watermark = pos 500;
  lag_low_watermark = pos 50;
  queue_high_watermark_pct = pos 80;
  queue_low_watermark_pct = pos 30;
  hysteresis_ticks = pos 1;
  cooldown_ticks = pos 3;
  cooldown_left = pos 0;
  telemetry_stale_ticks = pos 2;
  telemetry_recovery_ticks = pos 1;
  operator_override_batch = pos 0;
  operator_release_hold = pos 2;
  override_release_left = pos 0;
  policy_version = codes "policy-v2";
  policy_manifest_digest = codes "manifest-v2";
  policy_activation_hold = pos 1;
  policy_activation_left = pos 0;
  policy_epoch = pos 1;
  telemetry_fallback = false;
  telemetry_armed = false;
  telemetry_stale_observed = pos 0;
  telemetry_recovery_seen = pos 0;
  current_batch = pos 50;
  last_signal = hold;
  last_applied = hold;
  saturation_signal = hold;
  streak = pos 0;
  decision_sequence = pos 0;
}

-- The constructor normalises the policy's name and starts from the base batch.
sample_built : new (pos 50) config ≡ some sample
unfolding digests new initial_controller
sample_built = refl

sample-IsValid : IsValid sample
sample-IsValid = ground arith

sample-Fits : Fits sample
unfolding ◌+ℤ◌ ◌-ℤ◌
sample-Fits = ground arith

abbrev behind : Inputs
behind = record {
  chain = codes "base";
  network = codes "sepolia";
  has_head_signal = true;
  head_sequence = pos 2000;
  has_min_cursor_signal = true;
  min_cursor_sequence = pos 1000;
  queue_depth = pos 0;
  queue_capacity = pos 10;
  rpc_error_rate_bps = pos 0;
  db_commit_latency_p95_ms = pos 0;
  decision_epoch_ms = pos 0;
}

abbrev caught_up : Inputs
caught_up = record behind { min_cursor_sequence = pos 1990 }

-- A lag above the watermark raises the batch by a step; going down waits for the cooldown.
raised : (resolve sample behind).0.current_batch ≡ pos 70
unfolding ticking
raised = refl

deferred : (resolve (resolve sample behind).0 caught_up).1.decision ≡ defer_cooldown
unfolding ticking
deferred = refl

lowered_at_last :
    (ticks sample (behind ∷ caught_up ∷ caught_up ∷ caught_up ∷ caught_up ∷ [])).current_batch
    ≡ pos 60
unfolding ticking
lowered_at_last = refl

new_with_seed_mode-IsValid_example : IsValid sample
unfolding digests new initial_controller
new_with_seed_mode-IsValid_example = new_with_seed_mode-IsValid (pos 50) config none false refl

resolve-IsValid_example : IsValid (resolve sample behind).0
resolve-IsValid_example = resolve-IsValid sample behind sample-IsValid

resolve-Tells_example :
    let (c', d) = resolve sample behind in
    (d.batch_before ≡ sample.current_batch)
    × (d.batch_after ≡ c'.current_batch)
    × Tells sample.step_up sample.step_down d.decision sample.current_batch c'.current_batch
resolve-Tells_example = resolve-Tells sample behind sample-IsValid sample-Fits (omega arith)

abbrev overridden : Controller
overridden = record sample { operator_override_batch = pos 33 }

ticks-Overridden_example :
    let d = ticks overridden (behind ∷ caught_up ∷ []) in
    (d.operator_override_batch ≡ pos 33)
    × (d.current_batch ≡ pos 33)
    × (d.cooldown_left ≡ pos 0)
    × (d.last_applied ≡ hold)
    × (d.last_signal ≡ hold)
    × (d.saturation_signal ≡ hold)
    × (d.streak ≡ pos 0)
ticks-Overridden_example =
    ticks-Overridden overridden behind (caught_up ∷ []) (ground arith) (omega arith)

abbrev cooling : Controller
cooling = record sample { cooldown_left = pos 3; last_applied = increase }

ticks-Cooling_example : pos 50 ≤ℤ (ticks cooling (caught_up ∷ behind ∷ [])).current_batch
unfolding ◌+ℤ◌ ◌-ℤ◌ is_critical_chain_scoped_signal leb_ℤ
ticks-Cooling_example =
    ticks-Cooling cooling (caught_up ∷ behind ∷ []) (ground arith) (ground arith) (ground arith)
      (ground arith) (refl, (refl, tt))

abbrev restart : PolicyTransition
restart = record {
  has_state = true;
  version = codes "policy-v2";
  manifest_digest = codes "manifest-v1";
  epoch = pos 0;
  activation_hold_remaining = pos 0;
  from_warm_checkpoint = true;
}

reconcile_policy_transition-Lineage_example :
    Lineage sample (meeting_of sample restart) (reconcile_policy_transition sample restart)
reconcile_policy_transition-Lineage_example =
    reconcile_policy_transition-Lineage sample restart refl

-- The stages of one rollback from sequence 3 to sequence 1.
abbrev compacted : Text
compacted =
    codes "rollback-from-seq=3|rollback-to-seq=1|rollback-forward-seq=3|rollback-fence-tombstone=1"

abbrev expired : Text
expired =
    codes
      "rollback-from-seq=3|rollback-to-seq=1|rollback-forward-seq=3|rollback-fence-tombstone-expiry-epoch=2"

abbrev released_at_5 : Text
released_at_5 =
    codes
      "rollback-from-seq=3|rollback-to-seq=1|rollback-forward-seq=3|rollback-fence-tombstone-expiry-epoch=2|rollback-fence-late-marker-hold-epoch=4|rollback-fence-late-marker-release-epoch=5"

abbrev released_at_6 : Text
released_at_6 =
    codes
      "rollback-from-seq=3|rollback-to-seq=1|rollback-forward-seq=3|rollback-fence-tombstone-expiry-epoch=2|rollback-fence-late-marker-hold-epoch=4|rollback-fence-late-marker-release-epoch=6"

expires : is_tombstone_expiry_transition (pos 1) compacted expired ≡ true
unfolding fences
expires = refl

moves_on : is_release_window_transition (pos 1) released_at_5 released_at_6 ≡ true
unfolding orderings
moves_on = refl

is_release_window_transition_one_way_example :
    is_release_window_transition (pos 1) released_at_6 released_at_5 ≡ false
is_release_window_transition_one_way_example =
    is_release_window_transition_one_way (pos 1) released_at_5 released_at_6 moves_on

resolve_same_epoch_lineage_converges_example :
    (resolve_same_epoch_lineage (pos 1) released_at_5 released_at_6 ≡ some true)
    × (resolve_same_epoch_lineage (pos 1) released_at_6 released_at_5 ≡ some false)
resolve_same_epoch_lineage_converges_example =
    resolve_same_epoch_lineage_converges (pos 1) released_at_5 released_at_6 (inr (inr moves_on))

compaction_replaces_expiry_example :
    (resolve_same_epoch_lineage (pos 1) compacted expired ≡ some true)
    × (resolve_same_epoch_lineage (pos 1) expired compacted ≡ some true)
compaction_replaces_expiry_example = compaction_replaces_expiry (pos 1) compacted expired expires

abbrev slots_of_5 : List ℤ
slots_of_5 = pos 1 ∷ pos 0 ∷ pos 5 ∷ pos 5 ∷ pos 5 ∷ replicate 29 (pos 0)

parses : parse_ownership_ordering (pos 1) released_at_5 ≡ some slots_of_5
unfolding orderings
parses = refl

parse_ownership_ordering-WellOrdered_example : WellOrdered (pos 1) slots_of_5
parse_ownership_ordering-WellOrdered_example =
    parse_ownership_ordering-WellOrdered (pos 1) released_at_5 parses
