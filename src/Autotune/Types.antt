-- ===== src/Autotune/Types.antt =====
-- autotune.go: the configuration, the inputs of one tick, the controller's state and what a tick
-- reports. Go's `int` and `int64` are `ℤ`, with the wrap-around written at each operation.
-- The three digest strings of the diagnostics are left out: nothing reads them.
use multichain_indexer.Prelude.{ℤ, Text, Bool, true, false}

pub record Config : Type 0 where
  pub enabled : Bool
  pub min_batch_size : ℤ
  pub max_batch_size : ℤ
  pub step_up : ℤ
  pub step_down : ℤ
  pub lag_high_watermark : ℤ
  pub lag_low_watermark : ℤ
  pub queue_high_watermark_pct : ℤ
  pub queue_low_watermark_pct : ℤ
  pub hysteresis_ticks : ℤ
  pub cooldown_ticks : ℤ
  pub telemetry_stale_ticks : ℤ
  pub telemetry_recovery_ticks : ℤ
  pub operator_override_batch_size : ℤ
  pub operator_release_hold_ticks : ℤ
  pub policy_version : Text
  pub policy_manifest_digest : Text
  pub policy_manifest_refresh_epoch : ℤ
  pub policy_activation_hold_ticks : ℤ

pub record Inputs : Type 0 where
  pub chain : Text
  pub network : Text
  pub has_head_signal : Bool
  pub head_sequence : ℤ
  pub has_min_cursor_signal : Bool
  pub min_cursor_sequence : ℤ
  pub queue_depth : ℤ
  pub queue_capacity : ℤ
  pub rpc_error_rate_bps : ℤ
  pub db_commit_latency_p95_ms : ℤ
  pub decision_epoch_ms : ℤ

pub data Signal : Type 0 where
  hold increase decrease : Signal

pub data TelemetryState : Type 0 where
  healthy stale_fallback recovery_hold : TelemetryState

pub data OverrideState : Type 0 where
  auto manual_hold release_hold : OverrideState

-- The texts that `Resolve` gives as its decision.
pub data Decision : Type 0 where
  stay hold_operator_override hold_operator_release hold_policy_transition : Decision
  hold_telemetry_stale hold_telemetry_recovery defer_cooldown defer_hysteresis : Decision
  apply_increase clamped_increase apply_decrease clamped_decrease : Decision

abbrev pub eq_signal : Signal → Signal → Bool
eq_signal hold hold = true
eq_signal increase increase = true
eq_signal decrease decrease = true
eq_signal _ _ = false

pub record OverrideTransition : Type 0 where
  pub was_manual_override : Bool
  pub release_hold_remaining : ℤ

pub record PolicyTransition : Type 0 where
  pub has_state : Bool
  pub version : Text
  pub manifest_digest : Text
  pub epoch : ℤ
  pub activation_hold_remaining : ℤ
  pub from_warm_checkpoint : Bool

pub record Controller : Type 0 where
  pub min_batch_size : ℤ
  pub max_batch_size : ℤ
  pub step_up : ℤ
  pub step_down : ℤ
  pub lag_high_watermark : ℤ
  pub lag_low_watermark : ℤ
  pub queue_high_watermark_pct : ℤ
  pub queue_low_watermark_pct : ℤ
  pub hysteresis_ticks : ℤ
  pub cooldown_ticks : ℤ
  pub cooldown_left : ℤ
  pub telemetry_stale_ticks : ℤ
  pub telemetry_recovery_ticks : ℤ
  pub operator_override_batch : ℤ
  pub operator_release_hold : ℤ
  pub override_release_left : ℤ
  pub policy_version : Text
  pub policy_manifest_digest : Text
  pub policy_activation_hold : ℤ
  pub policy_activation_left : ℤ
  pub policy_epoch : ℤ
  pub telemetry_fallback : Bool
  pub telemetry_armed : Bool
  pub telemetry_stale_observed : ℤ
  pub telemetry_recovery_seen : ℤ
  pub current_batch : ℤ
  pub last_signal : Signal
  pub last_applied : Signal
  pub saturation_signal : Signal
  pub streak : ℤ
  pub decision_sequence : ℤ

pub record Diagnostics : Type 0 where
  pub lag_sequence : ℤ
  pub queue_depth : ℤ
  pub queue_capacity : ℤ
  pub telemetry_state : TelemetryState
  pub override_state : OverrideState
  pub signal : Signal
  pub decision : Decision
  pub batch_before : ℤ
  pub batch_after : ℤ
  pub streak : ℤ
  pub cooldown : ℤ
  pub telemetry_stale_ticks : ℤ
  pub telemetry_recovery_ticks : ℤ
  pub override_release_ticks : ℤ
  pub policy_version : Text
  pub policy_manifest_digest : Text
  pub policy_epoch : ℤ
  pub policy_activation_ticks : ℤ
  pub decision_inputs_chain_scoped : Bool
  pub decision_scope : Text
  pub cross_chain_reads : Bool
  pub cross_chain_writes : Bool
  pub changed_peer_cursor : ℤ
  pub changed_peer_watermark : ℤ
  pub cross_chain_control_delta : ℤ
  pub decision_epoch_ms : ℤ
  pub decision_sequence : ℤ
