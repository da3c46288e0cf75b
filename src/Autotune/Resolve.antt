-- ===== src/Autotune/Resolve.antt =====
-- autotune.go: `Resolve`, one tick of the controller, and the override transitions.
use multichain_indexer.Prelude.{
  if◌then◌else◌, ℤ, pos, ltb_ℤ, leb_ℤ, add64, sub64, codes, Bool, true, false, ◌&&◌, ◌||◌, not,
}
use multichain_indexer.Autotune.Types.{
  Inputs, Signal, hold, increase, decrease, TelemetryState, healthy, stale_fallback, recovery_hold,
  OverrideState, auto, manual_hold, release_hold, Decision, stay, hold_operator_override,
  hold_operator_release, hold_policy_transition, hold_telemetry_stale, hold_telemetry_recovery,
  defer_cooldown, defer_hysteresis, apply_increase, apply_decrease, eq_signal, OverrideTransition,
  Controller, Diagnostics,
}
use multichain_indexer.Autotune.Clamp.{clamp_int}
use multichain_indexer.Autotune.Telemetry.{resolve_telemetry_state}
use multichain_indexer.Autotune.Signals.{
  lag_of, is_saturated_boundary, clamped_decision_for_signal, is_opposite_signal,
  is_critical_chain_scoped_signal, classify_signal,
}

unfoldable pub reset_adaptive_control_state : Controller → Controller
reset_adaptive_control_state c = record c {
  last_signal = hold;
  last_applied = hold;
  saturation_signal = hold;
  streak = pos 0;
  cooldown_left = pos 0;
}

unfoldable pub resolve_override_state : Controller → OverrideState
resolve_override_state c =
    if ltb_ℤ (pos 0) c.operator_override_batch
    then manual_hold
    else if ltb_ℤ (pos 0) c.override_release_left
    then release_hold
    else auto

-- What a tick has found out before it decides.
pub record Observed : Type 0 where
  pub telemetry : TelemetryState
  pub override : OverrideState
  pub before : ℤ

-- The diagnostics of the four returns of `Resolve`, with `enrichDecisionDiagnostics`, which also
-- numbers the decision.
unfoldable pub report :
    Controller → Inputs → Observed → Signal → Decision → ℤ → ℤ → Controller × Diagnostics
report c inputs seen sig dec release_ticks activation_ticks =
    let sequence = add64 c.decision_sequence (pos 1) in
    (
      record c { decision_sequence = sequence },
      record {
        lag_sequence = lag_of inputs;
        queue_depth = inputs.queue_depth;
        queue_capacity = inputs.queue_capacity;
        telemetry_state = seen.telemetry;
        override_state = seen.override;
        signal = sig;
        decision = dec;
        batch_before = seen.before;
        batch_after = c.current_batch;
        streak = c.streak;
        cooldown = c.cooldown_left;
        telemetry_stale_ticks = c.telemetry_stale_observed;
        telemetry_recovery_ticks = c.telemetry_recovery_seen;
        override_release_ticks = release_ticks;
        policy_version = c.policy_version;
        policy_manifest_digest = c.policy_manifest_digest;
        policy_epoch = c.policy_epoch;
        policy_activation_ticks = activation_ticks;
        decision_inputs_chain_scoped = true;
        decision_scope = codes "this-chain-only";
        cross_chain_reads = false;
        cross_chain_writes = false;
        changed_peer_cursor = pos 0;
        changed_peer_watermark = pos 0;
        cross_chain_control_delta = pos 0;
        decision_epoch_ms = inputs.decision_epoch_ms;
        decision_sequence = sequence;
      },
    )

-- The manual hold: the operator's batch, and nothing adaptive.
unfoldable pub resolve_manual : Controller → Controller
unfolding clamp_int reset_adaptive_control_state
resolve_manual c = reset_adaptive_control_state (record c {
  current_batch = clamp_int c.operator_override_batch c.min_batch_size c.max_batch_size;
})

unfoldable pub resolve_release : Controller → Controller
unfolding reset_adaptive_control_state
resolve_release c =
    let held = reset_adaptive_control_state c in
    if ltb_ℤ (pos 0) held.override_release_left
    then record held { override_release_left = sub64 held.override_release_left (pos 1) }
    else held

unfoldable pub resolve_activation : Controller → Controller
unfolding reset_adaptive_control_state
resolve_activation c =
    let held = reset_adaptive_control_state c in
    record held { policy_activation_left = sub64 held.policy_activation_left (pos 1) }

-- The adaptive part, in the order of the source. `outcome` is the state, the decision, and
-- whether a new batch was applied.
abbrev pub Outcome : Type 0
Outcome = Controller × Decision × Bool

unfoldable pub blocked_by_cooldown : Controller → Inputs → Signal → Bool
unfolding is_opposite_signal is_critical_chain_scoped_signal
blocked_by_cooldown c inputs sig =
    ltb_ℤ (pos 0) c.cooldown_left
    && is_opposite_signal sig c.last_applied
    && not (is_critical_chain_scoped_signal sig inputs)

unfoldable pub drop_saturation : Controller → Signal → Controller
unfolding is_saturated_boundary
drop_saturation c sig =
    if not (eq_signal sig c.saturation_signal) || not (is_saturated_boundary c sig)
    then record c { saturation_signal = hold }
    else c

unfoldable pub bump_streak : Controller → Signal → Controller
bump_streak c sig =
    if eq_signal c.last_signal sig
    then record c { streak = add64 c.streak (pos 1) }
    else record c { last_signal = sig; streak = pos 1 }

-- `next`, and the decision that goes with it.
unfoldable pub next_batch : Controller → Signal → ℤ
unfolding clamp_int
next_batch c increase =
    clamp_int (add64 c.current_batch c.step_up) c.min_batch_size c.max_batch_size
next_batch c decrease =
    clamp_int (sub64 c.current_batch c.step_down) c.min_batch_size c.max_batch_size
next_batch c hold = c.current_batch

unfoldable pub batch_changed : Controller → Signal → Bool
unfolding next_batch
batch_changed c increase = ltb_ℤ c.current_batch (next_batch c increase)
batch_changed c decrease = ltb_ℤ (next_batch c decrease) c.current_batch
batch_changed c hold = false

unfoldable pub applied_decision : Signal → Decision
applied_decision increase = apply_increase
applied_decision decrease = apply_decrease
applied_decision hold = stay

unfoldable pub apply_signal : Controller → Signal → Outcome
apply_signal c sig =
    let moved = record c { current_batch = next_batch c sig; streak = pos 0 } in
    if batch_changed c sig
    then (
      record moved {
        last_applied = sig;
        cooldown_left = c.cooldown_ticks;
        saturation_signal = if is_saturated_boundary moved sig then sig else hold;
      },
      applied_decision sig,
      true,
    )
    else (record moved { saturation_signal = sig }, clamped_decision_for_signal sig, false)

-- The case of an increase or a decrease, once the streak is counted.
unfoldable pub pursue : Controller → Signal → Outcome
pursue c sig =
    if eq_signal c.saturation_signal sig && is_saturated_boundary c sig
    then (record c { streak = pos 0 }, clamped_decision_for_signal sig, false)
    else if leb_ℤ c.hysteresis_ticks c.streak
    then apply_signal c sig
    else (c, defer_hysteresis, false)

unfoldable pub act_on : Controller → Signal → Outcome
act_on c hold =
    (record c { last_signal = hold; saturation_signal = hold; streak = pos 0 }, stay, false)
act_on c increase = pursue (bump_streak c increase) increase
act_on c decrease = pursue (bump_streak c decrease) decrease

unfoldable pub tick_cooldown : Bool → Controller → Controller
tick_cooldown applied c =
    if not applied && ltb_ℤ (pos 0) c.cooldown_left
    then record c { cooldown_left = sub64 c.cooldown_left (pos 1) }
    else c

unfoldable pub explain_hold : TelemetryState → Decision → Decision
explain_hold stale_fallback stay = hold_telemetry_stale
explain_hold recovery_hold stay = hold_telemetry_recovery
explain_hold _ dec = dec

unfoldable pub signal_of : Controller → Inputs → TelemetryState → Signal
unfolding classify_signal lag_of
signal_of c inputs healthy = classify_signal c inputs (lag_of inputs)
signal_of c inputs _ = hold

unfoldable pub resolve_adaptive : Controller → Inputs → Signal → Outcome
resolve_adaptive c inputs sig =
    let dropped = drop_saturation c sig in
    let (c', dec, applied) =
      if blocked_by_cooldown c inputs sig
      then (bump_streak dropped sig, defer_cooldown, false)
      else act_on dropped sig in
    (tick_cooldown applied c', dec, applied)

-- The four returns of `Resolve`, after the telemetry.
unfoldable pub resolve_rest :
    Controller → Inputs → TelemetryState → OverrideState → Controller × Diagnostics
resolve_rest c inputs telemetry manual_hold =
    let seen : Observed = record {
      telemetry = telemetry;
      override = manual_hold;
      before = c.current_batch;
    } in
    report (resolve_manual c) inputs seen hold hold_operator_override c.override_release_left
      c.policy_activation_left
resolve_rest c inputs telemetry release_hold =
    let seen : Observed = record {
      telemetry = telemetry;
      override = release_hold;
      before = c.current_batch;
    } in
    report (resolve_release c) inputs seen hold hold_operator_release c.override_release_left
      c.policy_activation_left
resolve_rest c inputs telemetry auto =
    let seen : Observed = record {
      telemetry = telemetry;
      override = auto;
      before = c.current_batch;
    } in
    let sig = signal_of c inputs telemetry in
    let (c', dec, applied) = resolve_adaptive c inputs sig in
    if ltb_ℤ (pos 0) c.policy_activation_left
    then report (resolve_activation c) inputs seen hold hold_policy_transition
        c.override_release_left c.policy_activation_left
    else report c' inputs seen sig (explain_hold telemetry dec) c'.override_release_left
        c'.policy_activation_left

unfoldable pub resolve : Controller → Inputs → Controller × Diagnostics
resolve c inputs =
    let (c', telemetry) = resolve_telemetry_state c inputs in
    resolve_rest c' inputs telemetry (resolve_override_state c')

-- The transitions that carry an override across a restart or a change of profile.
unfoldable pub export_override_transition : Controller → OverrideTransition
export_override_transition c = record {
  was_manual_override = ltb_ℤ (pos 0) c.operator_override_batch;
  release_hold_remaining = c.override_release_left;
}

unfoldable pub reconcile_override_transition : Controller → OverrideTransition → Controller
unfolding clamp_int reset_adaptive_control_state
reconcile_override_transition c transition =
    if ltb_ℤ (pos 0) c.operator_override_batch
    then reset_adaptive_control_state (record c {
      current_batch = clamp_int c.operator_override_batch c.min_batch_size c.max_batch_size;
      override_release_left = pos 0;
    })
    else if ltb_ℤ (pos 0) transition.release_hold_remaining
    then reset_adaptive_control_state
        (record c { override_release_left = transition.release_hold_remaining })
    else if transition.was_manual_override && ltb_ℤ (pos 0) c.operator_release_hold
    then reset_adaptive_control_state (record c { override_release_left = c.operator_release_hold })
    else c
