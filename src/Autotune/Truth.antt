-- ===== src/Autotune/Truth.antt =====
-- autotune.go: what a tick reports, against what it does to the batch.
use multichain_indexer.Prelude.{
  Bool-cases, ℤ, pos, ◌+ℤ◌, ◌-ℤ◌, ◌≤ℤ◌, ◌<ℤ◌, ltb_ℤ, ltb_ℤ→lt, ltb_ℤ→ge, eq_of_parts, InInt64,
  InInt64-between, add64, sub64, add64_of_InInt64, sub64_of_InInt64, int_laws, ◌≡◌, refl, ◌∙◌, ◌≢◌,
  inl, inr, Bool, false, arith,
}
use multichain_indexer.Autotune.Types.{
  Inputs, Signal, hold, increase, decrease, TelemetryState, OverrideState, auto, manual_hold,
  release_hold, Decision, apply_increase, apply_decrease, Controller,
}
use multichain_indexer.Autotune.Clamp.{clamp_int}
use multichain_indexer.Autotune.Telemetry.{observe_stale, observe_valid, resolve_telemetry_state}
use multichain_indexer.Autotune.Signals.{clamped_decision_for_signal}
use multichain_indexer.Autotune.Resolve.{
  reset_adaptive_control_state, resolve_override_state, report, resolve_release, resolve_activation,
  blocked_by_cooldown, drop_saturation, bump_streak, next_batch, batch_changed, applied_decision,
  apply_signal, pursue, act_on, tick_cooldown, explain_hold, resolve_adaptive, resolve_rest,
  resolve,
}
use multichain_indexer.Autotune.Bounds.{
  IsValid, resolve_telemetry_state-IsValid, bump_streak-IsValid, drop_saturation-IsValid,
}

-- The next batch can be computed without leaving the range of an int.
pub record Fits (c : Controller) : Type 0 where
  pub up : InInt64 (c.max_batch_size +ℤ c.step_up)
  pub down : InInt64 (c.min_batch_size -ℤ c.step_down)

clamp_up :
    (v w lo hi : ℤ)
    → lo ≤ℤ v
    → v ≤ℤ hi
    → v ≤ℤ w
    → (v ≤ℤ clamp_int w lo hi) × (clamp_int w lo hi ≤ℤ w)
unfolding clamp_int ltb_ℤ
clamp_up v w lo hi h k l = ground arith

clamp_down :
    (v w lo hi : ℤ)
    → lo ≤ℤ v
    → v ≤ℤ hi
    → w ≤ℤ v
    → (clamp_int w lo hi ≤ℤ v) × (w ≤ℤ clamp_int w lo hi)
unfolding clamp_int ltb_ℤ
clamp_down v w lo hi h k l = ground arith

module _ (c : Controller) (v : IsValid c) (f : Fits c) where
  add64-step_up : add64 c.current_batch c.step_up ≡ c.current_batch +ℤ c.step_up
  add64-step_up = add64_of_InInt64 _ _ (
      InInt64-between (pos 0) _ (c.max_batch_size +ℤ c.step_up) (omega arith) f.up
        (omega (int_laws, v.min_pos, v.min-le-batch, v.step_up_pos))
        (omega (int_laws, v.batch-le-max)))

  sub64-step_down : sub64 c.current_batch c.step_down ≡ c.current_batch -ℤ c.step_down
  sub64-step_down = sub64_of_InInt64 _ _ (
      InInt64-between (c.min_batch_size -ℤ c.step_down) _ (c.max_batch_size +ℤ c.step_up) f.down
        f.up (omega (int_laws, v.min-le-batch))
        (omega (int_laws, v.batch-le-max, v.step_up_pos, v.step_down_pos)))

  -- The next batch lies on the signal's side of the present one, and one step away at most.
  pub next_batch_increase :
      (c.current_batch ≤ℤ next_batch c increase)
      × (next_batch c increase ≤ℤ c.current_batch +ℤ c.step_up)
  unfolding next_batch
  next_batch_increase = rw add64-step_up (
      clamp_up c.current_batch (c.current_batch +ℤ c.step_up) c.min_batch_size c.max_batch_size
        v.min-le-batch v.batch-le-max (omega (int_laws, v.step_up_pos)))

  next_batch_decrease :
      (next_batch c decrease ≤ℤ c.current_batch)
      × (c.current_batch -ℤ c.step_down ≤ℤ next_batch c decrease)
  unfolding next_batch
  next_batch_decrease = rw sub64-step_down (
      clamp_down c.current_batch (c.current_batch -ℤ c.step_down) c.min_batch_size c.max_batch_size
        v.min-le-batch v.batch-le-max (omega (int_laws, v.step_down_pos)))

-- How a decision relates the batch before it and after it, for a controller with the given steps.
abbrev pub Tells : ℤ → ℤ → Decision → ℤ → ℤ → Type 0
Tells up down apply_increase before after = (before <ℤ after) × (after ≤ℤ before +ℤ up)
Tells up down apply_decrease before after = (after <ℤ before) × (before -ℤ down ≤ℤ after)
Tells up down _ before after = after ≡ before

apply_signal-Tells :
    (c : Controller) (sig : Signal)
    → IsValid c
    → Fits c
    → sig ≢ hold
    → Tells c.step_up c.step_down
        (apply_signal c sig).1
        c.current_batch
        (apply_signal c sig).0.current_batch
unfolding apply_signal batch_changed applied_decision clamped_decision_for_signal
apply_signal-Tells c hold v f h = absurd (h refl)
apply_signal-Tells c increase v f h = ground (
  arith,
  next_batch_increase c v f,
  ltb_ℤ→lt c.current_batch (next_batch c increase),
  ltb_ℤ→ge c.current_batch (next_batch c increase),
  eq_of_parts (next_batch c increase) c.current_batch,
)
apply_signal-Tells c decrease v f h = ground (
  arith,
  next_batch_decrease c v f,
  ltb_ℤ→lt (next_batch c decrease) c.current_batch,
  ltb_ℤ→ge (next_batch c decrease) c.current_batch,
  eq_of_parts (next_batch c decrease) c.current_batch,
)

-- What the adaptive steps leave alone.
abbrev pub Kept : Controller → Controller → Type 0
Kept c d =
    (d.min_batch_size ≡ c.min_batch_size)
    × (d.max_batch_size ≡ c.max_batch_size)
    × (d.step_up ≡ c.step_up)
    × (d.step_down ≡ c.step_down)
    × (d.current_batch ≡ c.current_batch)

pub Fits-Kept : (c d : Controller) → Kept c d → Fits c → Fits d
Fits-Kept c d k f = record { up = rw (k.1, k.2) f.up; down = rw (k.0, k.3) f.down }

pub bump_streak-Kept : (c : Controller) (sig : Signal) → Kept c (bump_streak c sig)
unfolding bump_streak
bump_streak-Kept c sig = ground arith

pub drop_saturation-Kept : (c : Controller) (sig : Signal) → Kept c (drop_saturation c sig)
unfolding drop_saturation
drop_saturation-Kept c sig = ground arith

pub tick_cooldown-Kept : (b : Bool) (c : Controller) → Kept c (tick_cooldown b c)
unfolding tick_cooldown
tick_cooldown-Kept b c = ground arith

pub resolve_telemetry_state-Kept :
    (c : Controller) (inputs : Inputs) → Kept c (resolve_telemetry_state c inputs).0
unfolding resolve_telemetry_state observe_stale observe_valid
resolve_telemetry_state-Kept c inputs = ground arith

module _ (c : Controller) (sig : Signal) (v : IsValid c) (f : Fits c) where
  pursue-Tells :
      sig ≢ hold
      → Tells c.step_up c.step_down (pursue c sig).1 c.current_batch (pursue c sig).0.current_batch
  unfolding pursue clamped_decision_for_signal
  pursue-Tells h = ground (arith, apply_signal-Tells c sig v f h)

-- `Tells` from a state that differs in the control fields alone.
Tells-Kept :
    (c d : Controller) (dec : Decision) (after : ℤ)
    → Kept c d
    → Tells d.step_up d.step_down dec d.current_batch after
    → Tells c.step_up c.step_down dec c.current_batch after
Tells-Kept c d dec after k t = rw (k.2, k.3, k.4) at t

act_on-Tells :
    (c : Controller) (sig : Signal)
    → IsValid c
    → Fits c
    → Tells c.step_up c.step_down (act_on c sig).1 c.current_batch (act_on c sig).0.current_batch
unfolding act_on
act_on-Tells c hold v f = refl
act_on-Tells c increase v f =
    let k = bump_streak-Kept c increase in
    Tells-Kept c (bump_streak c increase) _ _ k (
      pursue-Tells (bump_streak c increase) increase (bump_streak-IsValid c increase v)
        (Fits-Kept c _ k f) (λ e. cc))
act_on-Tells c decrease v f =
    let k = bump_streak-Kept c decrease in
    Tells-Kept c (bump_streak c decrease) _ _ k (
      pursue-Tells (bump_streak c decrease) decrease (bump_streak-IsValid c decrease v)
        (Fits-Kept c _ k f) (λ e. cc))

resolve_adaptive-Tells :
    (c : Controller) (inputs : Inputs) (sig : Signal)
    → IsValid c
    → Fits c
    → Tells c.step_up c.step_down
        (resolve_adaptive c inputs sig).1
        c.current_batch
        (resolve_adaptive c inputs sig).0.current_batch
unfolding resolve_adaptive
resolve_adaptive-Tells c inputs sig v f =
    let d = drop_saturation c sig in
    let k = drop_saturation-Kept c sig in
    elim (Bool-cases (blocked_by_cooldown c inputs sig)) [
      | inl e ↦
          rw (e, (tick_cooldown-Kept false (bump_streak d sig)).4, (bump_streak-Kept d sig).4, k.4)
            refl
      | inr e ↦
          rw (e, (tick_cooldown-Kept (act_on d sig).2 (act_on d sig).0).4)
            (Tells-Kept c d _ _ k
              (act_on-Tells d sig (drop_saturation-IsValid c sig v) (Fits-Kept c d k f)))
    ]

explain_hold-Tells :
    (t : TelemetryState) (dec : Decision) (up down before after : ℤ)
    → Tells up down dec before after
    → Tells up down (explain_hold t dec) before after
unfolding explain_hold
explain_hold-Tells t dec up down before after h = ground arith

-- The controller that decides, after the telemetry.
resolve_rest-Tells :
    (c : Controller) (inputs : Inputs) (t : TelemetryState) (o : OverrideState)
    → IsValid c
    → Fits c
    → o ≢ manual_hold
    → Tells c.step_up c.step_down
        (resolve_rest c inputs t o).1.decision
        c.current_batch
        (resolve_rest c inputs t o).0.current_batch
unfolding resolve_rest report
resolve_rest-Tells c inputs t manual_hold v f h = absurd (h refl)
resolve_rest-Tells c inputs t release_hold v f h =
    unfold resolve_release reset_adaptive_control_state in ground arith
resolve_rest-Tells c inputs t auto v f h =
    elim (Bool-cases (ltb_ℤ (pos 0) c.policy_activation_left)) [
      | inl e ↦ rw e (unfold resolve_activation reset_adaptive_control_state in refl)
      | inr e ↦
          rw e (
            explain_hold-Tells t _ c.step_up c.step_down _ _
              (resolve_adaptive-Tells c inputs _ v f))
    ]

resolve_rest-reports :
    (c : Controller) (inputs : Inputs) (t : TelemetryState) (o : OverrideState)
    → ((resolve_rest c inputs t o).1.batch_before ≡ c.current_batch)
      × ((resolve_rest c inputs t o).1.batch_after ≡ (resolve_rest c inputs t o).0.current_batch)
unfolding resolve_rest report
resolve_rest-reports c inputs t o = ground arith

not_manual :
    (c : Controller) → c.operator_override_batch ≤ℤ pos 0 → resolve_override_state c ≢ manual_hold
unfolding resolve_override_state
not_manual c h e = ground (arith, ltb_ℤ→lt (pos 0) c.operator_override_batch)

pub telemetry_keeps_override :
    (c : Controller) (inputs : Inputs)
    → (resolve_telemetry_state c inputs).0.operator_override_batch ≡ c.operator_override_batch
unfolding resolve_telemetry_state observe_stale observe_valid
telemetry_keeps_override c inputs = ground arith

-- With no operator override, a tick of a valid controller whose next batch fits an int reports the
-- batch before it and after it; an applied increase or decrease moved the batch that way, by one
-- step at most, and any other decision left the batch unchanged.
pub resolve-Tells :
    (c : Controller) (inputs : Inputs)
    → IsValid c
    → Fits c
    → c.operator_override_batch ≤ℤ pos 0
    → let (c', d) = resolve c inputs in
      (d.batch_before ≡ c.current_batch)
      × (d.batch_after ≡ c'.current_batch)
      × Tells c.step_up c.step_down d.decision c.current_batch c'.current_batch
unfolding resolve
resolve-Tells c inputs v f h =
    let c1 = (resolve_telemetry_state c inputs).0 in
    let t = (resolve_telemetry_state c inputs).1 in
    let k = resolve_telemetry_state-Kept c inputs in
    let o = resolve_override_state c1 in
    let r = resolve_rest-reports c1 inputs t o in
    (
      r.0 ∙ k.4,
      r.1,
      Tells-Kept c c1 _ _ k (
          resolve_rest-Tells c1 inputs t o (resolve_telemetry_state-IsValid c inputs v)
            (Fits-Kept c c1 k f) (not_manual c1 (rw (telemetry_keeps_override c inputs) h))),
    )
