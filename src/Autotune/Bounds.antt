-- ===== src/Autotune/Bounds.antt =====
-- autotune.go: the bounds that a controller keeps, from `new_with_seed_mode` through `resolve`.
use mathlib.Core.Path.{subst}
use multichain_indexer.Prelude.{
  Bool-cases, ℤ, pos, ◌≤ℤ◌, ◌<ℤ◌, ltb_ℤ, eqb_ℤ, ltb_ℤ→lt, ◌≡◌, inl, inr, Bool, ◌||◌, Option, some,
  arith,
}
use multichain_indexer.Autotune.Types.{
  Config, Inputs, Signal, hold, increase, decrease, TelemetryState, OverrideState, auto,
  manual_hold, release_hold, Decision, Controller,
}
use multichain_indexer.Autotune.Clamp.{
  clamp_int, min_int, max_int, positive_or, floor_zero, clamp_int_bounds, positive_or_pos,
  floor_zero_nonneg,
}
use multichain_indexer.Autotune.Resolve.{
  reset_adaptive_control_state, Observed, report, resolve_manual, resolve_release,
  resolve_activation, blocked_by_cooldown, drop_saturation, bump_streak, next_batch, apply_signal,
  pursue, act_on, tick_cooldown, resolve_adaptive, resolve_rest, resolve,
}
use multichain_indexer.Autotune.Telemetry.{
  has_lag_telemetry, observe_stale, observe_valid, resolve_telemetry_state,
}
use multichain_indexer.Autotune.Construct.{
  min_batch_of, max_batch_of, lag_low_of, queue_high_of, queue_low_of, hysteresis_of, cooldown_of,
  override_batch_of, start_batch_of, initial_controller, new_with_seed_mode,
}

-- What the source relies on between two calls.
pub record IsValid (c : Controller) : Type 0 where
  pub min_pos : pos 0 <ℤ c.min_batch_size
  pub min-le-batch : c.min_batch_size ≤ℤ c.current_batch
  pub batch-le-max : c.current_batch ≤ℤ c.max_batch_size
  pub step_up_pos : pos 0 <ℤ c.step_up
  pub step_down_pos : pos 0 <ℤ c.step_down
  pub lag_ordered : c.lag_low_watermark ≤ℤ c.lag_high_watermark
  pub queue_ordered : c.queue_low_watermark_pct ≤ℤ c.queue_high_watermark_pct
  pub queue_high_percent :
      (pos 1 ≤ℤ c.queue_high_watermark_pct) × (c.queue_high_watermark_pct ≤ℤ pos 100)
  pub hysteresis_pos : pos 0 <ℤ c.hysteresis_ticks
  pub cooldown_pos : pos 0 <ℤ c.cooldown_ticks
  pub override_in :
      pos 0 <ℤ c.operator_override_batch
      → (c.min_batch_size ≤ℤ c.operator_override_batch)
        × (c.operator_override_batch ≤ℤ c.max_batch_size)

min_batch_of_pos : (cfg : Config) → pos 0 <ℤ min_batch_of cfg
unfolding min_batch_of
min_batch_of_pos cfg = positive_or_pos cfg.min_batch_size (pos 1) (omega arith)

min-le-max_batch_of : (b : ℤ) (cfg : Config) → min_batch_of cfg ≤ℤ max_batch_of b cfg
unfolding max_batch_of max_int ltb_ℤ
min-le-max_batch_of b cfg = ground arith

abbrev Within : ℤ → ℤ → ℤ → Type 0
Within lo hi v = (lo ≤ℤ v) × (v ≤ℤ hi)

positive_or-Within : (lo hi v : ℤ) → lo ≤ℤ hi → Within lo hi v → Within lo hi (positive_or v lo)
unfolding positive_or
positive_or-Within lo hi v h w = ground arith

clamp_int-Within : (v lo hi : ℤ) → lo ≤ℤ hi → Within lo hi (clamp_int v lo hi)
clamp_int-Within v lo hi h = clamp_int_bounds v lo hi h

module _ (base : ℤ) (cfg : Config) where
  override_batch_of-Within :
      pos 0 <ℤ override_batch_of base cfg
      → Within (min_batch_of cfg) (max_batch_of base cfg) (override_batch_of base cfg)
  unfolding override_batch_of
  override_batch_of-Within h = elim (Bool-cases (ltb_ℤ (pos 0) cfg.operator_override_batch_size)) [
    | inl e ↦ rw e (clamp_int-Within _ _ _ (min-le-max_batch_of base cfg))
    | inr e ↦ absurd (omega (arith, rw (e, override_batch_of) at h))
  ]

  start_batch_of-Within :
      (seed : Option ℤ) (bounded : Bool)
      → Within (min_batch_of cfg) (max_batch_of base cfg) (start_batch_of base cfg seed bounded)
  unfolding start_batch_of
  start_batch_of-Within seed bounded =
      elim (Bool-cases (ltb_ℤ (pos 0) (override_batch_of base cfg))) [
        | inl e ↦ rw e (override_batch_of-Within (ltb_ℤ→lt _ _ e))
        | inr e ↦ rw e (
            positive_or-Within _ _ _ (min-le-max_batch_of base cfg)
              (clamp_int-Within _ _ _ (min-le-max_batch_of base cfg)))
      ]

lag_low_of_le : (cfg : Config) → lag_low_of cfg ≤ℤ floor_zero cfg.lag_high_watermark
unfolding lag_low_of ltb_ℤ
lag_low_of_le cfg = ground arith

queue_high_of_percent :
    (cfg : Config) → (pos 1 ≤ℤ queue_high_of cfg) × (queue_high_of cfg ≤ℤ pos 100)
unfolding queue_high_of
queue_high_of_percent cfg =
    ground (arith, clamp_int_bounds cfg.queue_high_watermark_pct (pos 1) (pos 100))

queue_low_of_le : (cfg : Config) → queue_low_of cfg ≤ℤ queue_high_of cfg
unfolding queue_low_of min_int ltb_ℤ
queue_low_of_le cfg = ground (
  arith,
  queue_high_of_percent cfg,
  clamp_int_bounds cfg.queue_low_watermark_pct (pos 0) (queue_high_of cfg),
)

cooldown_of_pos : (cfg : Config) → pos 0 <ℤ cooldown_of cfg
unfolding cooldown_of hysteresis_of eqb_ℤ
cooldown_of_pos cfg =
    ground
      (arith, positive_or_pos cfg.hysteresis_ticks (pos 2), floor_zero_nonneg cfg.cooldown_ticks)

initial_controller-IsValid :
    (base : ℤ) (cfg : Config) (seed : Option ℤ) (bounded : Bool)
    → IsValid (initial_controller base cfg seed bounded)
unfolding initial_controller
initial_controller-IsValid base cfg seed bounded = record {
  min_pos = min_batch_of_pos cfg;
  min-le-batch = (start_batch_of-Within base cfg seed bounded).0;
  batch-le-max = (start_batch_of-Within base cfg seed bounded).1;
  step_up_pos = positive_or_pos cfg.step_up (pos 1) (omega arith);
  step_down_pos = positive_or_pos cfg.step_down (pos 1) (omega arith);
  lag_ordered = lag_low_of_le cfg;
  queue_ordered = queue_low_of_le cfg;
  queue_high_percent = queue_high_of_percent cfg;
  hysteresis_pos = positive_or_pos cfg.hysteresis_ticks (pos 2) (omega arith);
  cooldown_pos = cooldown_of_pos cfg;
  override_in = override_batch_of-Within base cfg;
}

-- Whatever the configuration, the base batch and the seed are, the controller that is built
-- satisfies the invariant.
pub new_with_seed_mode-IsValid :
    (base : ℤ) (cfg : Config) (seed : Option ℤ) (bounded : Bool) {c : Controller}
    → new_with_seed_mode base cfg seed bounded ≡ some c
    → IsValid c
unfolding new_with_seed_mode
new_with_seed_mode-IsValid base cfg seed bounded {c} e =
    subst IsValid (ground (arith, e)) (initial_controller-IsValid base cfg seed bounded)

observe_stale-IsValid : (c : Controller) → IsValid c → IsValid (observe_stale c).0
unfolding observe_stale
observe_stale-IsValid c v = ground (arith, v.override_in)

observe_valid-IsValid : (c : Controller) → IsValid c → IsValid (observe_valid c).0
unfolding observe_valid
observe_valid-IsValid c v = ground (arith, v.override_in)

pub resolve_telemetry_state-IsValid :
    (c : Controller) (inputs : Inputs) → IsValid c → IsValid (resolve_telemetry_state c inputs).0
unfolding resolve_telemetry_state
resolve_telemetry_state-IsValid c inputs v =
    let armed = record c { telemetry_armed = has_lag_telemetry inputs || c.telemetry_armed } in
    ground (arith, v.override_in, observe_stale-IsValid armed, observe_valid-IsValid armed)

resolve_manual-IsValid : (c : Controller) → IsValid c → IsValid (resolve_manual c)
unfolding resolve_manual reset_adaptive_control_state
resolve_manual-IsValid c v = ground (
  arith,
  v.override_in,
  clamp_int_bounds c.operator_override_batch c.min_batch_size c.max_batch_size,
)

resolve_release-IsValid : (c : Controller) → IsValid c → IsValid (resolve_release c)
unfolding resolve_release reset_adaptive_control_state
resolve_release-IsValid c v = ground (arith, v.override_in)

next_batch-Within :
    (c : Controller) (sig : Signal)
    → IsValid c
    → Within c.min_batch_size c.max_batch_size (next_batch c sig)
unfolding next_batch
next_batch-Within c hold v = (v.min-le-batch, v.batch-le-max)
next_batch-Within c increase v = clamp_int-Within _ _ _ (omega arith)
next_batch-Within c decrease v = clamp_int-Within _ _ _ (omega arith)

-- A step of the adaptive part changes the batch, if at all, to a value between the bounds.
apply_signal-IsValid : (c : Controller) (sig : Signal) → IsValid c → IsValid (apply_signal c sig).0
unfolding apply_signal
apply_signal-IsValid c sig v = ground (arith, v.override_in, next_batch-Within c sig v)

pursue-IsValid : (c : Controller) (sig : Signal) → IsValid c → IsValid (pursue c sig).0
unfolding pursue
pursue-IsValid c sig v = ground (arith, v.override_in, apply_signal-IsValid c sig v)

pub bump_streak-IsValid : (c : Controller) (sig : Signal) → IsValid c → IsValid (bump_streak c sig)
unfolding bump_streak
bump_streak-IsValid c sig v = ground (arith, v.override_in)

pub act_on-IsValid : (c : Controller) (sig : Signal) → IsValid c → IsValid (act_on c sig).0
unfolding act_on
act_on-IsValid c hold v = ground (arith, v.override_in)
act_on-IsValid c increase v =
    pursue-IsValid (bump_streak c increase) increase (bump_streak-IsValid c increase v)
act_on-IsValid c decrease v =
    pursue-IsValid (bump_streak c decrease) decrease (bump_streak-IsValid c decrease v)

pub drop_saturation-IsValid :
    (c : Controller) (sig : Signal) → IsValid c → IsValid (drop_saturation c sig)
unfolding drop_saturation
drop_saturation-IsValid c sig v = ground (arith, v.override_in)

pub tick_cooldown-IsValid : (b : Bool) (c : Controller) → IsValid c → IsValid (tick_cooldown b c)
unfolding tick_cooldown
tick_cooldown-IsValid b c v = ground (arith, v.override_in)

pub resolve_adaptive-IsValid :
    (c : Controller) (inputs : Inputs) (sig : Signal)
    → IsValid c
    → IsValid (resolve_adaptive c inputs sig).0
unfolding resolve_adaptive
resolve_adaptive-IsValid c inputs sig v =
    let dropped = drop_saturation c sig in
    let w = drop_saturation-IsValid c sig v in
    elim (Bool-cases (blocked_by_cooldown c inputs sig)) [
      | inl e ↦ rw e (tick_cooldown-IsValid _ _ (bump_streak-IsValid dropped sig w))
      | inr e ↦ rw e (tick_cooldown-IsValid _ _ (act_on-IsValid dropped sig w))
    ]

report-IsValid :
    (c : Controller) (inputs : Inputs) (seen : Observed) (sig : Signal) (dec : Decision) (r a : ℤ)
    → IsValid c
    → IsValid (report c inputs seen sig dec r a).0
unfolding report
report-IsValid c inputs seen sig dec r a v = ground (arith, v.override_in)

resolve_activation-IsValid : (c : Controller) → IsValid c → IsValid (resolve_activation c)
unfolding resolve_activation reset_adaptive_control_state
resolve_activation-IsValid c v = ground (arith, v.override_in)

resolve_rest-IsValid :
    (c : Controller) (inputs : Inputs) (t : TelemetryState) (o : OverrideState)
    → IsValid c
    → IsValid (resolve_rest c inputs t o).0
unfolding resolve_rest
resolve_rest-IsValid c inputs t manual_hold v =
    report-IsValid _ _ _ _ _ _ _ (resolve_manual-IsValid c v)
resolve_rest-IsValid c inputs t release_hold v =
    report-IsValid _ _ _ _ _ _ _ (resolve_release-IsValid c v)
resolve_rest-IsValid c inputs t auto v =
    elim (Bool-cases (ltb_ℤ (pos 0) c.policy_activation_left)) [
      | inl e ↦ rw e (report-IsValid _ _ _ _ _ _ _ (resolve_activation-IsValid c v))
      | inr e ↦ rw e (report-IsValid _ _ _ _ _ _ _ (resolve_adaptive-IsValid c inputs _ v))
    ]

-- A tick of the controller keeps its invariant, on every return of Resolve: the batch stays
-- between the minimum, which is positive, and the maximum, the steps, the hysteresis and the
-- length of a cooldown stay positive, the watermarks of the lag and of the queue stay in order,
-- the queue's high one a percentage, and an operator's batch stays between the bounds.
pub resolve-IsValid : (c : Controller) (inputs : Inputs) → IsValid c → IsValid (resolve c inputs).0
unfolding resolve
resolve-IsValid c inputs v =
    resolve_rest-IsValid _ inputs _ _ (resolve_telemetry_state-IsValid c inputs v)
