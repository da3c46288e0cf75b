-- ===== src/Autotune/Holds.antt =====
-- autotune.go: rows of ticks under the operator's override.
use mathlib.Core.Path.{subst}
use multichain_indexer.Prelude.{
  ℤ, pos, ◌≤ℤ◌, ◌<ℤ◌, ltb_ℤ, lt→ltb_ℤ, ◌≡◌, refl, sym, List, [], ◌∷◌, arith,
}
use multichain_indexer.Autotune.Types.{
  Inputs, hold, manual_hold, hold_operator_override, Controller,
}
use multichain_indexer.Autotune.Clamp.{clamp_int}
use multichain_indexer.Autotune.Telemetry.{resolve_telemetry_state}
use multichain_indexer.Autotune.Resolve.{
  reset_adaptive_control_state, resolve_override_state, report, resolve_manual, resolve_rest,
  resolve,
}
use multichain_indexer.Autotune.Bounds.{IsValid, resolve_telemetry_state-IsValid, resolve-IsValid}
use multichain_indexer.Autotune.Truth.{telemetry_keeps_override}

-- The controller after a row of ticks.
unfoldable pub ticks : Controller → List Inputs → Controller
ticks c [] = c
ticks c (inputs ∷ rest) = ticks (resolve c inputs).0 rest

clamp_int_self : (v lo hi : ℤ) → lo ≤ℤ v → v ≤ℤ hi → clamp_int v lo hi ≡ v
unfolding clamp_int ltb_ℤ
clamp_int_self v lo hi h k = ground arith

-- What holds of a state in which the override has just been put in place.
abbrev Overridden : ℤ → Controller → Type 0
Overridden b c =
    (c.operator_override_batch ≡ b)
    × (c.current_batch ≡ b)
    × (c.cooldown_left ≡ pos 0)
    × (c.last_applied ≡ hold)
    × (c.last_signal ≡ hold)
    × (c.saturation_signal ≡ hold)
    × (c.streak ≡ pos 0)

resolve_manual-Overridden :
    (c : Controller)
    → IsValid c
    → pos 0 <ℤ c.operator_override_batch
    → Overridden c.operator_override_batch (resolve_manual c)
unfolding resolve_manual reset_adaptive_control_state
resolve_manual-Overridden c v h = (
  refl,
  clamp_int_self _ _ _ (v.override_in h).0 (v.override_in h).1,
  refl,
  refl,
  refl,
  refl,
  refl,
)

resolve_override_state_manual :
    (c : Controller) → pos 0 <ℤ c.operator_override_batch → resolve_override_state c ≡ manual_hold
unfolding resolve_override_state
resolve_override_state_manual c h = rw (lt→ltb_ℤ (pos 0) c.operator_override_batch h)

resolve-Overridden :
    (c : Controller) (inputs : Inputs)
    → IsValid c
    → pos 0 <ℤ c.operator_override_batch
    → Overridden c.operator_override_batch (resolve c inputs).0
unfolding resolve resolve_rest report
resolve-Overridden c inputs v h =
    let c1 = (resolve_telemetry_state c inputs).0 in
    let e = telemetry_keeps_override c inputs in
    let h1 : pos 0 <ℤ c1.operator_override_batch = subst (λ b. pos 0 <ℤ b) (sym e) h in
    let o = resolve_manual-Overridden c1 (resolve_telemetry_state-IsValid c inputs v) h1 in
    rw (resolve_override_state_manual c1 h1) (
      subst
        (λ b.
          Overridden b
            (report (resolve_manual c1) inputs
              (record {
                telemetry = (resolve_telemetry_state c inputs).1;
                override = manual_hold;
                before = c1.current_batch;
              })
              hold hold_operator_override c1.override_release_left c1.policy_activation_left).0)
        e o)

-- While the operator's batch is set, every tick of a valid controller puts it in place, whatever
-- the ticks see, and leaves no adaptive state behind: no cooldown, no streak, and a hold as the
-- last change, the last signal and the saturation signal.
pub ticks-Overridden :
    (c : Controller) (inputs : Inputs) (rest : List Inputs)
    → IsValid c
    → pos 0 <ℤ c.operator_override_batch
    → let d = ticks c (inputs ∷ rest) in
      (d.operator_override_batch ≡ c.operator_override_batch)
      × (d.current_batch ≡ c.operator_override_batch)
      × (d.cooldown_left ≡ pos 0)
      × (d.last_applied ≡ hold)
      × (d.last_signal ≡ hold)
      × (d.saturation_signal ≡ hold)
      × (d.streak ≡ pos 0)
unfolding ticks
ticks-Overridden c inputs [] v h = resolve-Overridden c inputs v h
ticks-Overridden c inputs (i ∷ rest) v h =
    let d = (resolve c inputs).0 in
    let e = (resolve-Overridden c inputs v h).0 in
    subst (λ b. Overridden b (ticks d (i ∷ rest))) e
      (ticks-Overridden d i rest (resolve-IsValid c inputs v) (subst (λ b. pos 0 <ℤ b) (sym e) h))
