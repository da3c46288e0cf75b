-- ===== src/Autotune/Cooldown.antt =====
-- autotune.go: the ticks that follow an applied increase.
use mathlib.Core.Path.{subst}
use multichain_indexer.Prelude.{
  Bool-cases, All, length, ℤ, pos, ◌-ℤ◌, ◌≤ℤ◌, lt→ltb_ℤ, ge→ltb_ℤ, le_of_eq_ℤ, wrap64, InInt64,
  sub64, ℕ, suc, ◌≡◌, refl, sym, ◌∙◌, ◌≢◌, inl, inr, Bool, true, false, List, [], ◌∷◌, arith,
}
use multichain_indexer.Autotune.Types.{
  Inputs, Signal, hold, increase, decrease, TelemetryState, auto, Controller,
}
use multichain_indexer.Autotune.Telemetry.{observe_stale, observe_valid, resolve_telemetry_state}
use multichain_indexer.Autotune.Signals.{is_opposite_signal, is_critical_chain_scoped_signal}
use multichain_indexer.Autotune.Resolve.{
  resolve_override_state, report, blocked_by_cooldown, drop_saturation, bump_streak, apply_signal,
  pursue, act_on, tick_cooldown, signal_of, resolve_adaptive, resolve_rest, resolve,
}
use multichain_indexer.Autotune.Bounds.{
  IsValid, resolve_telemetry_state-IsValid, bump_streak-IsValid, drop_saturation-IsValid,
  resolve-IsValid,
}
use multichain_indexer.Autotune.Truth.{
  Fits, next_batch_increase, Fits-Kept, bump_streak-Kept, drop_saturation-Kept, tick_cooldown-Kept,
  resolve_telemetry_state-Kept,
}
use multichain_indexer.Autotune.Holds.{ticks}

-- No override, no release hold and no policy hold is on.
pub record IsAdaptive (c : Controller) : Type 0 where
  pub no_override : c.operator_override_batch ≤ℤ pos 0
  pub no_release : c.override_release_left ≤ℤ pos 0
  pub no_activation : c.policy_activation_left ≤ℤ pos 0

-- The last change was an increase, and at least `k` ticks of its cooldown are left.
pub record Cooling (k : ℕ) (c : Controller) : Type 0 where
  pub last_up : c.last_applied ≡ increase
  pub left : pos k ≤ℤ c.cooldown_left
  pub ticks_above : pos k ≤ℤ c.cooldown_ticks
  pub left_fits : InInt64 c.cooldown_left
  pub ticks_fit : InInt64 c.cooldown_ticks

abbrev pub IsCalm : Inputs → Type 0
IsCalm inputs = is_critical_chain_scoped_signal decrease inputs ≡ false

count_down :
    (k : ℕ) (a : ℤ)
    → InInt64 a
    → pos (suc k) ≤ℤ a
    → (pos k ≤ℤ sub64 a (pos 1)) × InInt64 (sub64 a (pos 1))
unfolding sub64 ◌-ℤ◌ wrap64
count_down k a f h = ground arith

tick_cooldown-Cooling :
    (k : ℕ) (b : Bool) (c : Controller) → Cooling (suc k) c → Cooling k (tick_cooldown b c)
unfolding tick_cooldown
tick_cooldown-Cooling k b c h = ground (arith, count_down k c.cooldown_left h.left_fits h.left)

drop_saturation-Cooling :
    (k : ℕ) (c : Controller) (sig : Signal) → Cooling k c → Cooling k (drop_saturation c sig)
unfolding drop_saturation
drop_saturation-Cooling k c sig h = ground arith

bump_streak-Cooling :
    (k : ℕ) (c : Controller) (sig : Signal) → Cooling k c → Cooling k (bump_streak c sig)
unfolding bump_streak
bump_streak-Cooling k c sig h = ground arith

-- An increase that is applied starts the cooldown again.
pursue-Cooling : (k : ℕ) (c : Controller) → Cooling k c → Cooling k (pursue c increase).0
unfolding pursue apply_signal
pursue-Cooling k c h = ground arith

act_on-Cooling :
    (k : ℕ) (c : Controller) (sig : Signal)
    → sig ≢ decrease
    → Cooling k c
    → Cooling k (act_on c sig).0
unfolding act_on
act_on-Cooling k c hold n h = ground arith
act_on-Cooling k c increase n h = pursue-Cooling k _ (bump_streak-Cooling k c increase h)
act_on-Cooling k c decrease n h = absurd (n refl)

-- In the cooldown of an increase a calm decrease is blocked.
blocked :
    (k : ℕ) (c : Controller) (inputs : Inputs)
    → Cooling (suc k) c
    → IsCalm inputs
    → blocked_by_cooldown c inputs decrease ≡ true
unfolding blocked_by_cooldown is_opposite_signal
blocked k c inputs h calm =
    rw (calm, h.last_up, lt→ltb_ℤ (pos 0) c.cooldown_left (omega (arith, h.left))) refl

not_opposite :
    (c : Controller) (inputs : Inputs) (sig : Signal)
    → c.last_applied ≡ increase
    → sig ≢ decrease
    → blocked_by_cooldown c inputs sig ≡ false
unfolding blocked_by_cooldown is_opposite_signal
not_opposite c inputs hold e n = ground arith
not_opposite c inputs increase e n = rw e (ground arith)
not_opposite c inputs decrease e n = absurd (n refl)

act_on-up :
    (c : Controller) (sig : Signal)
    → IsValid c
    → Fits c
    → sig ≢ decrease
    → c.current_batch ≤ℤ (act_on c sig).0.current_batch
unfolding act_on pursue apply_signal
act_on-up c hold v f n = omega arith
act_on-up c increase v f n =
    let b = bump_streak c increase in
    let k = bump_streak-Kept c increase in
    ground (arith, k, next_batch_increase b (bump_streak-IsValid c increase v) (Fits-Kept c b k f))
act_on-up c decrease v f n = absurd (n refl)

-- A tick of the adaptive part in the cooldown of an increase: nothing but a decrease is acted on.
resolve_adaptive-Cooling_acts :
    (k : ℕ) (c : Controller) (inputs : Inputs) (sig : Signal)
    → IsValid c
    → Fits c
    → Cooling (suc k) c
    → sig ≢ decrease
    → Cooling k (resolve_adaptive c inputs sig).0
      × (c.current_batch ≤ℤ (resolve_adaptive c inputs sig).0.current_batch)
unfolding resolve_adaptive
resolve_adaptive-Cooling_acts k c inputs sig v f h n =
    let d = drop_saturation c sig in
    let kd = drop_saturation-Kept c sig in
    let a = act_on d sig in
    let up = act_on-up d sig (drop_saturation-IsValid c sig v) (Fits-Kept c d kd f) n in
    rw (not_opposite c inputs sig h.last_up n) (
      tick_cooldown-Cooling k a.2 a.0
          (act_on-Cooling (suc k) d sig n (drop_saturation-Cooling (suc k) c sig h)),
      omega (arith, up, le_of_eq_ℤ (sym kd.4), le_of_eq_ℤ (sym (tick_cooldown-Kept a.2 a.0).4)),
    )

-- A calm decrease is blocked.
resolve_adaptive-Cooling_blocks :
    (k : ℕ) (c : Controller) (inputs : Inputs)
    → Cooling (suc k) c
    → IsCalm inputs
    → Cooling k (resolve_adaptive c inputs decrease).0
      × (c.current_batch ≤ℤ (resolve_adaptive c inputs decrease).0.current_batch)
unfolding resolve_adaptive
resolve_adaptive-Cooling_blocks k c inputs h calm =
    let d = drop_saturation c decrease in
    let b = bump_streak d decrease in
    let e =
      (tick_cooldown-Kept false b).4
      ∙ (bump_streak-Kept d decrease).4
      ∙ (drop_saturation-Kept c decrease).4 in
    rw (blocked k c inputs h calm) (
      tick_cooldown-Cooling k false b
          (bump_streak-Cooling (suc k) d decrease (drop_saturation-Cooling (suc k) c decrease h)),
      le_of_eq_ℤ (sym e),
    )

resolve_adaptive-Cooling :
    (k : ℕ) (c : Controller) (inputs : Inputs) (sig : Signal)
    → IsValid c
    → Fits c
    → Cooling (suc k) c
    → IsCalm inputs
    → Cooling k (resolve_adaptive c inputs sig).0
      × (c.current_batch ≤ℤ (resolve_adaptive c inputs sig).0.current_batch)
resolve_adaptive-Cooling k c inputs hold v f h calm =
    resolve_adaptive-Cooling_acts k c inputs hold v f h (λ e. cc)
resolve_adaptive-Cooling k c inputs increase v f h calm =
    resolve_adaptive-Cooling_acts k c inputs increase v f h (λ e. cc)
resolve_adaptive-Cooling k c inputs decrease v f h calm =
    resolve_adaptive-Cooling_blocks k c inputs h calm

-- The fields that decide between the four returns of `Resolve`, and the settings.
abbrev Steady : Controller → Controller → Type 0
Steady c d =
    (d.operator_override_batch ≡ c.operator_override_batch)
    × (d.override_release_left ≡ c.override_release_left)
    × (d.policy_activation_left ≡ c.policy_activation_left)
    × (d.min_batch_size ≡ c.min_batch_size)
    × (d.max_batch_size ≡ c.max_batch_size)
    × (d.step_up ≡ c.step_up)
    × (d.step_down ≡ c.step_down)

telemetry-Steady :
    (c : Controller) (inputs : Inputs) → Steady c (resolve_telemetry_state c inputs).0
unfolding resolve_telemetry_state observe_stale observe_valid
telemetry-Steady c inputs = ground arith

telemetry-Cooling :
    (k : ℕ) (c : Controller) (inputs : Inputs)
    → Cooling k c
    → Cooling k (resolve_telemetry_state c inputs).0
unfolding resolve_telemetry_state observe_stale observe_valid
telemetry-Cooling k c inputs h = ground arith

pursue-Steady : (c : Controller) (sig : Signal) → Steady c (pursue c sig).0
unfolding pursue apply_signal
pursue-Steady c sig = ground arith

bump_streak-Steady : (c : Controller) (sig : Signal) → Steady c (bump_streak c sig)
unfolding bump_streak
bump_streak-Steady c sig = ground arith

act_on-Steady : (c : Controller) (sig : Signal) → Steady c (act_on c sig).0
unfolding act_on
act_on-Steady c hold = ground arith
act_on-Steady c increase =
    ground (arith, bump_streak-Steady c increase, pursue-Steady (bump_streak c increase) increase)
act_on-Steady c decrease =
    ground (arith, bump_streak-Steady c decrease, pursue-Steady (bump_streak c decrease) decrease)

drop_saturation-Steady : (c : Controller) (sig : Signal) → Steady c (drop_saturation c sig)
unfolding drop_saturation
drop_saturation-Steady c sig = ground arith

tick_cooldown-Steady : (b : Bool) (c : Controller) → Steady c (tick_cooldown b c)
unfolding tick_cooldown
tick_cooldown-Steady b c = ground arith

Steady-trans : (c d e : Controller) → Steady c d → Steady d e → Steady c e
Steady-trans c d e p q = ground arith

resolve_adaptive-Steady :
    (c : Controller) (inputs : Inputs) (sig : Signal) → Steady c (resolve_adaptive c inputs sig).0
unfolding resolve_adaptive
resolve_adaptive-Steady c inputs sig =
    let d = drop_saturation c sig in
    let kd = drop_saturation-Steady c sig in
    let b = bump_streak d sig in
    let a = act_on d sig in
    elim (Bool-cases (blocked_by_cooldown c inputs sig)) [
      | inl e ↦ rw e (
          Steady-trans c d (tick_cooldown false b) kd (
            Steady-trans d b (tick_cooldown false b) (bump_streak-Steady d sig)
              (tick_cooldown-Steady false b)))
      | inr e ↦ rw e (
          Steady-trans c d (tick_cooldown a.2 a.0) kd (
            Steady-trans d a.0 (tick_cooldown a.2 a.0) (act_on-Steady d sig)
              (tick_cooldown-Steady a.2 a.0)))
    ]

adaptive_auto : (c : Controller) → IsAdaptive c → resolve_override_state c ≡ auto
unfolding resolve_override_state
adaptive_auto c a =
    rw (ge→ltb_ℤ (pos 0) c.operator_override_batch a.no_override)
      (rw (ge→ltb_ℤ (pos 0) c.override_release_left a.no_release) refl)

-- An adaptive state is left by no tick, and its batch is what the adaptive part computes.
resolve_rest_adaptive :
    (c : Controller) (inputs : Inputs) (t : TelemetryState)
    → IsAdaptive c
    → let d = (resolve_rest c inputs t (resolve_override_state c)).0 in
      let e = (resolve_adaptive c inputs (signal_of c inputs t)).0 in
      d ≡ record e { decision_sequence = d.decision_sequence }
unfolding resolve_rest report
resolve_rest_adaptive c inputs t a =
    rw (adaptive_auto c a) (rw (ge→ltb_ℤ (pos 0) c.policy_activation_left a.no_activation) refl)

IsAdaptive-Steady : (c d : Controller) → Steady c d → IsAdaptive c → IsAdaptive d
IsAdaptive-Steady c d k a = ground arith

Fits-Steady : (c d : Controller) → Steady c d → Fits c → Fits d
Fits-Steady c d k f = record { up = rw (k.4, k.5) f.up; down = rw (k.3, k.6) f.down }

-- What one calm tick keeps of the cooldown of an increase.
record Calm (k : ℕ) (c : Controller) (d : Controller) : Type 0 where
  adaptive : IsAdaptive d
  fits : Fits d
  cooling : Cooling k d
  not_lower : c.current_batch ≤ℤ d.current_batch

Calm-numbered :
    (k : ℕ) (c e : Controller) (n : ℤ) → Calm k c e → Calm k c (record e { decision_sequence = n })
Calm-numbered k c e n h = record {
  adaptive = ground arith;
  fits = record { up = h.fits.up; down = h.fits.down };
  cooling = ground arith;
  not_lower = h.not_lower;
}

resolve-Calm :
    (k : ℕ) (c : Controller) (inputs : Inputs)
    → IsValid c
    → Fits c
    → IsAdaptive c
    → Cooling (suc k) c
    → IsCalm inputs
    → Calm k c (resolve c inputs).0
unfolding resolve
resolve-Calm k c inputs v f a h calm =
    let c1 = (resolve_telemetry_state c inputs).0 in
    let t = (resolve_telemetry_state c inputs).1 in
    let s1 = telemetry-Steady c inputs in
    let sig = signal_of c1 inputs t in
    let e = (resolve_adaptive c1 inputs sig).0 in
    let a1 = IsAdaptive-Steady c c1 s1 a in
    let f1 = Fits-Steady c c1 s1 f in
    let s2 = resolve_adaptive-Steady c1 inputs sig in
    let q =
      resolve_adaptive-Cooling k c1 inputs sig (resolve_telemetry_state-IsValid c inputs v) f1
        (telemetry-Cooling (suc k) c inputs h) calm in
    let calm_e : Calm k c e = record {
      adaptive = IsAdaptive-Steady c1 e s2 a1;
      fits = Fits-Steady c1 e s2 f1;
      cooling = q.0;
      not_lower = omega (arith, q.1, le_of_eq_ℤ (sym (resolve_telemetry_state-Kept c inputs).4));
    } in
    subst (Calm k c) (sym (resolve_rest_adaptive c1 inputs t a1)) (
      Calm-numbered k c e
        ((resolve_rest c1 inputs t (resolve_override_state c1)).0.decision_sequence) calm_e)

-- With at least as many ticks of an increase's cooldown left as there are inputs, and no input
-- critical, the adaptive controller never goes below the batch that it has.
pub ticks-Cooling :
    (c : Controller) (inputs : List Inputs)
    → IsValid c
    → Fits c
    → IsAdaptive c
    → Cooling (length inputs) c
    → All IsCalm inputs
    → c.current_batch ≤ℤ (ticks c inputs).current_batch
unfolding ticks
ticks-Cooling c [] v f a h calm = omega arith
ticks-Cooling c (i ∷ rest) v f a h calm =
    let s = resolve-Calm (length rest) c i v f a h calm.0 in
    let later =
      ticks-Cooling (resolve c i).0 rest (resolve-IsValid c i v) s.fits s.adaptive s.cooling
        calm.1 in
    omega (arith, s.not_lower, later)
