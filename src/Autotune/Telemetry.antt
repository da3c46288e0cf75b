-- ===== src/Autotune/Telemetry.antt =====
-- autotune.go: `resolveTelemetryState`. Head and cursor signals that are missing or inverted for
-- some ticks put the controller on its fallback; valid ticks take it off again.
use multichain_indexer.Prelude.{if◌then◌else◌, pos, ltb_ℤ, leb_ℤ, add64, Bool, ◌&&◌, ◌||◌, not}
use multichain_indexer.Autotune.Types.{
  Inputs, TelemetryState, healthy, stale_fallback, recovery_hold, Controller,
}

unfoldable pub has_lag_telemetry : Inputs → Bool
has_lag_telemetry inputs = inputs.has_head_signal && inputs.has_min_cursor_signal

unfoldable pub telemetry_invalid : Inputs → Bool
unfolding has_lag_telemetry
telemetry_invalid inputs =
    not (has_lag_telemetry inputs) || ltb_ℤ inputs.head_sequence inputs.min_cursor_sequence

-- The body of `if telemetryInvalid { … }`.
unfoldable pub observe_stale : Controller → Controller × TelemetryState
observe_stale c =
    let observed = add64 c.telemetry_stale_observed (pos 1) in
    let fallback = c.telemetry_fallback || leb_ℤ c.telemetry_stale_ticks observed in
    (
      record c {
        telemetry_stale_observed = observed;
        telemetry_recovery_seen = pos 0;
        telemetry_fallback = fallback;
      },
      if fallback then stale_fallback else healthy,
    )

-- What follows it, for a tick whose telemetry is valid.
unfoldable pub observe_valid : Controller → Controller × TelemetryState
observe_valid c =
    let seen = add64 c.telemetry_recovery_seen (pos 1) in
    let recovered = leb_ℤ c.telemetry_recovery_ticks seen in
    if not c.telemetry_fallback
    then (record c { telemetry_stale_observed = pos 0; telemetry_recovery_seen = pos 0 }, healthy)
    else (
      record c {
        telemetry_stale_observed = pos 0;
        telemetry_recovery_seen = if recovered then pos 0 else seen;
        telemetry_fallback = not recovered;
      },
      recovery_hold,
    )

unfoldable pub resolve_telemetry_state : Controller → Inputs → Controller × TelemetryState
resolve_telemetry_state c inputs =
    let armed = record c { telemetry_armed = has_lag_telemetry inputs || c.telemetry_armed } in
    if not armed.telemetry_armed
    then (armed, healthy)
    else if telemetry_invalid inputs
    then observe_stale armed
    else observe_valid armed
