-- ===== src/Autotune/Signals.antt =====
-- autotune.go: how one tick's inputs become a signal, and the tests on signals.
use multichain_indexer.Prelude.{if◌then◌else◌, ℤ, pos, leb_ℤ, sub64, Bool, false, ◌&&◌, ◌||◌}
use multichain_indexer.Autotune.Types.{
  Inputs, Signal, hold, increase, decrease, Decision, stay, clamped_increase, clamped_decrease,
  eq_signal, Controller,
}
use multichain_indexer.Autotune.Clamp.{floor_zero, is_queue_high, is_queue_low}

abbrev pub rpc_error_rate_high_watermark_bps : ℤ
rpc_error_rate_high_watermark_bps = pos 250

abbrev pub commit_latency_p95_high_watermark_ms : ℤ
commit_latency_p95_high_watermark_ms = pos 250

unfoldable pub lag_of : Inputs → ℤ
unfolding floor_zero
lag_of inputs =
    if inputs.has_head_signal && inputs.has_min_cursor_signal
    then floor_zero (sub64 inputs.head_sequence inputs.min_cursor_sequence)
    else pos 0

unfoldable pub is_saturated_boundary : Controller → Signal → Bool
is_saturated_boundary c increase = leb_ℤ c.max_batch_size c.current_batch
is_saturated_boundary c decrease = leb_ℤ c.current_batch c.min_batch_size
is_saturated_boundary c hold = false

unfoldable pub clamped_decision_for_signal : Signal → Decision
clamped_decision_for_signal increase = clamped_increase
clamped_decision_for_signal decrease = clamped_decrease
clamped_decision_for_signal hold = stay

unfoldable pub is_opposite_signal : Signal → Signal → Bool
is_opposite_signal increase last_applied = eq_signal last_applied decrease
is_opposite_signal decrease last_applied = eq_signal last_applied increase
is_opposite_signal hold last_applied = false

unfoldable pub is_critical_chain_scoped_signal : Signal → Inputs → Bool
is_critical_chain_scoped_signal decrease inputs =
    leb_ℤ rpc_error_rate_high_watermark_bps inputs.rpc_error_rate_bps
    || leb_ℤ commit_latency_p95_high_watermark_ms inputs.db_commit_latency_p95_ms
is_critical_chain_scoped_signal _ inputs = false

unfoldable pub classify_signal : Controller → Inputs → ℤ → Signal
unfolding is_queue_high is_queue_low
classify_signal c inputs lag_sequence =
    if leb_ℤ rpc_error_rate_high_watermark_bps inputs.rpc_error_rate_bps
    then decrease
    else if leb_ℤ commit_latency_p95_high_watermark_ms inputs.db_commit_latency_p95_ms
    then decrease
    else if is_queue_high inputs.queue_depth inputs.queue_capacity c.queue_high_watermark_pct
    then decrease
    else if inputs.has_head_signal
        && inputs.has_min_cursor_signal
        && leb_ℤ c.lag_high_watermark lag_sequence
    then increase
    else if inputs.has_head_signal
        && inputs.has_min_cursor_signal
        && leb_ℤ lag_sequence c.lag_low_watermark
        && is_queue_low inputs.queue_depth inputs.queue_capacity c.queue_low_watermark_pct
    then decrease
    else hold
