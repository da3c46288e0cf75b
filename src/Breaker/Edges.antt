-- ===== src/Breaker/Edges.antt =====
-- breaker.go: the states that a breaker goes through, under any row of calls.
use multichain_indexer.Prelude.{
  if◌then◌else◌, ℤ, pos, ◌+ℤ◌, ◌≤ℤ◌, ◌<ℤ◌, leb_ℤ→gt, +ℤ_parts, InInt64, InInt64-between, add64,
  add64_of_InInt64, int_laws, ◌≡◌, [], ◌∷◌, arith,
}
use multichain_indexer.Breaker.{
  State, state_closed, state_open, state_half_open, Breaker, Changed, set_state, allow,
  record_success, record_failure, get_state, Call, calls_allow, calls_success, calls_failure,
  calls_get_state, step,
}

-- The edges of the machine.
pub data Edge : State → State → Type 0 where
  trips : Edge state_closed state_open
  probes : Edge state_open state_half_open
  recovers : Edge state_half_open state_closed
  relapses : Edge state_half_open state_open

-- Either nothing changed and nothing is told, or the state went along an edge and the callback,
-- where there is one, is told that edge once.
pub data Moved (b : Breaker) (after : Changed) : Type 0 where
  stayed : after.0.state ≡ b.state → after.1 ≡ [] → Moved b after
  went :
      Edge b.state after.0.state
      → after.1 ≡ (if b.on_state_change then (b.state, after.0.state) ∷ [] else [])
      → Moved b after

-- Every call leaves the state, with no callback, or takes one edge of the machine: closed to open,
-- open to half-open, half-open to closed or open; the callback is then told that edge, once.
pub step-Moved : (b : Breaker) (call : Call) → Moved b (step b call)
unfolding step allow record_success record_failure get_state set_state
step-Moved b (calls_allow now) = ground (arith, stayed, went, probes)
step-Moved b calls_success = ground (arith, stayed, went, recovers)
step-Moved b (calls_failure now) = ground (arith, stayed, went, trips, relapses)
step-Moved b (calls_get_state now) = ground (arith, stayed, went, probes)

-- What holds of a breaker between calls.
pub record IsValid (b : Breaker) : Type 0 where
  pub threshold_pos : pos 0 <ℤ b.failure_threshold
  pub success_pos : pos 0 <ℤ b.success_threshold
  pub threshold_int : InInt64 b.failure_threshold
  pub success_int : InInt64 b.success_threshold
  pub failures_closed :
      b.state ≡ state_closed → (pos 0 ≤ℤ b.failure_count) × (b.failure_count <ℤ b.failure_threshold)
  pub successes_half_open :
      b.state ≡ state_half_open
      → (pos 0 ≤ℤ b.success_count) × (b.success_count <ℤ b.success_threshold)

-- A count below an int goes up without wrapping.
pub count_up :
    (a hi : ℤ)
    → pos 0 ≤ℤ a
    → a <ℤ hi
    → InInt64 hi
    → (add64 a (pos 1) ≡ a +ℤ pos 1) × (pos 0 ≤ℤ a +ℤ pos 1)
count_up a hi l h r = (
  add64_of_InInt64 a (pos 1)
      (InInt64-between (pos 0) _ hi (ground arith) r (omega (int_laws, l)) (omega (int_laws, h))),
  omega (int_laws, l),
)

-- A closed breaker has fewer failures than its threshold and a half-open one fewer successes than
-- its own, after every call.
pub step-IsValid : (b : Breaker) (call : Call) → IsValid b → IsValid (step b call).0
unfolding step allow record_success record_failure get_state set_state
step-IsValid b (calls_allow now) v = ground arith
step-IsValid b calls_success v = ground (
  arith,
  count_up b.success_count b.success_threshold,
  +ℤ_parts b.success_count (pos 1),
  leb_ℤ→gt b.success_threshold (add64 b.success_count (pos 1)),
)
step-IsValid b (calls_failure now) v = ground (
  arith,
  count_up b.failure_count b.failure_threshold,
  +ℤ_parts b.failure_count (pos 1),
  leb_ℤ→gt b.failure_threshold (add64 b.failure_count (pos 1)),
)
step-IsValid b (calls_get_state now) v = ground arith
