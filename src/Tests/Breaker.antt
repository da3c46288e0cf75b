-- ===== src/Tests/Breaker.antt =====
-- The circuit breaker of internal/circuitbreaker on concrete calls.
use multichain_indexer.Prelude.{
  All, pos, ◌+ℤ◌, ◌-ℤ◌, ◌≤ℤ◌, ◌<ℤ◌, ltb_ℤ, leb_ℤ, wrap64, add64, ◌≡◌, refl, true, false, [], ◌∷◌,
  arith,
}
use multichain_indexer.Breaker.{
  state_closed, state_open, Breaker, Config, new, since, set_state, timed_out, allow,
  record_success, record_failure, calls_allow, calls_success, calls_failure, step, run,
}
use multichain_indexer.Breaker.Edges.{Moved, step-Moved, IsValid, step-IsValid}
use multichain_indexer.Breaker.Trips.{failures, run-failures, answers, answers_refuse}

abbrev two_failures : Config
two_failures = record {
  failure_threshold = pos 2;
  success_threshold = pos 0;
  open_timeout = pos 100;
  on_state_change = true;
}

abbrev fresh : Breaker
fresh = record {
  state = state_closed;
  failure_count = pos 0;
  success_count = pos 0;
  failure_threshold = pos 2;
  success_threshold = pos 2;
  open_timeout = pos 100;
  last_failure_at = pos 0;
  on_state_change = true;
}

fresh_built : new (pos 0) two_failures ≡ fresh
unfolding new leb_ℤ
fresh_built = refl

fresh-IsValid : IsValid fresh
fresh-IsValid = ground arith

-- Two failures open it; after the timeout a probe is let through and two successes close it.
recovers_after :
    (run fresh (
      calls_failure (pos 10)
      ∷ calls_failure (pos 20)
      ∷ calls_allow (pos 121)
      ∷ calls_success
      ∷ calls_success
      ∷ [])).state
    ≡ state_closed
unfolding run step allow record_failure record_success set_state timed_out since leb_ℤ ltb_ℤ ◌-ℤ◌
    ◌+ℤ◌ add64 wrap64
recovers_after = refl

step-Moved_example : Moved fresh (step fresh (calls_failure (pos 10)))
step-Moved_example = step-Moved fresh (calls_failure (pos 10))

step-IsValid_example : IsValid (step fresh (calls_failure (pos 10))).0
step-IsValid_example = step-IsValid fresh (calls_failure (pos 10)) fresh-IsValid

run-failures_example :
    let after = run fresh (failures (pos 10 ∷ pos 20 ∷ [])) in
    (pos 0 +ℤ pos 2 <ℤ pos 2 → after.state ≡ state_closed)
    × (pos 2 ≤ℤ pos 0 +ℤ pos 2 → after.state ≡ state_open)
run-failures_example = run-failures fresh (pos 10 ∷ pos 20 ∷ []) fresh-IsValid refl

abbrev tripped : Breaker
tripped = record fresh { state = state_open; failure_count = pos 2; last_failure_at = pos 20 }

answers_refuse_example :
    All
      (λ answer. answer ≡ false)
      (answers tripped (calls_allow (pos 30) ∷ calls_failure (pos 40) ∷ calls_allow (pos 120) ∷ []))
unfolding ◌+ℤ◌
answers_refuse_example =
    answers_refuse (pos 20) (pos 100) tripped
      (calls_allow (pos 30) ∷ calls_failure (pos 40) ∷ calls_allow (pos 120) ∷ []) (ground arith)
      (ground arith) (ground arith)
