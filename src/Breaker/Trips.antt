-- ===== src/Breaker/Trips.antt =====
-- breaker.go: when a breaker opens, and how long it stays open.
use multichain_indexer.Prelude.{
  All, length, ℤ, pos, negsuc, ◌+ℤ◌, ◌-ℤ◌, ◌≤ℤ◌, ◌<ℤ◌, ltb_ℤ→lt, leb_ℤ→le, ge→ltb_ℤ, +ℤ_parts,
  -ℤ_parts, InInt64, ℕ, suc, ◌-◌, ◌^◌, ◌≡◌, ◌⊎◌, Bool, false, List, [], ◌∷◌, arith,
}
use multichain_indexer.Breaker.{
  state_closed, state_open, Breaker, since, set_state, timed_out, allow, record_success,
  record_failure, get_state, Call, calls_allow, calls_success, calls_failure, calls_get_state, step,
  run,
}
use multichain_indexer.Breaker.Edges.{IsValid, count_up, step-IsValid}

-- A row of failures at the given times.
abbrev pub failures : List ℤ → List Call
failures [] = []
failures (t ∷ ts) = calls_failure t ∷ failures ts

abbrev Counted : Breaker → ℕ → Breaker → Type 0
Counted b n after =
    (b.failure_count +ℤ pos n <ℤ b.failure_threshold → after.state ≡ state_closed)
    × (b.failure_threshold ≤ℤ b.failure_count +ℤ pos n → after.state ≡ state_open)

open_stays :
    (b : Breaker) (ts : List ℤ) → b.state ≡ state_open → (run b (failures ts)).state ≡ state_open
unfolding run step
open_stays b [] o = o
open_stays b (t ∷ ts) o =
    open_stays (record_failure b t).0 ts (unfold record_failure set_state in ground arith)

-- One failure of a closed breaker.
one_failure :
    (b : Breaker) (t : ℤ)
    → IsValid b
    → b.state ≡ state_closed
    → let after = (record_failure b t).0 in
      (after.state ≡ state_open) × (b.failure_threshold ≤ℤ b.failure_count +ℤ pos 1)
      ⊎ (after.state ≡ state_closed)
        × (after.failure_threshold ≡ b.failure_threshold)
        × (after.failure_count ≡ b.failure_count +ℤ pos 1)
unfolding record_failure set_state
one_failure b t v c = ground (
  arith,
  count_up b.failure_count b.failure_threshold,
  leb_ℤ→le b.failure_threshold (b.failure_count +ℤ pos 1),
)

-- From closed, a row of failures in succession leaves a valid breaker closed while it is short of
-- the threshold, and open once it has reached it.
pub run-failures :
    (b : Breaker) (ts : List ℤ)
    → IsValid b
    → b.state ≡ state_closed
    → Counted b (length ts) (run b (failures ts))
unfolding run step
run-failures b [] v c = ground (arith, v.failures_closed c, +ℤ_parts b.failure_count (pos 0))
run-failures b (t ∷ ts) v c = ground (
  arith,
  v.failures_closed c,
  one_failure b t v c,
  step-IsValid b (calls_failure t) v,
  open_stays (record_failure b t).0 ts,
  run-failures (record_failure b t).0 ts,
  +ℤ_parts b.failure_count (pos 1),
  +ℤ_parts b.failure_count (pos (suc (length ts))),
  +ℤ_parts (record_failure b t).0.failure_count (pos (length ts)),
)

-- A call in the time from `t` to the end of the timeout after it.
abbrev pub During : ℤ → ℤ → Call → Type 0
During t timeout (calls_allow now) = (t ≤ℤ now) × (now ≤ℤ t +ℤ timeout)
During t timeout calls_success = Unit
During t timeout (calls_failure now) = (t ≤ℤ now) × (now ≤ℤ t +ℤ timeout)
During t timeout (calls_get_state now) = (t ≤ℤ now) × (now ≤ℤ t +ℤ timeout)

-- What an open breaker answers to the calls of `Allow` in a row.
unfoldable pub answers : Breaker → List Call → List Bool
answers b [] = []
answers b (calls_allow now ∷ calls) = (allow b now).1 ∷ answers (allow b now).0.0 calls
answers b (calls_success ∷ calls) = answers (record_success b).0 calls
answers b (calls_failure now ∷ calls) = answers (record_failure b now).0 calls
answers b (calls_get_state now ∷ calls) = answers (get_state b now).0 calls

abbrev Tripped : ℤ → ℤ → Breaker → Type 0
Tripped t timeout b = (b.state ≡ state_open) × (b.open_timeout ≡ timeout) × (t ≤ℤ b.last_failure_at)

not_timed_out :
    (t : ℤ) (b : Breaker) (now : ℤ)
    → InInt64 b.open_timeout
    → t ≤ℤ b.last_failure_at
    → now ≤ℤ t +ℤ b.open_timeout
    → timed_out b now ≡ false
unfolding timed_out since
not_timed_out t b now i l h = ground (
  arith,
  -ℤ_parts now b.last_failure_at,
  +ℤ_parts t b.open_timeout,
  ge→ltb_ℤ b.open_timeout (now -ℤ b.last_failure_at),
  ge→ltb_ℤ b.open_timeout (negsuc (2 ^ 63 - 1)),
  ltb_ℤ→lt (now -ℤ b.last_failure_at) (negsuc (2 ^ 63 - 1)),
  ltb_ℤ→lt (pos (2 ^ 63 - 1)) (now -ℤ b.last_failure_at),
)

step-Tripped :
    (t timeout : ℤ) (b : Breaker) (call : Call)
    → InInt64 timeout
    → Tripped t timeout b
    → During t timeout call
    → Tripped t timeout (step b call).0
unfolding step
step-Tripped t timeout b (calls_allow now) i o d =
    unfold allow in ground (arith, not_timed_out t b now)
step-Tripped t timeout b calls_success i o d = unfold record_success in ground arith
step-Tripped t timeout b (calls_failure now) i o d = unfold record_failure in ground arith
step-Tripped t timeout b (calls_get_state now) i o d =
    unfold get_state in ground (arith, not_timed_out t b now)

-- A breaker that a failure at t or later has opened answers no call with a pass at any time from t
-- to the end of its timeout after t, whatever else is recorded in that time.
pub answers_refuse :
    (t timeout : ℤ) (b : Breaker) (calls : List Call)
    → InInt64 timeout
    → Tripped t timeout b
    → All (During t timeout) calls
    → All (λ answer. answer ≡ false) (answers b calls)
unfolding answers allow step
answers_refuse t timeout b [] i o d = tt
answers_refuse t timeout b (calls_allow now ∷ calls) i o (d, ds) = (
  unfold allow in ground (arith, not_timed_out t b now),
  answers_refuse t timeout (allow b now).0.0 calls i
      (step-Tripped t timeout b (calls_allow now) i o d) ds,
)
answers_refuse t timeout b (calls_success ∷ calls) i o (d, ds) =
    answers_refuse t timeout (record_success b).0 calls i
      (step-Tripped t timeout b calls_success i o d) ds
answers_refuse t timeout b (calls_failure now ∷ calls) i o (d, ds) =
    answers_refuse t timeout (record_failure b now).0 calls i
      (step-Tripped t timeout b (calls_failure now) i o d) ds
answers_refuse t timeout b (calls_get_state now ∷ calls) i o (d, ds) =
    answers_refuse t timeout (get_state b now).0 calls i
      (step-Tripped t timeout b (calls_get_state now) i o d) ds
