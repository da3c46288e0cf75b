-- ===== src/Health/Status.antt =====
-- health.go: the status over rows of calls.
use multichain_indexer.Prelude.{
  if◌then◌else◌, length, ℤ, pos, ◌+ℤ◌, ◌≤ℤ◌, ◌<ℤ◌, leb_ℤ, leb_ℤ→le, leb_ℤ→gt, le→leb_ℤ, gt→leb_ℤ,
  +ℤ_parts, InInt64, InInt64-between, add64, add64_of_InInt64, int_laws, ℕ, suc, ◌+◌, ◌≡◌, refl,
  ◌≢◌, ◌⊎◌, inl, inr, true, false, List, [], ◌∷◌, arith,
}
use multichain_indexer.Health.{
  HealthStatus, unhealthy, PipelineHealth, set_status, record_success, record_success_with_recovery,
  record_latency, record_failure,
}
use multichain_indexer.Health.Window.{HasRing, push_latency-HasRing}

-- The methods that change the state.
pub data Call : Type 0 where
  calls_set_status : HealthStatus → Call
  calls_success : ℤ → Call
  calls_success_with_recovery : ℤ → Call
  calls_latency : ℤ → Call
  calls_failure : ℤ → Call

unfoldable pub step : PipelineHealth → Call → PipelineHealth
step h (calls_set_status status) = set_status h status
step h (calls_success now) = record_success h now
step h (calls_success_with_recovery now) = (record_success_with_recovery h now).0
step h (calls_latency d) = record_latency h d
step h (calls_failure now) = (record_failure h now).0

record_latency-HasRing : (h : PipelineHealth) (d : ℤ) → HasRing h → HasRing (record_latency h d)
unfolding record_latency
record_latency-HasRing h d v =
    let w = push_latency-HasRing h d v in ground (arith, w.ring, w.head, w.count, w.filled)

-- Every method keeps the ring of latencies well formed: ten places, the head inside, and filled
-- from its start up to the head until it is full.
pub step-HasRing : (h : PipelineHealth) (call : Call) → HasRing h → HasRing (step h call)
unfolding step
step-HasRing h (calls_set_status status) v = unfold set_status in ground arith
step-HasRing h (calls_success now) v = unfold record_success in ground arith
step-HasRing h (calls_success_with_recovery now) v =
    unfold record_success_with_recovery in ground arith
step-HasRing h (calls_latency d) v = record_latency-HasRing h d v
step-HasRing h (calls_failure now) v = unfold record_failure in ground arith

-- How many of a row of failures report that the pipeline has turned unhealthy.
unfoldable pub alarms : PipelineHealth → List ℤ → ℕ
alarms h [] = 0
alarms h (t ∷ ts) = (if (record_failure h t).1 then 1 else 0) + alarms (record_failure h t).0 ts

silent : (h : PipelineHealth) (ts : List ℤ) → h.status ≡ unhealthy → alarms h ts ≡ 0
unfolding alarms record_failure
silent h [] e = refl
silent h (t ∷ ts) e = ground (arith, e, silent (record_failure h t).0 ts)

-- The failures that a row of `n` more can count to.
abbrev Counts : PipelineHealth → ℕ → Type 0
Counts h n = (pos 0 ≤ℤ h.consecutive_failures) × InInt64 (h.consecutive_failures +ℤ pos n)

one_failure :
    (h : PipelineHealth) (t : ℤ)
    → h.status ≢ unhealthy
    → (n : ℕ) → Counts h (suc n)
    → let (h1, alarm) = record_failure h t in
      let count = h.consecutive_failures +ℤ pos 1 in
      (alarm ≡ true) × (h1.status ≡ unhealthy) × (h.unhealthy_threshold ≤ℤ count)
      ⊎ (alarm ≡ false)
        × (h1.status ≢ unhealthy)
        × (h1.consecutive_failures ≡ count)
        × (h1.unhealthy_threshold ≡ h.unhealthy_threshold)
        × (count <ℤ h.unhealthy_threshold)
unfolding record_failure
one_failure h t s n (c, r) =
    let fits : add64 h.consecutive_failures (pos 1) ≡ h.consecutive_failures +ℤ pos 1 =
      add64_of_InInt64 _ _ (
        InInt64-between (pos 0) _ (h.consecutive_failures +ℤ pos (suc n)) (ground arith) r
          (omega (int_laws, c)) (omega int_laws)) in
    let count = h.consecutive_failures +ℤ pos 1 in
    ground
      (arith, fits, s, leb_ℤ→le h.unhealthy_threshold count, leb_ℤ→gt h.unhealthy_threshold count)

-- A row of failures of a pipeline that is not unhealthy and below its threshold, with no other
-- call in between, raises one alarm if it reaches the threshold and none if it does not, as long
-- as the count fits an int.
pub alarms_once :
    (h : PipelineHealth) (ts : List ℤ)
    → h.status ≢ unhealthy
    → h.consecutive_failures <ℤ h.unhealthy_threshold
    → Counts h (length ts)
    → alarms h ts
      ≡ (if leb_ℤ h.unhealthy_threshold (h.consecutive_failures +ℤ pos (length ts)) then 1 else 0)
unfolding alarms
alarms_once h [] s u c = ground (
  arith,
  +ℤ_parts h.consecutive_failures (pos 0),
  gt→leb_ℤ h.unhealthy_threshold (h.consecutive_failures +ℤ pos 0),
)
alarms_once h (t ∷ ts) s u (c, r) =
    let h1 = (record_failure h t).0 in
    let n = h.consecutive_failures +ℤ pos (suc (length ts)) in
    let same : h.consecutive_failures +ℤ pos 1 +ℤ pos (length ts) ≡ n = omega int_laws in
    elim (one_failure h t s (length ts) (c, r)) [
      | inl (raised, turned, reached) ↦ ground (
        arith,
        raised,
        silent h1 ts turned,
        le→leb_ℤ h.unhealthy_threshold n,
        +ℤ_parts h.consecutive_failures (pos 1),
        +ℤ_parts h.consecutive_failures (pos (suc (length ts))),
      )
      | inr (quiet, kept, counted, threshold, short) ↦ ground (
        arith,
        quiet,
        counted,
        threshold,
        short,
        kept,
        same,
        alarms_once h1 ts,
        c,
        r,
        +ℤ_parts h.consecutive_failures (pos 1),
      )
    ]
