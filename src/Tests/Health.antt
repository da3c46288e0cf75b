-- ===== src/Tests/Health.antt =====
-- The health tracker of internal/pipeline/health.go on concrete calls.
use multichain_indexer.Prelude.{
  ltb, if◌then◌else◌, take, replicate, pos, ◌+ℤ◌, ltb_ℤ, leb_ℤ, ◌≡◌, refl, ◌&&◌, not, none, [], ◌∷◌,
  arith,
}
use multichain_indexer.Health.{
  healthy, degraded, PipelineHealth, insert, percentile_index, percentile_latency,
  is_latency_degraded, push_latency, record_latency,
}
use multichain_indexer.Health.Window.{HasRing, recent, enqueue, recent-push_latency}
use multichain_indexer.Health.Percentile.{any_above, is_latency_degraded-any_above}
use multichain_indexer.Health.Status.{calls_latency, step, step-HasRing, alarms, alarms_once}

abbrev fresh : PipelineHealth
fresh = record {
  chain = [];
  network = [];
  status = healthy;
  consecutive_failures = pos 0;
  last_success_at = none;
  last_failure_at = none;
  unhealthy_threshold = pos 2;
  latency_buf = replicate 10 (pos 0);
  latency_head = 0;
  latency_count = 0;
  degraded_latency_threshold = pos 50;
}

fresh-HasRing : HasRing fresh
fresh-HasRing = ground arith

slow_degrades :
    (step (step fresh (calls_latency (pos 60))) (calls_latency (pos 1))).status ≡ degraded
unfolding step record_latency push_latency is_latency_degraded percentile_latency percentile_index
    insert leb_ℤ ltb_ℤ
slow_degrades = refl

recent-push_latency_example : recent (push_latency fresh (pos 60)) ≡ enqueue (recent fresh) (pos 60)
recent-push_latency_example = recent-push_latency fresh (pos 60) fresh-HasRing

is_latency_degraded-any_above_example :
    is_latency_degraded fresh
    ≡ (not (ltb 0 2) && any_above (pos 50) (take 0 (replicate 10 (pos 0))))
is_latency_degraded-any_above_example = is_latency_degraded-any_above fresh fresh-HasRing

step-HasRing_example : HasRing (step fresh (calls_latency (pos 60)))
step-HasRing_example = step-HasRing fresh (calls_latency (pos 60)) fresh-HasRing

alarms_once_example :
    alarms fresh (pos 1 ∷ pos 2 ∷ pos 3 ∷ []) ≡ (if leb_ℤ (pos 2) (pos 0 +ℤ pos 3) then 1 else 0)
unfolding ◌+ℤ◌
alarms_once_example =
    alarms_once fresh (pos 1 ∷ pos 2 ∷ pos 3 ∷ []) (ground arith) (ground arith) (ground arith)
