-- ===== src/Health.antt =====
-- internal/pipeline/health.go: the health of one pipeline. The time of a call is an argument; a
-- mutex is held for the whole of each method, so a method is one step. `snapshot` copies fields.
use multichain_indexer.Prelude.{
  ltb, leb, ◌==◌, if◌then◌else◌, get_or, set, take, replicate, ℤ, pos, ltb_ℤ, leb_ℤ, eqb_ℤ, add64,
  Text, ℕ, ◌+◌, ◌-◌, ◌*◌, ◌/◌, ◌%◌, Bool, true, false, ◌&&◌, ◌||◌, not, Option, none, some, List,
  [], ◌∷◌,
}
pub mod Window
pub mod Percentile
pub mod Status

pub data HealthStatus : Type 0 where
  unknown healthy degraded unhealthy inactive : HealthStatus

abbrev pub eq_status : HealthStatus → HealthStatus → Bool
eq_status unknown unknown = true
eq_status healthy healthy = true
eq_status degraded degraded = true
eq_status unhealthy unhealthy = true
eq_status inactive inactive = true
eq_status _ _ = false

abbrev pub default_unhealthy_threshold : ℤ
default_unhealthy_threshold = pos 5

abbrev pub default_degraded_latency_threshold : ℤ
default_degraded_latency_threshold = pos 5000000000

abbrev pub latency_window_size : ℕ
latency_window_size = 10

-- `latency_buf` is the array of ten durations.
pub record PipelineHealth : Type 0 where
  pub chain : Text
  pub network : Text
  pub status : HealthStatus
  pub consecutive_failures : ℤ
  pub last_success_at : Option ℤ
  pub last_failure_at : Option ℤ
  pub unhealthy_threshold : ℤ
  pub latency_buf : List ℤ
  pub latency_head : ℕ
  pub latency_count : ℕ
  pub degraded_latency_threshold : ℤ

unfoldable pub new_pipeline_health : Text → Text → PipelineHealth
new_pipeline_health chain network = record {
  chain = chain;
  network = network;
  status = unknown;
  consecutive_failures = pos 0;
  last_success_at = none;
  last_failure_at = none;
  unhealthy_threshold = default_unhealthy_threshold;
  latency_buf = replicate latency_window_size (pos 0);
  latency_head = 0;
  latency_count = 0;
  degraded_latency_threshold = default_degraded_latency_threshold;
}

unfoldable pub set_status : PipelineHealth → HealthStatus → PipelineHealth
set_status h status = record h { status = status }

-- `sort.Slice` by `<`; equal durations are the same number, so any sort gives this list.
unfoldable pub insert : ℤ → List ℤ → List ℤ
insert d [] = d ∷ []
insert d (e ∷ es) = let rest = insert d es in if leb_ℤ d e then d ∷ e ∷ es else e ∷ rest

abbrev pub sort : List ℤ → List ℤ
sort [] = []
sort (d ∷ ds) = insert d (sort ds)

-- `(pct*n - 1) / 100`, cut to the n durations.
unfoldable pub percentile_index : ℕ → ℕ → ℕ
percentile_index pct n = let idx = (pct * n - 1) / 100 in if leb n idx then n - 1 else idx

unfoldable pub percentile_latency : PipelineHealth → ℕ → ℤ
percentile_latency h pct =
    if h.latency_count == 0
    then pos 0
    else get_or (sort (take h.latency_count h.latency_buf)) (percentile_index pct h.latency_count)
        (pos 0)

unfoldable pub is_latency_degraded : PipelineHealth → Bool
is_latency_degraded h =
    if ltb h.latency_count 2
    then false
    else ltb_ℤ h.degraded_latency_threshold (percentile_latency h 95)

unfoldable pub record_success : PipelineHealth → ℤ → PipelineHealth
record_success h now = record h {
  consecutive_failures = pos 0;
  last_success_at = some now;
  status = if is_latency_degraded h then degraded else healthy;
}

unfoldable pub record_success_with_recovery : PipelineHealth → ℤ → PipelineHealth × Bool
record_success_with_recovery h now = (
  record h {
    consecutive_failures = pos 0;
    last_success_at = some now;
    status = if is_latency_degraded h then degraded else healthy;
  },
  eq_status h.status unhealthy,
)

-- The write into the ring of latencies.
unfoldable pub push_latency : PipelineHealth → ℤ → PipelineHealth
push_latency h d = record h {
  latency_buf = set h.latency_buf h.latency_head d;
  latency_head = (h.latency_head + 1) % latency_window_size;
  latency_count =
      if ltb h.latency_count latency_window_size then h.latency_count + 1 else h.latency_count;
}

unfoldable pub record_latency : PipelineHealth → ℤ → PipelineHealth
record_latency h d =
    let h1 = push_latency h d in
    if eq_status h1.status healthy || eq_status h1.status degraded
    then if is_latency_degraded h1
      then record h1 { status = degraded }
      else if eq_status h1.status degraded && eqb_ℤ h1.consecutive_failures (pos 0)
      then record h1 { status = healthy }
      else h1
    else h1

-- The flag is true when the pipeline turned unhealthy on this call.
unfoldable pub record_failure : PipelineHealth → ℤ → PipelineHealth × Bool
record_failure h now =
    let h1 = record h {
      consecutive_failures = add64 h.consecutive_failures (pos 1);
      last_failure_at = some now;
    } in
    if leb_ℤ h1.unhealthy_threshold h1.consecutive_failures && not (eq_status h1.status unhealthy)
    then (record h1 { status = unhealthy }, true)
    else (h1, false)
