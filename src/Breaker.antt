-- ===== src/Breaker.antt =====
-- internal/circuitbreaker/breaker.go: a circuit breaker. A time is a number of nanoseconds and is
-- an argument of the methods that read the clock. A method returns the calls it makes of
-- `onStateChange` beside the changed breaker.
use multichain_indexer.Prelude.{
  if◌then◌else◌, ℤ, pos, negsuc, ◌-ℤ◌, ltb_ℤ, leb_ℤ, add64, mul64, ◌-◌, ◌^◌, Bool, true, false,
  ◌&&◌, List, [], ◌∷◌,
}
pub mod Edges
pub mod Trips

pub data State : Type 0 where
  state_closed state_open state_half_open : State

abbrev pub eq_state : State → State → Bool
eq_state state_closed state_closed = true
eq_state state_open state_open = true
eq_state state_half_open state_half_open = true
eq_state _ _ = false

pub record Breaker : Type 0 where
  pub state : State
  pub failure_count : ℤ
  pub success_count : ℤ
  pub failure_threshold : ℤ
  pub success_threshold : ℤ
  pub open_timeout : ℤ
  pub last_failure_at : ℤ
  pub on_state_change : Bool

pub record Config : Type 0 where
  pub failure_threshold : ℤ
  pub success_threshold : ℤ
  pub open_timeout : ℤ
  pub on_state_change : Bool

abbrev pub second : ℤ
second = pos 1000000000

abbrev default_to : ℤ → ℤ → ℤ
default_to v d = if leb_ℤ v (pos 0) then d else v

-- `zero_time` is Go's zero `time.Time`.
unfoldable pub new : ℤ → Config → Breaker
new zero_time cfg = record {
  state = state_closed;
  failure_count = pos 0;
  success_count = pos 0;
  failure_threshold = default_to cfg.failure_threshold (pos 5);
  success_threshold = default_to cfg.success_threshold (pos 2);
  open_timeout = default_to cfg.open_timeout (mul64 (pos 30) second);
  last_failure_at = zero_time;
  on_state_change = cfg.on_state_change;
}

-- `time.Since`: Go cuts the difference of two times to the range of a Duration.
unfoldable pub since : ℤ → ℤ → ℤ
since now t =
    let d = now -ℤ t in
    if ltb_ℤ d (negsuc (2 ^ 63 - 1))
    then negsuc (2 ^ 63 - 1)
    else if ltb_ℤ (pos (2 ^ 63 - 1)) d
    then pos (2 ^ 63 - 1)
    else d

-- The breaker and the calls of `onStateChange`, from and to.
abbrev pub Changed : Type 0
Changed = Breaker × List (State × State)

unfoldable pub set_state : Breaker → State → Changed
set_state b to = if eq_state b.state to then (b, []) else (
  record b {
    state = to;
    success_count = pos 0;
    failure_count = if eq_state to state_closed then pos 0 else b.failure_count;
  },
  if b.on_state_change then (b.state, to) ∷ [] else [],
)

unfoldable pub timed_out : Breaker → ℤ → Bool
timed_out b now = ltb_ℤ b.open_timeout (since now b.last_failure_at)

-- The flag is false for `ErrCircuitOpen`.
unfoldable pub allow : Breaker → ℤ → Changed × Bool
allow b now = elim b.state [
  | state_closed ↦ ((b, []), true)
  | state_open ↦ if timed_out b now then (set_state b state_half_open, true) else ((b, []), false)
  | state_half_open ↦ ((b, []), true)
]

unfoldable pub record_success : Breaker → Changed
record_success b =
    let b1 = record b { failure_count = pos 0 } in
    if eq_state b.state state_half_open
    then (let b2 = record b1 { success_count = add64 b.success_count (pos 1) } in
        if leb_ℤ b2.success_threshold b2.success_count then set_state b2 state_closed else (b2, []))
    else (b1, [])

unfoldable pub record_failure : Breaker → ℤ → Changed
record_failure b now =
    let b1 = record b {
      failure_count = add64 b.failure_count (pos 1);
      success_count = pos 0;
      last_failure_at = now;
    } in
    if eq_state b.state state_half_open
    then set_state b1 state_open
    else if eq_state b.state state_closed && leb_ℤ b1.failure_threshold b1.failure_count
    then set_state b1 state_open
    else (b1, [])

unfoldable pub get_state : Breaker → ℤ → Changed
get_state b now =
    if eq_state b.state state_open && timed_out b now then set_state b state_half_open else (b, [])

-- The calls that the users of a breaker make.
pub data Call : Type 0 where
  calls_allow : ℤ → Call
  calls_success : Call
  calls_failure : ℤ → Call
  calls_get_state : ℤ → Call

unfoldable pub step : Breaker → Call → Changed
step b (calls_allow now) = (allow b now).0
step b calls_success = record_success b
step b (calls_failure now) = record_failure b now
step b (calls_get_state now) = get_state b now

unfoldable pub run : Breaker → List Call → Breaker
run b [] = b
run b (call ∷ calls) = run (step b call).0 calls
