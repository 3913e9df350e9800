-- ===== src/Breaker.antt =====
-- app/orchestrator/internal/controlplane/circuitbreaker/breaker.go: one circuit breaker. Times
-- are nanoseconds; `none` is Go's zero `time.Time`. `time.Now()` is the argument `now` of the
-- operation that reads it. The mutex makes each operation one step. Log lines are left out.
pub mod Laws
pub mod Manager
mod Tests
use acestream_orchestrator.Prelude.{
  ℕ, ◌+◌, Bool, true, false, Option, none, some, String, List, [], ◌∷◌, ltb, leb, if◌then◌else◌,
}

pub data State : Type 0 where
  closed opened half_open : State

pub state_string : State → String
state_string closed = "closed"
state_string opened = "open"
state_string half_open = "half_open"

pub record Breaker : Type 0 where
  pub state : State
  pub failure_count : ℕ
  pub failure_threshold : ℕ
  pub recovery_timeout : ℕ
  pub last_failure_time : Option ℕ
  pub last_success_time : Option ℕ

unfoldable pub new : ℕ → ℕ → Breaker
new failure_threshold recovery_timeout = record {
  state = closed;
  failure_count = 0;
  failure_threshold = failure_threshold;
  recovery_timeout = recovery_timeout;
  last_failure_time = none;
  last_success_time = none;
}

-- `!t.IsZero() && time.Since(t) > timeout`, with the subtraction moved to the other side.
abbrev pub elapsed : ℕ → Option ℕ → ℕ → Bool
elapsed now none timeout = false
elapsed now (some t) timeout = ltb (t + timeout) now

-- The `switch` of `CanExecute`.
try_execute : State → ℕ → Breaker → Breaker × Bool
try_execute closed now b = (b, true)
try_execute opened now b =
    if elapsed now b.last_failure_time b.recovery_timeout
    then (record b { state = half_open }, true)
    else (b, false)
try_execute half_open now b = (b, true)

unfoldable pub can_execute : ℕ → Breaker → Breaker × Bool
unfolding try_execute
can_execute now b = try_execute b.state now b

unfoldable pub record_success : ℕ → Breaker → Breaker
record_success now b = record b { failure_count = 0; last_success_time = some now; state = closed }

-- The two tests of `RecordFailure` on the state, after the counter has been increased.
after_failure : State → Breaker → Breaker
after_failure half_open b = record b { state = opened }
after_failure closed b =
    if leb b.failure_threshold b.failure_count then record b { state = opened } else b
after_failure opened b = b

unfoldable pub record_failure : ℕ → Breaker → Breaker
unfolding after_failure
record_failure now b =
    after_failure b.state
      (record b { failure_count = b.failure_count + 1; last_failure_time = some now })

unfoldable pub force_reset : Breaker → Breaker
force_reset b = record b { state = closed; failure_count = 0 }

abbrev pub state_is_open : State → Bool
state_is_open opened = true
state_is_open _ = false

unfoldable pub is_open : Breaker → Bool
is_open b = state_is_open b.state

-- What `Status` reports; the times are formatted by Go's `time` package, which is `format` here,
-- and the timeout stays in nanoseconds.
pub record Status : Type 0 where
  pub state : String
  pub failure_count : ℕ
  pub failure_threshold : ℕ
  pub recovery_timeout : ℕ
  pub last_failure_time : String
  pub last_success_time : String

abbrev pub format_time : (ℕ → String) → Option ℕ → String
format_time format none = ""
format_time format (some t) = format t

unfoldable pub status : (ℕ → String) → Breaker → Status
unfolding state_string
status format b = record {
  state = state_string b.state;
  failure_count = b.failure_count;
  failure_threshold = b.failure_threshold;
  recovery_timeout = b.recovery_timeout;
  last_failure_time = format_time format b.last_failure_time;
  last_success_time = format_time format b.last_success_time;
}

-- One call on a breaker, with the time at which it runs.
pub data Event : Type 0 where
  executes : ℕ → Event
  succeeds : ℕ → Event
  fails : ℕ → Event
  resets : Event

pub step : Event → Breaker → Breaker
step (executes now) b = (can_execute now b).0
step (succeeds now) b = record_success now b
step (fails now) b = record_failure now b
step resets b = force_reset b

-- A history of calls, oldest first.
pub run : List Event → Breaker → Breaker
run [] b = b
run (e ∷ es) b = run es (step e b)
