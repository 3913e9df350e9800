-- ===== src/Breaker/Laws.antt =====
-- What holds of a circuit breaker between two calls, and what its history decides.
use acestream_orchestrator.Prelude.{
  ℕ, ◌+◌, ◌≤◌, ◌<◌, ◌≡◌, ◌≢◌, refl, true, false, none, some, List, [], ◌∷◌, arith, leb, inl, inr,
  map, length, Bool-cases,
}
use acestream_orchestrator.Breaker.{
  closed, opened, Breaker, new, is_open, can_execute, record_success, record_failure, force_reset,
  Event, executes, succeeds, fails, resets, step, run,
}

-- `open_stamped` is what lets an open breaker leave its state.
pub record IsValid (b : Breaker) : Type 0 where
  pub below : b.state ≡ closed → b.failure_count < b.failure_threshold
  pub open_stamped : b.state ≡ opened → b.last_failure_time ≢ none

pub step-IsValid :
    (e : Event) (b : Breaker) → 0 < b.failure_threshold → IsValid b → IsValid (step e b)
unfolding step can_execute record_success record_failure force_reset
step-IsValid (executes now) b p v = ground arith
step-IsValid (succeeds now) b p v = ground arith
step-IsValid (fails now) b p v = ground arith
step-IsValid resets b p v = ground arith

pub threshold-step : (e : Event) (b : Breaker) → (step e b).failure_threshold ≡ b.failure_threshold
unfolding step can_execute record_success record_failure force_reset
threshold-step (executes now) b = ground arith
threshold-step (succeeds now) b = ground arith
threshold-step (fails now) b = ground arith
threshold-step resets b = ground arith

run-IsValid_of_IsValid :
    (es : List Event) (b : Breaker) → 0 < b.failure_threshold → IsValid b → IsValid (run es b)
unfolding run
run-IsValid_of_IsValid [] b p v = v
run-IsValid_of_IsValid (e ∷ es) b p v =
    run-IsValid_of_IsValid es (step e b) (omega (arith, threshold-step e b)) (step-IsValid e b p v)

-- After any history of calls on a new breaker with a positive threshold, a closed breaker has
-- seen fewer failures than the threshold, and an open one knows the time of its last failure.
pub run-IsValid :
    (threshold timeout : ℕ) (es : List Event)
    → 0 < threshold
    → IsValid (run es (new threshold timeout))
unfolding new
run-IsValid threshold timeout es p =
    run-IsValid_of_IsValid es (new threshold timeout) p (ground arith)

opened-fails :
    (ts : List ℕ) (b : Breaker) → b.state ≡ opened → (run (map fails ts) b).state ≡ opened
unfolding run step
opened-fails [] b o = o
opened-fails (t ∷ ts) b o =
    opened-fails ts (record_failure t b) (unfold record_failure in ground arith)

is_open-fails :
    (ts : List ℕ) (b : Breaker)
    → b.state ≡ closed
    → b.failure_count < b.failure_threshold
    → is_open (run (map fails ts) b) ≡ leb b.failure_threshold (b.failure_count + length ts)
unfolding run step is_open record_failure
is_open-fails [] b c h = ground arith
is_open-fails (t ∷ ts) b c h = elim (Bool-cases (leb b.failure_threshold (b.failure_count + 1))) [
  | inl full ↦ rw (opened-fails ts (record_failure t b) (ground arith)) (ground arith)
  | inr room ↦ ground (arith, is_open-fails ts (record_failure t b))
]

-- Right after a success the circuit opens at the threshold-th failure in a row, and not before:
-- after a success and then any failures at any times, the breaker is open exactly when there
-- were at least `failure_threshold` of them (for a positive threshold).
pub record_success-fails_open :
    (now : ℕ) (ts : List ℕ) (b : Breaker)
    → 0 < b.failure_threshold
    → is_open (run (map fails ts) (record_success now b)) ≡ leb b.failure_threshold (length ts)
unfolding record_success
record_success-fails_open now ts b p = ground (arith, is_open-fails ts (record_success now b))

-- The calls that cannot take an open breaker out of its state while `t + timeout` has not passed:
-- admission tests up to that time, and failures no earlier than `t`.
abbrev pub Blocked : ℕ → ℕ → Event → Type 0
Blocked t timeout (executes now) = now ≤ t + timeout
Blocked t timeout (succeeds now) = ⊥
Blocked t timeout (fails now) = t ≤ now
Blocked t timeout resets = ⊥

abbrev pub AllBlocked : ℕ → ℕ → List Event → Type 0
AllBlocked t timeout [] = Unit {0}
AllBlocked t timeout (e ∷ es) = Blocked t timeout e × AllBlocked t timeout es

-- An open breaker whose last failure was at `t` or later.
record OpenSince (t timeout : ℕ) (b : Breaker) : Type 0 where
  is_opened : b.state ≡ opened
  waits : b.recovery_timeout ≡ timeout
  stamp : ℕ
  stamped : b.last_failure_time ≡ some stamp
  late : t ≤ stamp

step-OpenSince :
    (t timeout : ℕ) (e : Event) (b : Breaker)
    → Blocked t timeout e
    → OpenSince t timeout b
    → OpenSince t timeout (step e b)
unfolding step can_execute record_failure
step-OpenSince t timeout (executes now) b h o = record {
  is_opened = ground arith;
  waits = ground arith;
  stamp = o.stamp;
  stamped = ground arith;
  late = o.late;
}
step-OpenSince t timeout (succeeds now) b h o = absurd h
step-OpenSince t timeout (fails now) b h o = record {
  is_opened = ground arith;
  waits = ground arith;
  stamp = now;
  stamped = ground arith;
  late = h;
}
step-OpenSince t timeout resets b h o = absurd h

run-OpenSince :
    (t timeout : ℕ) (es : List Event) (b : Breaker)
    → AllBlocked t timeout es
    → OpenSince t timeout b
    → OpenSince t timeout (run es b)
unfolding run
run-OpenSince t timeout [] b h o = o
run-OpenSince t timeout (e ∷ es) b h o =
    run-OpenSince t timeout es (step e b) h.1 (step-OpenSince t timeout e b h.0 o)

can_execute-OpenSince :
    (t timeout now : ℕ) (b : Breaker)
    → now ≤ t + timeout
    → OpenSince t timeout b
    → (can_execute now b).1 ≡ false
unfolding can_execute
can_execute-OpenSince t timeout now b h o = ground arith

-- An open breaker blocks for its whole recovery timeout: if its last failure was at `t`, then
-- after any admission tests up to `t + recovery_timeout` and any failures from `t` on, in any
-- order, an admission test at a time up to `t + recovery_timeout` is still refused.
pub can_execute_blocked :
    (t now : ℕ) (es : List Event) (b : Breaker)
    → b.state ≡ opened
    → b.last_failure_time ≡ some t
    → AllBlocked t b.recovery_timeout es
    → now ≤ t + b.recovery_timeout
    → (can_execute now (run es b)).1 ≡ false
can_execute_blocked t now es b o l h d =
    can_execute-OpenSince t b.recovery_timeout now (run es b) d (
      run-OpenSince t b.recovery_timeout es b h
        (record { is_opened = o; waits = refl; stamp = t; stamped = l; late = omega arith }))

-- Recovery: once the timeout has passed since the last failure, an open breaker admits a call.
-- Success of that call closes it with no failure counted; failure opens it again, and it then
-- refuses until the timeout has passed once more.
pub can_execute_recovers :
    (t now later : ℕ) (b : Breaker)
    → b.state ≡ opened
    → b.last_failure_time ≡ some t
    → t + b.recovery_timeout < now
    → let (probing, admitted) = can_execute now b in
      (admitted ≡ true)
      × ((record_success later probing).state ≡ closed)
      × ((record_success later probing).failure_count ≡ 0)
      × ((record_failure later probing).state ≡ opened)
      × ((can_execute (later + b.recovery_timeout) (record_failure later probing)).1 ≡ false)
unfolding can_execute record_success record_failure
can_execute_recovers t now later b o l h =
    (ground arith, ground arith, ground arith, ground arith, ground arith)
