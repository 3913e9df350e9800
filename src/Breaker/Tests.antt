-- ===== src/Breaker/Tests.antt =====
-- The theorems on the breakers at concrete inputs.
use acestream_orchestrator.Prelude.{◌≡◌, refl, true, false, some, [], ◌∷◌, arith, List}
use acestream_orchestrator.Prelude.Maps.{lookup, insert}
use acestream_orchestrator.Breaker.{
  Breaker, opened, new, executes, fails, run, is_open, can_execute, record_success, record_failure,
  step,
}
use acestream_orchestrator.Breaker.Laws.{record_success-fails_open, can_execute_blocked}
use acestream_orchestrator.Breaker.Manager
use acestream_orchestrator.Breaker.Manager.{Manager, new_manager}
use acestream_orchestrator.Breaker.Manager.Laws

-- Opened by its third failure, at time 100, with a recovery timeout of 60.
abbrev tripped : Breaker
tripped = record {
  state = opened;
  failure_count = 3;
  failure_threshold = 3;
  recovery_timeout = 60;
  last_failure_time = some 100;
  last_success_time = some 20;
}

run-tripped : run (fails 80 ∷ fails 90 ∷ fails 100 ∷ []) (record_success 20 (new 3 60)) ≡ tripped
unfolding run step record_failure record_success new
run-tripped = refl

record_success-fails_open_example :
    is_open (run (fails 8 ∷ fails 9 ∷ fails 10 ∷ []) (record_success 5 tripped)) ≡ true
record_success-fails_open_example =
    record_success-fails_open 5 (8 ∷ 9 ∷ 10 ∷ []) tripped (omega arith)

can_execute_blocked_example :
    (can_execute 160 (run (executes 150 ∷ fails 120 ∷ []) tripped)).1 ≡ false
can_execute_blocked_example =
    can_execute_blocked 100 160 (executes 150 ∷ fails 120 ∷ []) tripped refl refl (omega arith)
      (omega arith)

abbrev calls : List Manager.Call
calls = Manager.failed 1 "provision" ∷ Manager.provisions 2 "replacement" ∷ Manager.resets "" ∷ []

valid : Laws.IsValid (new_manager 3 60 2 30)
unfolding new_manager lookup insert
valid = record { general = (new 3 60, refl); replacement = (new 2 30, refl) }
