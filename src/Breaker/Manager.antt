-- ===== src/Breaker/Manager.antt =====
-- breaker.go, `Manager`: the named breakers, and the gauge that `emitCBMetric` sets
-- (`metrics.CPCircuitBreakerOpen`, one value for each label, 1 for open). `none` is the
-- nil-pointer panic of a call on a breaker that is not there.
pub mod Laws
pub mod Open
use acestream_orchestrator.Prelude.{
  ℕ, Bool, Option, none, some, String, List, [], ◌∷◌, if◌then◌else◌, str_eq,
}
use acestream_orchestrator.Prelude.Maps.{Map, lookup, insert}
use acestream_orchestrator.Breaker
use acestream_orchestrator.Breaker.{Breaker}

pub record Manager : Type 0 where
  pub breakers : Map Breaker
  pub gauge : Map Bool

unfoldable pub new_manager : ℕ → ℕ → ℕ → ℕ → Manager
new_manager general_threshold general_recovery repl_threshold repl_recovery = record {
  breakers =
      insert "replacement" (Breaker.new repl_threshold repl_recovery)
        (insert "general" (Breaker.new general_threshold general_recovery) []);
  gauge = [];
}

-- The breaker that an operation type falls back to, with the name under which it is kept.
choose : String → Map Breaker → Option Breaker → Option (String × Breaker)
choose op breakers (some b) = some (op, b)
choose op breakers none = elim (lookup "general" breakers) [
  | some b ↦ some ("general", b)
  | none ↦ none
]

unfoldable pub resolve : String → Manager → Option (String × Breaker)
unfolding choose
resolve op m = choose op m.breakers (lookup op m.breakers)

emit_cb_metric : String → Breaker → Map Bool → Map Bool
emit_cb_metric name b gauge = insert name (Breaker.is_open b) gauge

-- A breaker is shared by pointer: what a call does to it is seen under its name.
store : String → Breaker → Manager → Manager
store name b m = record m { breakers = insert name b m.breakers }

unfoldable pub can_provision : ℕ → String → Manager → Option (Manager × Bool)
unfolding store
can_provision now op m = elim (resolve op m) [
  | none ↦ none
  | some (name, b) ↦
      some (store name (Breaker.can_execute now b).0 m, (Breaker.can_execute now b).1)
]

update : String → Breaker → Manager → Manager
unfolding store emit_cb_metric
update name b m = record (store name b m) { gauge = emit_cb_metric name b m.gauge }

unfoldable pub record_success : ℕ → String → Manager → Option Manager
unfolding update
record_success now op m = elim (resolve op m) [
  | none ↦ none
  | some (name, b) ↦ some (update name (Breaker.record_success now b) m)
]

unfoldable pub record_failure : ℕ → String → Manager → Option Manager
unfolding update
record_failure now op m = elim (resolve op m) [
  | none ↦ none
  | some (name, b) ↦ some (update name (Breaker.record_failure now b) m)
]

-- `for name, b := range m.breakers`, over the entries in the order in which they are met.
reset_each : Map Breaker → Manager → Manager
unfolding update
reset_each [] m = m
reset_each ((name, b) ∷ rest) m = reset_each rest (update name (Breaker.force_reset b) m)

reset_one : String → Option Breaker → Manager → Manager
unfolding update
reset_one op none m = m
reset_one op (some b) m = update op (Breaker.force_reset b) m

unfoldable pub force_reset : String → Manager → Manager
unfolding reset_each reset_one
force_reset op m =
    if str_eq op "" then reset_each m.breakers m else reset_one op (lookup op m.breakers) m

-- `Breaker.Status` of each breaker.
unfoldable pub get_status : (ℕ → String) → Map Breaker → Map Breaker.Status
get_status format [] = []
get_status format ((name, b) ∷ rest) = (name, Breaker.status format b) ∷ get_status format rest

-- One call on a manager.
pub data Call : Type 0 where
  provisions succeeded failed : ℕ → String → Call
  resets : String → Call

pub after_provision : Option (Manager × Bool) → Option Manager
after_provision none = none
after_provision (some (m, admitted)) = some m

pub step : Call → Manager → Option Manager
unfolding after_provision
step (provisions now op) m = after_provision (can_provision now op m)
step (succeeded now op) m = record_success now op m
step (failed now op) m = record_failure now op m
step (resets op) m = some (force_reset op m)

pub run : List Call → Manager → Option Manager
run [] m = some m
run (c ∷ cs) m = elim (step c m) [ none ↦ none | some m' ↦ run cs m' ]
