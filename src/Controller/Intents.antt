-- ===== src/Controller/Intents.antt =====
-- controller.go, the reconciler's intents and the workers that carry them out. What other
-- components answer is an argument: whether a node can take an engine, the plan of
-- `ScheduleNewEngine`, and whether the container call succeeded. `none` is the panic of a manager
-- without a general breaker. Metrics but the breaker's are left out, and so is `ReleaseSpec`,
-- which gives back the ports of a plan that the full queue drops.
pub mod Laws
pub mod Starved
use acestream_orchestrator.Prelude.{
  ℕ, zero, suc, ◌+◌, ◌-◌, Bool, true, false, ◌&&◌, ◌||◌, not, Option, none, some, List, [], ◌∷◌,
  ◌++◌, if◌then◌else◌, ltb, ◌==◌, length, String, str_eq, and_then,
}
use acestream_orchestrator.Prelude.Maps.{Map, lookup}
use acestream_orchestrator.Breaker.Manager.{Manager, can_provision, record_failure, record_success}
use acestream_orchestrator.State.{Engine, Store, ScalingIntent, list_engines, mark_engine_draining}
use acestream_orchestrator.State.Scaling.{
  add_intent, remove_intent, update_intent_details, creating,
}
use acestream_orchestrator.Controller.{Config, min, is_unhealthy}

abbrev pub queue_size : ℕ
queue_size = 1024

-- The plan of an engine is its name here.
pub data Action : Type 0 where
  create terminate : String → Action

pub record Intent : Type 0 where
  pub id : String
  pub action : Action

pub record Controller : Type 0 where
  pub cb : Manager
  pub intents : List Intent
  pub int_seq : ℕ

-- The controller and the store that it works on.
pub record Plane : Type 0 where
  pub controller : Controller
  pub store : Store

abbrev pub on_store : (Store → Store) → Plane → Plane
on_store f p = record p { store = f p.store }

abbrev pub with_manager : Manager → Plane → Plane
with_manager m p = record p { controller = record p.controller { cb = m } }

-- The value of a label, the empty text if there is none.
abbrev pub or_empty : Option String → String
or_empty none = ""
or_empty (some s) = s

unfoldable pub managed_engines : List Engine → List Engine
managed_engines [] = []
managed_engines (e ∷ engines) =
    let rest = managed_engines engines in
    if str_eq (or_empty (lookup "manual" e.labels)) "true" then rest else e ∷ rest

unfoldable pub active_engines : List Engine → List Engine
active_engines [] = []
active_engines (e ∷ engines) =
    let rest = active_engines engines in
    if not (is_unhealthy e.health_status) && not e.draining then e ∷ rest else rest

abbrev pub has_drifted : String → Engine → Bool
has_drifted target_hash e =
    not (str_eq (or_empty (lookup "acestream.config_hash" e.labels)) target_hash)

-- The engines with another configuration drain; how many are left.
unfoldable pub drain_drifted : String → List Engine → Store → ℕ × Store
drain_drifted target_hash [] s = (0, s)
drain_drifted target_hash (e ∷ active) s =
    let next =
      if has_drifted target_hash e
      then (mark_engine_draining e.container_id "config_drift" s).1
      else s in
    let (rest, last) = drain_drifted target_hash active next in
    (if has_drifted target_hash e then rest else suc rest, last)

-- How many engines there are or will be.
unfoldable pub actual_engines : String → Store → ℕ × Store
actual_engines target_hash s =
    let active = active_engines (managed_engines (list_engines s.engines)) in
    let (kept, next) = drain_drifted target_hash active s in (kept + creating next.intents, next)

-- A placeholder intent, before its goroutine starts.
unfoldable pub add_placeholder : (ℕ → String) → Plane → Plane
add_placeholder intent_id p =
    let seq = p.controller.int_seq + 1 in
    let placeholder : ScalingIntent = record {
      id = intent_id seq;
      action = "create";
      status = "scheduling";
      details = [];
    } in
    record {
      controller = record p.controller { int_seq = seq };
      store = add_intent placeholder p.store;
    }

unfoldable pub add_placeholders : (ℕ → String) → ℕ → Plane → Plane
add_placeholders intent_id zero p = p
add_placeholders intent_id (suc n) p = add_placeholders intent_id n (add_placeholder intent_id p)

abbrev pub create_count : Config → ℕ → Store → ℕ
create_count cfg deficit s = min deficit (cfg.max_replicas - length (list_engines s.engines))

-- The first step of `doReconcile`, for this deficit.
unfoldable pub scale_up : Config → (ℕ → String) → Bool → ℕ → Plane → Plane
scale_up cfg intent_id schedulable deficit p =
    if schedulable then add_placeholders intent_id (create_count cfg deficit p.store) p else p

-- The send on the channel, unless it is full.
unfoldable pub enqueue : Intent → Plane → Plane
enqueue it p =
    if ltb (length p.controller.intents) queue_size
    then record p {
      controller = record p.controller { intents = p.controller.intents ++ (it ∷ []) };
    }
    else on_store (remove_intent it.id) p

-- The goroutine of one placeholder, with the plan that the scheduler answers, if any.
unfoldable pub schedule : ℕ → String → Option String → Plane → Option Plane
schedule now id spec p = and_then (can_provision now "general" p.controller.cb) (λ r.
    let checked = with_manager r.0 p in
    if r.1
    then elim spec [
      | none ↦ some (on_store (remove_intent id) checked)
      | some name ↦ some (
          enqueue (record { id = id; action = create name })
            (on_store (update_intent_details id (("container_name", name) ∷ [])) checked))
    ]
    else some (on_store (remove_intent id) checked))

-- The intents of the second step, for the engines chosen to go.
unfoldable pub scale_down : (ℕ → String) → List String → Plane → Plane
scale_down intent_id [] p = p
scale_down intent_id (id ∷ ids) p =
    let seq = p.controller.int_seq + 1 in
    let it : ScalingIntent = record {
      id = intent_id seq;
      action = "terminate";
      status = "pending";
      details = ("container_id", id) ∷ [];
    } in
    let added : Plane = record {
      controller = record p.controller { int_seq = seq };
      store = add_intent it p.store;
    } in
    scale_down intent_id ids (enqueue (record { id = intent_id seq; action = terminate id }) added)

-- The create branch behind the admission: whether the container started, as the breaker hears.
unfoldable pub record_outcome : ℕ → Bool → Manager → Option Manager
record_outcome now started m =
    if started then record_success now "general" m else record_failure now "general" m

abbrev pub finish_create : Bool → Plane → Option Manager → Option (Bool × Plane)
finish_create ok p none = none
finish_create ok p (some m) = some (ok, with_manager m p)

-- `executeIntent`: whether it returned no error, and what it left.
unfoldable pub execute_intent : ℕ → Bool → Intent → Plane → Option (Bool × Plane)
execute_intent now ok it p =
    let removed = on_store (remove_intent it.id) p in
    elim it.action [
      | create name ↦ and_then (can_provision now "general" p.controller.cb) (λ r.
          if r.1
          then finish_create ok removed (record_outcome now ok r.0)
          else finish_create false removed (record_failure now "general" r.0))
      | terminate id ↦ some (true, removed)
    ]
