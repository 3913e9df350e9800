-- ===== src/Controller/Tests.antt =====
-- The theorems on the controller at concrete inputs.
use acestream_orchestrator.Prelude.{
  AllOf, ◌+◌, ◌≤◌, ◌<◌, ◌≡◌, ◌≢◌, refl, Bool, true, false, none, some, List, [], ◌∷◌, arith, length,
  leb, String, str_eq, eq_iff,
}
use acestream_orchestrator.Prelude.Maps.{lookup}
use acestream_orchestrator.Breaker.{Breaker, opened}
use acestream_orchestrator.Breaker.Manager.{Manager}
use acestream_orchestrator.State.{Engine, Store, healthy, new_store, list_engines, count}
use acestream_orchestrator.State.Select.{get_engine_total_load}
use acestream_orchestrator.State.Nodes.{list_vpn_nodes}
use acestream_orchestrator.State.Scaling.{total_pending, empty_since, get_stream_count}
use acestream_orchestrator.Controller.{Config, max, running, ensure_minimum}
use acestream_orchestrator.Controller.Replicas.{ensure_minimum_bounds}
use acestream_orchestrator.Controller.Stop.{
  can_stop_engine, is_kept, select_termination_candidates, free_engines, healthy_vpns, is_scarce_on,
}
use acestream_orchestrator.Controller.Stop.Grace.{can_stop_engine_grace}
use acestream_orchestrator.Controller.Stop.Choice.{
  IsChoosableId, select_termination_candidates-AllOf,
}
use acestream_orchestrator.Controller.Intents.{Plane}
use acestream_orchestrator.Controller.Intents.Starved.{
  Attempt, execute_each, IsBlocked, execute_each-IsBlocked,
}
use acestream_orchestrator.Controller.Rebalance.{skip_density_rebalancing, any_draining}
use acestream_orchestrator.Controller.Rebalance.Laws.{skip_density_rebalancing_lem}

abbrev config : Config
config = record {
  manual_mode = false;
  min_replicas = 0;
  max_replicas = 6;
  min_free_replicas = 1;
  max_streams_per_engine = 2;
  grace_period = 30;
  preferred_engines_per_vpn = 2;
  max_engines_per_vpn = 0;
}

abbrev engine : String → Bool → Engine
engine id forwarded = record {
  container_id = id;
  container_name = id;
  labels = [];
  forwarded = forwarded;
  vpn_container = "vpn1";
  health_status = healthy;
  first_seen = 1;
  last_seen = 2;
  draining = false;
  drain_reason = "";
  last_assigned_at = 0;
}

-- A leader with a stream, and two followers.
abbrev store : Store
store = record new_store {
  engines = ("a", engine "a" true) ∷ ("b", engine "b" false) ∷ ("c", engine "c" false) ∷ [];
  stream_counts = ("a", 1) ∷ [];
  desired_replicas = 3;
}

abbrev engines : List Engine
engines = engine "a" true ∷ engine "b" false ∷ engine "c" false ∷ []

ensure_minimum_bounds_example :
    let next = (ensure_minimum config store).desired_replicas in
    let covered = (running engines store).0 + total_pending store in
    (config.min_replicas ≤ next)
    × (next ≤ max store.desired_replicas (max config.min_replicas config.max_replicas))
    × (0 < total_pending store → covered ≤ store.desired_replicas → covered ≤ next)
unfolding list_engines
ensure_minimum_bounds_example =
    ensure_minimum_bounds config (engine "a" true) (engine "b" false ∷ engine "c" false ∷ []) store
      refl refl

not_kept : is_kept config "b" store ≡ false
unfolding is_kept get_engine_total_load count lookup list_engines free_engines healthy_vpns
    list_vpn_nodes is_scarce_on new_store get_stream_count
not_kept = refl

can_stop_engine_grace_example :
    let next = (can_stop_engine config 10 false "b" store).1 in
    ((can_stop_engine config 10 false "b" store).0 ≡ false)
    × ((can_stop_engine config 50 false "b" next).0 ≡ leb (10 + config.grace_period) 50)
unfolding empty_since lookup new_store
can_stop_engine_grace_example =
    can_stop_engine_grace config 10 50 "b" store not_kept (omega arith) refl

select_termination_candidates-AllOf_example :
    let ids = (select_termination_candidates config 50 engines 1 store).0 in
    AllOf (IsChoosableId config 50 engines store) ids × (length ids ≤ 1)
select_termination_candidates-AllOf_example =
    select_termination_candidates-AllOf config 50 engines 1 store

abbrev manager : Manager
manager = record { breakers = ("general", open_breaker) ∷ []; gauge = [] }
  where
    open_breaker : Breaker
    open_breaker = record {
      state = opened;
      failure_count = 5;
      failure_threshold = 5;
      recovery_timeout = 60;
      last_failure_time = some 100;
      last_success_time = none;
    }

abbrev plane : Plane
plane = record { controller = record { cb = manager; intents = []; int_seq = 0 }; store = store }

abbrev attempts : List Attempt
attempts = (150, true, "intent-1", "e1") ∷ (200, true, "intent-2", "e2") ∷ []

execute_each-IsBlocked_example : IsBlocked 100 60 attempts plane (execute_each attempts plane)
unfolding lookup
execute_each-IsBlocked_example =
    execute_each-IsBlocked 100 60 attempts plane
      (record {
        breaker = record {
          state = opened;
          failure_count = 5;
          failure_threshold = 5;
          recovery_timeout = 60;
          last_failure_time = some 100;
          last_success_time = none;
        };
        kept = refl;
        is_opened = refl;
        failed = refl;
        waits = refl;
      })
      (omega arith, (omega arith, tt))

skip_density_rebalancing_lem_example :
    skip_density_rebalancing 50 (some 49) 2 2 [] store ≡ any_draining [] store
unfolding any_draining
skip_density_rebalancing_lem_example = skip_density_rebalancing_lem 50 (some 49) 2 2 [] store

follows : (id : String) → str_eq id "a" ≡ false → id ≢ "a"
follows id h e = ground (arith, eq_iff id "a")
