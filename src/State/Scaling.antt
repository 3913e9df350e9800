-- ===== src/State/Scaling.antt =====
-- store.go, what the controllers keep in the store: replicas, intents, the time since an engine is
-- empty, the lookahead layer, the target configuration and the index of the next engine. A
-- configured minimum is not negative, so neither is a replica count.
use acestream_orchestrator.Prelude.{
  ℕ, suc, ◌+◌, ◌-◌, Option, none, some, List, [], ◌∷◌, ◌++◌, if◌then◌else◌, ltb, leb, String,
  str_eq,
}
use acestream_orchestrator.Prelude.Maps.{Map, lookup, insert, delete}
use acestream_orchestrator.State.{Store, is_some, count, ScalingIntent}

unfoldable pub get_next_engine_index : Store → ℕ × Store
get_next_engine_index s =
    (s.next_engine_index + 1, record s { next_engine_index = s.next_engine_index + 1 })

unfoldable pub init_next_engine_index : ℕ → Store → Store
init_next_engine_index val s =
    if leb val s.next_engine_index then s else record s { next_engine_index = val }

unfoldable pub bump_desired_replicas : ℕ → ℕ → Store → ℕ × Store
bump_desired_replicas n max_val s =
    let target = if ltb max_val (s.desired_replicas + n) then max_val else s.desired_replicas + n in
    (target, record s { desired_replicas = target })

unfoldable pub decrease_desired_replicas : ℕ → ℕ → Store → Store
decrease_desired_replicas n min_val s =
    let target = if ltb (s.desired_replicas - n) min_val then min_val else s.desired_replicas - n in
    record s { desired_replicas = target }

unfoldable pub set_desired_replicas : ℕ → Store → Store
set_desired_replicas n s = record s { desired_replicas = n }

unfoldable pub add_intent : ScalingIntent → Store → Store
add_intent it s = record s { intents = s.intents ++ (it ∷ []) }

-- The first intent with this ID goes.
unfoldable pub drop_intent : String → List ScalingIntent → List ScalingIntent
drop_intent id [] = []
drop_intent id (it ∷ intents) =
    let rest = drop_intent id intents in if str_eq it.id id then intents else it ∷ rest

unfoldable pub remove_intent : String → Store → Store
remove_intent id s = record s { intents = drop_intent id s.intents }

unfoldable pub with_details : String → Map String → List ScalingIntent → List ScalingIntent
with_details id details [] = []
with_details id details (it ∷ intents) =
    let rest = with_details id details intents in
    if str_eq it.id id then (record it { details = details }) ∷ intents else it ∷ rest

unfoldable pub update_intent_details : String → Map String → Store → Store
update_intent_details id details s = record s { intents = with_details id details s.intents }

unfoldable pub creating : List ScalingIntent → ℕ
creating [] = 0
creating (it ∷ intents) =
    let rest = creating intents in if str_eq it.action "create" then suc rest else rest

unfoldable pub sum_pending : Map ℕ → ℕ
sum_pending [] = 0
sum_pending ((name, pending) ∷ rest) = pending + sum_pending rest

unfoldable pub total_pending : Store → ℕ
total_pending s = creating s.intents + sum_pending s.vpn_pending

unfoldable pub set_stream_count : String → ℕ → Store → Store
set_stream_count container_id n s = record s {
  stream_counts = insert container_id n s.stream_counts;
}

unfoldable pub get_stream_count : String → Store → ℕ
get_stream_count container_id s = count container_id s.stream_counts

unfoldable pub record_empty : ℕ → String → Store → Store
record_empty now id s =
    if is_some (lookup id s.empty_at) then s else record s { empty_at = insert id now s.empty_at }

unfoldable pub clear_empty : String → Store → Store
clear_empty id s = record s { empty_at = delete id s.empty_at }

unfoldable pub empty_since : String → Store → Option ℕ
empty_since id s = lookup id s.empty_at

unfoldable pub set_lookahead_layer : ℕ → Store → Store
set_lookahead_layer layer s = record s { lookahead_layer = some layer }

unfoldable pub reset_lookahead_layer : Store → Store
reset_lookahead_layer s = record s { lookahead_layer = none }

unfoldable pub set_target_config : String → ℕ → Store → Store
set_target_config hash gen s = record s {
  target_config_hash = hash;
  target_config_generation = gen;
}

unfoldable pub get_target_config : Store → String × ℕ
get_target_config s = (s.target_config_hash, s.target_config_generation)
