-- ===== src/State.antt =====
-- app/orchestrator/internal/state/store.go: engines, their load and the reservations. The
-- readings of the clock within one call are one argument; times are nanoseconds, and the zero
-- time is 0. Counters do not reach 2 ^ 63. `AddEngine` keeps an engine under its container ID,
-- which never changes, so writing through the pointer is writing the map at that key. The
-- channel `engineReadyCh` is the number of broadcasts so far.
mod Types
pub use Types.*
pub mod Vpn
pub mod Nodes
pub mod Scaling
pub mod Streams
pub mod Select
mod Tests
use acestream_orchestrator.Prelude.{
  ℕ, zero, suc, ◌+◌, ◌-◌, ◌*◌, Bool, true, false, ◌&&◌, ◌||◌, not, Option, none, some, List, [],
  ◌∷◌, if◌then◌else◌, ltb, leb, ◌==◌, String, str_eq,
}
use acestream_orchestrator.Prelude.Maps.{Map, lookup, insert, delete}
use acestream_orchestrator.Prelude.Int.{ℤ, pos, negsuc, ltb_ℤ}

pub data HealthStatus : Type 0 where
  unknown healthy unhealthy : HealthStatus

-- The fields that these operations use.
pub record Engine : Type 0 where
  pub container_id : String
  pub container_name : String
  pub labels : Map String
  pub forwarded : Bool
  pub vpn_container : String
  pub health_status : HealthStatus
  pub first_seen : ℕ
  pub last_seen : ℕ
  pub draining : Bool
  pub drain_reason : String
  pub last_assigned_at : ℕ

pub record Store : Type 0 where
  pub engine_ready : ℕ
  pub engines : Map Engine
  pub vpn_pending : Map ℕ
  pub engine_pending : Map ℕ
  pub stream_counts : Map ℕ
  pub forwarded_pending : Map Bool
  pub empty_at : Map ℕ
  pub vpn_nodes : Map VpnNode
  pub intents : List ScalingIntent
  pub desired_replicas : ℕ
  pub lookahead_layer : Option ℕ
  pub target_config_hash : String
  pub target_config_generation : ℕ
  pub streams : Map StreamState
  pub stats : Map (List StatSnapshot)
  pub next_engine_index : ℕ

unfoldable pub new_store : Store
new_store = record {
  engine_ready = 0;
  engines = [];
  vpn_pending = [];
  engine_pending = [];
  stream_counts = [];
  forwarded_pending = [];
  empty_at = [];
  vpn_nodes = [];
  intents = [];
  desired_replicas = 0;
  lookahead_layer = none;
  target_config_hash = "";
  target_config_generation = 0;
  streams = [];
  stats = [];
  next_engine_index = 0;
}

abbrev pub or_zero : Option ℕ → ℕ
or_zero none = 0
or_zero (some n) = n

-- A counter of a map: a missing one is 0.
unfoldable pub count : String → Map ℕ → ℕ
count key counts = or_zero (lookup key counts)

-- `m[key]--` when it is positive.
unfoldable pub decrement : String → Map ℕ → Map ℕ
decrement key counts =
    if ltb 0 (count key counts) then insert key (count key counts - 1) counts else counts

abbrev pub is_some : {A : Type 0} → Option A → Bool
is_some none = false
is_some (some a) = true

unfoldable pub notify_engine_ready : Store → Store
notify_engine_ready s = record s { engine_ready = s.engine_ready + 1 }

unfoldable pub add_engine : ℕ → Engine → Store → Store
unfolding notify_engine_ready
add_engine now e s =
    let is_new = not (is_some (lookup e.container_id s.engines)) in
    notify_engine_ready (record s {
      engines =
          insert e.container_id
            (record e { first_seen = if is_new then now else e.first_seen; last_seen = now })
            s.engines;
      forwarded_pending =
          if e.forwarded && not (str_eq e.vpn_container "")
          then delete e.vpn_container s.forwarded_pending
          else s.forwarded_pending;
      vpn_pending =
          if is_new && not (str_eq e.vpn_container "")
          then decrement e.vpn_container s.vpn_pending
          else s.vpn_pending;
    })

unfoldable pub forget : String → Store → Store
forget id s = record s {
  engines = delete id s.engines;
  empty_at = delete id s.empty_at;
  stream_counts = delete id s.stream_counts;
}

unfoldable pub remove_engine : String → Store → Bool × Store
remove_engine id s = if is_some (lookup id s.engines) then (true, forget id s) else (false, s)

remove_each : String → Map Engine → Store → Store
remove_each vpn_name [] s = s
remove_each vpn_name ((id, e) ∷ engines) s =
    remove_each vpn_name engines (if str_eq e.vpn_container vpn_name then forget id s else s)

unfoldable pub remove_engines_by_vpn : String → Store → Store
unfolding remove_each
remove_engines_by_vpn vpn_name s = remove_each vpn_name s.engines s

abbrev update_engine : String → (Engine → Engine) → Store → Store
update_engine id f s = elim (lookup id s.engines) [
  | none ↦ s
  | some e ↦ record s { engines = insert id (f e) s.engines }
]

unfoldable pub update_engine_health : ℕ → String → HealthStatus → Store → Store
update_engine_health now id status s =
    update_engine id (λ e. record e { health_status = status; last_seen = now }) s

unfoldable pub mark_engine_draining : String → String → Store → Bool × Store
mark_engine_draining id reason s = elim (lookup id s.engines) [
  | none ↦ (false, s)
  | some e ↦ if e.draining then (false, s) else (
    true,
    record s {
      engines = insert id (record e { draining = true; drain_reason = reason }) s.engines;
    },
  )
]

unfoldable pub is_engine_draining : String → Store → Bool
is_engine_draining id s = elim (lookup id s.engines) [ none ↦ false | some e ↦ e.draining ]

unfoldable pub update_engine_last_seen : ℕ → String → Store → Store
update_engine_last_seen now id s = update_engine id (λ e. record e { last_seen = now }) s

unfoldable pub list_engines : Map Engine → List Engine
list_engines [] = []
list_engines ((id, e) ∷ engines) = e ∷ list_engines engines

unfoldable pub engines_by_vpn : String → Map Engine → List Engine
engines_by_vpn vpn [] = []
engines_by_vpn vpn ((id, e) ∷ engines) =
    let rest = engines_by_vpn vpn engines in if str_eq e.vpn_container vpn then e ∷ rest else rest

unfoldable pub has_forwarded_engine : Map Engine → Bool
has_forwarded_engine [] = false
has_forwarded_engine ((id, e) ∷ engines) = e.forwarded || has_forwarded_engine engines
