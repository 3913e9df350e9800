-- ===== src/Controller.antt =====
-- app/orchestrator/internal/controlplane/engine/controller.go: how many engines there should be,
-- and which may go. Each function takes the configuration in force and the store. A nudge of the
-- reconciler or of the VPN controller is a message to a goroutine and left out; a replica count
-- of the configuration is not negative.
pub mod Stop
pub mod Intents
pub mod Rebalance
pub mod Replicas
mod Tests
use acestream_orchestrator.Prelude.{
  ℕ, suc, ◌+◌, ◌-◌, Bool, true, false, ◌&&◌, ◌||◌, not, Option, none, some, List, [], ◌∷◌,
  if◌then◌else◌, ltb, leb, ◌==◌, length, String, str_eq,
}
use acestream_orchestrator.State.{
  Engine, Store, HealthStatus, unknown, healthy, unhealthy, list_engines,
}
use acestream_orchestrator.State.Scaling.{
  bump_desired_replicas, set_desired_replicas, total_pending, get_stream_count, set_lookahead_layer,
  reset_lookahead_layer,
}

pub record Config : Type 0 where
  pub manual_mode : Bool
  pub min_replicas : ℕ
  pub max_replicas : ℕ
  pub min_free_replicas : ℕ
  pub max_streams_per_engine : ℕ
  pub grace_period : ℕ
  pub preferred_engines_per_vpn : ℕ
  pub max_engines_per_vpn : ℕ

abbrev pub max : ℕ → ℕ → ℕ
max a b = if ltb a b then b else a

abbrev pub min : ℕ → ℕ → ℕ
min a b = if ltb a b then a else b

abbrev pub is_unhealthy : HealthStatus → Bool
is_unhealthy unhealthy = true
is_unhealthy unknown = false
is_unhealthy healthy = false

-- The engines that run, and those of them without a stream.
unfoldable pub running : List Engine → Store → ℕ × ℕ
running [] s = (0, 0)
running (e ∷ engines) s =
    let (total, free) = running engines s in
    if is_unhealthy e.health_status || e.draining
    then (total, free)
    else (suc total, if get_stream_count e.container_id s == 0 then suc free else free)

-- The loads of the engines, by streams.
unfoldable pub load_list : List Engine → Store → List ℕ
load_list [] s = []
load_list (e ∷ engines) s = get_stream_count e.container_id s ∷ load_list engines s

-- How many loads are at the threshold or above.
unfoldable pub num_near : ℕ → List ℕ → ℕ
num_near threshold [] = 0
num_near threshold (load ∷ loads) =
    let rest = num_near threshold loads in if leb threshold load then suc rest else rest

unfoldable pub min_load : ℕ → List ℕ → ℕ
min_load least [] = least
min_load least (load ∷ loads) = min_load (if ltb load least then load else least) loads

-- `lookahead == nil || minLoad >= *lookahead`.
abbrev pub climbs : Option ℕ → ℕ → Bool
climbs none least = true
climbs (some layer) least = leb layer least

abbrev pub falls : Option ℕ → ℕ → Bool
falls none least = false
falls (some layer) least = ltb least layer

-- The lookahead: what is desired at least, and the layer.
unfoldable pub look_ahead : ℕ → ℕ → ℕ → List ℕ → Store → ℕ × Store
look_ahead threshold total desired [] s = (desired, s)
look_ahead threshold total desired (load ∷ loads) s =
    let near = num_near threshold (load ∷ loads) in
    let least = min_load load loads in
    if ltb 0 near
    then if climbs s.lookahead_layer least
      then (max desired (total + min near 2), set_lookahead_layer least s)
      else (desired, s)
    else if falls s.lookahead_layer least
    then (desired, reset_lookahead_layer s)
    else (desired, s)

abbrev pub clamp : Config → ℕ → ℕ
clamp cfg desired = max cfg.min_replicas (min desired cfg.max_replicas)

unfoldable pub compute_desired_replicas : Config → ℕ → ℕ → List Engine → Store → ℕ × Store
compute_desired_replicas cfg total free engines s =
    let (desired, next) =
      look_ahead (cfg.max_streams_per_engine - 1) total (total - free + cfg.min_free_replicas)
        (load_list engines s) s in
    (clamp cfg desired, next)

-- A target that a demand nudge has set is kept while engines are on their way.
abbrev pub protect : ℕ → ℕ → ℕ → ℕ → ℕ
protect total pending prev desired =
    if ltb 0 pending && ltb desired (total + pending) && leb (total + pending) prev
    then total + pending
    else desired

unfoldable pub minimum_of : Config → List Engine → Store → Store
minimum_of cfg [] s = set_desired_replicas cfg.min_replicas s
minimum_of cfg (e ∷ engines) s =
    let (total, free) = running (e ∷ engines) s in
    let (desired, next) = compute_desired_replicas cfg total free (e ∷ engines) s in
    set_desired_replicas (protect total (total_pending next) next.desired_replicas desired) next

unfoldable pub ensure_minimum : Config → Store → Store
ensure_minimum cfg s = if cfg.manual_mode then s else minimum_of cfg (list_engines s.engines) s

unfoldable pub nudge_demand : Config → ℕ → Store → Store
nudge_demand cfg n s = if cfg.manual_mode then s else (bump_desired_replicas n cfg.max_replicas s).1

unfoldable pub scale_to : Config → ℕ → Store → Store
scale_to cfg n s = set_desired_replicas (clamp cfg n) s
