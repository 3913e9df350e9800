-- ===== src/State/Select.antt =====
-- store.go: the reservation of an engine for a stream.
pub mod Laws
pub mod Claim
use acestream_orchestrator.Prelude.{
  ℕ, zero, suc, ◌+◌, ◌-◌, ◌*◌, Bool, true, false, ◌&&◌, ◌||◌, not, Option, none, some, List, [],
  ◌∷◌, if◌then◌else◌, ltb, leb, ◌==◌, String, str_eq,
}
use acestream_orchestrator.Prelude.Maps.{Map, lookup, insert, delete}
use acestream_orchestrator.State.{
  Engine, Store, HealthStatus, unknown, healthy, unhealthy, count, decrement,
}

unfoldable pub get_engine_total_load : String → Store → ℕ
get_engine_total_load id s = count id s.stream_counts + count id s.engine_pending

unfoldable pub vpn_loads : Store → Map Engine → Map ℕ → Map ℕ
vpn_loads s [] loads = loads
vpn_loads s ((id, e) ∷ engines) loads = vpn_loads s engines (
    if str_eq e.vpn_container ""
    then loads
    else insert e.vpn_container (count e.vpn_container loads + get_engine_total_load id s) loads)

pub record Candidate : Type 0 where
  pub e : Engine
  pub load : ℕ
  pub vpn_load : ℕ

unfoldable pub is_healthy : HealthStatus → Bool
is_healthy healthy = true
is_healthy unknown = false
is_healthy unhealthy = false

-- The three `continue`s: it takes a stream if it is healthy, has room, and is idle or settled.
unfoldable pub is_eligible : ℕ → ℕ → Store → Engine → Bool
is_eligible now max_streams s e =
    let load = get_engine_total_load e.container_id s in
    not (e.draining || not (is_healthy e.health_status))
    && not (leb max_streams load)
    && not (leb 1 load && ltb now (e.last_assigned_at + 5000000000))

unfoldable pub candidate : Store → Map ℕ → Engine → Candidate
candidate s loads e = record {
  e = e;
  load = get_engine_total_load e.container_id s;
  vpn_load = count e.vpn_container loads;
}

unfoldable pub candidates_of : ℕ → ℕ → Store → Map ℕ → Map Engine → List Candidate
candidates_of now max_streams s loads [] = []
candidates_of now max_streams s loads ((id, e) ∷ engines) =
    let rest = candidates_of now max_streams s loads engines in
    if is_eligible now max_streams s e then candidate s loads e ∷ rest else rest

abbrev pub same : Bool → Bool → Bool
same true b = b
same false b = not b

-- The order of the sort.
unfoldable pub less : Candidate → Candidate → Bool
less a b =
    if not (a.load == b.load)
    then ltb a.load b.load
    else if not (a.vpn_load == b.vpn_load)
    then ltb a.vpn_load b.vpn_load
    else if not (same a.e.forwarded b.e.forwarded)
    then a.e.forwarded
    else if not (a.e.last_assigned_at == b.e.last_assigned_at)
    then ltb a.e.last_assigned_at b.e.last_assigned_at
    else false

-- `candidates[0]` after the sort: one that no other precedes. Which one of equals it is depends
-- on the order of the map, as it does here.
unfoldable pub first_of : Candidate → List Candidate → Candidate
first_of c [] = c
first_of c (d ∷ ds) = first_of (if less d c then d else c) ds

unfoldable pub claim : ℕ → Engine → Store → Store
claim now e s = record s {
  engine_pending =
      insert e.container_id (count e.container_id s.engine_pending + 1) s.engine_pending;
  engines = insert e.container_id (record e { last_assigned_at = now }) s.engines;
}

-- `none` is the error, which holds the number of engines.
unfoldable pub select_and_claim_engine : ℕ → ℕ → Store → Option Engine × Store
select_and_claim_engine now max_streams s =
    elim (candidates_of now max_streams s (vpn_loads s s.engines []) s.engines) [
      | [] ↦ (none, s)
      | c ∷ cs ↦
          let sel = (first_of c cs).e in
          (some (record sel { last_assigned_at = now }), claim now sel s)
    ]

unfoldable pub release_engine_pending : String → Store → Store
release_engine_pending id s = record s { engine_pending = decrement id s.engine_pending }
