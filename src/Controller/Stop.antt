-- ===== src/Controller/Stop.antt =====
-- controller.go, which engines may go: `canStopEngine` and `selectTerminationCandidates`. The
-- calls of `canStopEngine` write the store only to note since when an engine is empty. A sort by
-- insertion stands for `sort.Slice`, which leaves equal engines in some order.
pub mod Grace
pub mod Choice
use acestream_orchestrator.Prelude.{
  ℕ, suc, ◌+◌, ◌-◌, Bool, true, false, ◌&&◌, ◌||◌, not, Option, none, some, List, [], ◌∷◌,
  if◌then◌else◌, ltb, leb, ◌==◌, take, length, String, str_eq,
}
use acestream_orchestrator.Prelude.Maps.{Map, lookup, insert}
use acestream_orchestrator.State.{
  Engine, Store, VpnNode, is_some, count, list_engines, engines_by_vpn,
}
use acestream_orchestrator.State.Select.{get_engine_total_load}
use acestream_orchestrator.State.Nodes.{list_vpn_nodes}
use acestream_orchestrator.State.Scaling.{get_stream_count, record_empty, clear_empty, empty_since}
use acestream_orchestrator.Controller.{Config}

-- The replica floor.
abbrev pub is_at_floor : Config → List Engine → Bool
is_at_floor cfg engines = ltb 0 (length engines) && ltb (length engines - 1) cfg.min_replicas

unfoldable pub free_engines : List Engine → Store → ℕ
free_engines [] s = 0
free_engines (e ∷ engines) s =
    let rest = free_engines engines s in
    if get_stream_count e.container_id s == 0 && not e.draining then suc rest else rest

-- The floor of free replicas.
abbrev pub is_at_free_floor : Config → List Engine → Store → Bool
is_at_free_floor cfg engines s =
    ltb 0 cfg.min_free_replicas
    && ltb 0 (free_engines engines s)
    && ltb (free_engines engines s - 1) cfg.min_free_replicas

unfoldable pub healthy_vpns : List VpnNode → Map Bool → Map Bool
healthy_vpns [] names = names
healthy_vpns (n ∷ nodes) names = healthy_vpns nodes (
    if n.healthy && not (str_eq n.container_name "")
    then insert n.container_name true names
    else names)

-- The engines of each of these VPN nodes that has one.
unfoldable pub count_engines : Map Bool → List Engine → Map ℕ → Map ℕ
count_engines names [] counts = counts
count_engines names (e ∷ engines) counts = count_engines names engines (
    if not (str_eq e.vpn_container "") && is_some (lookup e.vpn_container names)
    then insert e.vpn_container (count e.vpn_container counts + 1) counts
    else counts)

abbrev pub least_of : Option ℕ → ℕ → ℕ
least_of none n = n
least_of (some m) n = if ltb n m then n else m

-- `none` is the `math.MaxInt` that no other node replaces.
unfoldable pub lowest_other : String → Map ℕ → Option ℕ → Option ℕ
lowest_other vpn [] lowest = lowest
lowest_other vpn ((name, n) ∷ counts) lowest =
    lowest_other vpn counts (if str_eq name vpn then lowest else some (least_of lowest n))

abbrev pub is_below : ℕ → Option ℕ → Bool
is_below current none = false
is_below current (some lowest) = ltb current lowest

unfoldable pub is_scarce_on : String → List Engine → Map Bool → Bool
is_scarce_on vpn engines names =
    let counts = count_engines names engines [] in
    ltb 1 (length names)
    && is_some (lookup vpn names)
    && is_below (count vpn counts) (lowest_other vpn counts none)

-- The balance of the VPN nodes.
abbrev pub is_scarce : Option Engine → Store → Bool
is_scarce none s = false
is_scarce (some e) s =
    not (str_eq e.vpn_container "")
    && is_scarce_on e.vpn_container (list_engines s.engines)
        (healthy_vpns (list_vpn_nodes s.vpn_nodes) [])

-- The tests of `canStopEngine` that keep an engine, in their order.
unfoldable pub is_kept : Config → String → Store → Bool
is_kept cfg id s =
    ltb 0 (get_engine_total_load id s)
    || is_at_floor cfg (list_engines s.engines)
    || is_at_free_floor cfg (list_engines s.engines) s
    || is_scarce (lookup id s.engines) s

-- The grace period.
unfoldable pub wait_grace : Config → ℕ → String → Option ℕ → Store → Bool × Store
wait_grace cfg now id none s = (false, record_empty now id s)
wait_grace cfg now id (some t) s =
    if leb (t + cfg.grace_period) now then (true, clear_empty id s) else (false, s)

unfoldable pub can_stop_engine : Config → ℕ → Bool → String → Store → Bool × Store
can_stop_engine cfg now bypass_grace id s =
    if is_kept cfg id s
    then (false, clear_empty id s)
    else if bypass_grace || (cfg.grace_period == 0)
    then (true, clear_empty id s)
    else wait_grace cfg now id (empty_since id s) s

unfoldable pub active_others : String → List Engine → ℕ
active_others id [] = 0
active_others id (o ∷ others) =
    let rest = active_others id others in
    if not (str_eq o.container_id id) && not o.draining then suc rest else rest

-- A leader that other engines of its VPN node still need.
unfoldable pub is_needed_leader : Engine → Store → Bool
is_needed_leader e s =
    e.forwarded
    && not (str_eq e.vpn_container "")
    && ltb 0 (active_others e.container_id (engines_by_vpn e.vpn_container s.engines))

pub record Scored : Type 0 where
  pub engine : Engine
  pub streams : ℕ

unfoldable pub score_each : Config → ℕ → List Engine → Store → List Scored × Store
score_each cfg now [] s = ([], s)
score_each cfg now (e ∷ engines) s =
    let (stop, next) = can_stop_engine cfg now false e.container_id s in
    let (rest, last) = score_each cfg now engines next in
    (
      if stop && not (is_needed_leader e next)
          then record { engine = e; streams = get_engine_total_load e.container_id next } ∷ rest
          else rest,
      last,
    )

abbrev pub goes_before : Scored → Scored → Bool
goes_before a b =
    if not (a.streams == b.streams)
    then ltb a.streams b.streams
    else if (a.engine.forwarded && not b.engine.forwarded)
        || (not a.engine.forwarded && b.engine.forwarded)
    then not a.engine.forwarded
    else ltb a.engine.first_seen b.engine.first_seen

unfoldable pub insert_scored : Scored → List Scored → List Scored
insert_scored a [] = a ∷ []
insert_scored a (b ∷ rest) =
    let later = insert_scored a rest in if goes_before b a then b ∷ later else a ∷ b ∷ rest

unfoldable pub sort : List Scored → List Scored
sort [] = []
sort (a ∷ rest) = insert_scored a (sort rest)

abbrev pub ids_of : List Scored → List String
ids_of [] = []
ids_of (a ∷ rest) = a.engine.container_id ∷ ids_of rest

unfoldable pub select_termination_candidates :
    Config → ℕ → List Engine → ℕ → Store → List String × Store
select_termination_candidates cfg now engines n s =
    let (scored, next) = score_each cfg now engines s in (ids_of (take n (sort scored)), next)
