-- ===== src/Controller/Rebalance.antt =====
-- controller.go, `rebalanceDensity`: engines on a crowded VPN node drain. Times are nanoseconds;
-- `last_scale_up` is `none` for Go's zero time, and `supports` is `nodeSupportsPortForwarding`.
-- The preferred number of engines on a node is positive. A sort by insertion stands for
-- `sort.Slice`, and the node groups are met in the order in which they came up.
pub mod Laws
use acestream_orchestrator.Prelude.{
  ℕ, suc, ◌+◌, ◌-◌, ◌*◌, ◌/◌, Bool, true, false, ◌&&◌, ◌||◌, not, Option, none, some, List, [], ◌∷◌,
  ◌++◌, if◌then◌else◌, ltb, leb, ◌==◌, take, length, String, str_eq,
}
use acestream_orchestrator.Prelude.Maps.{Map, lookup, insert}
use acestream_orchestrator.State.{
  Engine, Store, HealthStatus, healthy, unhealthy, unknown, VpnNode, is_some, engines_by_vpn,
  is_engine_draining, mark_engine_draining,
}
use acestream_orchestrator.State.Vpn.{is_forwarded_pending}
use acestream_orchestrator.State.Select.{get_engine_total_load}
use acestream_orchestrator.State.Nodes.{keep, list_dynamic_vpn_nodes, is_vpn_node_draining}
use acestream_orchestrator.Controller.{Config, max, min, is_unhealthy}

abbrev pub seconds : ℕ → ℕ
seconds n = n * 1000000000

abbrev pub ceil_div : ℕ → ℕ → ℕ
ceil_div a b = (a + b - 1) / b

unfoldable pub ready_count : List VpnNode → Store → ℕ
ready_count [] s = 0
ready_count (n ∷ nodes) s =
    let rest = ready_count nodes s in
    if n.healthy && not (is_vpn_node_draining n.container_name s) then suc rest else rest

abbrev pub required_nodes : Config → ℕ → ℕ
required_nodes cfg desired = ceil_div desired cfg.preferred_engines_per_vpn

abbrev pub ideal_limit : Config → ℕ → ℕ
ideal_limit cfg desired =
    min (ceil_div desired (max 1 (required_nodes cfg desired))) cfg.preferred_engines_per_vpn

abbrev pub fair_limit : Config → ℕ → ℕ → ℕ
fair_limit cfg desired ready = max (ideal_limit cfg desired) (ceil_div desired (max 1 ready))

-- How many engines a node may have.
unfoldable pub effective_limit : Config → ℕ → ℕ → ℕ
effective_limit cfg desired ready =
    if ltb 0 cfg.max_engines_per_vpn
      && ltb cfg.max_engines_per_vpn (fair_limit cfg desired ready)
      && leb (required_nodes cfg desired) ready
    then cfg.max_engines_per_vpn
    else fair_limit cfg desired ready

unfoldable pub any_draining : List VpnNode → Store → Bool
any_draining [] s = false
any_draining (n ∷ nodes) s = is_vpn_node_draining n.container_name s || any_draining nodes s

-- `t != nil && time.Since(*t) < d`.
abbrev pub is_within : ℕ → ℕ → Option ℕ → Bool
is_within now d none = false
is_within now d (some t) = ltb now (t + d)

-- The loop of the stabilization window.
unfoldable pub any_settling : ℕ → ℕ → ℕ → List VpnNode → Store → Bool
any_settling now ready required [] s = false
any_settling now ready required (n ∷ nodes) s =
    let rest = any_settling now ready required nodes s in
    if is_vpn_node_draining n.container_name s
    then rest
    else if is_within now (seconds 5) n.healthy_since && ltb ready required
    then true
    else rest

-- The tests that skip the whole rebalancing, each of them on what those before have found.
unfoldable pub skip_density_rebalancing : ℕ → Option ℕ → ℕ → ℕ → List VpnNode → Store → Bool
skip_density_rebalancing now last_scale_up ready required nodes s =
    let scaling = ltb 0 required && ltb ready required in
    let draining = if not scaling then any_draining nodes s else scaling in
    let settling = if not draining then any_settling now ready required nodes s else draining in
    if not settling && is_within now (seconds 10) last_scale_up
    then (if ltb ready required then true else settling)
    else settling

abbrev pub or_none : Option (List Engine) → List Engine
or_none none = []
or_none (some engines) = engines

abbrev pub is_well : HealthStatus → Bool
is_well healthy = true
is_well unhealthy = false
is_well unknown = false

-- The healthy engines of each node.
unfoldable pub group_by_vpn : List Engine → Map (List Engine) → Map (List Engine)
group_by_vpn [] groups = groups
group_by_vpn (e ∷ active) groups = group_by_vpn active (
    if not (str_eq e.vpn_container "") && is_well e.health_status
    then insert e.vpn_container (or_none (lookup e.vpn_container groups) ++ (e ∷ [])) groups
    else groups)

unfoldable pub already_draining : List Engine → Store → Bool
already_draining [] s = false
already_draining (e ∷ engines) s = is_engine_draining e.container_id s || already_draining engines s

unfoldable pub select : (Engine → Bool) → List Engine → List Engine
select test [] = []
select test (e ∷ engines) = let rest = select test engines in if test e then e ∷ rest else rest

unfoldable pub insert_by_load : Engine → List Engine → Store → List Engine
insert_by_load e [] s = e ∷ []
insert_by_load e (o ∷ engines) s =
    let later = insert_by_load e engines s in
    if ltb (get_engine_total_load o.container_id s) (get_engine_total_load e.container_id s)
    then o ∷ later
    else e ∷ o ∷ engines

unfoldable pub sort_by_load : List Engine → Store → List Engine
sort_by_load [] s = []
sort_by_load (e ∷ engines) s = insert_by_load e (sort_by_load engines s) s

unfoldable pub drain_each : String → List Engine → Store → Store
drain_each reason [] s = s
drain_each reason (e ∷ engines) s =
    drain_each reason engines (mark_engine_draining e.container_id reason s).1

-- The engines that go from a node with more than the limit.
unfoldable pub to_drain : ℕ → ℕ → List Engine → Store → List Engine
to_drain now limit vpn_engines s = take (length vpn_engines - limit) (
    select (λ e. ltb (e.first_seen + seconds 10) now)
      (sort_by_load (select (λ e. not e.forwarded) vpn_engines) s))

unfoldable pub has_leader : List Engine → Bool
has_leader [] = false
has_leader (e ∷ engines) =
    (e.forwarded && not e.draining && not (is_unhealthy e.health_status)) || has_leader engines

unfoldable pub named : String → List VpnNode → Bool
named vpn [] = false
named vpn (n ∷ nodes) = str_eq n.container_name vpn || named vpn nodes

-- One node of the loop.
unfoldable pub rebalance_node :
    ℕ → ℕ → (String → Bool) → List VpnNode → String → List Engine → Store → Store
rebalance_node now limit supports nodes vpn vpn_engines s =
    if leb (length vpn_engines) 1
    then s
    else if ltb limit (length vpn_engines)
    then if already_draining (engines_by_vpn vpn s.engines) s
      then s
      else drain_each "density_balanced" (to_drain now limit vpn_engines s) s
    else if named vpn nodes
        && supports vpn
        && not (has_leader (engines_by_vpn vpn s.engines))
        && not (is_forwarded_pending vpn s)
    then drain_each "headless_correction" (take 1 (sort_by_load vpn_engines s)) s
    else s

unfoldable pub rebalance_each :
    ℕ → ℕ → (String → Bool) → List VpnNode → Map (List Engine) → Store → Store
rebalance_each now limit supports nodes [] s = s
rebalance_each now limit supports nodes ((vpn, vpn_engines) ∷ groups) s =
    rebalance_each now limit supports nodes groups
      (rebalance_node now limit supports nodes vpn vpn_engines s)

unfoldable pub rebalance_density :
    Config → ℕ → Option ℕ → (String → Bool) → List Engine → Store → Store
rebalance_density cfg now last_scale_up supports active s =
    let desired = s.desired_replicas in
    let nodes = list_dynamic_vpn_nodes s in
    let ready = ready_count nodes s in
    let limit = effective_limit cfg desired ready in
    if desired == 0
    then s
    else if skip_density_rebalancing now last_scale_up ready (required_nodes cfg desired) nodes s
    then s
    else rebalance_each now limit supports nodes (group_by_vpn active []) s
