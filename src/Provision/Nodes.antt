-- ===== src/Provision/Nodes.antt =====
-- provisioner.go: which VPN node a new engine goes to (`CheckVPNSchedulable`, `selectVPNContainer`,
-- `isNodeReady`). The two are called under different locks; here nothing comes between the calls
-- of the store within one function.
pub mod Laws
pub mod Choice
use Prim.Native.String.{◌++◌ as append}
use acestream_orchestrator.Prelude.{
  ℕ, ◌+◌, ◌-◌, ◌*◌, ◌/◌, Bool, true, false, ◌&&◌, ◌||◌, not, Option, none, some, List, [], ◌∷◌,
  if◌then◌else◌, ltb, ◌==◌, String, str_eq, length,
}
use acestream_orchestrator.Prelude.Int.{ℤ}
use acestream_orchestrator.State.{Engine, Store, VpnNode, engines_by_vpn}
use acestream_orchestrator.State.Select.{is_healthy}
use acestream_orchestrator.State.Nodes.{
  list_vpn_nodes, is_vpn_node_draining, list_not_ready_vpn_nodes,
}
use acestream_orchestrator.State.Vpn.{select_and_claim_vpn}
use acestream_orchestrator.Controller.Rebalance.{ceil_div}
use acestream_orchestrator.Provision.{
  EngineConfig, ScheduleError, awaiting_node, no_ready_node, awaiting_pending, all_full,
}

unfoldable pub any_healthy : List Engine → Bool
any_healthy [] = false
any_healthy (e ∷ engines) = is_healthy e.health_status || any_healthy engines

module _ (normal lower : String → String) (now : ℕ) (s : Store) where
  -- The heuristic: a healthy engine on the node shows that it works.
  abbrev pub has_healthy_engine : VpnNode → Bool
  has_healthy_engine n = any_healthy (engines_by_vpn n.container_name s.engines)

  -- The branch of a node without a condition that is not healthy.
  unfoldable pub unhealthy_ready : VpnNode → Bool × String
  unhealthy_ready n =
      let status = normal n.status in
      if str_eq status "unhealthy" || str_eq status "down"
      then (false, append "node_" status)
      else if has_healthy_engine n
      then (true, "ready_via_heuristic")
      else if str_eq status "running"
          && not (n.first_seen == 0)
          && ltb now (n.first_seen + 30000000000)
      then (true, "running_early_start")
      else (false, "not_healthy")

  -- The last test: a running container whose tunnel is not known to be up.
  unfoldable pub running_ready : VpnNode → Bool × String
  running_ready n =
      if str_eq (lower n.status) "running" && not n.healthy
      then if has_healthy_engine n
        then (true, "ready_via_heuristic")
        else (false, "awaiting_background_health_check")
      else (true, "ready")

  unfoldable pub is_node_ready : VpnNode → Bool × String
  is_node_ready n =
      let cond = normal n.condition in
      if str_eq n.container_name ""
      then (false, "no_name")
      else if not (str_eq cond "")
      then if not (str_eq cond "ready") then (false, append "condition_" cond) else running_ready n
      else if not n.healthy
      then unhealthy_ready n
      else running_ready n

  abbrev pub is_ready : VpnNode → Bool
  is_ready n = (is_node_ready n).0

  -- A managed node that is ready and does not drain.
  unfoldable pub takes_engines : VpnNode → Bool
  takes_engines n = n.managed_dynamic && is_ready n && not (is_vpn_node_draining n.container_name s)

  -- `fmt.Sprintf("%s: %s", …)` of a node that is turned down.
  unfoldable pub reject_reason : VpnNode → String
  reject_reason n =
      append n.container_name (append ": " (if is_ready n then "draining" else (is_node_ready n).1))

  -- The loop of the check: whether a node is found, and why the nodes before were turned down.
  unfoldable pub find_schedulable : List VpnNode → Option (List String)
  find_schedulable [] = some []
  find_schedulable (n ∷ nodes) =
      let rest = find_schedulable nodes in
      if not n.managed_dynamic
      then rest
      else if takes_engines n
      then none
      else elim rest [ none ↦ none | some reasons ↦ some (reject_reason n ∷ reasons) ]

  unfoldable pub check_nodes : Bool → List VpnNode → Option ScheduleError
  check_nodes vpn_enabled [] = if vpn_enabled then some awaiting_node else none
  check_nodes vpn_enabled (n ∷ nodes) = elim (find_schedulable (n ∷ nodes)) [
    | none ↦ none
    | some reasons ↦ some (no_ready_node reasons)
  ]

  -- `none` is the nil error.
  unfoldable pub check_vpn_schedulable : EngineConfig → Option ScheduleError
  check_vpn_schedulable cfg = check_nodes cfg.vpn_enabled (list_vpn_nodes s.vpn_nodes)

  unfoldable pub ready_names : List VpnNode → List String
  ready_names [] = []
  ready_names (n ∷ nodes) =
      let rest = ready_names nodes in if takes_engines n then n.container_name ∷ rest else rest

  unfoldable pub reject_reasons : List VpnNode → List String
  reject_reasons [] = []
  reject_reasons (n ∷ nodes) =
      let rest = reject_reasons nodes in
      if n.managed_dynamic && not (takes_engines n) then reject_reason n ∷ rest else rest

-- The balanced density: how many engines a node is preferred to have.
unfoldable pub density_limit : EngineConfig → ℕ → ℕ
density_limit cfg desired =
    let max_per_vpn = cfg.preferred_engines_per_vpn in
    if ltb 0 max_per_vpn && ltb 0 desired
    then (let ceiled = ceil_div desired max_per_vpn in
        let required = if ltb ceiled 1 then 1 else ceiled in
        let limit = ceil_div desired required in
        if ltb max_per_vpn limit then max_per_vpn else limit)
    else max_per_vpn

pub data Selection : Type 0 where
  on_node : String → Selection
  rejected : ScheduleError → Selection

-- A name that was chosen, or the error that all ready nodes are full.
unfoldable pub chosen_or_full : ℕ → String × Store → Selection × Store
chosen_or_full ready (chosen, s) =
    (if str_eq chosen "" then rejected (all_full ready) else on_node chosen, s)

-- Every ready node is at its preferred density: wait for a node that comes up, or go up to the
-- hard limit.
unfoldable pub overflow : EngineConfig → ℕ → List String → Store → Selection × Store
overflow cfg limit names s =
    let pending = length (list_not_ready_vpn_nodes s) in
    let (best, t) = select_and_claim_vpn names cfg.max_engines_per_vpn s in
    if ltb 0 pending
    then (rejected (awaiting_pending pending), s)
    else chosen_or_full (length names)
        (if ltb limit cfg.max_engines_per_vpn then (best.0, t) else ("", s))

unfoldable pub select_ready : EngineConfig → List String → Store → Selection × Store
select_ready cfg names s =
    let limit = density_limit cfg s.desired_replicas in
    let (best, t) = select_and_claim_vpn names limit s in
    if str_eq best.0 "" then overflow cfg limit names t else (on_node best.0, t)

module _ (normal lower : String → String) (now : ℕ) where
  unfoldable pub select_vpn_nodes : EngineConfig → List VpnNode → Store → Selection × Store
  select_vpn_nodes cfg [] s = (if cfg.vpn_enabled then rejected awaiting_node else on_node "", s)
  select_vpn_nodes cfg (n ∷ nodes) s = elim (ready_names normal lower now s (n ∷ nodes)) [
    | [] ↦ (rejected (no_ready_node (reject_reasons normal lower now s (n ∷ nodes))), s)
    | name ∷ names ↦ select_ready cfg (name ∷ names) s
  ]

  -- The empty name is an engine without a VPN.
  unfoldable pub select_vpn_container : EngineConfig → Store → Selection × Store
  select_vpn_container cfg s = select_vpn_nodes cfg (list_vpn_nodes s.vpn_nodes) s
