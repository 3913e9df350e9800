-- ===== src/Lifecycle/Sync.antt =====
-- lifecycle.go: the steps that destroy nodes, the comparison with the containers that run, and
-- the whole of `reconcile`. One reading of the clock serves a whole step.
use acestream_orchestrator.Prelude.{
  ℕ, zero, suc, ◌+◌, Bool, true, false, ◌&&◌, ◌||◌, not, Option, none, some, List, [], ◌∷◌,
  if◌then◌else◌, leb, String, str_eq,
}
use acestream_orchestrator.State.{Store, VpnNode, engines_by_vpn, is_some}
use acestream_orchestrator.State.Nodes.{
  get_vpn_node, upsert_vpn_node, list_vpn_nodes, list_dynamic_vpn_nodes, set_vpn_node_healthy,
  set_vpn_node_status, set_vpn_node_draining,
}
use acestream_orchestrator.Leases.{total_count, available_count}
use acestream_orchestrator.Lifecycle.{
  LifecycleConfig, drain_engines, all_idle, is_over, is_lost, heal_not_ready, reconcile_scale,
}
use acestream_orchestrator.Lifecycle.Destroy.{NodeDocker, Fleet, is_external, destroy_node}

abbrev pub is_terminal_node_status : String → Bool
is_terminal_node_status status =
    str_eq status "stopped" || str_eq status "exited" || str_eq status "dead"

-- What Docker reports of a managed container.
pub record Observed : Type 0 where
  pub container_name : String
  pub container_id : String
  pub status : String
  pub provider : String
  pub protocol : String
  pub credential_id : String
  pub port_forwarding_supported : Bool

-- A `VPNNode` with these fields set and zero values elsewhere.
abbrev pub node_of : Observed → ℕ → VpnNode
node_of n now = record {
  container_name = n.container_name;
  container_id = n.container_id;
  status = n.status;
  healthy = false;
  condition = "";
  provider = n.provider;
  protocol = n.protocol;
  credential_id = n.credential_id;
  managed_dynamic = true;
  assigned_hostname = "";
  port_forwarding_supported = n.port_forwarding_supported;
  lifecycle = "";
  first_seen = now;
  last_seen = now;
  draining_since = none;
  unhealthy_since = none;
  healthy_since = none;
  control_host = "";
}

-- The node of a container that stopped before it was known.
abbrev pub stopped_node : Observed → VpnNode
stopped_node n = record (node_of n 0) {
  provider = "";
  protocol = "";
  credential_id = "";
  port_forwarding_supported = false;
}

unfoldable pub is_observed : String → List Observed → Bool
is_observed name [] = false
is_observed name (n ∷ nodes) = str_eq n.container_name name || is_observed name nodes

module _ {D : Type 0} (lower trim : String → String) (docker : NodeDocker D) (cfg : LifecycleConfig)
    (now : ℕ) where
  abbrev pub on_store : (Store → Store) → Fleet D → Fleet D
  on_store g f = record f { store = g f.store }

  unfoldable pub destroy_vpn : VpnNode → Fleet D → Fleet D
  destroy_vpn n f =
      if not n.managed_dynamic
      then f
      else (destroy_node lower trim docker cfg now n.container_name f).1

  -- The set of active drains is empty between calls, which are one after the other.
  unfoldable pub gc_draining : VpnNode → Fleet D → Fleet D
  gc_draining n f =
      let engines = engines_by_vpn n.container_name f.store.engines in
      let drained = on_store (drain_engines engines) f in
      if not (all_idle engines f.store)
        && not (is_over now cfg.vpn_draining_hard_timeout n.draining_since)
      then drained
      else destroy_vpn n drained

  unfoldable pub recover_stopped_node : String → Fleet D → Fleet D
  recover_stopped_node name f =
      let stopped =
        on_store (λ s. (set_vpn_node_draining now name (set_vpn_node_healthy now name false s)).1)
          f in
      if str_eq name "" || is_external (get_vpn_node name f.store)
      then f
      else (destroy_node lower trim docker cfg now name stopped).1

  -- The branches of a node that may be managed here.
  unfoldable pub sync_known : Observed → Fleet D → Fleet D
  sync_known n f =
      let known = is_some (get_vpn_node n.container_name f.store) in
      if is_terminal_node_status n.status
      then recover_stopped_node n.container_name
          (if known then f else on_store (upsert_vpn_node now (stopped_node n)) f)
      else if known
      then on_store (set_vpn_node_status now n.container_name n.status) f
      else if not (str_eq n.status "running")
      then f
      else on_store (upsert_vpn_node now (node_of n now)) f

  unfoldable pub sync_observed : List Observed → Fleet D → Fleet D
  sync_observed [] f = f
  sync_observed (n ∷ nodes) f = sync_observed nodes (
      if str_eq n.container_name ""
      then f
      else if is_external (get_vpn_node n.container_name f.store)
      then f
      else sync_known n f)

  unfoldable pub sync_gone : List Observed → List VpnNode → Fleet D → Fleet D
  sync_gone observed [] f = f
  sync_gone observed (n ∷ nodes) f = sync_gone observed nodes (
      if not (is_observed n.container_name observed) && leb (n.first_seen + 30000000000) now
      then recover_stopped_node n.container_name (
          on_store
            (λ s.
              set_vpn_node_status now n.container_name "down"
                (set_vpn_node_healthy now n.container_name false s))
            f)
      else f)

  unfoldable pub sync_managed_snapshot : List Observed → Fleet D → Fleet D
  sync_managed_snapshot observed f =
      let synced = sync_observed observed f in
      sync_gone observed (list_dynamic_vpn_nodes synced.store) synced

  -- The last loop of `reconcile`, over the nodes as they were before it.
  unfoldable pub drain_or_collect : List VpnNode → Fleet D → Fleet D
  drain_or_collect [] f = f
  drain_or_collect (n ∷ nodes) f = drain_or_collect nodes (
      if str_eq n.lifecycle "draining"
      then gc_draining n f
      else if is_lost cfg now n
      then on_store (λ s. (set_vpn_node_draining now n.container_name s).1) f
      else f)

  -- `provisionOne` so many times, each by the provisioner.
  unfoldable pub provision_each : (Fleet D → Fleet D) → ℕ → Fleet D → Fleet D
  provision_each provision_one zero f = f
  provision_each provision_one (suc n) f = provision_each provision_one n (provision_one f)

  abbrev pub scaled : (Fleet D → Fleet D) → Fleet D → ℕ × Store → Fleet D
  scaled provision_one f (n, s) = provision_each provision_one n (record f { store = s })

  -- `none` is an error of the list of containers: then nothing is scaled.
  abbrev pub sync_and_scale : (Fleet D → Fleet D) → Option (List Observed) → Fleet D → Fleet D
  sync_and_scale provision_one none f = f
  sync_and_scale provision_one (some observed) f =
      let synced = sync_managed_snapshot observed f in
      scaled provision_one synced (
        reconcile_scale cfg now (total_count synced.creds) (available_count synced.creds)
          synced.store)

  unfoldable pub reconcile : Bool → (Fleet D → Fleet D) → Option (List Observed) → Fleet D → Fleet D
  reconcile vpn_enabled provision_one observed f =
      let grown = if vpn_enabled then sync_and_scale provision_one observed f else f in
      let healed = on_store (heal_not_ready cfg now) grown in
      drain_or_collect (list_vpn_nodes healed.store.vpn_nodes) healed

-- `reachable` is the answer of each node's control API.
unfoldable pub monitor_each : (String → Bool) → ℕ → List VpnNode → Store → Store
monitor_each reachable now [] s = s
monitor_each reachable now (n ∷ nodes) s = monitor_each reachable now nodes (
    if not n.managed_dynamic || str_eq n.lifecycle "draining"
    then s
    else if (if n.healthy then reachable n.container_name else not (reachable n.container_name))
    then s
    else set_vpn_node_healthy now n.container_name (reachable n.container_name) s)

unfoldable pub monitor_health : (String → Bool) → ℕ → Store → Store
monitor_health reachable now s = monitor_each reachable now (list_vpn_nodes s.vpn_nodes) s
