-- ===== src/Lifecycle/Tests.antt =====
-- The theorems on the lifecycle manager at a concrete fleet.
use acestream_orchestrator.State.Nodes.{
  update_node, remove_vpn_node, set_vpn_node_draining, set_vpn_node_status, set_vpn_node_healthy,
  upserted, upsert_vpn_node, get_vpn_node, keep, list_dynamic_vpn_nodes, list_vpn_nodes,
  count_active, count_active_dynamic_vpn_nodes,
}
use acestream_orchestrator.Prelude.{
  ◌≢◌, arith, eq_iff, str_eq, ℕ, ◌+◌, ◌≡◌, ◌≤◌, inl, refl, true, false, none, some, List, [], ◌∷◌,
  AllOf, String,
}
use acestream_orchestrator.Prelude.Maps.{delete, insert, lookup}
use acestream_orchestrator.State.{engines_by_vpn, list_engines, Store, VpnNode, new_store}
use acestream_orchestrator.Leases.{
  release_lease, new_credential_manager, total_count, available_count,
}
use acestream_orchestrator.AirVpn.{release_port, new_air_vpn_port_pool}
use acestream_orchestrator.Lifecycle.{
  count_vpn, count_vpn_engines, scale_down_idle, steer, LifecycleConfig, desired_vpns, desired_for,
  reconcile_scale,
}
use acestream_orchestrator.Lifecycle.Destroy.{
  is_named, release_node, remove_engines, remove_dependents, remove_targets, find_targets,
  NodeDocker, Fleet, removed, destroy_node,
}
use acestream_orchestrator.Lifecycle.Sync.{
  recover_stopped_node, sync_known, sync_gone, sync_observed, Observed, is_observed,
  sync_managed_snapshot, reconcile,
}
use acestream_orchestrator.Lifecycle.Laws.{IsSteered, reconcile_scale-IsSteered}
use acestream_orchestrator.Lifecycle.Retry.{IsDestroyed, destroy_node-IsDestroyed}
use acestream_orchestrator.Lifecycle.Kept.{IsWorking}
use acestream_orchestrator.Lifecycle.Survive.{reconcile-IsWorking}
use acestream_orchestrator.Lifecycle.Recorded.{Runs}

abbrev config : LifecycleConfig
config = record {
  preferred_engines_per_vpn = 4;
  vpn_unhealthy_grace_period = 60;
  vpn_draining_hard_timeout = 600;
  vpn_heal_grace_period = 30;
  container_label_key = "ondemand.app";
  container_label_val = "myservice";
}

abbrev node : VpnNode
node = record {
  container_name = "gluetun-dyn-1";
  container_id = "c1";
  status = "running";
  healthy = true;
  condition = "";
  provider = "protonvpn";
  protocol = "wireguard";
  credential_id = "";
  managed_dynamic = true;
  assigned_hostname = "";
  port_forwarding_supported = true;
  lifecycle = "active";
  first_seen = 1;
  last_seen = 2;
  draining_since = none;
  unhealthy_since = none;
  healthy_since = some 1;
  control_host = "";
}

-- One node, and four engines wanted.
abbrev store : Store
store = record new_store { vpn_nodes = ("gluetun-dyn-1", node) ∷ []; desired_replicas = 4 }

-- A Docker with the container of that node and no engine.
abbrev docker : NodeDocker ℕ
docker = record {
  connect = λ d. (true, d);
  list_all = λ d. (
    some (
        (record {
          id = "c1";
          names = "/gluetun-dyn-1" ∷ [];
          labels = ("acestream-orchestrator.managed", "true") ∷ ("role", "vpn_node") ∷ [];
        })
        ∷ []),
    d,
  );
  list_dependents = λ name d. (some [], d);
  remove = λ id d. (removed, d + 1);
}

abbrev fleet : Store → Fleet ℕ
fleet s = record {
  store = s;
  creds = new_credential_manager;
  air_vpn_ports = new_air_vpn_port_pool;
  docker = 0;
}

abbrev seen : Observed
seen = record {
  container_name = "gluetun-dyn-1";
  container_id = "c1";
  status = "running";
  provider = "protonvpn";
  protocol = "wireguard";
  credential_id = "";
  port_forwarding_supported = true;
}

abbrev same_text : String → String
same_text text = text

reconcile_scale-IsSteered_example :
    IsSteered (desired_vpns config 5 store) 3 store (reconcile_scale config 9 5 3 store)
    × (desired_vpns config 5 store ≤ 5)
reconcile_scale-IsSteered_example = reconcile_scale-IsSteered config 9 5 3 store

destroy_node-IsDestroyed_example :
    IsDestroyed same_text same_text docker config 9 "gluetun-dyn-1"
      (fleet store)
      (destroy_node same_text same_text docker config 9 "gluetun-dyn-1" (fleet store))
destroy_node-IsDestroyed_example =
    destroy_node-IsDestroyed same_text same_text docker config 9 "gluetun-dyn-1" (fleet store)

-- No engine wanted, and Docker reports the node and one that has stopped.
abbrev quiet : Store
quiet = record store { desired_replicas = 0 }

abbrev report : List Observed
report =
    seen
    ∷ (record seen { container_name = "gluetun-dyn-2"; container_id = "c2"; status = "exited" })
    ∷ []

differs : (a b : String) → str_eq a b ≡ false → a ≢ b
differs a b away e = ground (arith, away, (eq_iff a b).1 e)

report-steady :
    (let synced = sync_managed_snapshot same_text same_text docker config 9 report (fleet quiet) in
      reconcile_scale config 9
        (total_count synced.creds)
        (available_count synced.creds)
        synced.store
      ≡ (0, synced.store))
unfolding reconcile_scale steer desired_vpns desired_for scale_down_idle count_vpn_engines count_vpn
    count_active_dynamic_vpn_nodes count_active list_vpn_nodes list_dynamic_vpn_nodes keep
    sync_managed_snapshot sync_observed sync_gone sync_known recover_stopped_node destroy_node
    is_observed get_vpn_node lookup insert delete upsert_vpn_node upserted set_vpn_node_healthy
    set_vpn_node_status set_vpn_node_draining remove_vpn_node update_node total_count
    available_count new_credential_manager new_store list_engines engines_by_vpn find_targets
    remove_targets remove_dependents remove_engines release_node release_lease new_air_vpn_port_pool
    release_port is_named
report-steady = refl

quiet-IsWorking : IsWorking "gluetun-dyn-1" quiet
unfolding lookup
quiet-IsWorking = record { there = refl; entries = (refl, λ e. (refl, refl), tt) }

report-Runs : AllOf (Runs "gluetun-dyn-1") report
report-Runs = (
  (λ e. (
    differs "running" "stopped" refl,
    differs "running" "exited" refl,
    differs "running" "dead" refl,
  )),
  ((λ e. absurd (differs "gluetun-dyn-2" "gluetun-dyn-1" refl e)), tt),
)

reconcile-IsWorking_example :
    IsWorking "gluetun-dyn-1"
      (reconcile same_text same_text docker config 9 true
        (λ f. f)
        (some report)
        (fleet quiet)).store
reconcile-IsWorking_example =
    reconcile-IsWorking same_text same_text docker config 9 "gluetun-dyn-1" (λ f. f) report
      (fleet quiet) report-Runs (inl refl) report-steady quiet-IsWorking

-- Ten engines at 80 % of four on a node want four nodes.
desired_for_runs : desired_for 4 10 ≡ 4
unfolding desired_for
desired_for_runs = refl
