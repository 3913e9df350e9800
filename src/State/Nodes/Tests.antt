-- ===== src/State/Nodes/Tests.antt =====
-- The theorems on VPN nodes at concrete inputs.
use acestream_orchestrator.Prelude.{true, false, none, some, [], ◌∷◌, Bool}
use acestream_orchestrator.Prelude.Maps.{lookup}
use acestream_orchestrator.State.{Store, VpnNode, new_store}
use acestream_orchestrator.State.Nodes.Laws.{
  AllTimed, run, upserts, sets_healthy, sets_draining, removes, run-AllTimed,
}

abbrev node : Bool → VpnNode
node healthy = record {
  container_name = "vpn1";
  container_id = "id1";
  status = "running";
  healthy = healthy;
  condition = "";
  provider = "";
  protocol = "";
  credential_id = "";
  managed_dynamic = true;
  assigned_hostname = "";
  port_forwarding_supported = false;
  lifecycle = "active";
  first_seen = 0;
  last_seen = 0;
  draining_since = none;
  unhealthy_since = none;
  healthy_since = some 1;
  control_host = "";
}

new_store-AllTimed : AllTimed new_store
unfolding new_store lookup
new_store-AllTimed name = tt

run-AllTimed_example : AllTimed (
    run
      (upserts 3 (node false)
        ∷ sets_healthy 4 "vpn1" true
        ∷ sets_draining 5 "vpn1"
        ∷ removes "vpn2"
        ∷ [])
      new_store)
run-AllTimed_example =
    run-AllTimed
      (upserts 3 (node false)
        ∷ sets_healthy 4 "vpn1" true
        ∷ sets_draining 5 "vpn1"
        ∷ removes "vpn2"
        ∷ [])
      new_store new_store-AllTimed

abbrev old : VpnNode
old = record (node true) { lifecycle = "draining"; draining_since = some 2 }

abbrev drained : Store
drained = record new_store { vpn_nodes = ("vpn1", old) ∷ [] }
