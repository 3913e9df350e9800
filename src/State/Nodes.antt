-- ===== src/State/Nodes.antt =====
-- store.go, the VPN nodes. A node is copied on its way in and out (`cloneVPNNode`, vpn_snapshot.go),
-- so no caller shares it with the store.
pub mod Laws
mod Tests
use acestream_orchestrator.Prelude.{
  ℕ, suc, ◌+◌, Bool, true, false, ◌&&◌, ◌||◌, not, Option, none, some, List, [], ◌∷◌, if◌then◌else◌,
  String, str_eq,
}
use acestream_orchestrator.Prelude.Maps.{Map, lookup, insert, delete}
use acestream_orchestrator.State.{Store, is_some, VpnNode}

-- The test that the node is the one that is known.
abbrev pub same_container : VpnNode → VpnNode → Bool
same_container existing n =
    str_eq existing.container_id n.container_id
    || str_eq n.container_id ""
    || str_eq existing.container_id ""

abbrev pub inherit : ℕ → Option VpnNode → VpnNode → VpnNode
inherit now none n = record n { first_seen = now }
inherit now (some existing) n =
    let unhealthy_since =
      if not n.healthy && not existing.healthy
      then existing.unhealthy_since
      else n.unhealthy_since in
    let seen : VpnNode = record n {
      first_seen = existing.first_seen;
      unhealthy_since = unhealthy_since;
    } in
    if same_container existing n
    then if str_eq existing.lifecycle "draining"
      then record seen { lifecycle = existing.lifecycle; draining_since = existing.draining_since }
      else seen
    else record n { first_seen = now }

abbrev pub since : ℕ → Option ℕ → Option ℕ
since now none = some now
since now (some t) = some t

-- The two tests on the health at the end of `UpsertVPNNode`.
abbrev pub timed : ℕ → VpnNode → VpnNode
timed now n =
    if n.healthy
    then record n { unhealthy_since = none }
    else record n { unhealthy_since = since now n.unhealthy_since; healthy_since = none }

unfoldable pub upserted : ℕ → Option VpnNode → VpnNode → VpnNode
upserted now existing n = record (timed now (inherit now existing n)) { last_seen = now }

unfoldable pub upsert_vpn_node : ℕ → VpnNode → Store → Store
upsert_vpn_node now n s = record s {
  vpn_nodes =
      insert n.container_name (upserted now (lookup n.container_name s.vpn_nodes) n) s.vpn_nodes;
}

unfoldable pub get_vpn_node : String → Store → Option VpnNode
get_vpn_node name s = lookup name s.vpn_nodes

unfoldable pub remove_vpn_node : String → Store → Bool × Store
remove_vpn_node name s =
    if is_some (lookup name s.vpn_nodes)
    then (true, record s { vpn_nodes = delete name s.vpn_nodes })
    else (false, s)

unfoldable pub update_node : String → (VpnNode → VpnNode) → Store → Store
update_node name f s = elim (lookup name s.vpn_nodes) [
  | none ↦ s
  | some n ↦ record s { vpn_nodes = insert name (f n) s.vpn_nodes }
]

unfoldable pub set_vpn_node_condition : ℕ → String → String → Store → Store
set_vpn_node_condition now name condition s =
    update_node name (λ n. record n { condition = condition; last_seen = now }) s

abbrev pub with_health : ℕ → Bool → VpnNode → VpnNode
with_health now healthy n =
    let seen : VpnNode = record n { healthy = healthy; last_seen = now } in
    if not healthy
    then record seen {
      unhealthy_since =
          if n.healthy || not (is_some n.unhealthy_since) then some now else n.unhealthy_since;
      healthy_since = none;
    }
    else record seen {
      unhealthy_since = none;
      healthy_since =
          if not n.healthy || not (is_some n.healthy_since) then some now else n.healthy_since;
    }

unfoldable pub set_vpn_node_healthy : ℕ → String → Bool → Store → Store
set_vpn_node_healthy now name healthy s = update_node name (with_health now healthy) s

unfoldable pub set_vpn_node_status : ℕ → String → String → Store → Store
set_vpn_node_status now name status s =
    update_node name (λ n. record n { status = status; last_seen = now }) s

abbrev pub is_draining : Option VpnNode → Bool
is_draining none = false
is_draining (some n) = str_eq n.lifecycle "draining"

unfoldable pub is_vpn_node_draining : String → Store → Bool
is_vpn_node_draining name s = is_draining (lookup name s.vpn_nodes)

unfoldable pub set_vpn_node_draining : ℕ → String → Store → Bool × Store
set_vpn_node_draining now name s = elim (lookup name s.vpn_nodes) [
  | none ↦ (false, s)
  | some n ↦ if str_eq n.lifecycle "draining" then (false, s) else (
    true,
    record s {
      vpn_nodes =
          insert name (record n { lifecycle = "draining"; draining_since = some now }) s.vpn_nodes;
    },
  )
]

unfoldable pub set_vpn_node_lifecycle : String → String → Store → Store
set_vpn_node_lifecycle name lifecycle s =
    update_node name (λ n. record n { lifecycle = lifecycle }) s

unfoldable pub update_vpn_node_control_host : String → String → Store → Store
update_vpn_node_control_host name host s =
    if str_eq host "" then s else update_node name (λ n. record n { control_host = host }) s

unfoldable pub list_vpn_nodes : Map VpnNode → List VpnNode
list_vpn_nodes [] = []
list_vpn_nodes ((name, n) ∷ nodes) = n ∷ list_vpn_nodes nodes

-- The nodes that pass a test.
unfoldable pub keep : (VpnNode → Bool) → List VpnNode → List VpnNode
keep test [] = []
keep test (n ∷ nodes) = let kept = keep test nodes in if test n then n ∷ kept else kept

unfoldable pub list_draining_vpn_nodes : Store → List VpnNode
list_draining_vpn_nodes s = keep (λ n. str_eq n.lifecycle "draining") (list_vpn_nodes s.vpn_nodes)

unfoldable pub list_dynamic_vpn_nodes : Store → List VpnNode
list_dynamic_vpn_nodes s = keep (λ n. n.managed_dynamic) (list_vpn_nodes s.vpn_nodes)

unfoldable pub list_not_ready_vpn_nodes : Store → List VpnNode
list_not_ready_vpn_nodes s =
    keep (λ n. n.managed_dynamic && not n.healthy && not (str_eq n.lifecycle "draining"))
      (list_vpn_nodes s.vpn_nodes)

unfoldable pub count_active : List VpnNode → ℕ
count_active [] = 0
count_active (n ∷ nodes) =
    let rest = count_active nodes in
    if n.managed_dynamic && not (str_eq n.lifecycle "draining") then suc rest else rest

unfoldable pub count_active_dynamic_vpn_nodes : Store → ℕ
count_active_dynamic_vpn_nodes s = count_active (list_vpn_nodes s.vpn_nodes)
