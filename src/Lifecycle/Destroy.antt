-- ===== src/Lifecycle/Destroy.antt =====
-- node_provisioner.go, `DestroyNode`, and controlplane/identity/vpn.go: a VPN node goes with its
-- container, its engines, its credential and its port. Docker is an interface with a state.
-- `lower` and `trim` are `ToLower` and `TrimSpace`. The callback for a removed engine is left out.
use Prim.Native.String.{len, slice}
use text.Mathlib.Text.{starts_with}
use acestream_orchestrator.Prelude.{
  ℕ, Bool, true, false, ◌&&◌, ◌||◌, not, Option, none, some, List, [], ◌∷◌, if◌then◌else◌, String,
  str_eq,
}
use acestream_orchestrator.Prelude.Maps.{Map, lookup}
use acestream_orchestrator.State.{Engine, Store, VpnNode, engines_by_vpn, remove_engine}
use acestream_orchestrator.State.Nodes.{get_vpn_node, set_vpn_node_draining, remove_vpn_node}
use acestream_orchestrator.Leases.{CredentialManager, release_lease}
use acestream_orchestrator.AirVpn.{AirVpnPortPool, release_port}
use acestream_orchestrator.Lifecycle.{LifecycleConfig}

pub record Container : Type 0 where
  pub id : String
  pub names : List String
  pub labels : Map String

pub data Removal : Type 0 where
  removed not_found not_removed : Removal

-- The calls of the client.
pub record NodeDocker (D : Type 0) : Type 0 where
  pub connect : D → Bool × D
  pub list_all : D → Option (List Container) × D
  pub list_dependents : String → D → Option (List Container) × D
  pub remove : String → D → Removal × D

-- What the calls change: the store, the credentials, the AirVPN ports and Docker.
pub record Fleet (D : Type 0) : Type 0 where
  pub store : Store
  pub creds : CredentialManager
  pub air_vpn_ports : AirVpnPortPool
  pub docker : D

pub data DestroyError : Type 0 where
  invalid_name external no_client list_failed renamed changed engines_failed : DestroyError
  foreign_engine engine_stuck node_stuck : String → DestroyError

-- `strings.TrimPrefix(name, "/")`.
abbrev pub trim_slash : String → String
trim_slash name = if starts_with name "/" then slice name 1 (len name) else name

-- `labels[key]`.
abbrev pub label_of : Option String → String
label_of none = ""
label_of (some value) = value

unfoldable pub has_label : String → String → Map String → Bool
has_label key value labels = str_eq (label_of (lookup key labels)) value

abbrev pub is_external : Option VpnNode → Bool
is_external none = false
is_external (some n) = not n.managed_dynamic

-- `tracked && node.ContainerID != ""`, and that ID.
abbrev pub known_id : Option VpnNode → String
known_id none = ""
known_id (some n) = n.container_id

unfoldable pub is_named : String → List String → Bool
is_named name [] = false
is_named name (n ∷ names) = str_eq (trim_slash n) name || is_named name names

abbrev pub add_target :
    Container → (DestroyError × List Container) × Bool → (DestroyError × List Container) × Bool
add_target c ((e, targets), ok) = ((e, c ∷ targets), ok)

abbrev pub is_gone : Removal → Bool
is_gone removed = true
is_gone not_found = true
is_gone not_removed = false

unfoldable pub remove_engines : List Engine → Store → Store
remove_engines [] s = s
remove_engines (e ∷ engines) s = remove_engines engines (remove_engine e.container_id s).1

-- The end of a destruction that went through.
unfoldable pub release_node : {D : Type 0} → String → Fleet D → Fleet D
release_node name f =
    let s = (remove_vpn_node name f.store).1 in
    record f {
      store = remove_engines (engines_by_vpn name s.engines) s;
      creds = (release_lease name f.creds).0;
      air_vpn_ports = release_port name f.air_vpn_ports;
    }

module _ (lower trim : String → String) where
  unfoldable pub dynamic_vpn_name : String → Bool
  dynamic_vpn_name name = starts_with (lower (trim_slash (trim name))) "gluetun-dyn-"

  unfoldable pub vpn_role : String → Map String → Bool
  vpn_role name labels =
      str_eq (lower (trim (label_of (lookup "role" labels)))) "vpn_node" || dynamic_vpn_name name

  unfoldable pub managed_vpn : String → Map String → Bool
  managed_vpn name labels =
      has_label "acestream-orchestrator.managed" "true" labels && vpn_role name labels

  unfoldable pub owned_vpn : String → Map String → Bool
  owned_vpn name labels =
      managed_vpn name labels
      && has_label "role" "vpn_node" labels
      && (has_label "acestream.vpn.dynamic" "true" labels || dynamic_vpn_name name)

  -- The containers of this name, or the error with which the loop returns (the Boolean is false).
  unfoldable pub find_targets :
      String → String → List Container → (DestroyError × List Container) × Bool
  find_targets name id [] = ((invalid_name, []), true)
  find_targets name id (c ∷ containers) =
      let rest = find_targets name id containers in
      if not (is_named name c.names)
      then if not (str_eq id "") && str_eq c.id id then ((renamed, []), false) else rest
      else if not (owned_vpn name c.labels) || not (str_eq id "") && not (str_eq id c.id)
      then ((changed, []), false)
      else add_target c rest

  module _ {D : Type 0} (docker : NodeDocker D) where
    unfoldable pub remove_dependents :
        LifecycleConfig → String → List Container → D → Option DestroyError × D
    remove_dependents cfg name [] d = (none, d)
    remove_dependents cfg name (c ∷ engines) d =
        let (removal, e) = docker.remove c.id d in
        let skipped = remove_dependents cfg name engines d in
        let rest = remove_dependents cfg name engines e in
        if not (has_label "acestream.vpn_container" name c.labels)
        then skipped
        else if not (has_label cfg.container_label_key cfg.container_label_val c.labels)
            || vpn_role "" c.labels
        then (some (foreign_engine c.id), d)
        else if is_gone removal
        then rest
        else (some (engine_stuck c.id), e)

    unfoldable pub remove_targets : List Container → D → Option DestroyError × D
    remove_targets [] d = (none, d)
    remove_targets (c ∷ targets) d =
        let (removal, e) = docker.remove c.id d in
        let rest = remove_targets targets e in
        if is_gone removal then rest else (some (node_stuck c.id), e)

    abbrev pub ended : String → Fleet D → Option DestroyError × D → Option DestroyError × Fleet D
    ended name f (some e, d) = (some e, record f { docker = d })
    ended name f (none, d) = (none, release_node name (record f { docker = d }))

    abbrev pub then_targets :
        String → Fleet D → List Container → Option DestroyError × D → Option DestroyError × Fleet D
    then_targets name f targets (some e, d) = (some e, record f { docker = d })
    then_targets name f targets (none, d) = ended name f (remove_targets targets d)

    abbrev pub with_dependents :
        LifecycleConfig
        → String
        → Fleet D
        → List Container
        → Option (List Container) × D
        → Option DestroyError × Fleet D
    with_dependents cfg name f targets (none, d) = (some engines_failed, record f { docker = d })
    with_dependents cfg name f targets (some engines, d) =
        then_targets name f targets (remove_dependents cfg name engines d)

    abbrev pub with_targets :
        LifecycleConfig
        → String
        → Fleet D
        → (DestroyError × List Container) × Bool
        → Option DestroyError × Fleet D
    with_targets cfg name f ((e, targets), false) = (some e, f)
    with_targets cfg name f ((e, targets), true) =
        with_dependents cfg name f targets (docker.list_dependents name f.docker)

    abbrev pub with_containers :
        LifecycleConfig
        → String
        → String
        → Fleet D
        → Option (List Container) × D
        → Option DestroyError × Fleet D
    with_containers cfg name id f (none, d) = (some list_failed, record f { docker = d })
    with_containers cfg name id f (some containers, d) =
        with_targets cfg name (record f { docker = d }) (find_targets name id containers)

    abbrev pub with_client :
        LifecycleConfig → String → String → Fleet D → Bool × D → Option DestroyError × Fleet D
    with_client cfg name id f (false, d) = (some no_client, record f { docker = d })
    with_client cfg name id f (true, d) =
        with_containers cfg name id (record f { docker = d }) (docker.list_all d)

    -- `none` is the nil error.
    unfoldable pub destroy_node :
        LifecycleConfig → ℕ → String → Fleet D → Option DestroyError × Fleet D
    destroy_node cfg now name f =
        let node = get_vpn_node name f.store in
        let draining = record f { store = (set_vpn_node_draining now name f.store).1 } in
        if str_eq name "" || not (str_eq (trim_slash name) name)
        then (some invalid_name, f)
        else if is_external node
        then (some external, f)
        else with_client cfg name (known_id node) draining (docker.connect f.docker)
