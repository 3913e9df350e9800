-- ===== src/Provision/Schedule.antt =====
-- provisioner.go: `ScheduleNewEngine` takes everything that an engine needs and writes its plan;
-- `ReleaseSpec` gives it back.
pub mod Laws
pub mod Release
use Prim.Native.String.{◌++◌ as append}
use acestream_orchestrator.Prelude.{
  ℕ, ◌+◌, Bool, true, false, ◌&&◌, ◌||◌, not, Option, none, some, List, [], ◌∷◌, ◌++◌,
  if◌then◌else◌, ltb, ◌==◌, String, str_eq,
}
use acestream_orchestrator.Prelude.Maps.{Map}
use acestream_orchestrator.State.{Store, VpnNode, or_zero}
use acestream_orchestrator.State.Nodes.{get_vpn_node}
use acestream_orchestrator.State.Vpn.{
  decr_vpn_pending, set_forwarded_pending, try_claim_forwarded_slot,
}
use acestream_orchestrator.Ports.{PortAllocator}
use acestream_orchestrator.Ports.Vpn.{alloc_internal_p2p_port}
use acestream_orchestrator.Ports.Engine.{
  PortsInfo, Request, Result, ports, no_free_ports, never_returns, allocate_engine_ports,
}
use acestream_orchestrator.Ports.Labels.{release_from_labels}
use acestream_orchestrator.Provision.{
  EngineConfig, World, ScheduleError, port_allocation_failed, EngineSpec,
}
use acestream_orchestrator.Provision.Nodes.{Selection, on_node, rejected, select_vpn_container}
use acestream_orchestrator.Prelude.Digits.{itoa}
use acestream_orchestrator.Provision.Command.{
  detect_platform, resolve_engine_image, build_command, generate_container_name,
}

-- What the process around the scheduler answers.
pub record Surroundings : Type 0 where
  pub normal : String → String
  pub lower : String → String
  pub now : ℕ
  pub arch : String
  pub hostname : String
  pub config_hash : String
  pub provider_supports_forwarding : String → Bool
  pub forwarded_port : String → ℕ

abbrev pub supports_forwarding : (String → Bool) → Option VpnNode → Bool
supports_forwarding provider none = true
supports_forwarding provider (some n) =
    if n.port_forwarding_supported
    then true
    else if not (str_eq n.provider "")
    then provider n.provider
    else true

unfoldable pub node_supports_port_forwarding : (String → Bool) → String → Store → Bool
node_supports_port_forwarding provider vpn s = supports_forwarding provider (get_vpn_node vpn s)

-- The search of `alloc_internal_p2p_port` always ends with a port, so the 0 is never met.
unfoldable pub internal_port : String → World → (Bool × ℕ) × World
internal_port vpn w =
    let (alloc, p) = alloc_internal_p2p_port vpn w.alloc in
    ((false, or_zero p), record w { alloc = alloc })

-- The claim is taken: wait for the port that the node forwards, which is 0 when there is none.
unfoldable pub with_forwarded_port : ℕ → String → World → (Bool × ℕ) × World
with_forwarded_port p vpn w =
    if ltb 0 p
    then ((true, p), w)
    else internal_port vpn (record w { store = set_forwarded_pending vpn false w.store })

unfoldable pub elect_forwarded_engine : Surroundings → String → World → (Bool × ℕ) × World
elect_forwarded_engine env vpn w =
    let (claimed, s) = try_claim_forwarded_slot vpn w.store in
    if str_eq vpn ""
    then ((false, 0), w)
    else if not (node_supports_port_forwarding env.provider_supports_forwarding vpn w.store)
    then internal_port vpn w
    else if not claimed
    then internal_port vpn w
    else with_forwarded_port (env.forwarded_port vpn) vpn (record w { store = s })

-- A label that is there only under a condition.
abbrev pub label_if : Bool → String → String → Map String
label_if test key value = if test then (key, value) ∷ [] else []

-- The labels in the order of the code, with the configured one first. The configured key is none
-- of the others.
unfoldable pub labels_of : Surroundings → EngineConfig → PortsInfo → String → Bool → Map String
labels_of env cfg info vpn forwarded =
    ((cfg.container_label_key, cfg.container_label_val)
      ∷ ("acestream.http_port", itoa info.container_http_port)
      ∷ ("acestream.https_port", itoa info.container_https_port)
      ∷ ("acestream.api_port", itoa info.container_api_port)
      ∷ ("host.http_port", itoa info.host_http_port)
      ∷ ("host.api_port", itoa info.host_api_port)
      ∷ ("acestream.engine_variant", append "global-" (detect_platform env.arch))
      ∷ ("acestream.config_hash", env.config_hash)
      ∷ ("acestream.config_generation", "1")
      ∷ [])
    ++ (label_if (not (str_eq vpn "")) "acestream.vpn_container" vpn
        ++ (label_if forwarded "acestream.forwarded" "true"
            ++ label_if (not (info.host_https_port == 0)) "host.https_port"
                (itoa info.host_https_port)))

-- `%d/tcp`.
abbrev pub tcp : ℕ → String
tcp p = append (itoa p) "/tcp"

unfoldable pub docker_ports : PortsInfo → String → Map ℕ
docker_ports info vpn =
    if not (str_eq vpn "")
    then []
    else (tcp info.container_http_port, info.host_http_port)
      ∷ (tcp info.container_api_port, info.host_api_port)
      ∷ (if info.host_https_port == 0
          then []
          else (tcp info.container_https_port, info.host_https_port) ∷ [])

unfoldable pub network_mode_of : EngineConfig → String → String
network_mode_of cfg vpn =
    if not (str_eq vpn "")
    then append "container:" vpn
    else if not (str_eq cfg.docker_network "")
    then cfg.docker_network
    else "bridge"

unfoldable pub spec_of :
    Surroundings → EngineConfig → PortsInfo → String → Bool × ℕ → String → EngineSpec
spec_of env cfg info vpn (forwarded, p2p_port) name = record {
  container_name = name;
  image = resolve_engine_image env.arch cfg;
  command = build_command info.container_http_port info.container_api_port p2p_port cfg;
  labels = labels_of env cfg info vpn forwarded;
  network_mode = network_mode_of cfg vpn;
  ports = docker_ports info vpn;
  mem_limit = cfg.engine_memory_limit;
  vpn_container_id = vpn;
  host_http_port = info.host_http_port;
  container_http_port = info.container_http_port;
  host_api_port = info.host_api_port;
  container_api_port = info.container_api_port;
  container_https_port = info.container_https_port;
  host_https_port = info.host_https_port;
  forwarded = forwarded;
  p2p_port = p2p_port;
}

-- `never` is a search for a port that goes on for ever.
pub data Scheduled : Type 0 where
  scheduled : EngineSpec → Scheduled
  refused : ScheduleError → Scheduled
  never : Scheduled

-- What follows once the node and the ports are taken.
unfoldable pub plan : Surroundings → EngineConfig → PortsInfo → String → World → Scheduled × World
plan env cfg info vpn w =
    let (elected, v) = elect_forwarded_engine env vpn w in
    let (name, s) = generate_container_name env.hostname "acestream" v.store in
    (scheduled (spec_of env cfg info vpn elected name), record v { store = s })

unfoldable pub with_ports :
    Surroundings → EngineConfig → String → Store → PortAllocator × Result → Scheduled × World
with_ports env cfg vpn s (a, ports info) = plan env cfg info vpn (record { store = s; alloc = a })
with_ports env cfg vpn s (a, no_free_ports) = (
  refused port_allocation_failed,
  record { store = if not (str_eq vpn "") then decr_vpn_pending vpn s else s; alloc = a },
)
with_ports env cfg vpn s (a, never_returns) = (never, record { store = s; alloc = a })

-- The request that the scheduler makes: no port is asked for.
abbrev pub request : EngineConfig → String → Request
request cfg vpn = record {
  use_gluetun = not (str_eq vpn "");
  vpn_container = vpn;
  requested_host_port = 0;
  user_http_port = 0;
  user_https_port = 0;
  user_api_port = 0;
  map_https = cfg.ace_map_https;
}

unfoldable pub with_node :
    ℕ → Surroundings → EngineConfig → PortAllocator → Selection × Store → Scheduled × World
with_node fuel env cfg a (rejected e, s) = (refused e, record { store = s; alloc = a })
with_node fuel env cfg a (on_node vpn, s) =
    with_ports env cfg vpn s (allocate_engine_ports fuel (request cfg vpn) a)

unfoldable pub schedule_new_engine : ℕ → Surroundings → EngineConfig → World → Scheduled × World
schedule_new_engine fuel env cfg w =
    with_node fuel env cfg w.alloc (select_vpn_container env.normal env.lower env.now cfg w.store)

unfoldable pub release_store : EngineSpec → Store → Store
release_store spec s =
    let t = decr_vpn_pending spec.vpn_container_id s in
    if str_eq spec.vpn_container_id ""
    then s
    else if spec.forwarded
    then set_forwarded_pending spec.vpn_container_id false t
    else t

-- `scan` reads the number of a label.
unfoldable pub release_spec : (String → ℕ) → EngineSpec → World → World
release_spec scan spec w = record {
  store = release_store spec w.store;
  alloc = release_from_labels scan spec.labels w.alloc;
}
