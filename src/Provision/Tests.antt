-- ===== src/Provision/Tests.antt =====
-- The theorems on provisioning at a concrete store: one node without an engine.
use acestream_orchestrator.Prelude.{
  ℕ, ◌+◌, ◌≡◌, refl, true, false, none, some, [], ◌∷◌, arith, String,
}
use acestream_orchestrator.Prelude.Sets.{empty}
use acestream_orchestrator.State.{Store, VpnNode}
use acestream_orchestrator.State.Nodes.{list_vpn_nodes}
use acestream_orchestrator.Ports.{PortAllocator}
use acestream_orchestrator.Ports.Engine.Rollback.{Cursors}
use acestream_orchestrator.Provision.{EngineConfig, World}
use acestream_orchestrator.Provision.Nodes.{select_vpn_container, check_vpn_schedulable}
use acestream_orchestrator.Provision.Nodes.Choice.{
  IsSelection, select_vpn_container-IsSelection, Agree, check_vpn_schedulable-Agree,
}
use acestream_orchestrator.Prelude.Digits.{itoa, digits}
use acestream_orchestrator.Provision.Command.{build_command, cache_flags}
use acestream_orchestrator.Provision.Schedule.{Surroundings, schedule_new_engine}
use acestream_orchestrator.Provision.Execute.{Docker, created}
use acestream_orchestrator.Provision.Execute.Laws.{Carried, schedule_new_engine-Carried}

abbrev node : VpnNode
node = record {
  container_name = "vpn1";
  container_id = "c1";
  status = "running";
  healthy = true;
  condition = "";
  provider = "protonvpn";
  protocol = "wireguard";
  credential_id = "";
  managed_dynamic = true;
  assigned_hostname = "";
  port_forwarding_supported = true;
  lifecycle = "active";
  first_seen = 1;
  last_seen = 2;
  draining_since = none;
  unhealthy_since = none;
  healthy_since = some 1;
  control_host = "";
}

abbrev store : Store
store = record {
  engine_ready = 0;
  engines = [];
  vpn_pending = [];
  engine_pending = [];
  stream_counts = [];
  forwarded_pending = [];
  empty_at = [];
  vpn_nodes = ("vpn1", node) ∷ [];
  intents = [];
  desired_replicas = 3;
  lookahead_layer = none;
  target_config_hash = "";
  target_config_generation = 0;
  streams = [];
  stats = [];
  next_engine_index = 0;
}

abbrev ports_left : PortAllocator
ports_left = record {
  host_min = 19000;
  host_max = 19002;
  http_min = 40000;
  http_max = 40001;
  https_min = 45000;
  https_max = 45001;
  host_next = 19000;
  http_next = 40000;
  https_next = 45000;
  used_host = empty;
  used_http = empty;
  used_https = empty;
  gluetun_min = 19000;
  gluetun_max = 19002;
  gluetun_next = 19000;
  used_gluetun = empty;
  vpn_range_slots = [];
  vpn_range_assignments = [];
  vpn_port_ranges = [];
  vpn_p2p_used = [];
}

abbrev config : EngineConfig
config = record {
  vpn_enabled = true;
  preferred_engines_per_vpn = 2;
  max_engines_per_vpn = 4;
  ace_map_https = false;
  docker_network = "";
  container_label_key = "ondemand.app";
  container_label_val = "myservice";
  engine_variant = "";
  engine_memory_limit = "";
  engine_max_download_rate = 0;
  engine_max_upload_rate = 500;
  engine_live_cache_type = "memory";
  engine_buffer_time = 0;
}

abbrev world : World
world = record { store = store; alloc = ports_left }

abbrev around : Surroundings
around = record {
  normal = λ text. text;
  lower = λ text. text;
  now = 5;
  arch = "amd64";
  hostname = "orchestrator";
  config_hash = "0011";
  provider_supports_forwarding = λ name. true;
  forwarded_port = λ vpn. 51000;
}

-- A Docker that starts nothing.
abbrev docker : Docker ℕ
docker = record {
  connect = λ d. (true, d);
  image_list = λ image d. (some 1, d);
  image_pull = λ image d. (none, d);
  container_create = λ r d. (created "0123456789abcdef", d);
  container_remove = λ id d. d;
  container_start = λ id d. (false, d + 1);
}

abbrev scan : String → ℕ
scan text = 19000

ports_left-Cursors : Cursors ports_left
ports_left-Cursors = omega arith

select_vpn_container-IsSelection_example :
    IsSelection
      (λ t. t)
      (λ t. t)
      5
      config
      store
      (list_vpn_nodes store.vpn_nodes)
      (select_vpn_container (λ t. t) (λ t. t) 5 config store)
select_vpn_container-IsSelection_example =
    select_vpn_container-IsSelection (λ t. t) (λ t. t) 5 config store

check_vpn_schedulable-Agree_example :
    Agree
      (λ t. t)
      (λ t. t)
      5
      config
      store
      (check_vpn_schedulable (λ t. t) (λ t. t) 5 store config)
      (select_vpn_container (λ t. t) (λ t. t) 5 config store)
check_vpn_schedulable-Agree_example = check_vpn_schedulable-Agree (λ t. t) (λ t. t) 5 config store

schedule_new_engine-Carried_example :
    Carried docker scan world (λ t. t) (λ t. none) 0 (schedule_new_engine 5 around config world)
schedule_new_engine-Carried_example =
    schedule_new_engine-Carried docker scan world (λ t. t) (λ t. none) 5 around config 0
      ports_left-Cursors

build_command_runs :
    build_command 19000 19001 0 config
    ≡ "python" ∷ "main.py" ∷ "--http-port" ∷ "19000" ∷ "--api-port" ∷ "19001" ∷ "--bind-all"
      ∷ "--disable-sentry" ∷ "--log-stdout" ∷ "--disable-upnp" ∷ "--max-upload-speed" ∷ "500"
      ∷ "--live-cache-type" ∷ "memory" ∷ "--live-mem-cache-size" ∷ "104857600" ∷ []
unfolding build_command itoa digits cache_flags
build_command_runs = refl
