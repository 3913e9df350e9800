-- ===== src/Provision.antt =====
-- app/orchestrator/internal/controlplane/engine/provisioner.go: the resources of a new engine. The
-- world is the state store and the port allocator. `normal` is `ToLower` after `TrimSpace` and
-- `lower` is `ToLower`; what a call out of the process answers is an argument: the architecture,
-- the host's name, the hash of the configuration, the port that a VPN node forwards, and Docker.
-- Logging and events are left out. An error is its reason, not its text.
pub mod Nodes
pub mod Command
pub mod Schedule
pub mod Execute
mod Tests
use acestream_orchestrator.Prelude.{ℕ, Bool, String, List}
use acestream_orchestrator.Prelude.Maps.{Map}
use acestream_orchestrator.State.{Store}
use acestream_orchestrator.Ports.{PortAllocator}

-- The settings that these functions read.
pub record EngineConfig : Type 0 where
  pub vpn_enabled : Bool
  pub preferred_engines_per_vpn : ℕ
  pub max_engines_per_vpn : ℕ
  pub ace_map_https : Bool
  pub docker_network : String
  pub container_label_key : String
  pub container_label_val : String
  pub engine_variant : String
  pub engine_memory_limit : String
  pub engine_max_download_rate : ℕ
  pub engine_max_upload_rate : ℕ
  pub engine_live_cache_type : String
  pub engine_buffer_time : ℕ

pub record World : Type 0 where
  pub store : Store
  pub alloc : PortAllocator

-- Why there is no node for an engine, or no engine. A list holds the reason of each node.
pub data ScheduleError : Type 0 where
  awaiting_node : ScheduleError
  no_ready_node : List String → ScheduleError
  awaiting_pending : ℕ → ScheduleError
  all_full : ℕ → ScheduleError
  port_allocation_failed : ScheduleError

pub record EngineSpec : Type 0 where
  pub container_name : String
  pub image : String
  pub command : List String
  pub labels : Map String
  pub network_mode : String
  pub ports : Map ℕ
  pub mem_limit : String
  pub vpn_container_id : String
  pub host_http_port : ℕ
  pub container_http_port : ℕ
  pub host_api_port : ℕ
  pub container_api_port : ℕ
  pub container_https_port : ℕ
  pub host_https_port : ℕ
  pub forwarded : Bool
  pub p2p_port : ℕ
