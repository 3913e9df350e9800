-- ===== src/State/Types.antt =====
-- app/orchestrator/internal/state/types.go: VPN nodes, scaling intents, streams, their samples and
-- the proxy's events. A nil pointer is `none`. Left out: the client list, the live position and
-- the labels, whose values the store only keeps; a JSON number is a natural number.
use acestream_orchestrator.Prelude.{ℕ, Bool, Option, String}
use acestream_orchestrator.Prelude.Maps.{Map}

pub record VpnNode : Type 0 where
  pub container_name : String
  pub container_id : String
  pub status : String
  pub healthy : Bool
  pub condition : String
  pub provider : String
  pub protocol : String
  pub credential_id : String
  pub managed_dynamic : Bool
  pub assigned_hostname : String
  pub port_forwarding_supported : Bool
  pub lifecycle : String
  pub first_seen : ℕ
  pub last_seen : ℕ
  pub draining_since : Option ℕ
  pub unhealthy_since : Option ℕ
  pub healthy_since : Option ℕ
  pub control_host : String

pub record ScalingIntent : Type 0 where
  pub id : String
  pub action : String
  pub status : String
  pub details : Map String

pub record StatSnapshot : Type 0 where
  pub ts : ℕ
  pub peers : Option ℕ
  pub speed_down : Option ℕ
  pub speed_up : Option ℕ
  pub downloaded : Option ℕ
  pub uploaded : Option ℕ
  pub status : String
  pub bitrate : Option ℕ
  pub proxy_buffer_pieces : Option ℕ

pub record StreamState : Type 0 where
  pub id : String
  pub content_id : String
  pub key_type : String
  pub key : String
  pub file_indexes : String
  pub seekback : ℕ
  pub live_delay : ℕ
  pub control_mode : String
  pub stream_mode : String
  pub container_id : String
  pub container_name : String
  pub engine_id : String
  pub engine_name : String
  pub playback_session_id : String
  pub stat_url : String
  pub command_url : String
  pub is_live : Bool
  pub bitrate : Option ℕ
  pub started_at : ℕ
  pub ended_at : Option ℕ
  pub last_activity : ℕ
  pub status : String
  pub peers : Option ℕ
  pub speed_down : Option ℕ
  pub speed_up : Option ℕ
  pub downloaded : Option ℕ
  pub uploaded : Option ℕ
  pub proxy_buffer_pieces : Option ℕ
  pub active_clients : ℕ

pub record StreamKeyPayload : Type 0 where
  pub key_type : String
  pub key : String
  pub file_indexes : String
  pub seekback : ℕ
  pub live_delay : ℕ
  pub control_mode : String
  pub stream_mode : String

pub record SessionInfo : Type 0 where
  pub playback_session_id : String
  pub stat_url : String
  pub command_url : String
  pub is_live : ℕ
  pub bitrate : Option ℕ

pub record StreamStartedEvent : Type 0 where
  pub content_id : String
  pub engine_id : String
  pub engine_name : String
  pub container_id : String
  pub stream : Option StreamKeyPayload
  pub session : Option SessionInfo

pub record StreamEndedEvent : Type 0 where
  pub content_id : String
  pub stream_id : String
  pub container_id : String
  pub reason : String
