-- ===== src/Clients.antt =====
-- app/orchestrator/internal/proxy/stream/client_manager.go: the clients of one stream. Their rates
-- and positions (floats) and the copies in Redis are left out; times are nanoseconds.
pub mod Laws
mod Tests
use acestream_orchestrator.Prelude.{
  ℕ, ◌+◌, ◌*◌, Bool, true, false, Option, none, some, [], ◌∷◌, if◌then◌else◌, ltb, leb, length,
  String, str_eq,
}
use acestream_orchestrator.Prelude.Maps.{Map, lookup, insert, delete}

pub record ClientRecord : Type 0 where
  pub ip : String
  pub user_agent : String
  pub connected_at : ℕ
  pub last_active : ℕ
  pub bytes_sent : ℕ
  pub chunks_sent : ℕ
  pub initial_index : ℕ
  pub requests_total : ℕ
  pub last_request_kind : String

pub record ClientManager : Type 0 where
  pub clients : Map ClientRecord
  pub had_clients : Bool
  pub is_initial_buffering : Bool

unfoldable pub new_client_manager : ClientManager
new_client_manager = record { clients = []; had_clients = false; is_initial_buffering = true }

unfoldable pub set_initial_buffering : Bool → ClientManager → ClientManager
set_initial_buffering v cm = record cm { is_initial_buffering = v }

unfoldable pub local_count : ClientManager → ℕ
local_count cm = length cm.clients

unfoldable pub has_capacity : ℕ → ClientManager → Bool
has_capacity max_clients cm = ltb (length cm.clients) max_clients

unfoldable pub add_client :
    ℕ → ℕ → String → String → String → ℕ → ClientManager → Bool × ClientManager
add_client max_clients now id ip user_agent initial_index cm =
    if leb max_clients (length cm.clients) then (false, cm) else (
      true,
      record cm {
        clients =
            insert id
              (record {
                ip = ip;
                user_agent = user_agent;
                connected_at = now;
                last_active = now;
                bytes_sent = 0;
                chunks_sent = 0;
                initial_index = initial_index;
                requests_total = 1;
                last_request_kind = "TS";
              })
              cm.clients;
        had_clients = true;
      },
    )

unfoldable pub remove_client : String → ClientManager → ClientManager
remove_client id cm = record cm { clients = delete id cm.clients }

unfoldable pub update_stats : ℕ → String → ℕ → ℕ → ClientManager → ClientManager
update_stats now id bytes chunks cm = elim (lookup id cm.clients) [
  | none ↦ cm
  | some rec ↦ record cm {
    clients =
        insert id
          (record rec {
            bytes_sent = rec.bytes_sent + bytes;
            chunks_sent = rec.chunks_sent + chunks;
            last_active = now;
          })
          cm.clients;
  }
]

abbrev pub hls_record : ℕ → String → String → Option ClientRecord → ClientRecord
hls_record now ip user_agent (some rec) = rec
hls_record now ip user_agent none = record {
  ip = ip;
  user_agent = user_agent;
  connected_at = now;
  last_active = now;
  bytes_sent = 0;
  chunks_sent = 0;
  initial_index = 0;
  requests_total = 0;
  last_request_kind = "HLS";
}

abbrev pub had_or_new : Option ClientRecord → Bool → Bool
had_or_new none had = true
had_or_new (some rec) had = had

unfoldable pub heartbeat_hls_client :
    ℕ → String → String → String → ℕ → ClientManager → ClientManager
heartbeat_hls_client now id ip user_agent bytes cm =
    let rec = hls_record now ip user_agent (lookup id cm.clients) in
    record cm {
      clients =
          insert id
            (record rec {
              last_active = now;
              bytes_sent = rec.bytes_sent + bytes;
              chunks_sent = rec.chunks_sent + 1;
              requests_total = rec.requests_total + 1;
            })
            cm.clients;
      had_clients = had_or_new (lookup id cm.clients) cm.had_clients;
    }

-- Silent for longer than the timeout of its protocol: `ts` is five heartbeats.
abbrev pub is_ghost : ℕ → ℕ → ℕ → ClientRecord → Bool
is_ghost now ts hls rec =
    ltb (rec.last_active + (if str_eq rec.last_request_kind "HLS" then hls else ts)) now

unfoldable pub without_ghosts : ℕ → ℕ → ℕ → Map ClientRecord → Map ClientRecord
without_ghosts now ts hls [] = []
without_ghosts now ts hls ((id, rec) ∷ clients) =
    let rest = without_ghosts now ts hls clients in
    if is_ghost now ts hls rec then rest else (id, rec) ∷ rest

unfoldable pub evict_ghosts : ℕ → ℕ → ℕ → ClientManager → ClientManager
evict_ghosts now heartbeat_interval hls_timeout cm =
    if cm.is_initial_buffering
    then cm
    else record cm { clients = without_ghosts now (heartbeat_interval * 5) hls_timeout cm.clients }
