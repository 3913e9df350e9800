-- ===== src/AirVpn.antt =====
-- app/orchestrator/internal/controlplane/vpn/airvpn_ports.go: the ports of the AirVPN credentials
-- and the containers that hold them. The ports that the credentials name, in order, are an
-- argument of `rebuild`: reading them from the JSON values is left out.
pub mod Laws
mod Tests
use acestream_orchestrator.Prelude.{
  ℕ, suc, Bool, true, false, ◌||◌, Option, none, some, List, [], ◌∷◌, ◌++◌, if◌then◌else◌, ◌==◌,
  String,
}
use acestream_orchestrator.Prelude.Maps.{Map, lookup, insert, delete}
use acestream_orchestrator.State.{is_some}

pub record AirVpnPortPool : Type 0 where
  pub all : List ℕ
  pub claimed : List (ℕ × String)
  pub by_cont : Map ℕ

unfoldable pub new_air_vpn_port_pool : AirVpnPortPool
new_air_vpn_port_pool = record { all = []; claimed = []; by_cont = [] }

-- `claimed[port]`.
unfoldable pub holder : ℕ → List (ℕ × String) → Option String
holder port [] = none
holder port ((p, name) ∷ claimed) =
    let later = holder port claimed in if p == port then some name else later

-- `delete(claimed, port)`.
unfoldable pub unclaim : ℕ → List (ℕ × String) → List (ℕ × String)
unclaim port [] = []
unclaim port ((p, name) ∷ claimed) =
    let later = unclaim port claimed in if p == port then later else (p, name) ∷ later

unfoldable pub is_seen : ℕ → List ℕ → Bool
is_seen port [] = false
is_seen port (p ∷ ports) = (p == port) || is_seen port ports

-- The ports without repetition.
unfoldable pub union : List ℕ → List ℕ → List ℕ
union [] all = all
union (p ∷ ports) all = union ports (if is_seen p all then all else all ++ (p ∷ []))

abbrev pub drop_claim : ℕ → String → AirVpnPortPool → AirVpnPortPool
drop_claim port name p = record p {
  claimed = unclaim port p.claimed;
  by_cont = delete name p.by_cont;
}

abbrev pub evict_port : ℕ → Option String → AirVpnPortPool → AirVpnPortPool
evict_port port none p = p
evict_port port (some name) p = drop_claim port name p

-- The claims of these ports go, unless a credential still names the port.
unfoldable pub evict_each : List (ℕ × String) → AirVpnPortPool → AirVpnPortPool
evict_each [] p = p
evict_each ((port, name) ∷ claims) p =
    evict_each claims (if is_seen port p.all then p else evict_port port (holder port p.claimed) p)

unfoldable pub rebuild : List ℕ → AirVpnPortPool → AirVpnPortPool
rebuild ports p = evict_each p.claimed (record p { all = union ports [] })

-- The first port that nobody holds.
unfoldable pub free_port : List ℕ → List (ℕ × String) → Option ℕ
free_port [] claimed = none
free_port (port ∷ ports) claimed =
    let later = free_port ports claimed in
    if is_some (holder port claimed) then later else some port

abbrev pub claim_port : String → Option ℕ → AirVpnPortPool → ℕ × AirVpnPortPool
claim_port name none p = (0, p)
claim_port name (some port) p =
    (port, record p { claimed = (port, name) ∷ p.claimed; by_cont = insert name port p.by_cont })

abbrev pub acquire_from : String → Option ℕ → AirVpnPortPool → ℕ × AirVpnPortPool
acquire_from name (some port) p = (port, p)
acquire_from name none p = claim_port name (free_port p.all p.claimed) p

unfoldable pub acquire_port : String → AirVpnPortPool → ℕ × AirVpnPortPool
acquire_port name p = acquire_from name (lookup name p.by_cont) p

abbrev pub release_claim : String → Option ℕ → AirVpnPortPool → AirVpnPortPool
release_claim name none p = p
release_claim name (some port) p = drop_claim port name p

unfoldable pub release_port : String → AirVpnPortPool → AirVpnPortPool
release_port name p = release_claim name (lookup name p.by_cont) p
