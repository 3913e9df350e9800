-- ===== src/Ports/Engine.antt =====
-- ports.go, `AllocateEnginePorts` and the labels of a container: all ports of one engine at once,
-- with a rollback of what was reserved when a later port cannot be had.
pub mod Rollback
pub mod Auto
pub mod Conflicts
use acestream_orchestrator.Prelude.{
  ℕ, zero, suc, ◌+◌, Bool, true, false, not, ◌&&◌, ◌||◌, Option, none, some, String, List, [], ◌∷◌,
  if◌then◌else◌, str_eq, ◌==◌,
}
use acestream_orchestrator.Prelude.Sets.{add, remove}
use acestream_orchestrator.Ports.{
  PortAllocator, next_in, alloc_host, Search, found, exhausted, spinning, search_https,
  reserve_host, reserve_http, reserve_https, free_host, free_http, free_https,
}
use acestream_orchestrator.Ports.Vpn.{
  ensure_vpn_range_assigned, alloc_in_range, mark_gluetun, unmark_gluetun, free_gluetun_port,
}

pub record PortsInfo : Type 0 where
  pub container_http_port : ℕ
  pub container_https_port : ℕ
  pub container_api_port : ℕ
  pub host_http_port : ℕ
  pub host_api_port : ℕ
  pub host_https_port : ℕ

abbrev pub no_ports : PortsInfo
no_ports = record {
  container_http_port = 0;
  container_https_port = 0;
  container_api_port = 0;
  host_http_port = 0;
  host_api_port = 0;
  host_https_port = 0;
}

-- The arguments of `AllocateEnginePorts`.
pub record Request : Type 0 where
  pub use_gluetun : Bool
  pub vpn_container : String
  pub requested_host_port : ℕ
  pub user_http_port : ℕ
  pub user_https_port : ℕ
  pub user_api_port : ℕ
  pub map_https : Bool

pub data Reservation : Type 0 where
  host http https : ℕ → Reservation
  gluetun : ℕ → String → Reservation

-- The variables of the function: the allocator, what is reserved, newest first, and the result.
pub record Work : Type 0 where
  pub alloc : PortAllocator
  pub reservations : List Reservation
  pub info : PortsInfo

-- The end of a part: it went through, a range is exhausted, or the search for a port spins.
pub data Outcome : Type 0 where
  done : Work → Outcome
  failed : Work → Outcome
  stuck : Outcome

infixl 5 ◌>>=◌
abbrev pub ◌>>=◌ : Outcome → (Work → Outcome) → Outcome
done w >>= f = f w
failed w >>= f = failed w
stuck >>= f = stuck

release : Reservation → PortAllocator → PortAllocator
release (host p) a = record a { used_host = remove p a.used_host }
release (http p) a = record a { used_http = remove p a.used_http }
release (https p) a = record a { used_https = remove p a.used_https }
release (gluetun p vpn) a = unmark_gluetun p vpn a

unfoldable pub rollback : List Reservation → PortAllocator → PortAllocator
unfolding release
rollback [] a = a
rollback (r ∷ rs) a = rollback rs (release r a)

-- A port of the host range, reserved and tracked.
put_host : Work → (ℕ → PortsInfo) → PortAllocator × Option ℕ → Outcome
put_host w put (a, none) = failed (record w { alloc = a })
put_host w put (a, some p) =
    done (record w { alloc = a; reservations = host p ∷ w.reservations; info = put p })

take_host : Work → (ℕ → PortsInfo) → Outcome
unfolding put_host
take_host w put = put_host w put (alloc_host w.alloc)

put_gluetun : Request → Work → (ℕ → PortsInfo) → PortAllocator × Option ℕ → Outcome
put_gluetun r w put (a, none) = failed (record w { alloc = a })
put_gluetun r w put (a, some p) = done (record w {
  alloc = a;
  reservations = gluetun p r.vpn_container ∷ w.reservations;
  info = put p;
})

take_gluetun : Request → Work → (ℕ → PortsInfo) → Outcome
unfolding put_gluetun
take_gluetun r w put = put_gluetun r w put (alloc_in_range r.vpn_container w.alloc)

use_gluetun_port : Request → ℕ → Work → Work
use_gluetun_port r p w = record w {
  alloc = mark_gluetun p r.vpn_container w.alloc;
  reservations = gluetun p r.vpn_container ∷ w.reservations;
}

use_http : ℕ → Work → Work
use_http p w = record w { alloc = reserve_http p w.alloc; reservations = http p ∷ w.reservations }

use_host : ℕ → Work → Work
use_host p w = record w { alloc = reserve_host p w.alloc; reservations = host p ∷ w.reservations }

-- The container's HTTP port is the host's.
same_http : Work → Outcome
unfolding use_http
same_http w = done (
    use_http w.info.host_http_port
      (record w { info = record (w.info) { container_http_port = w.info.host_http_port } }))

http_part : Request → Work → Outcome
unfolding take_host take_gluetun use_gluetun_port use_http same_http
http_part r w =
    if not (r.user_http_port == 0)
    then (let info' = record (w.info) {
      container_http_port = r.user_http_port;
      host_http_port =
          if r.requested_host_port == 0 then r.user_http_port else r.requested_host_port;
    } in
        if r.use_gluetun
        then done (use_gluetun_port r r.user_http_port (record w { info = info' }))
        else done (use_http r.user_http_port (record w { info = info' })))
    else if r.use_gluetun
    then take_gluetun r w (λ p. record (w.info) { host_http_port = p; container_http_port = p })
    else if not (r.requested_host_port == 0)
    then same_http (record w { info = record (w.info) { host_http_port = r.requested_host_port } })
    else (take_host w (λ p. record (w.info) { host_http_port = p }) >>= same_http)

https_result : Work → PortAllocator × Search → Outcome
https_result w (a, found p) = done (record w {
  alloc = a;
  reservations = https p ∷ w.reservations;
  info = record (w.info) { container_https_port = p };
})
https_result w (a, exhausted) = failed (record w { alloc = a })
https_result w (a, spinning) = stuck

https_part : ℕ → Request → Work → Outcome
unfolding https_result
https_part fuel r w =
    if not (r.user_https_port == 0)
    then done (record w {
      alloc = reserve_https r.user_https_port w.alloc;
      reservations = https r.user_https_port ∷ w.reservations;
      info = record (w.info) { container_https_port = r.user_https_port };
    })
    else https_result w (search_https fuel (λ p. not (p == w.info.container_http_port)) w.alloc)

api_part : Request → Work → Outcome
unfolding take_host take_gluetun use_gluetun_port use_host
api_part r w =
    if not (r.user_api_port == 0)
    then (let info' = record (w.info) {
      container_api_port = r.user_api_port;
      host_api_port = r.user_api_port;
    } in
        if r.use_gluetun
        then done (use_gluetun_port r r.user_api_port (record w { info = info' }))
        else done (use_host r.user_api_port (record w { info = info' })))
    else (let put : ℕ → PortsInfo =
          λ p. record (w.info) { host_api_port = p; container_api_port = p } in
        if r.use_gluetun then take_gluetun r w put else take_host w put)

map_part : Request → Work → Outcome
unfolding take_host
map_part r w =
    if not r.use_gluetun && r.map_https
    then take_host w (λ p. record (w.info) { host_https_port = p })
    else done w

-- The result: the ports, an error, or no return at all.
pub data Result : Type 0 where
  ports : PortsInfo → Result
  no_free_ports : Result
  never_returns : Result

-- On an error everything tracked is released, on success the result is handed out.
finish : PortAllocator → Outcome → PortAllocator × Result
finish a (done w) = (w.alloc, ports w.info)
finish a (failed w) = (rollback w.reservations w.alloc, no_free_ports)
finish a stuck = (a, never_returns)

unfoldable pub run_parts : ℕ → Request → PortAllocator → Outcome
unfolding http_part https_part api_part map_part
run_parts fuel r a =
    http_part r (record {
      alloc = ensure_vpn_range_assigned r.vpn_container a;
      reservations = [];
      info = no_ports;
    })
    >>= https_part fuel r
    >>= api_part r
    >>= map_part r

unfoldable pub allocate_engine_ports : ℕ → Request → PortAllocator → PortAllocator × Result
unfolding finish
allocate_engine_ports fuel r a = finish a (run_parts fuel r a)
