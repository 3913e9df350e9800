-- ===== src/Ports/Engine/Conflicts.antt =====
-- Requests that name ports: what `AllocateEnginePorts` takes from others, and gives out twice.
use acestream_orchestrator.Prelude.{
  ℕ, suc, ◌+◌, ◌-◌, ◌≤◌, ◌≡◌, ◌≢◌, refl, sym, ap, ◌∙◌, Bool, true, false, not, ◌&&◌, some, [], ◌∷◌,
  arith, ◌==◌, if◌then◌else◌, str_eq, Option-cases, inl, inr,
}
use mathlib.Core.Bool.{false≢true}
use acestream_orchestrator.Prelude.Sets.{Set, add}
use acestream_orchestrator.Ports.{
  PortAllocator, next_in, scan_ports, alloc_host, search_https, exhausted, reserve_http,
  reserve_https,
}
use acestream_orchestrator.Ports.Scan.{next_in_sound}
use acestream_orchestrator.Ports.Https.{HttpsCursor}
use acestream_orchestrator.Ports.Vpn.{ensure_vpn_range_assigned}
use acestream_orchestrator.Ports.Engine.{
  PortsInfo, no_ports, Request, Work, done, failed, http, https, host, ◌>>=◌, rollback, take_host,
  put_host, use_http, same_http, http_part, https_part, https_result, api_part, map_part, run_parts,
  finish, ports, no_free_ports, allocate_engine_ports,
}

-- Every port of the HTTPS range is in use.
abbrev pub HttpsFull : PortAllocator → Type 0
HttpsFull a = (q : ℕ) → a.https_min ≤ q → q ≤ a.https_max → a.used_https q ≡ true

search_https_full :
    (fuel : ℕ) (accept : ℕ → Bool) (a : PortAllocator)
    → HttpsCursor a
    → HttpsFull a
    → search_https (suc fuel) accept a ≡ (a, exhausted)
unfolding search_https
search_https_full fuel accept a c full =
    elim (Option-cases (next_in a.https_next a.https_min a.https_max a.used_https)) [
      | inl e ↦ rw (e, search_https) refl
      | inr (p, e) ↦
          let s = next_in_sound a.https_next a.https_min a.https_max a.used_https c.low c.high e in
          absurd (false≢true (sym s.2 ∙ full p s.0 s.1))
    ]

https_part_full :
    (fuel : ℕ) (r : Request) (w : Work)
    → r.user_https_port ≡ 0
    → HttpsCursor w.alloc
    → HttpsFull w.alloc
    → https_part (suc fuel) r w ≡ failed w
unfolding https_part https_result
https_part_full fuel r w z c full =
    rw (z, https_part)
      (rw (search_https_full fuel (λ p. not (p == w.info.container_http_port)) w.alloc c full) refl)

-- The state after a named HTTP port has been taken.
named : Request → PortAllocator → Work
unfolding reserve_http
named r a = record {
  alloc = reserve_http r.user_http_port a;
  reservations = http r.user_http_port ∷ [];
  info = record no_ports {
    container_http_port = r.user_http_port;
    host_http_port = if r.requested_host_port == 0 then r.user_http_port else r.requested_host_port;
  };
}

http_part-named :
    (r : Request) (a : PortAllocator)
    → r.use_gluetun ≡ false
    → r.user_http_port ≢ 0
    → http_part r (record { alloc = a; reservations = []; info = no_ports }) ≡ done (named r a)
unfolding http_part use_http named
http_part-named r a zg nz = rw (given, http_part) (rw zg refl)
  where
    given : (r.user_http_port == 0) ≡ false
    given = ground arith

run_parts_full :
    (fuel : ℕ) (r : Request) (a : PortAllocator)
    → str_eq r.vpn_container "" ≡ true
    → r.use_gluetun ≡ false
    → r.user_http_port ≢ 0
    → r.user_https_port ≡ 0
    → HttpsCursor a
    → HttpsFull a
    → run_parts (suc fuel) r a ≡ failed (named r a)
unfolding run_parts ensure_vpn_range_assigned
run_parts_full fuel r a zv zg nz zs c full = rw zv (
    rw (http_part-named r a zg nz) (
      rw
        (https_part_full fuel r (named r a) zs
          (unfold named in record { low = c.low; high = c.high }) (unfold named in full))
        refl))

rollback-named :
    (r : Request) (a : PortAllocator)
    → (rollback (named r a).reservations (named r a).alloc).used_http r.user_http_port ≡ false
unfolding rollback named
rollback-named r a = ground arith

-- A failed request takes a port from another engine: when it names an HTTP port, has no VPN and
-- finds no free HTTPS port, the call fails, and the named port is free afterwards whether or not
-- an engine had it in use before.
pub allocate_engine_ports_frees_named :
    (fuel : ℕ) (r : Request) (a : PortAllocator)
    → str_eq r.vpn_container "" ≡ true
    → r.use_gluetun ≡ false
    → r.user_http_port ≢ 0
    → r.user_https_port ≡ 0
    → HttpsCursor a
    → HttpsFull a
    → ((allocate_engine_ports (suc fuel) r a).1 ≡ no_free_ports)
      × ((allocate_engine_ports (suc fuel) r a).0.used_http r.user_http_port ≡ false)
unfolding allocate_engine_ports finish
allocate_engine_ports_frees_named fuel r a zv zg nz zs c full =
    (rw run refl, rw run (rollback-named r a))
  where
    run : run_parts (suc fuel) r a ≡ failed (named r a)
    run = run_parts_full fuel r a zv zg nz zs c full

-- The state after a requested host port and a named HTTPS port.
requested : Request → PortAllocator → Work
unfolding reserve_http reserve_https
requested r a = record {
  alloc = reserve_https r.user_https_port (reserve_http r.requested_host_port a);
  reservations = https r.user_https_port ∷ http r.requested_host_port ∷ [];
  info = record no_ports {
    container_http_port = r.requested_host_port;
    host_http_port = r.requested_host_port;
    container_https_port = r.user_https_port;
  };
}

http_part-requested :
    (fuel : ℕ) (r : Request) (a : PortAllocator)
    → r.use_gluetun ≡ false
    → r.user_http_port ≡ 0
    → r.requested_host_port ≢ 0
    → r.user_https_port ≢ 0
    → (http_part r (record { alloc = a; reservations = []; info = no_ports }) >>= https_part fuel r)
      ≡ done (requested r a)
unfolding http_part https_part same_http use_http requested
http_part-requested fuel r a zg zu nr ns =
    rw (zu, http_part) (rw zg (rw (asked, http_part) (rw (given, https_part) refl)))
  where
    asked : (r.requested_host_port == 0) ≡ false
    asked = ground arith

    given : (r.user_https_port == 0) ≡ false
    given = ground arith

next_in_free :
    (p lo hi : ℕ) (used : Set) → lo ≤ p → p ≤ hi → used p ≡ false → next_in p lo hi used ≡ some p
unfolding next_in
next_in_free p lo hi used l h f = rw whole (unfold scan_ports in ground arith)
  where
    whole : hi + 1 - lo ≡ suc (hi - lo)
    whole = omega arith

-- The result when the API port is the port that was requested.
doubled : Request → PortsInfo
doubled r = record {
  container_http_port = r.requested_host_port;
  container_https_port = r.user_https_port;
  container_api_port = r.requested_host_port;
  host_http_port = r.requested_host_port;
  host_api_port = r.requested_host_port;
  host_https_port = 0;
}

alloc_host_next :
    (a : PortAllocator) (p : ℕ)
    → next_in a.host_next a.host_min a.host_max a.used_host ≡ some p
    → alloc_host a ≡ (record a { used_host = add p a.used_host; host_next = p + 1 }, some p)
unfolding alloc_host
alloc_host_next a p e = rw (e, alloc_host) refl

api_part-requested :
    (r : Request) (a : PortAllocator)
    → r.use_gluetun ≡ false
    → r.user_api_port ≡ 0
    → next_in a.host_next a.host_min a.host_max a.used_host ≡ some r.requested_host_port
    → (w : Work) × (api_part r (requested r a) ≡ done w) × (w.info ≡ doubled r)
unfolding api_part take_host put_host requested doubled reserve_http reserve_https
api_part-requested r a zg za e = (
  record {
    alloc = record w.alloc {
      used_host = add r.requested_host_port w.alloc.used_host;
      host_next = r.requested_host_port + 1;
    };
    reservations = host r.requested_host_port ∷ w.reservations;
    info = doubled r;
  },
  rw (za, api_part)
      (rw zg (rw (alloc_host_next (requested r a).alloc r.requested_host_port e, take_host) refl)),
  refl,
)
  where
    w : Work
    w = requested r a

map_part_unmapped : (r : Request) (w : Work) → r.map_https ≡ false → map_part r w ≡ done w
unfolding map_part
map_part_unmapped r w zm = go (not r.use_gluetun) r.map_https zm
  where
    go :
        (b mapped : Bool)
        → mapped ≡ false
        → (if b && mapped
            then take_host w (λ p. record (w.info) { host_https_port = p })
            else done w)
          ≡ done w
    go true true z = absurd (cc)
    go true false z = refl
    go false mapped z = refl

run_parts-requested :
    (fuel : ℕ) (r : Request) (a : PortAllocator) {w : Work}
    → str_eq r.vpn_container "" ≡ true
    → (http_part r (record { alloc = a; reservations = []; info = no_ports }) >>= https_part fuel r)
      ≡ done (requested r a)
    → api_part r (requested r a) ≡ done w
    → r.map_https ≡ false
    → run_parts fuel r a ≡ done w
unfolding run_parts ensure_vpn_range_assigned
run_parts-requested fuel r a {w} zv parts api zm =
    rw zv (rw parts (rw api (map_part_unmapped r w zm)))

-- A requested host port is not reserved in the host range: when a request asks for the host port
-- on which the cursor stands, names an HTTPS port, and leaves the API port to the allocator, the
-- same host port is given out for both the HTTP and the API port of the engine.
pub allocate_engine_ports_twice :
    (fuel : ℕ) (r : Request) (a : PortAllocator)
    → str_eq r.vpn_container "" ≡ true
    → r.use_gluetun ≡ false
    → r.map_https ≡ false
    → r.user_http_port ≡ 0
    → r.user_https_port ≢ 0
    → r.user_api_port ≡ 0
    → r.requested_host_port ≢ 0
    → a.host_next ≡ r.requested_host_port
    → a.host_min ≤ r.requested_host_port
    → r.requested_host_port ≤ a.host_max
    → a.used_host r.requested_host_port ≡ false
    → (info : PortsInfo) × ((allocate_engine_ports fuel r a).1 ≡ ports info)
      × (info.host_http_port ≡ r.requested_host_port)
      × (info.host_api_port ≡ r.requested_host_port)
unfolding allocate_engine_ports finish doubled
allocate_engine_ports_twice fuel r a zv zg zm zu ns za nr at l h f =
    let (w, e, i) = api_part-requested r a zg za (next at) in
    (
      w.info,
      rw (run_parts-requested fuel r a zv (http_part-requested fuel r a zg zu nr ns) e zm) refl,
      ap (λ (v : PortsInfo). v.host_http_port) i,
      ap (λ (v : PortsInfo). v.host_api_port) i,
    )
  where
    next :
        a.host_next ≡ r.requested_host_port
        → next_in a.host_next a.host_min a.host_max a.used_host ≡ some r.requested_host_port
    next e = rw e (next_in_free r.requested_host_port a.host_min a.host_max a.used_host l h f)
