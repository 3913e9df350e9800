-- ===== src/Ports/Tests.antt =====
-- The theorems on the allocator at concrete inputs.
use acestream_orchestrator.Prelude.{ℕ, ◌+◌, ◌≡◌, ◌≢◌, refl, true, false, [], ◌∷◌, arith, ◌⊎◌}
use acestream_orchestrator.Prelude.Sets.{empty, add}
use acestream_orchestrator.Ports.{
  PortAllocator, alloc_host, reserve_http, next_in, found, spinning, alloc_https, scan_ports,
  search_https,
}
use acestream_orchestrator.Ports.Https.{
  HttpsCursor, FreeHttps, alloc_https_found, alloc_https_spins,
}
use acestream_orchestrator.Ports.Vpn.{ensure_vpn_range_assigned}
use acestream_orchestrator.Ports.Engine.{
  PortsInfo, Request, run_parts, no_free_ports, allocate_engine_ports,
}
use acestream_orchestrator.Ports.Engine.Rollback.{Cursors, allocate_engine_ports_failed}
use acestream_orchestrator.Ports.Engine.Conflicts.{HttpsFull, allocate_engine_ports_frees_named}

-- Three host ports, two HTTP ports, and one HTTPS port.
abbrev small : PortAllocator
small = record {
  host_min = 19000;
  host_max = 19002;
  http_min = 40000;
  http_max = 40001;
  https_min = 45000;
  https_max = 45000;
  host_next = 19000;
  http_next = 40000;
  https_next = 45000;
  used_host = empty;
  used_http = empty;
  used_https = empty;
  gluetun_min = 19000;
  gluetun_max = 19002;
  gluetun_next = 19000;
  used_gluetun = empty;
  vpn_range_slots = [];
  vpn_range_assignments = [];
  vpn_port_ranges = [];
  vpn_p2p_used = [];
}

-- The same with its one HTTPS port in use, and the HTTP port 40000 too.
abbrev busy : PortAllocator
busy = record small { used_https = add 45000 empty; used_http = add 40000 empty }

abbrev auto : Request
auto = record {
  use_gluetun = false;
  vpn_container = "";
  requested_host_port = 0;
  user_http_port = 0;
  user_https_port = 0;
  user_api_port = 0;
  map_https = true;
}

small_https : HttpsCursor small
small_https = omega arith

busy-Cursors : Cursors busy
busy-Cursors = omega arith

alloc_https_found_example :
    (p : ℕ) × ((alloc_https 2 7 small).1 ≡ found p)
    × FreeHttps small p
    × ((◌≡◌ {A = ℕ} 7 0) ⊎ (p ≢ 7))
    × ((alloc_https 2 7 small).0.used_https p ≡ true)
    × ((alloc_https 2 7 small).0.https_next ≡ p + 1)
alloc_https_found_example =
    alloc_https_found 0 7 45000 small small_https (omega arith, omega arith, refl) (omega arith)

alloc_https_spins_example : (alloc_https 1000 45000 small).1 ≡ spinning
alloc_https_spins_example =
    alloc_https_spins 1000 45000 small (omega arith) small_https (omega arith, omega arith, refl)
      (λ q f. omega arith)

allocate_engine_ports_failed_example :
    ((allocate_engine_ports 2 auto busy).0.used_host 19000 ≡ false)
    × ((allocate_engine_ports 2 auto busy).0.used_https 19000 ≡ false)
unfolding allocate_engine_ports run_parts ensure_vpn_range_assigned alloc_host reserve_http
    search_https next_in scan_ports
allocate_engine_ports_failed_example =
    allocate_engine_ports_failed 2 auto busy 19000 refl refl busy-Cursors refl

-- What an automatic request gets on the fresh allocator.
abbrev given : PortsInfo
given = record {
  container_http_port = 19000;
  container_https_port = 45000;
  container_api_port = 19001;
  host_http_port = 19000;
  host_api_port = 19001;
  host_https_port = 19002;
}

busy_full : HttpsFull busy
busy_full q l h = ground arith

-- Another engine has the HTTP port 40000.
allocate_engine_ports_frees_named_example :
    ((allocate_engine_ports 1 (record auto { user_http_port = 40000 }) busy).1 ≡ no_free_ports)
    × ((allocate_engine_ports 1 (record auto { user_http_port = 40000 }) busy).0.used_http 40000
        ≡ false)
allocate_engine_ports_frees_named_example =
    allocate_engine_ports_frees_named 0 (record auto { user_http_port = 40000 }) busy refl refl
      (omega arith) refl (omega arith) busy_full

abbrev asking : Request
asking = record auto { requested_host_port = 19000; user_https_port = 45000; map_https = false }

abbrev ranged : PortAllocator
ranged = record small { vpn_range_slots = record { min = 30000; max = 30009 } ∷ [] }
