-- ===== src/Ports/Labels.antt =====
-- ports.go, `ReserveFromLabels` and `ReleaseFromLabels`: the ports that a container's labels
-- name. A label that is missing is the empty text; `scan` is `fmt.Sscanf(s, "%d", …)`.
use acestream_orchestrator.Prelude.{ℕ, not, ◌&&◌, none, some, String, if◌then◌else◌, str_eq, ◌==◌}
use acestream_orchestrator.Prelude.Maps.{Map, lookup}
use acestream_orchestrator.Ports.{
  PortAllocator, reserve_host, reserve_http, reserve_https, free_host, free_http, free_https,
}
use acestream_orchestrator.Ports.Vpn.{ensure_vpn_range_assigned, mark_gluetun, free_gluetun_port}

abbrev label : String → Map String → String
label key labels = elim (lookup key labels) [ some v ↦ v | none ↦ "" ]

pub record LabelPorts : Type 0 where
  pub vpn : String
  pub host_http : ℕ
  pub host_api : ℕ
  pub host_https : ℕ
  pub container_http : ℕ
  pub container_https : ℕ

unfoldable pub label_ports : (String → ℕ) → Map String → LabelPorts
label_ports scan labels = record {
  vpn = label "acestream.vpn_container" labels;
  host_http = scan (label "host.http_port" labels);
  host_api = scan (label "host.api_port" labels);
  host_https = scan (label "host.https_port" labels);
  container_http = scan (label "acestream.http_port" labels);
  container_https = scan (label "acestream.https_port" labels);
}

-- A port of 0 stands for a label without a port.
unless_zero : ℕ → (ℕ → PortAllocator → PortAllocator) → PortAllocator → PortAllocator
unless_zero p op a = if p == 0 then a else op p a

reserve_vpn : LabelPorts → PortAllocator → PortAllocator
unfolding unless_zero
reserve_vpn l a =
    let b =
      unless_zero l.host_http (λ p. mark_gluetun p l.vpn) (ensure_vpn_range_assigned l.vpn a) in
    if not (l.host_api == l.host_http)
    then unless_zero l.host_api (λ p. mark_gluetun p l.vpn) b
    else b

reserve_container : LabelPorts → PortAllocator → PortAllocator
unfolding unless_zero
reserve_container l a = unless_zero l.host_https reserve_host (
    unless_zero l.container_https reserve_https
      (unless_zero l.container_http reserve_http (unless_zero l.host_http reserve_host a)))

reserve_ports : LabelPorts → PortAllocator → PortAllocator
unfolding reserve_vpn reserve_container
reserve_ports l a =
    let b = reserve_container l a in
    if not (str_eq l.vpn "")
    then reserve_vpn l b
    else if not (l.host_api == 0) && not (l.host_api == l.host_http)
    then reserve_host l.host_api b
    else b

unfoldable pub reserve_from_labels : (String → ℕ) → Map String → PortAllocator → PortAllocator
unfolding reserve_ports
reserve_from_labels scan labels a = reserve_ports (label_ports scan labels) a

release_ports : LabelPorts → PortAllocator → PortAllocator
release_ports l a =
    let b = free_https l.container_https (free_http l.container_http (free_host l.host_http a)) in
    let c = if not (l.host_https == 0) then free_host l.host_https b else b in
    if not (str_eq l.vpn "")
    then (let d = free_gluetun_port l.host_http l.vpn c in
        if not (l.host_api == 0) && not (l.host_api == l.host_http)
        then free_gluetun_port l.host_api l.vpn d
        else d)
    else free_host l.host_api c

unfoldable pub release_from_labels : (String → ℕ) → Map String → PortAllocator → PortAllocator
unfolding release_ports
release_from_labels scan labels a = release_ports (label_ports scan labels) a
