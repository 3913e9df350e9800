-- ===== src/Ports.antt =====
-- app/orchestrator/internal/controlplane/engine/ports.go: the port allocator. Ports are natural
-- numbers, a Go `map[int]struct{}` is a set, and an operation returns the allocator that it
-- leaves beside its result, `none` for an error. The mutex makes each operation one step.
-- Splitting and scanning text belong to Go's `strings` and `fmt`: they are arguments here.
pub mod Scan
pub mod Https
pub mod Vpn
pub mod Engine
pub mod Labels
mod Tests
use acestream_orchestrator.Prelude.{
  ℕ, zero, suc, ◌+◌, ◌-◌, Bool, true, false, not, ◌&&◌, ◌||◌, Option, none, some, String, List, [],
  ◌∷◌, ◌++◌, if◌then◌else◌, str_eq, ltb, leb, ◌==◌,
}
use acestream_orchestrator.Prelude.Maps.{Map, lookup, insert}
use acestream_orchestrator.Prelude.Sets.{Set, empty, add, remove}

pub record PortRange : Type 0 where
  pub min : ℕ
  pub max : ℕ

pub record VpnRange : Type 0 where
  pub min : ℕ
  pub max : ℕ
  pub next : ℕ
  pub used : Set

pub record PortAllocator : Type 0 where
  pub host_min : ℕ
  pub host_max : ℕ
  pub http_min : ℕ
  pub http_max : ℕ
  pub https_min : ℕ
  pub https_max : ℕ
  pub host_next : ℕ
  pub http_next : ℕ
  pub https_next : ℕ
  pub used_host : Set
  pub used_http : Set
  pub used_https : Set
  pub gluetun_min : ℕ
  pub gluetun_max : ℕ
  pub gluetun_next : ℕ
  pub used_gluetun : Set
  pub vpn_range_slots : List PortRange
  pub vpn_range_assignments : Map ℕ
  pub vpn_port_ranges : Map VpnRange
  pub vpn_p2p_used : Map (List ℕ)

-- The settings that `newPortAllocator` reads.
pub record Config : Type 0 where
  pub port_range_host : PortRange
  pub ace_http_range : PortRange
  pub ace_https_range : PortRange
  pub gluetun_port_range_1 : String
  pub gluetun_port_range_2 : String

-- One round of the loop over the two range settings: `split` is `strings.SplitN(raw, "-", 2)`
-- where it gives two parts, `scan` is `fmt.Sscanf(s, "%d", …)`, which leaves 0 if it fails.
slot_of : (String → Option (String × String)) → (String → ℕ) → String → List PortRange
slot_of split scan raw = if str_eq raw "" then [] else elim (split raw) [
  | none ↦ []
  | some (lo, hi) ↦
      if ltb 0 (scan lo) && leb (scan lo) (scan hi)
      then record { min = scan lo; max = scan hi } ∷ []
      else []
]

max_of : ℕ → ℕ → ℕ
max_of a b = if ltb a b then b else a

unfoldable pub new_port_allocator :
    (String → Option (String × String)) → (String → ℕ) → Config → PortAllocator
unfolding slot_of max_of
new_port_allocator split scan cfg = record {
  host_min = cfg.port_range_host.min;
  host_max = cfg.port_range_host.max;
  http_min = cfg.ace_http_range.min;
  http_max = cfg.ace_http_range.max;
  https_min = cfg.ace_https_range.min;
  https_max = cfg.ace_https_range.max;
  host_next = cfg.port_range_host.min;
  http_next = cfg.ace_http_range.min;
  https_next = cfg.ace_https_range.min;
  used_host = empty;
  used_http = empty;
  used_https = empty;
  gluetun_min = max_of 19000 cfg.port_range_host.min;
  gluetun_max = cfg.port_range_host.max;
  gluetun_next = max_of 19000 cfg.port_range_host.min;
  used_gluetun = empty;
  vpn_range_slots =
      slot_of split scan cfg.gluetun_port_range_1 ++ slot_of split scan cfg.gluetun_port_range_2;
  vpn_range_assignments = [];
  vpn_port_ranges = [];
  vpn_p2p_used = [];
}

-- The loop of `nextIn`, over the rounds that are left.
unfoldable pub scan_ports : ℕ → ℕ → ℕ → ℕ → Set → Option ℕ
scan_ports zero cur lo hi used = none
scan_ports (suc n) cur lo hi used =
    let p = if ltb hi cur then lo else cur in
    let rest = scan_ports n (p + 1) lo hi used in if used p then rest else some p

-- `hi - lo + 1` rounds, none if that is negative.
unfoldable pub next_in : ℕ → ℕ → ℕ → Set → Option ℕ
next_in cur lo hi used = scan_ports (hi + 1 - lo) cur lo hi used

unfoldable pub alloc_host : PortAllocator → PortAllocator × Option ℕ
alloc_host a = elim (next_in a.host_next a.host_min a.host_max a.used_host) [
  | none ↦ (a, none)
  | some p ↦ (record a { used_host = add p a.used_host; host_next = p + 1 }, some p)
]

unfoldable pub alloc_http : PortAllocator → PortAllocator × Option ℕ
alloc_http a = elim (next_in a.http_next a.http_min a.http_max a.used_http) [
  | none ↦ (a, none)
  | some p ↦ (record a { used_http = add p a.used_http; http_next = p + 1 }, some p)
]

-- The end of a search for an HTTPS port: a port, no free port, or the fuel used up.
pub data Search : Type 0 where
  found : ℕ → Search
  exhausted : Search
  spinning : Search

pub take_https : ℕ → PortAllocator → PortAllocator
take_https p a = record a { used_https = add p a.used_https; https_next = p + 1 }

-- The `for` loop that skips the ports that `accept` refuses.
unfoldable pub search_https : ℕ → (ℕ → Bool) → PortAllocator → PortAllocator × Search
unfolding take_https
search_https zero accept a = (a, spinning)
search_https (suc fuel) accept a =
    elim (next_in a.https_next a.https_min a.https_max a.used_https) [
      | none ↦ (a, exhausted)
      | some p ↦ elim (accept p) [
        | true ↦ (take_https p a, found p)
        | false ↦ search_https fuel accept (record a { https_next = p + 1 })
      ]
    ]

unfoldable pub alloc_https : ℕ → ℕ → PortAllocator → PortAllocator × Search
alloc_https fuel avoid a = search_https fuel (λ p. avoid == 0 || not (p == avoid)) a

unfoldable pub reserve_host : ℕ → PortAllocator → PortAllocator
reserve_host p a = record a { used_host = add p a.used_host }

unfoldable pub reserve_http : ℕ → PortAllocator → PortAllocator
reserve_http p a = record a { used_http = add p a.used_http }

unfoldable pub reserve_https : ℕ → PortAllocator → PortAllocator
reserve_https p a = record a { used_https = add p a.used_https }

unfoldable pub free_host : ℕ → PortAllocator → PortAllocator
free_host p a = if p == 0 then a else record a { used_host = remove p a.used_host }

unfoldable pub free_http : ℕ → PortAllocator → PortAllocator
free_http p a = if p == 0 then a else record a { used_http = remove p a.used_http }

unfoldable pub free_https : ℕ → PortAllocator → PortAllocator
free_https p a = if p == 0 then a else record a { used_https = remove p a.used_https }
