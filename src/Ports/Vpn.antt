-- ===== src/Ports/Vpn.antt =====
-- ports.go: the port ranges of the VPN containers and their internal P2P ports.
pub mod Laws
use acestream_orchestrator.Prelude.{
  ℕ, zero, suc, ◌+◌, Bool, true, false, ◌||◌, Option, none, some, String, List, [], ◌∷◌, ◌++◌,
  if◌then◌else◌, str_eq, ◌==◌, length,
}
use acestream_orchestrator.Prelude.Maps.{Map, lookup, insert}
use acestream_orchestrator.Prelude.Sets.{empty, add, remove}
use acestream_orchestrator.Ports.{PortRange, VpnRange, PortAllocator, next_in}

-- Whether some VPN container holds the slot with this index.
unfoldable pub is_taken : ℕ → Map ℕ → Bool
is_taken idx [] = false
is_taken idx ((vpn, i) ∷ rest) = i == idx || is_taken idx rest

-- The first slot that nobody holds, with its index; `idx` counts the slots gone by.
unfoldable pub first_slot : ℕ → List PortRange → Map ℕ → Option (ℕ × PortRange)
first_slot idx [] assignments = none
first_slot idx (slot ∷ rest) assignments =
    let later = first_slot (idx + 1) rest assignments in
    if is_taken idx assignments then later else some (idx, slot)

assign : String → Option (ℕ × PortRange) → PortAllocator → PortAllocator
assign vpn none a = a
assign vpn (some (idx, slot)) a = record a {
  vpn_range_assignments = insert vpn idx a.vpn_range_assignments;
  vpn_port_ranges =
      insert vpn (record { min = slot.min; max = slot.max; next = slot.min; used = empty })
        a.vpn_port_ranges;
}

abbrev has_slots : List PortRange → Bool
has_slots [] = false
has_slots (slot ∷ rest) = true

unfoldable pub ensure_vpn_range_assigned : String → PortAllocator → PortAllocator
unfolding assign
ensure_vpn_range_assigned vpn a =
    if str_eq vpn ""
    then a
    else if has_slots a.vpn_range_slots
    then elim (lookup vpn a.vpn_port_ranges) [
      | some vr ↦ a
      | none ↦ assign vpn (first_slot 0 a.vpn_range_slots a.vpn_range_assignments) a
    ]
    else a

-- The VPN's own range where it has one, and the shared range otherwise.
unfoldable pub alloc_in_range : String → PortAllocator → PortAllocator × Option ℕ
alloc_in_range vpn a = elim (lookup vpn a.vpn_port_ranges) [
  | some vr ↦ elim (next_in vr.next vr.min vr.max vr.used) [
    | none ↦ (a, none)
    | some p ↦ (
      record a {
        vpn_port_ranges =
            insert vpn (record vr { used = add p vr.used; next = p + 1 }) a.vpn_port_ranges;
      },
      some p,
    )
  ]
  | none ↦ elim (next_in a.gluetun_next a.gluetun_min a.gluetun_max a.used_gluetun) [
    | none ↦ (a, none)
    | some p ↦ (record a { used_gluetun = add p a.used_gluetun; gluetun_next = p + 1 }, some p)
  ]
]

unfoldable pub alloc_gluetun_port : String → PortAllocator → PortAllocator × Option ℕ
alloc_gluetun_port vpn a = alloc_in_range vpn (ensure_vpn_range_assigned vpn a)

unfoldable pub mark_gluetun : ℕ → String → PortAllocator → PortAllocator
mark_gluetun p vpn a = elim (lookup vpn a.vpn_port_ranges) [
  | some vr ↦ record a {
    vpn_port_ranges = insert vpn (record vr { used = add p vr.used }) a.vpn_port_ranges;
  }
  | none ↦ record a { used_gluetun = add p a.used_gluetun }
]

unfoldable pub unmark_gluetun : ℕ → String → PortAllocator → PortAllocator
unmark_gluetun p vpn a = elim (lookup vpn a.vpn_port_ranges) [
  | some vr ↦ record a {
    vpn_port_ranges = insert vpn (record vr { used = remove p vr.used }) a.vpn_port_ranges;
  }
  | none ↦ record a { used_gluetun = remove p a.used_gluetun }
]

unfoldable pub reserve_gluetun_port : ℕ → String → PortAllocator → PortAllocator
reserve_gluetun_port p vpn a = mark_gluetun p vpn (ensure_vpn_range_assigned vpn a)

unfoldable pub free_gluetun_port : ℕ → String → PortAllocator → PortAllocator
free_gluetun_port p vpn a = if p == 0 then a else unmark_gluetun p vpn a

-- A set of P2P ports is a list, whose length bounds the search below.
unfoldable pub contains : ℕ → List ℕ → Bool
contains p [] = false
contains p (q ∷ qs) = q == p || contains p qs

unfoldable pub erase : ℕ → List ℕ → List ℕ
erase p [] = []
erase p (q ∷ qs) = let rest = erase p qs in if q == p then rest else q ∷ rest

-- The loop that counts up from the port `p` to the first one that is not used.
unfoldable pub first_free : ℕ → ℕ → List ℕ → Option ℕ
first_free zero p used = none
first_free (suc fuel) p used =
    let rest = first_free fuel (p + 1) used in if contains p used then rest else some p

abbrev pub p2p_ports : String → PortAllocator → List ℕ
p2p_ports vpn a = elim (lookup vpn a.vpn_p2p_used) [ some used ↦ used | none ↦ [] ]

-- One round more than there are used ports.
unfoldable pub alloc_internal_p2p_port : String → PortAllocator → PortAllocator × Option ℕ
alloc_internal_p2p_port vpn a =
    elim (first_free (length (p2p_ports vpn a) + 1) 62062 (p2p_ports vpn a)) [
      | none ↦ (a, none)
      | some p ↦
          (record a { vpn_p2p_used = insert vpn (p ∷ p2p_ports vpn a) a.vpn_p2p_used }, some p)
    ]

unfoldable pub free_internal_p2p_port : ℕ → String → PortAllocator → PortAllocator
free_internal_p2p_port port vpn a =
    if port == 0 || str_eq vpn "" then a else elim (lookup vpn a.vpn_p2p_used) [
      | none ↦ a
      | some used ↦ record a { vpn_p2p_used = insert vpn (erase port used) a.vpn_p2p_used }
    ]

unfoldable pub clear_all : PortAllocator → PortAllocator
clear_all a = record a {
  used_host = empty;
  used_http = empty;
  used_https = empty;
  used_gluetun = empty;
  gluetun_next = a.gluetun_min;
  vpn_port_ranges = [];
  vpn_range_assignments = [];
  vpn_p2p_used = [];
}
