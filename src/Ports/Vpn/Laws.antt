-- ===== src/Ports/Vpn/Laws.antt =====
-- The slots of the VPN ranges are given out once each, and so are the P2P ports of one VPN.
use acestream_orchestrator.Prelude.{
  ℕ, zero, suc, ◌+◌, ◌≤◌, ◌<◌, ◌≡◌, ◌≢◌, refl, sym, ◌∙◌, Bool, true, false, Option, none, some,
  String, List, [], ◌∷◌, arith, if◌then◌else◌, str_eq, eq_iff, ◌==◌, ==_iff, leb, length,
  Bool-cases, inl, inr,
}
use acestream_orchestrator.Prelude.Maps.{Map, lookup, insert, lookup-insert}
use acestream_orchestrator.Ports.{PortRange, VpnRange, PortAllocator}
use acestream_orchestrator.Ports.Vpn.{
  is_taken, first_slot, assign, has_slots, ensure_vpn_range_assigned, contains, first_free,
  p2p_ports, alloc_internal_p2p_port,
}

-- How many entries of the list are not below `p`.
count_from : ℕ → List ℕ → ℕ
count_from p [] = 0
count_from p (q ∷ qs) = if leb p q then suc (count_from p qs) else count_from p qs

count_from-le_length : (p : ℕ) (qs : List ℕ) → count_from p qs ≤ length qs
unfolding count_from
count_from-le_length p [] = omega arith
count_from-le_length p (q ∷ qs) = ground (arith, count_from-le_length p qs)

count_from-suc_le : (p : ℕ) (qs : List ℕ) → count_from (p + 1) qs ≤ count_from p qs
unfolding count_from
count_from-suc_le p [] = omega arith
count_from-suc_le p (q ∷ qs) = ground (arith, count_from-suc_le p qs)

count_from-contains :
    (p : ℕ) (qs : List ℕ) → contains p qs ≡ true → count_from (p + 1) qs < count_from p qs
unfolding count_from contains
count_from-contains p [] h = absurd (cc)
count_from-contains p (q ∷ qs) h = ground (arith, count_from-contains p qs, count_from-suc_le p qs)

-- The port that the loop stops at: the first one from `p` on that is not used.
first_free_least :
    (fuel p : ℕ) (used : List ℕ)
    → count_from p used < fuel
    → (r : ℕ) × (first_free fuel p used ≡ some r)
      × (p ≤ r)
      × (contains r used ≡ false)
      × ((q : ℕ) → p ≤ q → q < r → contains q used ≡ true)
unfolding first_free
first_free_least zero p used h = absurd (omega arith)
first_free_least (suc fuel) p used h = elim (Bool-cases (contains p used)) [
  | inl taken ↦
      let (r, e, l, f, all) =
        first_free_least fuel (p + 1) used (omega (arith, count_from-contains p used taken)) in
      (
        r,
        rw taken e,
        omega arith,
        f,
        λ q a b. elim (Bool-cases (q == p)) [
          | inl same ↦ rw ((==_iff q p).0 same) taken
          | inr other ↦ all q (ground arith) b
        ],
      )
  | inr free ↦ (p, rw free refl, omega arith, free, λ q a b. absurd (omega arith))
]

-- `AllocInternalP2PPort` always ends: it returns the least port from 62062 on that the VPN does
-- not use yet, and that port is used afterwards.
pub alloc_internal_p2p_port_total :
    (vpn : String) (a : PortAllocator)
    → (p : ℕ) × ((alloc_internal_p2p_port vpn a).1 ≡ some p)
      × (62062 ≤ p)
      × (contains p (p2p_ports vpn a) ≡ false)
      × ((q : ℕ) → 62062 ≤ q → q < p → contains q (p2p_ports vpn a) ≡ true)
      × (contains p (p2p_ports vpn (alloc_internal_p2p_port vpn a).0) ≡ true)
unfolding alloc_internal_p2p_port contains
alloc_internal_p2p_port_total vpn a =
    let (p, e, l, f, all) =
      first_free_least (length (p2p_ports vpn a) + 1) 62062 (p2p_ports vpn a) enough in
    (p, rw (e, alloc_internal_p2p_port) refl, l, f, all, rw (e, alloc_internal_p2p_port) (used p))
  where
    enough : count_from 62062 (p2p_ports vpn a) < length (p2p_ports vpn a) + 1
    enough = omega (arith, count_from-le_length 62062 (p2p_ports vpn a))

    stored :
        (p : ℕ)
        → lookup vpn (insert vpn (p ∷ p2p_ports vpn a) a.vpn_p2p_used) ≡ some (p ∷ p2p_ports vpn a)
    stored p = rw lookup-insert (rw ((eq_iff vpn vpn).1 refl) refl)

    used :
        (p : ℕ)
        → contains p (
            p2p_ports vpn
              (record a { vpn_p2p_used = insert vpn (p ∷ p2p_ports vpn a) a.vpn_p2p_used }))
          ≡ true
    used p = rw (stored p, p2p_ports) (ground arith)

-- No two VPN containers hold one slot.
abbrev pub OneHolder : Map ℕ → Type 0
OneHolder assignments =
    (v w : String) (idx : ℕ)
    → lookup v assignments ≡ some idx
    → lookup w assignments ≡ some idx
    → v ≡ w

lookup-is_taken :
    (idx : ℕ) (m : Map ℕ) (v : String) → is_taken idx m ≡ false → lookup v m ≢ some idx
unfolding is_taken lookup
lookup-is_taken idx [] v h e = cc
lookup-is_taken idx ((w, i) ∷ rest) v h e = elim (Bool-cases (str_eq w v)) [
  | inl same ↦ ground (arith, rw same at e)
  | inr other ↦ lookup-is_taken idx rest v (ground arith) (rw other at e)
]

first_slot-is_taken :
    (n : ℕ) (slots : List PortRange) (m : Map ℕ) {idx : ℕ} {slot : PortRange}
    → first_slot n slots m ≡ some (idx, slot)
    → is_taken idx m ≡ false
unfolding first_slot
first_slot-is_taken n [] m e = absurd (cc)
first_slot-is_taken n (s ∷ rest) m {idx} e = elim (Bool-cases (is_taken n m)) [
  | inl taken ↦ first_slot-is_taken (n + 1) rest m (rw taken at e)
  | inr free ↦ ground (arith, rw free at e)
]

insert-OneHolder :
    (vpn : String) (n : ℕ) (m : Map ℕ)
    → is_taken n m ≡ false
    → OneHolder m
    → OneHolder (insert vpn n m)
insert-OneHolder vpn n m free h v w idx ev ew = elim (Bool-cases (str_eq vpn v)) [
  | inl sv ↦ elim (Bool-cases (str_eq vpn w)) [
    | inl sw ↦ sym ((eq_iff vpn v).0 sv) ∙ (eq_iff vpn w).0 sw
    | inr ow ↦ absurd (
        lookup-is_taken idx m w (fresh (rw (lookup-insert, sv) at ev))
          (rw (lookup-insert, ow) at ew))
  ]
  | inr ov ↦ elim (Bool-cases (str_eq vpn w)) [
    | inl sw ↦ absurd (
        lookup-is_taken idx m v (fresh (rw (lookup-insert, sw) at ew))
          (rw (lookup-insert, ov) at ev))
    | inr ow ↦ h v w idx (rw (lookup-insert, ov) at ev) (rw (lookup-insert, ow) at ew)
  ]
]
  where
    fresh : {i : ℕ} → some n ≡ some i → is_taken i m ≡ false
    fresh e = ground arith

-- Each range slot has at most one VPN: giving a VPN its slot on first use keeps that so.
pub ensure_vpn_range_assigned-OneHolder :
    (vpn : String) (a : PortAllocator)
    → OneHolder a.vpn_range_assignments
    → OneHolder (ensure_vpn_range_assigned vpn a).vpn_range_assignments
unfolding ensure_vpn_range_assigned
ensure_vpn_range_assigned-OneHolder vpn a h =
    go (str_eq vpn "") (has_slots a.vpn_range_slots) (lookup vpn a.vpn_port_ranges)
  where
    given :
        (o : Option (ℕ × PortRange))
        → first_slot 0 a.vpn_range_slots a.vpn_range_assignments ≡ o
        → OneHolder (assign vpn o a).vpn_range_assignments
    given none e = h
    given (some (idx, slot)) e =
        insert-OneHolder vpn idx a.vpn_range_assignments
          (first_slot-is_taken 0 a.vpn_range_slots a.vpn_range_assignments e) h

    go :
        (unnamed slots : Bool) (r : Option VpnRange)
        → OneHolder
            (if unnamed
              then a
              else if slots
              then (elim r [
                | some vr ↦ a
                | none ↦ assign vpn (first_slot 0 a.vpn_range_slots a.vpn_range_assignments) a
              ])
              else a).vpn_range_assignments
    go true slots r = h
    go false false r = h
    go false true none = given (first_slot 0 a.vpn_range_slots a.vpn_range_assignments) refl
    go false true (some vr) = h
