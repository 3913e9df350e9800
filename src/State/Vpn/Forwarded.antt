-- ===== src/State/Vpn/Forwarded.antt =====
-- `TryClaimForwardedSlot`: at most one forwarded engine is elected on a VPN node.
use acestream_orchestrator.Prelude.{
  ℕ, ◌≡◌, refl, Bool, true, false, ◌&&◌, not, [], ◌∷◌, arith, if◌then◌else◌, String, str_eq, eq_iff,
}
use acestream_orchestrator.Prelude.Maps.{Map, lookup, insert, lookup-insert}
use acestream_orchestrator.State.{Engine, Store, is_some, notify_engine_ready, add_engine}
use acestream_orchestrator.State.Vpn.{has_forwarded, is_forwarded_pending, try_claim_forwarded_slot}

-- The slot of the node is free: no engine has it and no claim on it is pending.
abbrev pub is_free : String → Store → Bool
is_free vpn s = not (has_forwarded vpn s.engines) && not (is_forwarded_pending vpn s)

pub is_forwarded_pending-insert :
    (vpn other : String) (s : Store)
    → is_forwarded_pending other
        (record s { forwarded_pending = insert vpn true s.forwarded_pending })
      ≡ (if str_eq vpn other then true else is_forwarded_pending other s)
unfolding is_forwarded_pending
is_forwarded_pending-insert vpn other s =
    rw (lookup-insert vpn other true s.forwarded_pending, is_forwarded_pending) (ground arith)

-- A claim on the forwarded slot of a node succeeds exactly when the slot is free. Afterwards the
-- slot of that node is not free, so that a second claim fails, and the slot of any other node is
-- as it was.
pub try_claim_forwarded_slot_once :
    (vpn other : String) (s : Store)
    → ((try_claim_forwarded_slot vpn s).0 ≡ is_free vpn s)
      × ((try_claim_forwarded_slot vpn (try_claim_forwarded_slot vpn s).1).0 ≡ false)
      × (is_free other (try_claim_forwarded_slot vpn s).1
          ≡ (if str_eq vpn other then false else is_free other s))
unfolding try_claim_forwarded_slot
try_claim_forwarded_slot_once vpn other s = ground (
  arith,
  is_forwarded_pending-insert vpn vpn s,
  is_forwarded_pending-insert vpn other s,
  eq_iff vpn other,
  (eq_iff vpn vpn).1 refl,
)

has_forwarded-insert :
    (id vpn : String) (e : Engine) (engines : Map Engine)
    → str_eq e.vpn_container vpn ≡ true
    → e.forwarded ≡ true
    → has_forwarded vpn (insert id e engines) ≡ true
unfolding has_forwarded insert
has_forwarded-insert id vpn e [] a b = rw (a, b) refl
has_forwarded-insert id vpn e ((name, old) ∷ engines) a b =
    ground (arith, has_forwarded-insert id vpn e engines a b)

-- Registering a forwarded engine with `AddEngine` takes the slot of its VPN node: a claim on it
-- fails right after, though `AddEngine` removes the pending claim.
pub try_claim_forwarded_slot-add_engine :
    (now : ℕ) (e : Engine) (s : Store)
    → e.forwarded ≡ true
    → (try_claim_forwarded_slot e.vpn_container (add_engine now e s)).0 ≡ false
unfolding try_claim_forwarded_slot add_engine notify_engine_ready
try_claim_forwarded_slot-add_engine now e s f = ground (
  arith,
  has_forwarded-insert e.container_id e.vpn_container
      (record e {
        first_seen = if not (is_some (lookup e.container_id s.engines)) then now else e.first_seen;
        last_seen = now;
      })
      s.engines ((eq_iff e.vpn_container e.vpn_container).1 refl) f,
)
