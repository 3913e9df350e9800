-- ===== src/State/Vpn.antt =====
-- store.go: the reservations of room on VPN nodes, and of the one forwarded engine of each.
pub mod Laws
pub mod Forwarded
use acestream_orchestrator.Prelude.{
  ℕ, zero, suc, ◌+◌, ◌-◌, ◌*◌, Bool, true, false, ◌&&◌, ◌||◌, not, Option, none, some, List, [],
  ◌∷◌, if◌then◌else◌, ltb, leb, ◌==◌, String, str_eq,
}
use acestream_orchestrator.Prelude.Maps.{Map, lookup, insert, delete}
use acestream_orchestrator.Prelude.Int.{ℤ, pos, negsuc, ltb_ℤ}
use acestream_orchestrator.State.{Engine, Store, count, decrement}

unfoldable pub engines_on : String → Map Engine → ℕ
engines_on name [] = 0
engines_on name ((id, e) ∷ engines) =
    let rest = engines_on name engines in if str_eq e.vpn_container name then rest + 1 else rest

-- `engineCount + s.vpnPending[name]`.
unfoldable pub vpn_total : String → Store → ℕ
vpn_total name s = engines_on name s.engines + count name s.vpn_pending

-- Whether a limit, if there is one, is reached.
abbrev pub at_limit : ℕ → ℕ → Bool
at_limit effective_limit total = ltb 0 effective_limit && leb effective_limit total

-- The loop over the candidates, with `best` and `bestLoad`.
unfoldable pub pick_vpn : ℕ → Store → List String → String × ℤ → String × ℤ
pick_vpn effective_limit s [] best = best
pick_vpn effective_limit s (name ∷ names) best = pick_vpn effective_limit s names (
    if at_limit effective_limit (vpn_total name s)
    then best
    else if str_eq best.0 "" || ltb_ℤ (pos (vpn_total name s)) best.1
    then (name, pos (vpn_total name s))
    else best)

unfoldable pub incr_vpn_pending : String → Store → Store
incr_vpn_pending vpn s = record s {
  vpn_pending = insert vpn (count vpn s.vpn_pending + 1) s.vpn_pending;
}

unfoldable pub decr_vpn_pending : String → Store → Store
decr_vpn_pending vpn s = record s { vpn_pending = decrement vpn s.vpn_pending }

unfoldable pub select_and_claim_vpn : List String → ℕ → Store → (String × ℤ) × Store
select_and_claim_vpn candidates effective_limit s =
    let best = pick_vpn effective_limit s candidates ("", negsuc 0) in
    (best, if str_eq best.0 "" then s else incr_vpn_pending best.0 s)

-- The forwarded engine of a VPN node.

unfoldable pub set_forwarded_pending : String → Bool → Store → Store
set_forwarded_pending vpn pending s = record s {
  forwarded_pending =
      if pending then insert vpn true s.forwarded_pending else delete vpn s.forwarded_pending;
}

unfoldable pub is_forwarded_pending : String → Store → Bool
is_forwarded_pending vpn s = elim (lookup vpn s.forwarded_pending) [ none ↦ false | some b ↦ b ]

unfoldable pub has_forwarded : String → Map Engine → Bool
has_forwarded vpn [] = false
has_forwarded vpn ((id, e) ∷ engines) =
    let rest = has_forwarded vpn engines in
    if str_eq e.vpn_container vpn && e.forwarded then true else rest

unfoldable pub has_forwarded_engine_for_vpn : String → Store → Bool
has_forwarded_engine_for_vpn vpn s = has_forwarded vpn s.engines

unfoldable pub try_claim_forwarded_slot : String → Store → Bool × Store
try_claim_forwarded_slot vpn s =
    if has_forwarded vpn s.engines
    then (false, s)
    else if is_forwarded_pending vpn s
    then (false, s)
    else (true, record s { forwarded_pending = insert vpn true s.forwarded_pending })
