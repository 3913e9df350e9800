-- ===== src/State/Select/Claim.antt =====
-- What a call of `SelectAndClaimEngine` returns and reserves.
use acestream_orchestrator.Prelude.{
  ℕ, ◌+◌, ◌≤◌, ◌<◌, ◌≡◌, refl, ap, subst, true, Option, none, some, List, [], ◌∷◌, arith,
  if◌then◌else◌, String, str_eq, eq_iff, inl, inr, ◌⊎◌,
}
use acestream_orchestrator.Prelude.Maps.{Map, lookup, lookup-insert}
use acestream_orchestrator.State.{Engine, Store, count}
use acestream_orchestrator.State.Select.{
  get_engine_total_load, vpn_loads, Candidate, is_eligible, candidate, candidates_of, first_of,
  claim, select_and_claim_engine,
}
use acestream_orchestrator.State.Select.Laws.{
  NoneEligible, IsFirst, From, IsOutcome, candidates_of-IsOutcome,
}

-- The engine is one of the map's.
abbrev pub Registered : Engine → Map Engine → Type 0
Registered e [] = ⊥
Registered e ((id, x) ∷ engines) = (e ≡ x) ⊎ Registered e engines

-- The outcome of a selection. `none`: no engine can take a stream, and nothing has changed. An
-- engine: a registered one that can take a stream, before which no other that can comes in the
-- order of the sort; its copy has the time of the assignment, and so has the store, in which the
-- load of that engine is one more and that of any other what it was.
abbrev pub IsSelection : ℕ → ℕ → Store → Option Engine × Store → Type 0
IsSelection now max_streams s (none, t) = NoneEligible now max_streams s s.engines × (t ≡ s)
IsSelection now max_streams s (some e, t) =
    (old : Engine) × Registered old s.engines
    × (is_eligible now max_streams s old ≡ true)
    × IsFirst now max_streams s (vpn_loads s s.engines [])
        (candidate s (vpn_loads s s.engines []) old) s.engines
    × (e ≡ record old { last_assigned_at = now })
    × (lookup old.container_id t.engines ≡ some e)
    × ((id : String)
        → get_engine_total_load id t
          ≡ get_engine_total_load id s + (if str_eq old.container_id id then 1 else 0))

load-claim :
    (now : ℕ) (e : Engine) (s : Store) (id : String)
    → get_engine_total_load id (claim now e s)
      ≡ get_engine_total_load id s + (if str_eq e.container_id id then 1 else 0)
unfolding get_engine_total_load claim count
load-claim now e s id =
    rw
      (lookup-insert e.container_id id (count e.container_id s.engine_pending + 1) s.engine_pending)
      (ground (arith, eq_iff e.container_id id))

lookup-claim :
    (now : ℕ) (e : Engine) (s : Store)
    → lookup e.container_id (claim now e s).engines ≡ some (record e { last_assigned_at = now })
unfolding claim
lookup-claim now e s =
    rw (lookup-insert e.container_id e.container_id (record e { last_assigned_at = now }) s.engines)
      (rw ((eq_iff e.container_id e.container_id).1 refl) refl)

-- The engine of a candidate.
From-Registered :
    (now max_streams : ℕ) (s : Store) (loads : Map ℕ) (engines : Map Engine) (c : Candidate)
    → From now max_streams s loads c engines
    → Registered c.e engines
      × (is_eligible now max_streams s c.e ≡ true)
      × (c ≡ candidate s loads c.e)
unfolding candidate
From-Registered now max_streams s loads [] c h = absurd h
From-Registered now max_streams s loads ((id, x) ∷ engines) c h = elim h [
  | inl here ↦
      (inl (ap (λ (d : Candidate). d.e) here.1), ground (arith, here), ground (arith, here))
  | inr later ↦
      let (registered, able, form) = From-Registered now max_streams s loads engines c later in
      (inr registered, able, form)
]

IsSelection-claim :
    (now max_streams : ℕ) (s : Store) (c : Candidate)
    → IsFirst now max_streams s (vpn_loads s s.engines []) c s.engines
    → From now max_streams s (vpn_loads s s.engines []) c s.engines
    → IsSelection now max_streams s (some (record c.e { last_assigned_at = now }), claim now c.e s)
IsSelection-claim now max_streams s c first from =
    let loads = vpn_loads s s.engines [] in
    let (registered, able, form) = From-Registered now max_streams s loads s.engines c from in
    (
      c.e,
      registered,
      able,
      subst (λ d. IsFirst now max_streams s loads d s.engines) form first,
      refl,
      lookup-claim now c.e s,
      load-claim now c.e s,
    )

-- `SelectAndClaimEngine` fails only if no registered engine can take a stream (healthy, not
-- draining, with room, and idle or settled), and then changes nothing; otherwise it reserves a
-- place on one that comes first in the order of the sort: see `IsSelection`.
pub select_and_claim_engine-IsSelection :
    (now max_streams : ℕ) (s : Store)
    → IsSelection now max_streams s (select_and_claim_engine now max_streams s)
unfolding select_and_claim_engine
select_and_claim_engine-IsSelection now max_streams s =
    go (candidates_of now max_streams s loads s.engines)
      (candidates_of-IsOutcome now max_streams s loads s.engines)
  where
    loads : Map ℕ
    loads = vpn_loads s s.engines []

    go :
        (cs : List Candidate)
        → IsOutcome now max_streams s loads s.engines cs
        → IsSelection now max_streams s (elim cs [
          | [] ↦ (none, s)
          | c ∷ ds ↦ (
            some (record (first_of c ds).e { last_assigned_at = now }),
            claim now (first_of c ds).e s,
          )
        ])
    go [] h = (h, refl)
    go (c ∷ ds) h = IsSelection-claim now max_streams s (first_of c ds) h.0 h.1

-- No engine has more streams, running or reserved, than the limit.
abbrev pub IsBounded : ℕ → Store → Type 0
IsBounded max_streams s = (id : String) → get_engine_total_load id s ≤ max_streams

is_eligible-room :
    (now max_streams : ℕ) (s : Store) (e : Engine)
    → is_eligible now max_streams s e ≡ true
    → get_engine_total_load e.container_id s < max_streams
unfolding is_eligible
is_eligible-room now max_streams s e h = ground arith

IsSelection-IsBounded :
    (now max_streams : ℕ) (s : Store) (out : Option Engine × Store)
    → IsBounded max_streams s
    → IsSelection now max_streams s out
    → IsBounded max_streams out.1
IsSelection-IsBounded now max_streams s (none, t) b h = rw h.1 b
IsSelection-IsBounded now max_streams s (some e, t) b
      (old, registered, able, first, copy, kept, load) =
    λ id. ground (
      arith,
      load id,
      b id,
      is_eligible-room now max_streams s old able,
      eq_iff old.container_id id,
    )

-- If no engine has more streams, running or reserved, than the limit before a claim with that
-- limit, none has more after it.
pub select_and_claim_engine-IsBounded :
    (now max_streams : ℕ) (s : Store)
    → IsBounded max_streams s
    → IsBounded max_streams (select_and_claim_engine now max_streams s).1
select_and_claim_engine-IsBounded now max_streams s b =
    IsSelection-IsBounded now max_streams s (select_and_claim_engine now max_streams s) b
      (select_and_claim_engine-IsSelection now max_streams s)
