-- ===== src/State/Vpn/Laws.antt =====
-- `SelectAndClaimVPN`: the choice among the candidates and the reservation.
use acestream_orchestrator.Prelude.{
  ℕ, ◌+◌, ◌≤◌, ◌≡◌, ◌≢◌, ◌⊎◌, inl, inr, refl, sym, ap, ◌∙◌, true, false, ◌||◌, List, [], ◌∷◌, arith,
  if◌then◌else◌, String, str_eq, eq_iff, Bool-cases,
}
use acestream_orchestrator.Prelude.Maps.{lookup-insert}
use acestream_orchestrator.Prelude.Int.{ℤ, pos, negsuc, ltb_ℤ}
use acestream_orchestrator.State.{Store, count}
use acestream_orchestrator.State.Vpn.{
  vpn_total, at_limit, pick_vpn, incr_vpn_pending, select_and_claim_vpn,
}

-- No candidate is the empty name.
abbrev pub AllNamed : List String → Type 0
AllNamed [] = Unit {0}
AllNamed (c ∷ cs) = (c ≢ "") × AllNamed cs

abbrev pub Member : String → List String → Type 0
Member name [] = ⊥
Member name (c ∷ cs) = (name ≡ c) ⊎ Member name cs

module _ (limit : ℕ) (s : Store) where
  -- Nothing was chosen, or a named node below the limit with its load.
  abbrev pub IsChoice : String × ℤ → Type 0
  IsChoice (best, load) =
      ((best ≡ "") × (load ≡ negsuc 0))
      ⊎ (best ≢ "") × (load ≡ pos (vpn_total best s)) × (at_limit limit (vpn_total best s) ≡ false)

  -- The node is at the limit, or another one was chosen that is not more loaded.
  abbrev pub IsBeaten : String × ℤ → String → Type 0
  IsBeaten (best, load) name =
      (at_limit limit (vpn_total name s) ≡ true)
      ⊎ (best ≢ "") × (vpn_total best s ≤ vpn_total name s)

  abbrev pub AllBeaten : String × ℤ → List String → Type 0
  AllBeaten best [] = Unit {0}
  AllBeaten best (c ∷ cs) = IsBeaten best c × AllBeaten best cs

  -- The next choice is not more loaded than the one before.
  abbrev IsBetter : String × ℤ → String × ℤ → Type 0
  IsBetter next before =
      (before.0 ≡ "") ⊎ (next.0 ≢ "") × (vpn_total next.0 s ≤ vpn_total before.0 s)

  abbrev updated : String → String × ℤ → String × ℤ
  updated name best =
      if at_limit limit (vpn_total name s)
      then best
      else if str_eq best.0 "" || ltb_ℤ (pos (vpn_total name s)) best.1
      then (name, pos (vpn_total name s))
      else best

  updated_lem :
      (name : String) (best : String × ℤ)
      → name ≢ ""
      → IsChoice best
      → IsChoice (updated name best)
        × IsBeaten (updated name best) name
        × IsBetter (updated name best) best
        × (((updated name best).0 ≡ best.0) ⊎ ((updated name best).0 ≡ name))
  updated_lem name (best, load) n v = ground (arith, eq_iff best "")

  -- The outcome of the loop: a choice that beats all candidates and the choice before, and is one
  -- of them.
  pub record Picked (names : List String) (before out : String × ℤ) : Type 0 where
    choice : IsChoice out
    beaten : AllBeaten out names
    better : IsBetter out before
    from : (out.0 ≡ before.0) ⊎ Member out.0 names

  IsBeaten-IsBetter :
      (out before : String × ℤ) (name : String)
      → name ≢ ""
      → IsBeaten before name
      → IsBetter out before
      → IsBeaten out name
  IsBeaten-IsBetter out before name n b t = ground arith

  IsBetter-IsBetter :
      (out next before : String × ℤ)
      → IsBetter out next
      → IsBetter next before
      → IsBetter out before
  IsBetter-IsBetter out next before a b = ground arith

  pick_vpn-Picked :
      (names : List String) (before : String × ℤ)
      → AllNamed names
      → IsChoice before
      → Picked names before (pick_vpn limit s names before)
  unfolding pick_vpn
  pick_vpn-Picked [] before n v = record {
    choice = v;
    beaten = tt;
    better = elim (Bool-cases (str_eq before.0 "")) [
      | inl blank ↦ inl ((eq_iff before.0 "").0 blank)
      | inr named ↦ inr (λ e. absurd (ground (arith, eq_iff before.0 "")), omega arith)
    ];
    from = inl refl;
  }
  pick_vpn-Picked (name ∷ names) before n v =
      let (chosen, beaten, better, from) = updated_lem name before n.0 v in
      let out = pick_vpn limit s names (updated name before) in
      let rest = pick_vpn-Picked names (updated name before) n.1 chosen in
      record {
        choice = rest.choice;
        beaten =
            (IsBeaten-IsBetter out (updated name before) name n.0 beaten rest.better, rest.beaten);
        better = IsBetter-IsBetter out (updated name before) before rest.better better;
        from = elim rest.from [
          | inl kept ↦ elim from [ inl old ↦ inl (kept ∙ old) | inr new ↦ inr (inl (kept ∙ new)) ]
          | inr later ↦ inr (inr later)
        ];
      }

  -- Every candidate is at the limit.
  abbrev pub AllFull : List String → Type 0
  AllFull [] = Unit {0}
  AllFull (c ∷ cs) = (at_limit limit (vpn_total c s) ≡ true) × AllFull cs

  AllBeaten-blank :
      (names : List String) (best : String × ℤ) → best.0 ≡ "" → AllBeaten best names → AllFull names
  AllBeaten-blank [] best e b = tt
  AllBeaten-blank (name ∷ names) best e b = (ground (arith, b.0), AllBeaten-blank names best e b.1)

  Member-named :
      (names : List String) (name : String) → AllNamed names → Member name names → name ≢ ""
  Member-named [] name n h = absurd h
  Member-named (c ∷ cs) name n h = elim h [
    | inl first ↦ λ e. n.0 (sym first ∙ e)
    | inr later ↦ Member-named cs name n.1 later
  ]

  -- What a claim has done: with every candidate at the limit it returns no name and -1 and leaves
  -- the store as it was; otherwise it returns a candidate below the limit, which no other
  -- candidate below the limit is less loaded than, with its load, and counts one more pending
  -- engine for that node and no other.
  abbrev pub IsClaim : List String → (String × ℤ) × Store → Type 0
  IsClaim names (best, t) =
      ((best ≡ ("", negsuc 0)) × AllFull names × (t ≡ s))
      ⊎ ((best.0 ≢ "")
          × Member best.0 names
          × (best.1 ≡ pos (vpn_total best.0 s))
          × (at_limit limit (vpn_total best.0 s) ≡ false)
          × AllBeaten best names
          × ((name : String)
              → count name t.vpn_pending
                ≡ count name s.vpn_pending + (if str_eq best.0 name then 1 else 0)))

count-incr :
    (best name : String) (s : Store)
    → count name (incr_vpn_pending best s).vpn_pending
      ≡ count name s.vpn_pending + (if str_eq best name then 1 else 0)
unfolding count incr_vpn_pending
count-incr best name s =
    rw (lookup-insert best name (count best s.vpn_pending + 1) s.vpn_pending)
      (ground (arith, eq_iff best name))

IsClaim-Picked :
    (candidates : List String) (limit : ℕ) (s : Store) (out : String × ℤ)
    → AllNamed candidates
    → Picked limit s candidates ("", negsuc 0) out
    → IsClaim limit s candidates (out, if str_eq out.0 "" then s else incr_vpn_pending out.0 s)
IsClaim-Picked candidates limit s (best, load) n p = elim p.choice [
  | inl blank ↦ inl (
    ap (λ b. (b, load)) blank.0 ∙ ap (λ l. ("", l)) blank.1,
    AllBeaten-blank limit s candidates (best, load) blank.0 p.beaten,
    rw ((eq_iff best "").1 blank.0) refl,
  )
  | inr named ↦ inr (
    named.0,
    elim p.from [ inl none_yet ↦ absurd (named.0 none_yet) | inr there ↦ there ],
    named.1,
    named.2,
    p.beaten,
    rw (other named.0) (λ name. count-incr best name s),
  )
]
  where
    other : best ≢ "" → str_eq best "" ≡ false
    other h = ground (arith, eq_iff best "")

-- A claim on a list of named VPN nodes either finds all of them at the limit, and then changes
-- nothing, or reserves a place on a least loaded one of those below it: see `IsClaim`.
pub select_and_claim_vpn-IsClaim :
    (candidates : List String) (limit : ℕ) (s : Store)
    → AllNamed candidates
    → IsClaim limit s candidates (select_and_claim_vpn candidates limit s)
unfolding select_and_claim_vpn
select_and_claim_vpn-IsClaim candidates limit s n =
    IsClaim-Picked candidates limit s (pick_vpn limit s candidates ("", negsuc 0)) n
      (pick_vpn-Picked limit s candidates ("", negsuc 0) n (inl (refl, refl)))
