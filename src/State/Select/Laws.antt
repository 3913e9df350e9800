-- ===== src/State/Select/Laws.antt =====
-- `SelectAndClaimEngine`: which engine gets a stream, and the bound on an engine's load.
use acestream_orchestrator.Prelude.{
  ℕ, ◌≡◌, ◌⊎◌, inl, inr, refl, sym, subst, ◌∙◌, true, false, List, [], ◌∷◌, arith, if◌then◌else◌,
  String, Bool-cases,
}
use acestream_orchestrator.Prelude.Maps.{Map}
use acestream_orchestrator.State.{Engine, Store}
use acestream_orchestrator.State.Select.{
  Candidate, is_eligible, candidate, candidates_of, less, first_of,
}

module _ (now max_streams : ℕ) (s : Store) where
  -- No engine can take a stream.
  abbrev pub NoneEligible : Map Engine → Type 0
  NoneEligible [] = Unit {0}
  NoneEligible ((id, e) ∷ engines) =
      (is_eligible now max_streams s e ≡ false) × NoneEligible engines

  -- No engine that can take a stream comes before this candidate in the order of the sort.
  abbrev pub IsFirst : Map ℕ → Candidate → Map Engine → Type 0
  IsFirst loads c [] = Unit {0}
  IsFirst loads c ((id, e) ∷ engines) =
      ((is_eligible now max_streams s e ≡ false) ⊎ (less (candidate s loads e) c ≡ false))
      × IsFirst loads c engines

-- `a` does not come after `b`.
abbrev NotAfter : Candidate → Candidate → Type 0
NotAfter a b = less b a ≡ false

NotAfter-refl : (a : Candidate) → NotAfter a a
unfolding less
NotAfter-refl a = ground arith

NotAfter-less : (a b : Candidate) → less a b ≡ true → NotAfter a b
unfolding less
NotAfter-less a b h = ground arith

NotAfter-trans : (a b c : Candidate) → NotAfter a b → NotAfter b c → NotAfter a c
unfolding less
NotAfter-trans a b c h k = ground arith

abbrev ahead : Candidate → Candidate → Candidate
ahead d c = if less d c then d else c

ahead-NotAfter : (d c : Candidate) → NotAfter (ahead d c) c × NotAfter (ahead d c) d
ahead-NotAfter d c = elim (Bool-cases (less d c)) [
  | inl before ↦ rw before (NotAfter-less d c before, NotAfter-refl d)
  | inr after ↦ rw after (NotAfter-refl c, after)
]

ahead-cases : (d c : Candidate) → (ahead d c ≡ c) ⊎ (ahead d c ≡ d)
ahead-cases d c = ground arith

module _ (now max_streams : ℕ) (s : Store) (loads : Map ℕ) where
  -- The candidate stands for an engine of the map that can take a stream.
  abbrev pub From : Candidate → Map Engine → Type 0
  From c [] = ⊥
  From c ((id, e) ∷ engines) =
      ((is_eligible now max_streams s e ≡ true) × (c ≡ candidate s loads e)) ⊎ From c engines

  candidates_of-yes :
      (id : String) (e : Engine) (engines : Map Engine)
      → is_eligible now max_streams s e ≡ true
      → candidates_of now max_streams s loads ((id, e) ∷ engines)
        ≡ candidate s loads e ∷ candidates_of now max_streams s loads engines
  unfolding candidates_of
  candidates_of-yes id e engines h = rw h refl

  candidates_of-no :
      (id : String) (e : Engine) (engines : Map Engine)
      → is_eligible now max_streams s e ≡ false
      → candidates_of now max_streams s loads ((id, e) ∷ engines)
        ≡ candidates_of now max_streams s loads engines
  unfolding candidates_of
  candidates_of-no id e engines h = rw h refl

  -- The outcome of the sort on a first candidate and those of the map.
  abbrev IsLeast : Candidate → Map Engine → Candidate → Type 0
  IsLeast c engines out =
      NotAfter out c × IsFirst now max_streams s loads out engines × ((out ≡ c) ⊎ From out engines)

  IsLeast-able :
      (id : String) (e : Engine) (engines : Map Engine) (c out : Candidate)
      → is_eligible now max_streams s e ≡ true
      → IsLeast (ahead (candidate s loads e) c) engines out
      → IsLeast c ((id, e) ∷ engines) out
  IsLeast-able id e engines c out able (before, rest, from) =
      let d = candidate s loads e in
      let (past_c, past_d) = ahead-NotAfter d c in
      (
        NotAfter-trans out (ahead d c) c before past_c,
        (inr (NotAfter-trans out (ahead d c) d before past_d), rest),
        elim from [
          | inl kept ↦ elim (ahead-cases d c) [
            | inl old ↦ inl (kept ∙ old)
            | inr new ↦ inr (inl (able, kept ∙ new))
          ]
          | inr later ↦ inr (inr later)
        ],
      )

  first_of-IsLeast :
      (engines : Map Engine) (c : Candidate)
      → IsLeast c engines (first_of c (candidates_of now max_streams s loads engines))
  unfolding first_of
  first_of-IsLeast [] c = unfold candidates_of in (NotAfter-refl c, tt, inl refl)
  first_of-IsLeast ((id, e) ∷ engines) c = elim (Bool-cases (is_eligible now max_streams s e)) [
    | inl able ↦
        subst (λ cs. IsLeast c ((id, e) ∷ engines) (first_of c cs))
          (sym (candidates_of-yes id e engines able))
          (IsLeast-able id e engines c _ able
            (first_of-IsLeast engines (ahead (candidate s loads e) c)))
    | inr unable ↦
        let (before, rest, from) = first_of-IsLeast engines c in
        subst (λ cs. IsLeast c ((id, e) ∷ engines) (first_of c cs))
          (sym (candidates_of-no id e engines unable))
          (
            before,
            (inl unable, rest),
            elim from [ inl kept ↦ inl kept | inr later ↦ inr (inr later) ],
          )
  ]

  -- The outcome of the sort on these candidates, the ones of the map.
  abbrev pub IsOutcome : Map Engine → List Candidate → Type 0
  IsOutcome engines [] = NoneEligible now max_streams s engines
  IsOutcome engines (c ∷ cs) =
      IsFirst now max_streams s loads (first_of c cs) engines × From (first_of c cs) engines

  IsOutcome-unable :
      (id : String) (e : Engine) (engines : Map Engine) (cs : List Candidate)
      → is_eligible now max_streams s e ≡ false
      → IsOutcome engines cs
      → IsOutcome ((id, e) ∷ engines) cs
  IsOutcome-unable id e engines [] unable h = (unable, h)
  IsOutcome-unable id e engines (c ∷ cs) unable h = ((inl unable, h.0), inr h.1)

  IsOutcome-able :
      (id : String) (e : Engine) (engines : Map Engine) (out : Candidate)
      → is_eligible now max_streams s e ≡ true
      → IsLeast (candidate s loads e) engines out
      → IsFirst now max_streams s loads out ((id, e) ∷ engines) × From out ((id, e) ∷ engines)
  IsOutcome-able id e engines out able (before, rest, from) =
      ((inr before, rest), elim from [ inl head ↦ inl (able, head) | inr later ↦ inr later ])

  pub candidates_of-IsOutcome :
      (engines : Map Engine) → IsOutcome engines (candidates_of now max_streams s loads engines)
  candidates_of-IsOutcome [] = unfold candidates_of in tt
  candidates_of-IsOutcome ((id, e) ∷ engines) =
      elim (Bool-cases (is_eligible now max_streams s e)) [
        | inl able ↦
            subst (IsOutcome ((id, e) ∷ engines)) (sym (candidates_of-yes id e engines able))
              (IsOutcome-able id e engines _ able (first_of-IsLeast engines (candidate s loads e)))
        | inr unable ↦
            subst (IsOutcome ((id, e) ∷ engines)) (sym (candidates_of-no id e engines unable)) (
              IsOutcome-unable id e engines (candidates_of now max_streams s loads engines) unable
                (candidates_of-IsOutcome engines))
      ]
