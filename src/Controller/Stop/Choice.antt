-- ===== src/Controller/Stop/Choice.antt =====
-- `selectTerminationCandidates`: which engines it chooses.
use acestream_orchestrator.Prelude.{
  ℕ, zero, suc, ◌+◌, ◌≤◌, ◌<◌, ◌≡◌, refl, sym, ap, ◌∙◌, Bool, true, false, ◌&&◌, not, some, List,
  [], ◌∷◌, leb, ◌==◌, take, length, length-take_le, arith, Bool-cases, Option-cases, ◌⊎◌, AllOf,
  inl, inr, String, eq_iff,
}
use acestream_orchestrator.Prelude.Maps.{Map, lookup, insert, delete, lookup-insert, lookup-delete}
use acestream_orchestrator.State.{Engine, Store}
use acestream_orchestrator.State.Scaling.{clear_empty, empty_since}
use acestream_orchestrator.Controller.{Config}
use acestream_orchestrator.Controller.Stop.{
  is_kept, wait_grace, can_stop_engine, is_needed_leader, Scored, score_each, goes_before,
  insert_scored, sort, ids_of, select_termination_candidates,
}
use acestream_orchestrator.Controller.Stop.Grace.{
  at_times, is_kept-at_times, wait_grace-none, wait_grace-some,
}

-- Times from which the grace period has passed were there before.
IsOlder : Config → ℕ → Map ℕ → Map ℕ → Type 0
IsOlder cfg now times old =
    (id : String) (t : ℕ)
    → lookup id times ≡ some t
    → t + cfg.grace_period ≤ now
    → lookup id old ≡ some t

-- Nothing keeps the engine: no load, no floor, no balance and no grace period.
abbrev pub MayStop : Config → ℕ → String → Store → Type 0
MayStop cfg now id s =
    (is_kept cfg id s ≡ false)
    × (0 < cfg.grace_period
        → (t : ℕ) × (lookup id s.empty_at ≡ some t) × (t + cfg.grace_period ≤ now))

-- What a call of `canStopEngine` gives.
record IsAnswer (cfg : Config) (now : ℕ) (id : String) (s : Store) (r : Bool × Store) : Type 0 where
  unchanged : r.1 ≡ at_times r.1.empty_at s
  older : IsOlder cfg now r.1.empty_at s.empty_at
  stops : r.0 ≡ true → MayStop cfg now id s

cleared-IsOlder :
    (cfg : Config) (now : ℕ) (id : String) (s : Store)
    → IsOlder cfg now (delete id s.empty_at) s.empty_at
unfolding IsOlder
cleared-IsOlder cfg now id s other t e l =
    ground (arith, lookup-delete id other s.empty_at, e, eq_iff id other)

recorded-IsOlder :
    (cfg : Config) (now : ℕ) (id : String) (s : Store)
    → 0 < cfg.grace_period
    → IsOlder cfg now (insert id now s.empty_at) s.empty_at
unfolding IsOlder
recorded-IsOlder cfg now id s g other t e l =
    ground (arith, lookup-insert id other now s.empty_at, e, eq_iff id other)

cleared-IsAnswer :
    (cfg : Config) (now : ℕ) (id : String) (b : Bool) (s : Store)
    → (b ≡ true → MayStop cfg now id s)
    → IsAnswer cfg now id s (b, clear_empty id s)
unfolding clear_empty
cleared-IsAnswer cfg now id b s h = record {
  unchanged = refl;
  older = cleared-IsOlder cfg now id s;
  stops = h;
}

wait_grace-IsAnswer :
    (cfg : Config) (now : ℕ) (id : String) (s : Store)
    → is_kept cfg id s ≡ false
    → 0 < cfg.grace_period
    → IsAnswer cfg now id s (wait_grace cfg now id (empty_since id s) s)
wait_grace-IsAnswer cfg now id s k g = elim (Option-cases (lookup id s.empty_at)) [
  | inl new ↦ rw (wait_grace-none cfg now id s new) (record {
    unchanged = refl;
    older = recorded-IsOlder cfg now id s g;
    stops = λ e. ground (arith, e);
  })
  | inr (t, e) ↦
      rw (wait_grace-some cfg now t id s e) (elim (Bool-cases (leb (t + cfg.grace_period) now)) [
        | inl passed ↦
            rw passed (
              cleared-IsAnswer cfg now id true s (λ stop. (k, λ h. (t, e, ground (arith, passed)))))
        | inr waits ↦ rw waits (record {
          unchanged = refl;
          older = unfold IsOlder in (λ other t e l. e);
          stops = λ e. ground (arith, e);
        })
      ])
]

can_stop_engine-IsAnswer :
    (cfg : Config) (now : ℕ) (id : String) (s : Store)
    → IsAnswer cfg now id s (can_stop_engine cfg now false id s)
unfolding can_stop_engine
can_stop_engine-IsAnswer cfg now id s = elim (Bool-cases (is_kept cfg id s)) [
  | inl kept ↦ rw kept (cleared-IsAnswer cfg now id false s (λ e. ground (arith, e)))
  | inr free ↦ elim (Bool-cases (cfg.grace_period == 0)) [
    | inl none_set ↦
        rw (free, none_set)
          (cleared-IsAnswer cfg now id true s (λ e. (free, λ g. ground (arith, none_set, g))))
    | inr set ↦ rw (free, set) (wait_grace-IsAnswer cfg now id s free (ground (arith, set)))
  ]
]

-- An engine that may go, and that no other engine of its VPN node needs as a leader.
abbrev pub IsChoosable : Config → ℕ → Store → Engine → Type 0
IsChoosable cfg now s e = MayStop cfg now e.container_id s × (is_needed_leader e s ≡ false)

is_needed_leader-at_times :
    (times : Map ℕ) (e : Engine) (s : Store)
    → is_needed_leader e (at_times times s) ≡ is_needed_leader e s
unfolding is_needed_leader
is_needed_leader-at_times times e s = refl

-- What holds after a call held before it.
earlier-IsChoosable :
    (cfg : Config) (now : ℕ) (s next : Store) (e : Engine)
    → next ≡ at_times next.empty_at s
    → IsOlder cfg now next.empty_at s.empty_at
    → IsChoosable cfg now next e
    → IsChoosable cfg now s e
unfolding IsOlder
earlier-IsChoosable cfg now s next e unchanged older ((k, g), l) = (
  (
    sym (is_kept-at_times cfg e.container_id next.empty_at s)
        ∙ ap (is_kept cfg e.container_id) (sym unchanged)
        ∙ k,
    λ h. let (t, there, passed) = g h in (t, older e.container_id t there passed, passed),
  ),
  sym (is_needed_leader-at_times next.empty_at e s) ∙ ap (is_needed_leader e) (sym unchanged) ∙ l,
)

module _ {A : Type 0} {P Q : A → Type 0} where
  AllOf-map : ((x : A) → P x → Q x) → (xs : List A) → AllOf P xs → AllOf Q xs
  AllOf-map f [] h = tt
  AllOf-map f (x ∷ xs) h = (f x h.0, AllOf-map f xs h.1)

module _ (P : Scored → Type 0) where
  AllOf-take : (n : ℕ) (scored : List Scored) → AllOf P scored → AllOf P (take n scored)
  AllOf-take zero scored h = tt
  AllOf-take (suc n) [] h = tt
  AllOf-take (suc n) (a ∷ scored) h = (h.0, AllOf-take n scored h.1)

  AllOf-insert_scored :
      (a : Scored) (scored : List Scored) → P a → AllOf P scored → AllOf P (insert_scored a scored)
  unfolding insert_scored
  AllOf-insert_scored a [] p h = (p, tt)
  AllOf-insert_scored a (b ∷ scored) p h = elim (Bool-cases (goes_before b a)) [
    | inl after ↦ rw after (h.0, AllOf-insert_scored a scored p h.1)
    | inr before ↦ rw before (p, h)
  ]

  AllOf-sort : (scored : List Scored) → AllOf P scored → AllOf P (sort scored)
  unfolding sort
  AllOf-sort [] h = tt
  AllOf-sort (a ∷ scored) h = AllOf-insert_scored a (sort scored) h.0 (AllOf-sort scored h.1)

-- The engine is a member of the list.
abbrev pub Among : Engine → List Engine → Type 0
Among e [] = ⊥
Among e (x ∷ engines) = (e ≡ x) ⊎ Among e engines

-- A member of the list that may be chosen.
abbrev pub IsChoice : Config → ℕ → List Engine → Store → Engine → Type 0
IsChoice cfg now engines s e = Among e engines × IsChoosable cfg now s e

score_each-AllOf :
    (cfg : Config) (now : ℕ) (engines : List Engine) (s : Store)
    → AllOf (λ a. IsChoice cfg now engines s a.engine) (score_each cfg now engines s).0
unfolding score_each
score_each-AllOf cfg now [] s = tt
score_each-AllOf cfg now (e ∷ engines) s =
    let asked = can_stop_engine cfg now false e.container_id s in
    let answer = can_stop_engine-IsAnswer cfg now e.container_id s in
    let rest : AllOf (λ a. IsChoice cfg now (e ∷ engines) s a.engine)
        (score_each cfg now engines asked.1).0 =
      AllOf-map
        (λ a h. (
          inr h.0,
          earlier-IsChoosable cfg now s asked.1 a.engine answer.unchanged answer.older h.1,
        ))
        (score_each cfg now engines asked.1).0 (score_each-AllOf cfg now engines asked.1) in
    elim (Bool-cases (asked.0 && not (is_needed_leader e asked.1))) [
      | inl chosen ↦ rw chosen (
        (
          inl refl,
          (
            answer.stops (ground (arith, chosen)),
            sym (is_needed_leader-at_times asked.1.empty_at e s)
                ∙ ap (is_needed_leader e) (sym answer.unchanged)
                ∙ ground (arith, chosen),
          ),
        ),
        rest,
      )
      | inr left ↦ rw left rest
    ]

-- The ID of a member of the list that may be chosen.
abbrev pub IsChoosableId : Config → ℕ → List Engine → Store → String → Type 0
IsChoosableId cfg now engines s id =
    (e : Engine) × (e.container_id ≡ id) × IsChoice cfg now engines s e

ids_of-AllOf :
    (cfg : Config) (now : ℕ) (engines : List Engine) (s : Store) (scored : List Scored)
    → AllOf (λ a. IsChoice cfg now engines s a.engine) scored
    → AllOf (IsChoosableId cfg now engines s) (ids_of scored)
ids_of-AllOf cfg now engines s [] h = tt
ids_of-AllOf cfg now engines s (a ∷ scored) h =
    ((a.engine, refl, h.0), ids_of-AllOf cfg now engines s scored h.1)

length-ids_of : (scored : List Scored) → length (ids_of scored) ≡ length scored
length-ids_of [] = refl
length-ids_of (a ∷ scored) = ap suc (length-ids_of scored)

-- The engines chosen to go are members of the list that is given, and at most as many as asked for.
-- In the store before the choice, none of them has a stream or a reservation, neither floor nor the balance of the VPN nodes keeps it,
-- its grace period, if there is one, has passed, and it is no leader of other active engines on its node.
pub select_termination_candidates-AllOf :
    (cfg : Config) (now : ℕ) (engines : List Engine) (n : ℕ) (s : Store)
    → let ids = (select_termination_candidates cfg now engines n s).0 in
      AllOf (IsChoosableId cfg now engines s) ids × (length ids ≤ n)
unfolding select_termination_candidates
select_termination_candidates-AllOf cfg now engines n s =
    let scored = (score_each cfg now engines s).0 in
    let choosable : Scored → Type 0 = λ a. IsChoice cfg now engines s a.engine in
    (
      ids_of-AllOf cfg now engines s (take n (sort scored)) (
          AllOf-take choosable n (sort scored)
            (AllOf-sort choosable scored (score_each-AllOf cfg now engines s))),
      rw (length-ids_of (take n (sort scored))) (length-take_le n (sort scored)),
    )
