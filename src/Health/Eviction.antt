-- ===== src/Health/Eviction.antt =====
-- Which engine is evicted, and how often.
use acestream_orchestrator.Prelude.{
  ℕ, ◌≡◌, ◌≢◌, ◌⊎◌, refl, sym, ap, subst, ◌∙◌, Bool, true, false, Option, none, some, List, [], ◌∷◌,
  if◌then◌else◌, arith, Bool-cases, inl, inr, eq_iff, String,
}
use acestream_orchestrator.Prelude.Maps.{lookup, lookup-insert}
use acestream_orchestrator.State.{Engine}
use acestream_orchestrator.Health.{
  HealthConfig, EngineHealthTracker, HealthManager, is_cooling, is_candidate, should_be_replaced,
  find_candidate, change, mark_candidate, evict_unhealthy,
}

-- The tracker of the engine says that it is to be replaced, and no replacement of it has begun.
pub record IsDue (now : ℕ) (cfg : HealthConfig) (hm : HealthManager) (e : Engine) : Type 0 where
  pub tracker : EngineHealthTracker
  pub tracked : lookup e.container_id hm.trackers ≡ some tracker
  pub due : should_be_replaced now cfg tracker ≡ true
  pub unmarked : tracker.marked_for_replacement ≡ false

IsDue-from :
    (now : ℕ) (cfg : HealthConfig) (hm : HealthManager) (e : Engine)
    → is_candidate now cfg (lookup e.container_id hm.trackers) ≡ true
    → IsDue now cfg hm e
IsDue-from now cfg hm e h = go (lookup e.container_id hm.trackers) refl h
  where
    go :
        (o : Option EngineHealthTracker)
        → lookup e.container_id hm.trackers ≡ o
        → is_candidate now cfg o ≡ true
        → IsDue now cfg hm e
    go none l c = ground (arith, c)
    go (some t) l c = record {
      tracker = t;
      tracked = l;
      due = ground (arith, c);
      unmarked = ground (arith, c);
    }

find_candidate-IsDue :
    (now : ℕ) (cfg : HealthConfig) (engines : List Engine) (hm : HealthManager) (e : Engine)
    → find_candidate now cfg engines hm ≡ some e
    → IsDue now cfg hm e
unfolding find_candidate
find_candidate-IsDue now cfg [] hm e h = ground (arith, h)
find_candidate-IsDue now cfg (x ∷ engines) hm e h =
    elim (Bool-cases (is_candidate now cfg (lookup x.container_id hm.trackers))) [
      | inl here ↦ subst (IsDue now cfg hm) (ground (arith, h, here)) (IsDue-from now cfg hm x here)
      | inr later ↦ find_candidate-IsDue now cfg engines hm e (ground (arith, h, later))
    ]

mark_candidate-lookup :
    (e : Engine) (t : EngineHealthTracker) (hm : HealthManager)
    → lookup e.container_id hm.trackers ≡ some t
    → lookup e.container_id (mark_candidate (some e) hm).1.trackers
      ≡ some (record t { marked_for_replacement = true })
unfolding mark_candidate
mark_candidate-lookup e t hm l =
    rw (l, change)
      (lookup-insert e.container_id e.container_id (record t { marked_for_replacement = true })
          hm.trackers
        ∙ ground (arith, eq_iff e.container_id e.container_id))

evict_unhealthy-candidate :
    (now : ℕ) (cfg : HealthConfig) (engines : List Engine) (hm : HealthManager) (e : Engine)
    → (evict_unhealthy now cfg engines hm).0 ≡ some e
    → (is_cooling now cfg.replacement_cooldown hm.last_replacement_at ≡ false)
      × (find_candidate now cfg engines hm ≡ some e)
      × ((evict_unhealthy now cfg engines hm).1 ≡ (mark_candidate (some e) hm).1)
unfolding evict_unhealthy
evict_unhealthy-candidate now cfg engines hm e h =
    go (is_cooling now cfg.replacement_cooldown hm.last_replacement_at) refl
      (find_candidate now cfg engines hm) refl h
  where
    go :
        (b : Bool)
        → is_cooling now cfg.replacement_cooldown hm.last_replacement_at ≡ b
        → (o : Option Engine) → find_candidate now cfg engines hm ≡ o
        → (if b then (none, hm) else mark_candidate o hm).0 ≡ some e
        → (b ≡ false)
          × (o ≡ some e)
          × ((if b then (none, hm) else mark_candidate o hm).1 ≡ (mark_candidate (some e) hm).1)
    go true c o f r = ground (arith, r)
    go false c none f r = absurd (unfold mark_candidate in ground (arith, r))
    go false c (some x) f r =
        let same : x ≡ e = unfold mark_candidate in ground (arith, r) in
        (refl, ap some same, ap (λ y. (mark_candidate (some y) hm).1) same)

abbrev pub Among : Engine → List Engine → Type 0
Among e [] = ⊥
Among e (x ∷ engines) = (x ≡ e) ⊎ Among e engines

find_candidate-Among :
    (now : ℕ) (cfg : HealthConfig) (engines : List Engine) (hm : HealthManager) (e : Engine)
    → find_candidate now cfg engines hm ≡ some e
    → Among e engines
unfolding find_candidate
find_candidate-Among now cfg [] hm e h = ground (arith, h)
find_candidate-Among now cfg (x ∷ engines) hm e h =
    elim (Bool-cases (is_candidate now cfg (lookup x.container_id hm.trackers))) [
      | inl here ↦ inl (ground (arith, h, here))
      | inr later ↦ inr (find_candidate-Among now cfg engines hm e (ground (arith, h, later)))
    ]

-- The tracker of this ID is marked: a replacement has begun.
abbrev pub IsMarked : String → HealthManager → Type 0
IsMarked id hm =
    (t : EngineHealthTracker) × (lookup id hm.trackers ≡ some t) × (t.marked_for_replacement ≡ true)

evict_unhealthy-marked :
    (now : ℕ) (cfg : HealthConfig) (engines : List Engine) (hm : HealthManager) (e : Engine)
    (id : String)
    → IsMarked id hm
    → (evict_unhealthy now cfg engines hm).0 ≡ some e
    → e.container_id ≢ id
evict_unhealthy-marked now cfg engines hm e id (t, there, marked) h same =
    let (cool, chosen, after) = evict_unhealthy-candidate now cfg engines hm e h in
    let due = find_candidate-IsDue now cfg engines hm e chosen in
    let kept = ap (λ i. lookup i hm.trackers) same ∙ there in
    ground (arith, due.tracked, due.unmarked, kept, marked)

-- An engine whose eviction starts is one of those given, is to be replaced and was not marked for
-- it, and no cooldown runs. It is marked afterwards, and no call on a manager in which its ID is
-- marked, at any time and for any engines, starts an eviction of an engine with that ID.
pub evict_unhealthy-IsDue :
    (now : ℕ) (cfg : HealthConfig) (engines : List Engine) (hm : HealthManager) (e : Engine)
    → (evict_unhealthy now cfg engines hm).0 ≡ some e
    → (is_cooling now cfg.replacement_cooldown hm.last_replacement_at ≡ false)
      × Among e engines
      × IsDue now cfg hm e
      × IsMarked e.container_id (evict_unhealthy now cfg engines hm).1
      × ((later : ℕ) (others : List Engine) (next : HealthManager) (other : Engine)
          → IsMarked e.container_id next
          → (evict_unhealthy later cfg others next).0 ≡ some other
          → other.container_id ≢ e.container_id)
evict_unhealthy-IsDue now cfg engines hm e h =
    let (warm, found, left) = evict_unhealthy-candidate now cfg engines hm e h in
    let due = find_candidate-IsDue now cfg engines hm e found in
    (
      warm,
      find_candidate-Among now cfg engines hm e found,
      due,
      subst (IsMarked e.container_id) (sym left) (
        record (due.tracker) { marked_for_replacement = true },
        mark_candidate-lookup e due.tracker hm due.tracked,
        refl,
      ),
      λ later others next other m.
          evict_unhealthy-marked later cfg others next other e.container_id m,
    )
