-- ===== src/Health/Probes.antt =====
-- What a tracker knows of the probes of its engine.
use acestream_orchestrator.Prelude.{
  ℕ, ◌≡◌, refl, ap, ◌∙◌, Bool, true, false, ◌&&◌, Option, none, some, List, [], ◌∷◌, ◌++◌,
  if◌then◌else◌, leb, length, length-append, arith,
}
use acestream_orchestrator.Health.{
  HealthConfig, EngineHealthTracker, new_tracker, observe, or_now, is_past, should_be_replaced,
}

-- The probes of an engine in order, each with its time and whether it succeeded.
abbrev pub observe_each : List (ℕ × Bool) → EngineHealthTracker → EngineHealthTracker
observe_each [] t = t
observe_each ((now, ok) ∷ probes) t = observe_each probes (observe now ok t)

-- The times of the failures since the last success, behind those of `failed`.
abbrev pub failures_after : List ℕ → List (ℕ × Bool) → List ℕ
failures_after failed [] = failed
failures_after failed ((now, ok) ∷ probes) =
    failures_after (if ok then [] else failed ++ (now ∷ [])) probes

abbrev pub first : List ℕ → Option ℕ
first [] = none
first (now ∷ times) = some now

-- The tracker counts these failures and keeps the time of the first.
record Knows (failed : List ℕ) (t : EngineHealthTracker) : Type 0 where
  counted : t.consecutive_failures ≡ length failed
  started : t.first_failure_time ≡ first failed

or_now-first :
    (now : ℕ) (failed : List ℕ) → or_now now (first failed) ≡ first (failed ++ (now ∷ []))
or_now-first now [] = refl
or_now-first now (t ∷ failed) = refl

observe-Knows :
    (now : ℕ) (ok : Bool) (failed : List ℕ) (t : EngineHealthTracker)
    → Knows failed t
    → Knows (if ok then [] else failed ++ (now ∷ [])) (observe now ok t)
unfolding observe
observe-Knows now true failed t k = record { counted = refl; started = refl }
observe-Knows now false failed t k = record {
  counted = omega (arith, k.counted, length-append failed (now ∷ []));
  started = ap (or_now now) k.started ∙ or_now-first now failed;
}

observe_each-Knows :
    (probes : List (ℕ × Bool)) (failed : List ℕ) (t : EngineHealthTracker)
    → Knows failed t
    → Knows (failures_after failed probes) (observe_each probes t)
observe_each-Knows [] failed t k = k
observe_each-Knows ((now, ok) ∷ probes) failed t k =
    observe_each-Knows probes (if ok then [] else failed ++ (now ∷ [])) (observe now ok t)
      (observe-Knows now ok failed t k)

-- After any probes of a new engine it is to be replaced exactly if at least the threshold of them
-- failed since the last success, and the grace period has passed since the first of those.
pub should_be_replaced-observe_each :
    (now : ℕ) (cfg : HealthConfig) (probes : List (ℕ × Bool))
    → let failed = failures_after [] probes in
      should_be_replaced now cfg (observe_each probes new_tracker) ≡ (
        leb cfg.failure_threshold (length failed)
        && is_past now cfg.unhealthy_grace_period (first failed))
unfolding should_be_replaced
should_be_replaced-observe_each now cfg probes =
    let k = observe_each-Knows probes [] new_tracker (record { counted = refl; started = refl }) in
    rw (k.counted, k.started) refl
