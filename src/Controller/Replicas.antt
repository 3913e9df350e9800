-- ===== src/Controller/Replicas.antt =====
-- What the autoscaler makes of the configuration: bounds, room for the streams, and kept demand.
use acestream_orchestrator.Prelude.{
  ℕ, ◌+◌, ◌-◌, ◌≤◌, ◌<◌, ◌≡◌, refl, ap, ◌∙◌, false, List, [], ◌∷◌, if◌then◌else◌, ltb, arith,
  Bool-cases, inl, inr,
}
use acestream_orchestrator.State.{Engine, Store, list_engines}
use acestream_orchestrator.State.Scaling.{
  set_desired_replicas, total_pending, set_lookahead_layer, reset_lookahead_layer,
}
use acestream_orchestrator.Controller.{
  Config, max, climbs, falls, running, load_list, num_near, min_load, look_ahead, clamp,
  compute_desired_replicas, protect, minimum_of, ensure_minimum,
}

look_ahead-ge :
    (threshold total desired : ℕ) (loads : List ℕ) (s : Store)
    → (desired ≤ (look_ahead threshold total desired loads s).0)
      × ((look_ahead threshold total desired loads s).0 ≤ max desired (total + 2))
unfolding look_ahead
look_ahead-ge threshold total desired [] s = (omega arith, ground arith)
look_ahead-ge threshold total desired (load ∷ loads) s = ground arith

-- What is desired changes neither the target kept in the store nor what is pending.
look_ahead-same :
    (threshold total desired : ℕ) (loads : List ℕ) (s : Store)
    → ((look_ahead threshold total desired loads s).1.desired_replicas ≡ s.desired_replicas)
      × (total_pending (look_ahead threshold total desired loads s).1 ≡ total_pending s)
unfolding look_ahead total_pending set_lookahead_layer reset_lookahead_layer
look_ahead-same threshold total desired [] s = (refl, refl)
look_ahead-same threshold total desired (load ∷ loads) s =
    let least = min_load load loads in
    elim (Bool-cases (ltb 0 (num_near threshold (load ∷ loads)))) [
      | inl near ↦ elim (Bool-cases (climbs s.lookahead_layer least)) [
        | inl up ↦ rw (near, up) (refl, refl)
        | inr same ↦ rw (near, same) (refl, refl)
      ]
      | inr far ↦ elim (Bool-cases (falls s.lookahead_layer least)) [
        | inl down ↦ rw (far, down) (refl, refl)
        | inr same ↦ rw (far, same) (refl, refl)
      ]
    ]

clamp_monotone : (cfg : Config) (a b : ℕ) → a ≤ b → clamp cfg a ≤ clamp cfg b
clamp_monotone cfg a b h = ground arith

-- `computeDesiredReplicas`: the number of engines in use and of free ones to keep ready, or if the
-- lookahead asks for it a greater one, at most two more than now run; all within the configured
-- minimum and maximum.
pub compute_desired_replicas_bounds :
    (cfg : Config) (total free : ℕ) (engines : List Engine) (s : Store)
    → let desired = (compute_desired_replicas cfg total free engines s).0 in
      let needed = total - free + cfg.min_free_replicas in
      (clamp cfg needed ≤ desired) × (desired ≤ clamp cfg (max needed (total + 2)))
unfolding compute_desired_replicas
compute_desired_replicas_bounds cfg total free engines s =
    let needed = total - free + cfg.min_free_replicas in
    let ahead = look_ahead (cfg.max_streams_per_engine - 1) total needed (load_list engines s) s in
    let within =
      look_ahead-ge (cfg.max_streams_per_engine - 1) total needed (load_list engines s) s in
    (
      clamp_monotone cfg needed ahead.0 within.0,
      clamp_monotone cfg ahead.0 (max needed (total + 2)) within.1,
    )

desired_of-minimum_of :
    (cfg : Config) (e : Engine) (engines : List Engine) (s : Store)
    → let (total, free) = running (e ∷ engines) s in
      (minimum_of cfg (e ∷ engines) s).desired_replicas
      ≡ protect total
          (total_pending s)
          s.desired_replicas
          (compute_desired_replicas cfg total free (e ∷ engines) s).0
unfolding minimum_of compute_desired_replicas set_desired_replicas
desired_of-minimum_of cfg e engines s =
    let (total, free) = running (e ∷ engines) s in
    let loads = load_list (e ∷ engines) s in
    let needed = total - free + cfg.min_free_replicas in
    let same = look_ahead-same (cfg.max_streams_per_engine - 1) total needed loads s in
    rw (same.0, same.1) refl

ensure_minimum-auto :
    (cfg : Config) (e : Engine) (engines : List Engine) (s : Store)
    → cfg.manual_mode ≡ false
    → list_engines s.engines ≡ e ∷ engines
    → ensure_minimum cfg s ≡ minimum_of cfg (e ∷ engines) s
unfolding ensure_minimum
ensure_minimum-auto cfg e engines s m l =
    ap (λ b. if b then s else minimum_of cfg (list_engines s.engines) s) m
    ∙ ap (λ known. minimum_of cfg known s) l

-- A round of the autoscaler on a store with an engine, unless the mode is manual: the new target is
-- not below the minimum, nor above the maximum and the minimum unless the old target was; and a
-- target that covers the engines that run and those on their way still covers them.
pub ensure_minimum_bounds :
    (cfg : Config) (e : Engine) (engines : List Engine) (s : Store)
    → cfg.manual_mode ≡ false
    → list_engines s.engines ≡ e ∷ engines
    → let next = (ensure_minimum cfg s).desired_replicas in
      let covered = (running (e ∷ engines) s).0 + total_pending s in
      (cfg.min_replicas ≤ next)
      × (next ≤ max s.desired_replicas (max cfg.min_replicas cfg.max_replicas))
      × (0 < total_pending s → covered ≤ s.desired_replicas → covered ≤ next)
ensure_minimum_bounds cfg e engines s m l =
    let (total, free) = running (e ∷ engines) s in
    let desired = (compute_desired_replicas cfg total free (e ∷ engines) s).0 in
    let bounds = compute_desired_replicas_bounds cfg total free (e ∷ engines) s in
    rw
      (ap (λ next. next.desired_replicas) (ensure_minimum-auto cfg e engines s m l)
        ∙ desired_of-minimum_of cfg e engines s)
      (ground (arith, bounds), ground (arith, bounds), λ p c. ground (arith, bounds, p, c))
