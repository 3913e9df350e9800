-- ===== src/Provision/Execute/Laws.antt =====
-- What `ExecuteSpec` leaves reserved.
use acestream_orchestrator.Prelude.{ℕ, ◌≡◌, refl, inl, inr, subst, Option, String, sym, Bool-cases}
use acestream_orchestrator.Provision.{World, EngineSpec, EngineConfig}
use acestream_orchestrator.Provision.Schedule.{
  release_spec, Surroundings, Scheduled, scheduled, refused, never, schedule_new_engine,
}
use acestream_orchestrator.Provision.Schedule.Laws.{Balanced}
use acestream_orchestrator.Provision.Schedule.Release.{Accounted, schedule_new_engine-Accounted}
use acestream_orchestrator.Ports.Engine.Rollback.{Cursors}
use acestream_orchestrator.Provision.Execute.{
  Docker, no_client, no_image, not_created, not_started, Executed, running_as, stopped_by, Created,
  created, create_failed, execute_spec, ensure_image, start_created,
}

module _ {D : Type 0} (docker : Docker D) (scan : String → ℕ) (spec : EngineSpec)
    (canonical : String → String) (parse_int : String → Option ℕ) where
  -- The world after an execution: with a container that runs, and with no client to ask, everything
  -- is still reserved; after any other error it has been released.
  abbrev pub Settled : World → Executed × World × D → Type 0
  Settled w (running_as id, v, d) = v ≡ w
  Settled w (stopped_by no_client, v, d) = v ≡ w
  Settled w (stopped_by no_image, v, d) = v ≡ release_spec scan spec w
  Settled w (stopped_by (not_created error), v, d) = v ≡ release_spec scan spec w
  Settled w (stopped_by not_started, v, d) = v ≡ release_spec scan spec w

  start_created-Settled :
      (w : World) (out : Created × D) → Settled w (start_created docker scan spec w out)
  start_created-Settled w (create_failed error, d) = refl
  start_created-Settled w (created id, d) = elim (Bool-cases (docker.container_start id d).0) [
    | inl runs ↦ rw runs refl
    | inr fails ↦ rw fails refl
  ]

  execute_spec-Settled :
      (w : World) (d : D) → Settled w (execute_spec docker scan spec canonical parse_int w d)
  unfolding execute_spec
  execute_spec-Settled w d = elim (Bool-cases (docker.connect d).0) [
    | inr away ↦ rw away refl
    | inl connects ↦
        rw connects (elim (Bool-cases (ensure_image docker spec.image (docker.connect d).1).0) [
          | inr missing ↦ rw missing refl
          | inl there ↦ rw there (start_created-Settled w _)
        ])
  ]

-- A plan of the scheduler, carried out in the world `w`.
module _ {D : Type 0} (docker : Docker D) (scan : String → ℕ) (w : World) where
  -- All that a plan holds was given back, which leaves the places and slots of before.
  abbrev pub Released : EngineSpec → World → World → Type 0
  Released spec v u = (u ≡ release_spec scan spec v) × Balanced w.store u.store

  abbrev pub Ended : EngineSpec → World → Executed × World × D → Type 0
  Ended spec v (running_as id, u, d) = u ≡ v
  Ended spec v (stopped_by no_client, u, d) = u ≡ v
  Ended spec v (stopped_by no_image, u, d) = Released spec v u
  Ended spec v (stopped_by (not_created error), u, d) = Released spec v u
  Ended spec v (stopped_by not_started, u, d) = Released spec v u

  module _ (canonical : String → String) (parse_int : String → Option ℕ) where
    abbrev pub Carried : D → Scheduled × World → Type 0
    Carried d (scheduled spec, v) =
        Ended spec v (execute_spec docker scan spec canonical parse_int v d)
    Carried d (refused e, v) = Accounted scan w (refused e, v)
    Carried d (never, v) = Unit {0}

    Settled-Ended :
        (spec : EngineSpec) (v : World) (out : Executed × World × D)
        → Balanced w.store (release_spec scan spec v).store
        → Settled docker scan spec canonical parse_int v out
        → Ended spec v out
    Settled-Ended spec v (running_as id, u, d) b h = h
    Settled-Ended spec v (stopped_by no_client, u, d) b h = h
    Settled-Ended spec v (stopped_by no_image, u, d) b h =
        (h, subst (λ x. Balanced w.store x.store) (sym h) b)
    Settled-Ended spec v (stopped_by (not_created error), u, d) b h =
        (h, subst (λ x. Balanced w.store x.store) (sym h) b)
    Settled-Ended spec v (stopped_by not_started, u, d) b h =
        (h, subst (λ x. Balanced w.store x.store) (sym h) b)

    Accounted-Carried : (d : D) (out : Scheduled × World) → Accounted scan w out → Carried d out
    Accounted-Carried d (scheduled spec, v) a =
        Settled-Ended spec v (execute_spec docker scan spec canonical parse_int v d) a
          (execute_spec-Settled docker scan spec canonical parse_int v d)
    Accounted-Carried d (refused e, v) a = a
    Accounted-Carried d (never, v) a = tt

    -- Scheduling an engine and carrying the plan out. An error of the scheduler leaves the places
    -- reserved on VPN nodes, the forwarded slots, and the host and HTTPS ports in use as before. An
    -- error of the image, of the creation or of the start is followed by one `ReleaseSpec` of the
    -- plan and nothing else, after which the places and the slots are as before. An engine that
    -- runs keeps what was reserved for it, and so does an execution that gets no client for Docker.
    pub schedule_new_engine-Carried :
        (fuel : ℕ) (env : Surroundings) (cfg : EngineConfig) (d : D)
        → Cursors w.alloc
        → Carried d (schedule_new_engine fuel env cfg w)
    schedule_new_engine-Carried fuel env cfg d c =
        Accounted-Carried d (schedule_new_engine fuel env cfg w)
          (schedule_new_engine-Accounted scan env cfg w fuel c)
