-- ===== src/Provision/Schedule/Release.antt =====
-- `ReleaseSpec` undoes what `ScheduleNewEngine` has reserved, and an error of the scheduler leaves
-- nothing reserved.
use acestream_orchestrator.Prelude.{
  ℕ, ◌+◌, ◌≡◌, inl, inr, refl, ap, subst, ◌∙◌, Bool, true, false, not, arith, if◌then◌else◌, String,
  str_eq, eq_iff, Bool-cases,
}
use acestream_orchestrator.State.{Store, count}
use acestream_orchestrator.State.Nodes.{list_vpn_nodes}
use acestream_orchestrator.State.Vpn.{
  decr_vpn_pending, set_forwarded_pending, has_forwarded, is_forwarded_pending,
}
use acestream_orchestrator.State.Vpn.Forwarded.{is_free}
use acestream_orchestrator.State.Scaling.{get_next_engine_index}
use acestream_orchestrator.Ports.Engine.Rollback.{Cursors, allocate_engine_ports_failed}
use acestream_orchestrator.Ports.Engine.{
  PortsInfo, Result, ports, no_free_ports, never_returns, allocate_engine_ports,
}
use acestream_orchestrator.Provision.{EngineConfig, World, EngineSpec}
use acestream_orchestrator.Provision.Nodes.{Selection, on_node, rejected, select_vpn_container}
use acestream_orchestrator.Provision.Nodes.Choice.{IsSelection, select_vpn_container-IsSelection}
use acestream_orchestrator.Provision.Command.{generate_container_name}
use acestream_orchestrator.Provision.Schedule.{
  Surroundings, elect_forwarded_engine, plan, with_ports, with_node, request, schedule_new_engine,
  release_store, release_spec, Scheduled, scheduled, refused, never, spec_of,
}
use acestream_orchestrator.Provision.Schedule.Laws.{
  Kept, select_vpn_nodes-Kept, Balanced, counted, Taken, Kept-is_free, count-decrement,
  is_free-delete, Elected, elect_forwarded_engine-Elected,
}

module _ (vpn : String) (s : Store) (w : World) (out : (Bool × ℕ) × World) (t : Taken vpn s w.store)
    (e : Elected vpn w out) where
  after_count :
      (name : String)
      → count name out.1.store.vpn_pending ≡ count name s.vpn_pending + counted vpn name
  after_count name = ap (count name) e.pending ∙ t.pending name

  pending_blank :
      (name : String)
      → str_eq vpn "" ≡ true
      → count name out.1.store.vpn_pending ≡ count name s.vpn_pending
  pending_blank name blank = ground (arith, after_count name, blank)

  pending_named :
      (name : String)
      → str_eq vpn "" ≡ false
      → count name (decr_vpn_pending vpn out.1.store).vpn_pending ≡ count name s.vpn_pending
  unfolding decr_vpn_pending
  pending_named name named =
      ground (arith, after_count name, named, count-decrement vpn name out.1.store.vpn_pending)

  slots_lost : (other : String) → out.0.0 ≡ false → is_free other out.1.store ≡ is_free other s
  slots_lost other lost = e.slots other ∙ rw lost (Kept-is_free s w.store t.kept other)

  slots_won :
      (other : String)
      → out.0.0 ≡ true
      → is_free other (set_forwarded_pending vpn false (decr_vpn_pending vpn out.1.store))
        ≡ is_free other s
  unfolding decr_vpn_pending is_forwarded_pending
  slots_won other won =
      is_free-delete vpn other (decr_vpn_pending vpn out.1.store)
      ∙ elim (Bool-cases (str_eq vpn other)) [
        | inr away ↦ rw away (e.slots other ∙ rw (won, away) (Kept-is_free s w.store t.kept other))
        | inl here ↦ rw here (there ((eq_iff vpn other).0 here))
      ]
    where
      there : vpn ≡ other → not (has_forwarded other out.1.store.engines) ≡ is_free other s
      there h = ground (
        arith,
        ap (has_forwarded other) e.engines,
        subst (λ o. is_free o w.store ≡ true) h (e.won won).1,
        Kept-is_free s w.store t.kept other,
      )

  -- The reservation given back and, if the engine was elected, its slot too.
  pub release_elected :
      (spec : EngineSpec)
      → spec.vpn_container_id ≡ vpn
      → spec.forwarded ≡ out.0.0
      → Balanced s (release_store spec out.1.store)
  unfolding release_store set_forwarded_pending decr_vpn_pending is_forwarded_pending
  release_elected spec v f =
      rw (v, f)
        (elim (Bool-cases (str_eq vpn "")) [
          | inl blank ↦ rw blank (record {
            pending = λ name. pending_blank name blank;
            slots = λ other. elim (Bool-cases out.0.0) [
              | inl won ↦ absurd ((e.won won).0 ((eq_iff vpn "").0 blank))
              | inr lost ↦ slots_lost other lost
            ];
          })
          | inr named ↦ rw named (elim (Bool-cases out.0.0) [
            | inl won ↦ rw won (record {
              pending = λ name. pending_named name named;
              slots = λ other. slots_won other won;
            })
            | inr lost ↦ rw lost (record {
              pending = λ name. pending_named name named;
              slots = λ other. slots_lost other lost;
            })
          ])
        ])

-- What a call of the scheduler leaves. An engine that it plans: `ReleaseSpec` gives every place
-- and slot back. An error: all of them are as before, and so are the host and the HTTPS ports in
-- use. A search that never ends leaves nothing to speak of.
abbrev pub Accounted : (String → ℕ) → World → Scheduled × World → Type 0
Accounted scan w (scheduled spec, v) = Balanced w.store (release_spec scan spec v).store
Accounted scan w (refused e, v) =
    Balanced w.store v.store
    × ((q : ℕ)
        → (v.alloc.used_host q ≡ w.alloc.used_host q)
          × (v.alloc.used_https q ≡ w.alloc.used_https q))
Accounted scan w (never, v) = Unit {0}

-- The place that a selection has taken, given back.
returned :
    (vpn : String) (s t : Store)
    → Taken vpn s t
    → Balanced s (if not (str_eq vpn "") then decr_vpn_pending vpn t else t)
unfolding decr_vpn_pending is_forwarded_pending
returned vpn s t k = elim (Bool-cases (str_eq vpn "")) [
  | inl blank ↦ rw blank (record {
    pending = λ name. ground (arith, k.pending name, blank);
    slots = λ other. Kept-is_free s t k.kept other;
  })
  | inr named ↦ rw named (record {
    pending = λ name. ground (arith, k.pending name, named, count-decrement vpn name t.vpn_pending);
    slots = λ other. Kept-is_free s t k.kept other;
  })
]

-- The name of the container takes a number and nothing else.
named_after :
    (vpn hostname : String) (v : World) (out : (Bool × ℕ) × World)
    → Elected vpn v out
    → Elected vpn v (
      out.0,
      record (out.1) { store = (generate_container_name hostname "acestream" out.1.store).1 },
    )
unfolding generate_container_name get_next_engine_index is_forwarded_pending
named_after vpn hostname v out e = record {
  engines = e.engines;
  pending = e.pending;
  won = e.won;
  slots = e.slots;
}

module _ (scan : String → ℕ) (env : Surroundings) (cfg : EngineConfig) (w : World) where
  plan-Accounted :
      (info : PortsInfo) (vpn : String) (v : World)
      → Taken vpn w.store v.store
      → Accounted scan w (plan env cfg info vpn v)
  unfolding plan release_spec spec_of
  plan-Accounted info vpn v t =
      let out = elect_forwarded_engine env vpn v in
      let e = named_after vpn env.hostname v out (elect_forwarded_engine-Elected env vpn v) in
      release_elected vpn w.store v _ t e
        (spec_of env cfg info vpn out.0
          (generate_container_name env.hostname "acestream" out.1.store).0)
        refl refl

  with_ports-Accounted :
      (fuel : ℕ) (vpn : String) (s : Store)
      → Taken vpn w.store s
      → Cursors w.alloc
      → Accounted scan w
          (with_ports env cfg vpn s (allocate_engine_ports fuel (request cfg vpn) w.alloc))
  unfolding with_ports
  with_ports-Accounted fuel vpn s t c =
      go (allocate_engine_ports fuel (request cfg vpn) w.alloc).1 refl
    where
      go :
          (r : Result)
          → (allocate_engine_ports fuel (request cfg vpn) w.alloc).1 ≡ r
          → Accounted scan w (
              with_ports env cfg vpn s
                ((allocate_engine_ports fuel (request cfg vpn) w.alloc).0, r))
      go (ports info) e =
          plan-Accounted info vpn
            (record { store = s; alloc = (allocate_engine_ports fuel (request cfg vpn) w.alloc).0 })
            t
      go no_free_ports e = (
        returned vpn w.store s t,
        λ q. allocate_engine_ports_failed fuel (request cfg vpn) w.alloc q refl refl c e,
      )
      go never_returns e = tt

  with_node-Accounted :
      (fuel : ℕ) (out : Selection × Store)
      → Kept w.store out.1
      → IsSelection env.normal env.lower env.now cfg w.store (list_vpn_nodes w.store.vpn_nodes) out
      → Cursors w.alloc
      → Accounted scan w (with_node fuel env cfg w.alloc out)
  unfolding with_node
  with_node-Accounted fuel (rejected e, s) k sel c = (
    record {
      pending = λ name. ap (λ t. count name t.vpn_pending) sel;
      slots = λ vpn. Kept-is_free w.store s k vpn;
    },
    λ q. (refl, refl),
  )
  with_node-Accounted fuel (on_node vpn, s) k (inl h) c =
      with_ports-Accounted fuel vpn s
        (record {
          kept = k;
          pending =
              λ name. ground (arith, (eq_iff vpn "").1 h.1, ap (λ t. count name t.vpn_pending) h.3);
        })
        c
  with_node-Accounted fuel (on_node vpn, s) k (inr (offered, inl h)) c =
      with_ports-Accounted fuel vpn s
        (record { kept = k; pending = λ name. ground (arith, eq_iff vpn "", h.0, h.4 name) }) c
  with_node-Accounted fuel (on_node vpn, s) k (inr (offered, inr h)) c =
      with_ports-Accounted fuel vpn s
        (record { kept = k; pending = λ name. ground (arith, eq_iff vpn "", h.3.0, h.3.4 name) }) c

  -- A call of `ScheduleNewEngine` loses nothing: see `Accounted`.
  pub schedule_new_engine-Accounted :
      (fuel : ℕ) → Cursors w.alloc → Accounted scan w (schedule_new_engine fuel env cfg w)
  unfolding schedule_new_engine select_vpn_container
  schedule_new_engine-Accounted fuel c =
      with_node-Accounted fuel (select_vpn_container env.normal env.lower env.now cfg w.store)
        (select_vpn_nodes-Kept env.normal env.lower env.now cfg (list_vpn_nodes w.store.vpn_nodes)
          w.store)
        (select_vpn_container-IsSelection env.normal env.lower env.now cfg w.store) c
