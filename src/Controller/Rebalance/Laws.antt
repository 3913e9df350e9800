-- ===== src/Controller/Rebalance/Laws.antt =====
-- The limit of engines on a node, and what rebalancing leaves alone.
use acestream_orchestrator.Prelude.{
  ℕ, zero, suc, ◌+◌, ◌-◌, ◌≤◌, ◌<◌, ◌≡◌, ◌≢◌, refl, ◌∙◌, Bool, true, false, ◌||◌, not, Option, List,
  [], ◌∷◌, ltb, leb, take, length, length-take_le, arith, Bool-cases, Option-cases, inl, inr,
  String, eq_iff,
}
use acestream_orchestrator.Prelude.Maps.{lookup, lookup-insert}
use acestream_orchestrator.State.{Engine, Store, VpnNode, engines_by_vpn, mark_engine_draining}
use acestream_orchestrator.State.Select.{get_engine_total_load}
use acestream_orchestrator.Controller.Rebalance.{
  any_draining, any_settling, skip_density_rebalancing, seconds, select, insert_by_load,
  sort_by_load, drain_each, to_drain, already_draining, rebalance_node,
}

any_settling_ready :
    (now ready required : ℕ) (nodes : List VpnNode) (s : Store)
    → ltb ready required ≡ false
    → any_settling now ready required nodes s ≡ false
unfolding any_settling
any_settling_ready now ready required [] s h = refl
any_settling_ready now ready required (n ∷ nodes) s h =
    ground (arith, h, any_settling_ready now ready required nodes s h)

-- Rebalancing is skipped exactly when there are fewer ready VPN nodes than required or one of the
-- nodes drains. How long the nodes have been healthy and how long ago the last scale-up was never
-- matter.
pub skip_density_rebalancing_lem :
    (now : ℕ) (last_scale_up : Option ℕ) (ready required : ℕ) (nodes : List VpnNode) (s : Store)
    → skip_density_rebalancing now last_scale_up ready required nodes s
      ≡ (ltb ready required || any_draining nodes s)
unfolding skip_density_rebalancing
skip_density_rebalancing_lem now last_scale_up ready required nodes s =
    elim (Bool-cases (ltb ready required)) [
      | inl few ↦ ground (arith, few)
      | inr enough ↦ ground (arith, enough, any_settling_ready now ready required nodes s enough)
    ]

-- No engine of the list that may drain has this ID.
abbrev pub Spares : String → List Engine → Type 0
Spares id [] = Unit {0}
Spares id (e ∷ engines) = (e.container_id ≢ id) × Spares id engines

-- The followers of the list do not have this ID.
abbrev pub LeaderOnly : String → List Engine → Type 0
LeaderOnly id [] = Unit {0}
LeaderOnly id (e ∷ engines) = (e.forwarded ≡ false → e.container_id ≢ id) × LeaderOnly id engines

mark_engine_draining-engines :
    (id other reason : String) (s : Store)
    → other ≢ id
    → lookup id (mark_engine_draining other reason s).1.engines ≡ lookup id s.engines
unfolding mark_engine_draining
mark_engine_draining-engines id other reason s n = elim (Option-cases (lookup other s.engines)) [
  | inl gone ↦ rw (gone, mark_engine_draining) refl
  | inr (e, there) ↦
      rw (there, mark_engine_draining)
        (elim (Bool-cases e.draining) [
          | inl already ↦ rw already refl
          | inr not_yet ↦ rw not_yet (
              lookup-insert other id (record e { draining = true; drain_reason = reason }) s.engines
              ∙ ground (arith, n, eq_iff other id))
        ])
]

drain_each-engines :
    (id reason : String) (engines : List Engine) (s : Store)
    → Spares id engines
    → lookup id (drain_each reason engines s).engines ≡ lookup id s.engines
unfolding drain_each
drain_each-engines id reason [] s h = refl
drain_each-engines id reason (e ∷ engines) s h =
    drain_each-engines id reason engines (mark_engine_draining e.container_id reason s).1 h.1
    ∙ mark_engine_draining-engines id e.container_id reason s h.0

Spares-take :
    (id : String) (n : ℕ) (engines : List Engine) → Spares id engines → Spares id (take n engines)
Spares-take id zero engines h = tt
Spares-take id (suc n) [] h = tt
Spares-take id (suc n) (e ∷ engines) h = (h.0, Spares-take id n engines h.1)

Spares-select :
    (id : String) (test : Engine → Bool) (engines : List Engine)
    → Spares id engines
    → Spares id (select test engines)
unfolding select
Spares-select id test [] h = tt
Spares-select id test (e ∷ engines) h = elim (Bool-cases (test e)) [
  | inl passes ↦ rw passes (h.0, Spares-select id test engines h.1)
  | inr fails ↦ rw fails (Spares-select id test engines h.1)
]

Spares-followers :
    (id : String) (engines : List Engine)
    → LeaderOnly id engines
    → Spares id (select (λ e. not e.forwarded) engines)
unfolding select
Spares-followers id [] h = tt
Spares-followers id (e ∷ engines) h = elim (Bool-cases e.forwarded) [
  | inl leads ↦ rw leads (Spares-followers id engines h.1)
  | inr follows ↦ rw follows (h.0 follows, Spares-followers id engines h.1)
]

Spares-insert_by_load :
    (id : String) (e : Engine) (engines : List Engine) (s : Store)
    → e.container_id ≢ id
    → Spares id engines
    → Spares id (insert_by_load e engines s)
unfolding insert_by_load
Spares-insert_by_load id e [] s n h = (n, tt)
Spares-insert_by_load id e (o ∷ engines) s n h =
    elim (Bool-cases
      (ltb (get_engine_total_load o.container_id s) (get_engine_total_load e.container_id s))) [
        | inl after ↦ rw after (h.0, Spares-insert_by_load id e engines s n h.1)
        | inr before ↦ rw before (n, h)
      ]

Spares-sort_by_load :
    (id : String) (engines : List Engine) (s : Store)
    → Spares id engines
    → Spares id (sort_by_load engines s)
unfolding sort_by_load
Spares-sort_by_load id [] s h = tt
Spares-sort_by_load id (e ∷ engines) s h =
    Spares-insert_by_load id e (sort_by_load engines s) s h.0 (Spares-sort_by_load id engines s h.1)

-- A node with more engines than the limit: at most so many are chosen to drain that the limit is
-- left, and an engine that is no follower of the node, so its leader too, is left as it is.
pub rebalance_node-engines :
    (now limit : ℕ) (supports : String → Bool) (nodes : List VpnNode) (vpn id : String)
    (vpn_engines : List Engine) (s : Store)
    → limit < length vpn_engines
    → LeaderOnly id vpn_engines
    → (length (to_drain now limit vpn_engines s) + limit ≤ length vpn_engines)
      × (lookup id (rebalance_node now limit supports nodes vpn vpn_engines s).engines
          ≡ lookup id s.engines)
unfolding rebalance_node to_drain
rebalance_node-engines now limit supports nodes vpn id vpn_engines s l h =
    let stable : Engine → Bool = λ e. ltb (e.first_seen + seconds 10) now in
    let followers = select (λ e. not e.forwarded) vpn_engines in
    let chosen = select stable (sort_by_load followers s) in
    let spared = Spares-take id (length vpn_engines - limit) chosen (
      Spares-select id stable (sort_by_load followers s)
        (Spares-sort_by_load id followers s (Spares-followers id vpn_engines h))) in
    (
      omega (arith, l, length-take_le (length vpn_engines - limit) chosen),
      elim (Bool-cases (leb (length vpn_engines) 1)) [
        | inl alone ↦ rw alone refl
        | inr several ↦ elim (Bool-cases (already_draining (engines_by_vpn vpn s.engines) s)) [
          | inl drains ↦ rw (several, over, drains) refl
          | inr none_drains ↦
              rw (several, over, none_drains)
                (drain_each-engines id "density_balanced" (take (length vpn_engines - limit) chosen)
                  s spared)
        ]
      ],
    )
  where
    over : ltb limit (length vpn_engines) ≡ true
    over = ground (arith, l)
