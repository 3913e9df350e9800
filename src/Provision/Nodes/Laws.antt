-- ===== src/Provision/Nodes/Laws.antt =====
-- The preliminary check and the choice of a VPN node agree, and what a choice is.
use acestream_orchestrator.Prelude.{
  ℕ, ◌+◌, ◌≤◌, ◌<◌, ◌≡◌, ◌≢◌, ◌⊎◌, inl, inr, refl, ap, Bool, true, false, none, some, List, [], ◌∷◌,
  arith, if◌then◌else◌, String, str_eq, eq_iff, Bool-cases,
}
use acestream_orchestrator.Prelude.Int.{ℤ, pos}
use acestream_orchestrator.State.{Store, count, VpnNode}
use acestream_orchestrator.State.Vpn.{vpn_total, at_limit}
use acestream_orchestrator.State.Vpn.Laws.{AllNamed, Member, AllBeaten, AllFull, IsClaim}
use acestream_orchestrator.Provision.{
  EngineConfig, awaiting_node, no_ready_node, awaiting_pending, all_full, port_allocation_failed,
}
use acestream_orchestrator.Provision.Nodes.{
  is_node_ready, takes_engines, find_schedulable, ready_names, reject_reasons, Selection, on_node,
  rejected,
}

-- The choice fails for want of capacity, not for want of a node.
abbrev pub IsForRoom : Selection → Type 0
IsForRoom (on_node vpn) = Unit {0}
IsForRoom (rejected awaiting_node) = ⊥
IsForRoom (rejected (no_ready_node reasons)) = ⊥
IsForRoom (rejected (awaiting_pending n)) = Unit {0}
IsForRoom (rejected (all_full n)) = Unit {0}
IsForRoom (rejected port_allocation_failed) = ⊥

module _ (normal lower : String → String) (now : ℕ) where
  -- The loop of the check against those of the choice.
  abbrev pub Agrees : List VpnNode → Store → Type 0
  Agrees nodes s =
      ((find_schedulable normal lower now s nodes ≡ none)
        × (ready_names normal lower now s nodes ≢ []))
      ⊎ ((find_schedulable normal lower now s nodes
            ≡ some (reject_reasons normal lower now s nodes))
          × (ready_names normal lower now s nodes ≡ []))

  cons_named : (name : String) (names : List String) → (name ∷ names) ≢ []
  cons_named name names e = absurd (cc)

  takes_engines-managed :
      (n : VpnNode) (s : Store)
      → n.managed_dynamic ≡ false
      → takes_engines normal lower now s n ≡ true
      → ⊥
  unfolding takes_engines
  takes_engines-managed n s m t = ground arith

  takes_engines-named :
      (n : VpnNode) (s : Store) → takes_engines normal lower now s n ≡ true → n.container_name ≢ ""
  unfolding takes_engines is_node_ready
  takes_engines-named n s t e = ground (arith, (eq_iff n.container_name "").1 e)

  step-Agrees :
      (managed takes : Bool) (n : VpnNode) (nodes : List VpnNode) (s : Store)
      → n.managed_dynamic ≡ managed
      → takes_engines normal lower now s n ≡ takes
      → Agrees nodes s
      → Agrees (n ∷ nodes) s
  unfolding find_schedulable ready_names reject_reasons
  step-Agrees false false n nodes s m t rest = rw (t, m) rest
  step-Agrees false true n nodes s m t rest = absurd (takes_engines-managed n s m t)
  step-Agrees true true n nodes s m t rest =
      inl (
        rw (t, m) refl,
        rw (t) (cons_named n.container_name (ready_names normal lower now s nodes)),
      )
  step-Agrees true false n nodes s m t (inl rest) = inl (rw (t, m, rest.0) refl, rw (t) rest.1)
  step-Agrees true false n nodes s m t (inr rest) = inr (simp (t, m, rest.0), rw (t) rest.1)

  pub find_schedulable-Agrees : (nodes : List VpnNode) (s : Store) → Agrees nodes s
  unfolding find_schedulable ready_names reject_reasons
  find_schedulable-Agrees [] s = inr (refl, refl)
  find_schedulable-Agrees (n ∷ nodes) s =
      step-Agrees n.managed_dynamic (takes_engines normal lower now s n) n nodes s refl refl
        (find_schedulable-Agrees nodes s)

  -- The node with this name is among the nodes and takes engines.
  abbrev pub Offered : Store → String → List VpnNode → Type 0
  Offered s name [] = ⊥
  Offered s name (n ∷ nodes) =
      ((name ≡ n.container_name) × (takes_engines normal lower now s n ≡ true))
      ⊎ Offered s name nodes

  pub ready_names-Offered :
      (name : String) (nodes : List VpnNode) (s : Store)
      → Member name (ready_names normal lower now s nodes)
      → Offered s name nodes
  unfolding ready_names
  ready_names-Offered name [] s = λ h. h
  ready_names-Offered name (n ∷ nodes) s = elim (Bool-cases (takes_engines normal lower now s n)) [
    | inl t ↦ rw t (λ h. elim h [
      | inl here ↦ inl (here, refl)
      | inr later ↦ inr (ready_names-Offered name nodes s later)
    ])
    | inr f ↦ rw f (λ h. inr (ready_names-Offered name nodes s h))
  ]

  pub ready_names-AllNamed :
      (nodes : List VpnNode) (s : Store) → AllNamed (ready_names normal lower now s nodes)
  unfolding ready_names
  ready_names-AllNamed [] s = tt
  ready_names-AllNamed (n ∷ nodes) s = elim (Bool-cases (takes_engines normal lower now s n)) [
    | inl t ↦ rw t (takes_engines-named n s t, ready_names-AllNamed nodes s)
    | inr f ↦ rw f (ready_names-AllNamed nodes s)
  ]

module _ (cfg : EngineConfig) (s : Store) where
  abbrev pub IsOn : ℕ → List String → String → Store → Type 0
  IsOn limit names vpn t =
      (vpn ≢ "")
      × Member vpn names
      × (at_limit limit (vpn_total vpn s) ≡ false)
      × AllBeaten limit s (vpn, pos (vpn_total vpn s)) names
      × ((name : String)
          → count name t.vpn_pending
            ≡ count name s.vpn_pending + (if str_eq vpn name then 1 else 0))

  -- What a choice among the names is: a least loaded node below the preferred density; or, with all
  -- of them at that density and no node on its way, a least loaded one below the hard limit; or an
  -- error, which changes nothing, and for which every node is at its preferred density.
  abbrev pub IsPlaced : ℕ → ℕ → List String → Selection × Store → Type 0
  IsPlaced limit pending names (on_node vpn, t) =
      IsOn limit names vpn t
      ⊎ AllFull limit s names
        × (pending ≡ 0)
        × (limit < cfg.max_engines_per_vpn)
        × IsOn cfg.max_engines_per_vpn names vpn t
  IsPlaced limit pending names (rejected e, t) =
      (t ≡ s)
      × AllFull limit s names
      × ((0 < pending)
          ⊎ (cfg.max_engines_per_vpn ≤ limit)
          ⊎ AllFull cfg.max_engines_per_vpn s names)

  pub IsClaim-IsOn :
      (limit : ℕ) (names : List String) (out : (String × ℤ) × Store)
      → IsClaim limit s names out
      → str_eq out.0.0 "" ≡ false
      → IsOn limit names out.0.0 out.1
  IsClaim-IsOn limit names ((best, load), t) (inl none_left) f =
      absurd (ground (arith, (eq_iff best "").1 (ap (λ b. b.0) none_left.0)))
  IsClaim-IsOn limit names ((best, load), t) (inr h) f = (h.0, h.1, h.3, h.4, h.5)

  pub IsClaim-AllFull :
      (limit : ℕ) (names : List String) (out : (String × ℤ) × Store)
      → IsClaim limit s names out
      → str_eq out.0.0 "" ≡ true
      → AllFull limit s names × (out.1 ≡ s)
  IsClaim-AllFull limit names ((best, load), t) (inl none_left) e = (none_left.1, none_left.2)
  IsClaim-AllFull limit names ((best, load), t) (inr h) e = absurd (h.0 ((eq_iff best "").0 e))
