-- ===== src/Provision/Nodes/Choice.antt =====
-- What `selectVPNContainer` chooses.
use acestream_orchestrator.Prelude.{
  ℕ, ◌<◌, ◌≡◌, ◌⊎◌, inl, inr, refl, sym, subst, false, Option, none, some, List, [], ◌∷◌, arith,
  ltb, length, String, str_eq, Bool-cases,
}
use acestream_orchestrator.Prelude.Int.{ℤ}
use acestream_orchestrator.State.{Store, VpnNode}
use acestream_orchestrator.State.Nodes.{list_vpn_nodes, list_not_ready_vpn_nodes}
use acestream_orchestrator.State.Vpn.{select_and_claim_vpn}
use acestream_orchestrator.State.Vpn.Laws.{AllNamed, AllFull, IsClaim, select_and_claim_vpn-IsClaim}
use acestream_orchestrator.Provision.{EngineConfig, ScheduleError, all_full}
use acestream_orchestrator.Provision.Nodes.{
  check_nodes, check_vpn_schedulable, ready_names, density_limit, Selection, on_node, rejected,
  chosen_or_full, overflow, select_ready, select_vpn_nodes, select_vpn_container,
}
use acestream_orchestrator.Provision.Nodes.Laws.{
  IsForRoom, IsPlaced, Offered, IsClaim-IsOn, IsClaim-AllFull, ready_names-Offered,
  ready_names-AllNamed, find_schedulable-Agrees, Agrees,
}

module _ (cfg : EngineConfig) (s : Store) (names : List String) where
  chosen_or_full-IsPlaced :
      (limit : ℕ) (out : (String × ℤ) × Store)
      → AllFull limit s names
      → length (list_not_ready_vpn_nodes s) ≡ 0
      → limit < cfg.max_engines_per_vpn
      → IsClaim cfg.max_engines_per_vpn s names out
      → IsPlaced cfg s limit
          (length (list_not_ready_vpn_nodes s))
          names
          (chosen_or_full (length names) (out.0.0, out.1))
  unfolding chosen_or_full
  chosen_or_full-IsPlaced limit ((best, load), t) full none_pending below c =
      elim (Bool-cases (str_eq best "")) [
        | inl blank ↦
            let (all, same) =
              IsClaim-AllFull cfg s cfg.max_engines_per_vpn names ((best, load), t) c blank in
            rw blank (same, full, inr (inr all))
        | inr named ↦ rw named (
            inr (
              full,
              none_pending,
              below,
              IsClaim-IsOn cfg s cfg.max_engines_per_vpn names ((best, load), t) c named,
            ))
      ]

  chosen_or_full-blank : (n : ℕ) → chosen_or_full n ("", s) ≡ (rejected (all_full n), s)
  unfolding chosen_or_full
  chosen_or_full-blank n = refl

  overflow-IsPlaced :
      (limit : ℕ)
      → AllNamed names
      → AllFull limit s names
      → IsPlaced cfg s limit
          (length (list_not_ready_vpn_nodes s))
          names
          (overflow cfg limit names s)
  unfolding overflow
  overflow-IsPlaced limit n full = elim (Bool-cases (ltb 0 (length (list_not_ready_vpn_nodes s)))) [
    | inl waits ↦ rw waits (refl, full, inl (ground (arith, waits)))
    | inr ready ↦ rw ready (elim (Bool-cases (ltb limit cfg.max_engines_per_vpn)) [
      | inr least ↦
          rw (least, chosen_or_full-blank (length names))
            (refl, full, inr (inl (ground (arith, least))))
      | inl below ↦ rw below (
          chosen_or_full-IsPlaced limit (select_and_claim_vpn names cfg.max_engines_per_vpn s) full
            (ground (arith, ready)) (ground (arith, below))
            (select_and_claim_vpn-IsClaim names cfg.max_engines_per_vpn s n))
    ])
  ]

  select_ready-IsPlaced :
      AllNamed names
      → IsPlaced cfg s
          (density_limit cfg s.desired_replicas)
          (length (list_not_ready_vpn_nodes s))
          names
          (select_ready cfg names s)
  unfolding select_ready
  select_ready-IsPlaced n =
      let limit = density_limit cfg s.desired_replicas in
      let out = select_and_claim_vpn names limit s in
      let c = select_and_claim_vpn-IsClaim names limit s n in
      elim (Bool-cases (str_eq out.0.0 "")) [
        | inl blank ↦
            let (full, same) = IsClaim-AllFull cfg s limit names out c blank in
            rw blank (
              subst
                (λ t.
                  IsPlaced cfg s limit (length (list_not_ready_vpn_nodes s)) names
                    (overflow cfg limit names t))
                (sym same) (overflow-IsPlaced limit n full))
        | inr named ↦ rw named (inl (IsClaim-IsOn cfg s limit names out c named))
      ]

module _ (normal lower : String → String) (now : ℕ) (cfg : EngineConfig) (s : Store) where
  -- What a selection is. An engine without a VPN: there is no node and the VPN is off. A node: it is
  -- in the store, takes engines, and is placed as `IsPlaced` says. An error: the store is as it was.
  abbrev pub IsSelection : List VpnNode → Selection × Store → Type 0
  IsSelection nodes (on_node vpn, t) =
      ((nodes ≡ []) × (vpn ≡ "") × (cfg.vpn_enabled ≡ false) × (t ≡ s))
      ⊎ Offered normal lower now s vpn nodes
        × IsPlaced cfg s (density_limit cfg s.desired_replicas)
            (length (list_not_ready_vpn_nodes s)) (ready_names normal lower now s nodes)
            (on_node vpn, t)
  IsSelection nodes (rejected e, t) = t ≡ s

  IsPlaced-IsSelection :
      (nodes : List VpnNode) (out : Selection × Store)
      → IsPlaced cfg s
          (density_limit cfg s.desired_replicas)
          (length (list_not_ready_vpn_nodes s))
          (ready_names normal lower now s nodes)
          out
      → IsSelection nodes out
  IsPlaced-IsSelection nodes (on_node vpn, t) (inl h) =
      inr (ready_names-Offered normal lower now vpn nodes s h.1, inl h)
  IsPlaced-IsSelection nodes (on_node vpn, t) (inr h) =
      inr (ready_names-Offered normal lower now vpn nodes s h.3.1, inr h)
  IsPlaced-IsSelection nodes (rejected e, t) h = h.0

  select_vpn_nodes-IsSelection :
      (nodes : List VpnNode) → IsSelection nodes (select_vpn_nodes normal lower now cfg nodes s)
  unfolding select_vpn_nodes
  select_vpn_nodes-IsSelection [] = elim (Bool-cases cfg.vpn_enabled) [
    | inl on ↦ rw on refl
    | inr off ↦ rw off (inl (refl, refl, refl, refl))
  ]
  select_vpn_nodes-IsSelection (n ∷ nodes) = go (ready_names normal lower now s (n ∷ nodes)) refl
    where
      go :
          (names : List String)
          → ready_names normal lower now s (n ∷ nodes) ≡ names
          → IsSelection (n ∷ nodes) (select_vpn_nodes normal lower now cfg (n ∷ nodes) s)
      go [] e = rw (e, select_vpn_nodes) refl
      go (name ∷ names) e =
          rw (e, select_vpn_nodes)
            (subst (λ ns. IsSelection (n ∷ nodes) (select_ready cfg ns s)) e
              (IsPlaced-IsSelection (n ∷ nodes)
                (select_ready cfg (ready_names normal lower now s (n ∷ nodes)) s)
                (select_ready-IsPlaced cfg s (ready_names normal lower now s (n ∷ nodes))
                  (ready_names-AllNamed normal lower now (n ∷ nodes) s))))

  -- The selection of a node, whatever is in the store: see `IsSelection`.
  pub select_vpn_container-IsSelection :
      IsSelection (list_vpn_nodes s.vpn_nodes) (select_vpn_container normal lower now cfg s)
  unfolding select_vpn_container
  select_vpn_container-IsSelection = select_vpn_nodes-IsSelection (list_vpn_nodes s.vpn_nodes)

  chosen_or_full-IsForRoom : (n : ℕ) (out : String × Store) → IsForRoom (chosen_or_full n out).0
  unfolding chosen_or_full
  chosen_or_full-IsForRoom n (chosen, t) = elim (Bool-cases (str_eq chosen "")) [
    | inl blank ↦ rw blank tt
    | inr named ↦ rw named tt
  ]

  select_ready-IsForRoom : (names : List String) → IsForRoom (select_ready cfg names s).0
  unfolding select_ready overflow
  select_ready-IsForRoom names =
      let limit = density_limit cfg s.desired_replicas in
      let out = select_and_claim_vpn names limit s in
      elim (Bool-cases (str_eq out.0.0 "")) [
        | inr named ↦ rw named tt
        | inl blank ↦
            rw blank (elim (Bool-cases (ltb 0 (length (list_not_ready_vpn_nodes out.1)))) [
              | inl waits ↦ rw waits tt
              | inr ready ↦ rw ready (chosen_or_full-IsForRoom (length names) _)
            ])
      ]

  -- The check and the selection over these nodes.
  abbrev pub Agree : Option ScheduleError → Selection × Store → Type 0
  Agree none out = IsForRoom out.0
  Agree (some e) out = out ≡ (rejected e, s)

  check_nodes-Agree :
      (nodes : List VpnNode)
      → Agree
          (check_nodes normal lower now s cfg.vpn_enabled nodes)
          (select_vpn_nodes normal lower now cfg nodes s)
  unfolding check_nodes select_vpn_nodes
  check_nodes-Agree [] = elim (Bool-cases cfg.vpn_enabled) [
    | inl on ↦ rw on refl
    | inr off ↦ rw off tt
  ]
  check_nodes-Agree (n ∷ nodes) =
      go (ready_names normal lower now s (n ∷ nodes)) refl
        (find_schedulable-Agrees normal lower now (n ∷ nodes) s)
    where
      go :
          (names : List String)
          → ready_names normal lower now s (n ∷ nodes) ≡ names
          → Agrees normal lower now (n ∷ nodes) s
          → Agree
              (check_nodes normal lower now s cfg.vpn_enabled (n ∷ nodes))
              (select_vpn_nodes normal lower now cfg (n ∷ nodes) s)
      go names e (inr h) = rw (h.0, h.1, check_nodes, select_vpn_nodes) refl
      go [] e (inl h) = absurd (h.1 e)
      go (name ∷ names) e (inl h) =
          rw (h.0, e, check_nodes, select_vpn_nodes) (select_ready-IsForRoom (name ∷ names))

  -- The preliminary check fails exactly when the selection would fail for want of a node, and then
  -- with the same error and the same reasons, the store as it was. When the check passes, the
  -- selection can fail only because all nodes are full.
  pub check_vpn_schedulable-Agree :
      Agree
        (check_vpn_schedulable normal lower now s cfg)
        (select_vpn_container normal lower now cfg s)
  unfolding check_vpn_schedulable select_vpn_container
  check_vpn_schedulable-Agree = check_nodes-Agree (list_vpn_nodes s.vpn_nodes)
