-- ===== src/Lifecycle/Recorded.antt =====
-- What Docker reports, and what recording it leaves of a VPN node that works.
use acestream_orchestrator.Prelude.{
  ℕ, ◌+◌, ◌≡◌, ◌≢◌, ◌⊎◌, inl, inr, refl, sym, ap, subst, ◌∙◌, Bool, true, false, ◌||◌, ◌&&◌, not,
  Option, none, some, List, [], ◌∷◌, arith, if◌then◌else◌, leb, AllOf, String, str_eq, eq_iff,
  Bool-cases,
}
use acestream_orchestrator.Prelude.Maps.{lookup}
use acestream_orchestrator.State.{
  Engine, Store, VpnNode, is_some, engines_by_vpn, mark_engine_draining,
}
use acestream_orchestrator.State.Nodes.{
  list_dynamic_vpn_nodes, get_vpn_node, set_vpn_node_draining, set_vpn_node_healthy,
  remove_vpn_node,
}
use acestream_orchestrator.Lifecycle.{LifecycleConfig, drain_engines, all_idle, is_over}
use acestream_orchestrator.Lifecycle.Destroy.{
  NodeDocker, Fleet, DestroyError, is_external, destroy_node,
}
use acestream_orchestrator.Lifecycle.Retry.{IsDestroyed, destroy_node-IsDestroyed}
use acestream_orchestrator.Lifecycle.Kept.{
  IsWorking, set_vpn_node_healthy-IsWorking, set_vpn_node_status-IsWorking,
  set_vpn_node_draining-IsWorking, remove_vpn_node-IsWorking, upsert_vpn_node-IsWorking,
  same-IsWorking,
}
use acestream_orchestrator.Lifecycle.Sync.{
  Observed, destroy_vpn, gc_draining, recover_stopped_node, sync_known, sync_observed, sync_gone,
  sync_managed_snapshot, is_observed, is_terminal_node_status, stopped_node, node_of,
}

drain_engines_nodes :
    (engines : List Engine) (s : Store) → (drain_engines engines s).vpn_nodes ≡ s.vpn_nodes
unfolding drain_engines mark_engine_draining
drain_engines_nodes [] s = refl
drain_engines_nodes (e ∷ engines) s =
    drain_engines_nodes engines (mark_engine_draining e.container_id "vpn_draining" s).1
    ∙ ground arith

-- Docker reports the container of this name, and not as one that has ended.
abbrev pub Runs : String → Observed → Type 0
Runs name n =
    n.container_name ≡ name → (n.status ≢ "stopped") × (n.status ≢ "exited") × (n.status ≢ "dead")

-- Docker reports a container of this name.
abbrev pub Reports : String → List Observed → Type 0
Reports name [] = ⊥
Reports name (n ∷ nodes) = (n.container_name ≡ name) ⊎ Reports name nodes

pub Reports-observed :
    (name : String) (nodes : List Observed) → Reports name nodes → is_observed name nodes ≡ true
unfolding is_observed
Reports-observed name [] r = absurd (r)
Reports-observed name (n ∷ nodes) (inl here) = ground (arith, (eq_iff n.container_name name).1 here)
Reports-observed name (n ∷ nodes) (inr later) = ground (arith, Reports-observed name nodes later)

module _ {D : Type 0} (lower trim : String → String) (docker : NodeDocker D) (cfg : LifecycleConfig)
    (now : ℕ) (name : String) where
  -- One of two fleets.
  pub either-IsWorking :
      (b : Bool) (f g : Fleet D)
      → (b ≡ true → IsWorking name f.store)
      → (b ≡ false → IsWorking name g.store)
      → IsWorking name (if b then f else g).store
  either-IsWorking true f g h k = h refl
  either-IsWorking false f g h k = k refl

  IsDestroyed-IsWorking :
      (key : String) (f : Fleet D) (out : Option DestroyError × Fleet D)
      → IsDestroyed lower trim docker cfg now key f out
      → key ≢ name
      → IsWorking name f.store
      → IsWorking name out.1.store
  IsDestroyed-IsWorking key f (none, g) d other h =
      let drained = (set_vpn_node_draining now key f.store).1 in
      same-IsWorking name (remove_vpn_node key drained).1 g.store d.0.nodes (
        remove_vpn_node-IsWorking name key drained other
          (set_vpn_node_draining-IsWorking name now key f.store other h))
  IsDestroyed-IsWorking key f (some e, g) d other h = elim d.store [
    | inl kept ↦ subst (IsWorking name) (sym kept) h
    | inr drains ↦
        subst (IsWorking name) (sym drains)
          (set_vpn_node_draining-IsWorking name now key f.store other h)
  ]

  destroy_node-IsWorking :
      (key : String) (f : Fleet D)
      → key ≢ name
      → IsWorking name f.store
      → IsWorking name (destroy_node lower trim docker cfg now key f).1.store
  destroy_node-IsWorking key f =
      IsDestroyed-IsWorking key f (destroy_node lower trim docker cfg now key f)
        (destroy_node-IsDestroyed lower trim docker cfg now key f)

  pub gc_draining-IsWorking :
      (n : VpnNode) (f : Fleet D)
      → n.container_name ≢ name
      → IsWorking name f.store
      → IsWorking name (gc_draining lower trim docker cfg now n f).store
  unfolding gc_draining destroy_vpn
  gc_draining-IsWorking n f other h =
      let engines = engines_by_vpn n.container_name f.store.engines in
      let drained = record f { store = drain_engines engines f.store } in
      let k = same-IsWorking name f.store drained.store (drain_engines_nodes engines f.store) h in
      either-IsWorking
        (not (all_idle engines f.store)
          && not (is_over now cfg.vpn_draining_hard_timeout n.draining_since))
        drained _ (λ _. k)
        (λ _.
          either-IsWorking (not n.managed_dynamic) drained _ (λ _. k)
            (λ _. destroy_node-IsWorking n.container_name drained other k))

  recover_stopped_node-IsWorking :
      (key : String) (f : Fleet D)
      → key ≢ name
      → IsWorking name f.store
      → IsWorking name (recover_stopped_node lower trim docker cfg now key f).store
  unfolding recover_stopped_node
  recover_stopped_node-IsWorking key f other h =
      let sick = set_vpn_node_healthy now key false f.store in
      let k =
        set_vpn_node_draining-IsWorking name now key sick other
          (set_vpn_node_healthy-IsWorking name now key false f.store other h) in
      either-IsWorking (str_eq key "" || is_external (get_vpn_node key f.store)) f _ (λ _. h)
        (λ _. destroy_node-IsWorking key _ other k)

  Runs-known :
      (n : Observed) (f : Fleet D)
      → n.container_name ≡ name
      → Runs name n
      → IsWorking name f.store
      → (is_terminal_node_status n.status ≡ false)
        × (is_some (get_vpn_node n.container_name f.store) ≡ true)
  unfolding get_vpn_node
  Runs-known n f e r h = (
    ground
        (arith, r e, eq_iff n.status "stopped", eq_iff n.status "exited", eq_iff n.status "dead"),
    subst (λ k. is_some (lookup k f.store.vpn_nodes) ≡ true) (sym e) h.there,
  )

  sync_known-IsWorking :
      (n : Observed) (f : Fleet D)
      → Runs name n
      → IsWorking name f.store
      → IsWorking name (sync_known lower trim docker cfg now n f).store
  unfolding sync_known
  sync_known-IsWorking n f r h =
      let known = is_some (get_vpn_node n.container_name f.store) in
      let status = set_vpn_node_status-IsWorking name now n.container_name n.status f.store h in
      elim (Bool-cases (str_eq n.container_name name)) [
        | inl it ↦
            let (running, here) = Runs-known n f ((eq_iff n.container_name name).0 it) r h in
            rw (running, here) status
        | inr another ↦
            let other : n.container_name ≢ name =
              λ e. ground (arith, another, (eq_iff n.container_name name).1 e) in
            either-IsWorking (is_terminal_node_status n.status) _ _
              (λ _. recover_stopped_node-IsWorking n.container_name _ other (
                either-IsWorking known f _ (λ _. h)
                  (λ _. upsert_vpn_node-IsWorking name now (stopped_node n) f.store other h)))
              (λ _.
                either-IsWorking known _ _ (λ _. status)
                  (λ _.
                    either-IsWorking (not (str_eq n.status "running")) f _ (λ _. h)
                      (λ _. upsert_vpn_node-IsWorking name now (node_of n now) f.store other h)))
      ]

  sync_observed-IsWorking :
      (nodes : List Observed) (f : Fleet D)
      → AllOf (Runs name) nodes
      → IsWorking name f.store
      → IsWorking name (sync_observed lower trim docker cfg now nodes f).store
  unfolding sync_observed
  sync_observed-IsWorking [] f r h = h
  sync_observed-IsWorking (n ∷ nodes) f r h = sync_observed-IsWorking nodes _ r.1 (
      either-IsWorking (str_eq n.container_name "") f _ (λ _. h)
        (λ _.
          either-IsWorking (is_external (get_vpn_node n.container_name f.store)) f _ (λ _. h)
            (λ _. sync_known-IsWorking n f r.0 h)))

  sync_gone-IsWorking :
      (observed : List Observed) (nodes : List VpnNode) (f : Fleet D)
      → is_observed name observed ≡ true
      → IsWorking name f.store
      → IsWorking name (sync_gone lower trim docker cfg now observed nodes f).store
  unfolding sync_gone
  sync_gone-IsWorking observed [] f o h = h
  sync_gone-IsWorking observed (n ∷ nodes) f o h =
      let gone =
        not (is_observed n.container_name observed) && leb (n.first_seen + 30000000000) now in
      let other : gone ≡ true → n.container_name ≢ name =
        λ g e. ground (arith, g, o, ap (λ k. is_observed k observed) e) in
      let sick = set_vpn_node_healthy now n.container_name false f.store in
      sync_gone-IsWorking observed nodes _ o (
        either-IsWorking gone _ f
          (λ g. recover_stopped_node-IsWorking n.container_name _ (other g) (
            set_vpn_node_status-IsWorking name now n.container_name "down" sick
              (set_vpn_node_healthy-IsWorking name now n.container_name false f.store (other g) h)))
          (λ _. h))

  pub sync_managed_snapshot-IsWorking :
      (observed : List Observed) (f : Fleet D)
      → AllOf (Runs name) observed
      → is_observed name observed ≡ true
      → IsWorking name f.store
      → IsWorking name (sync_managed_snapshot lower trim docker cfg now observed f).store
  unfolding sync_managed_snapshot
  sync_managed_snapshot-IsWorking observed f r o h =
      let synced = sync_observed lower trim docker cfg now observed f in
      sync_gone-IsWorking observed (list_dynamic_vpn_nodes synced.store) synced o
        (sync_observed-IsWorking observed f r h)
