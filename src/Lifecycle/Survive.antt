-- ===== src/Lifecycle/Survive.antt =====
-- A round of the lifecycle manager leaves a VPN node alone that works and that Docker reports.
use acestream_orchestrator.Prelude.{
  ℕ, ◌≡◌, ◌≢◌, inl, inr, true, ◌&&◌, not, some, List, [], ◌∷◌, arith, AllOf, String, str_eq,
  Bool-cases,
}
use acestream_orchestrator.State.{Store, VpnNode}
use acestream_orchestrator.State.Nodes.{keep, list_vpn_nodes, list_not_ready_vpn_nodes}
use acestream_orchestrator.Leases.{total_count, available_count}
use acestream_orchestrator.Lifecycle.{
  LifecycleConfig, reconcile_scale, heal_each, heal_not_ready, node_needs_healing, is_lost,
}
use acestream_orchestrator.Lifecycle.Destroy.{NodeDocker, Fleet}
use acestream_orchestrator.Lifecycle.Kept.{
  Works, IsWorking, set_vpn_node_draining-IsWorking, list-Works,
}
use acestream_orchestrator.Lifecycle.Recorded.{
  Runs, Reports, Reports-observed, either-IsWorking, gc_draining-IsWorking,
  sync_managed_snapshot-IsWorking,
}
use acestream_orchestrator.Lifecycle.Sync.{
  Observed, on_store, sync_managed_snapshot, drain_or_collect, provision_each, reconcile,
}

module _ {D : Type 0} (lower trim : String → String) (docker : NodeDocker D) (cfg : LifecycleConfig)
    (now : ℕ) (name : String) where
  -- A node that is not ready is another one.
  keep-others :
      (nodes : List VpnNode)
      → AllOf (Works name) nodes
      → AllOf
          (λ n. n.container_name ≢ name)
          (keep
            (λ n. n.managed_dynamic && not n.healthy && not (str_eq n.lifecycle "draining"))
            nodes)
  unfolding keep
  keep-others [] w = tt
  keep-others (n ∷ nodes) w =
      elim (Bool-cases
        (n.managed_dynamic && not n.healthy && not (str_eq n.lifecycle "draining"))) [
          | inl kept ↦ rw kept (λ e. ground (arith, kept, (w.0 e).0), keep-others nodes w.1)
          | inr left ↦ rw left (keep-others nodes w.1)
        ]

  heal_each-IsWorking :
      (nodes : List VpnNode) (s : Store)
      → AllOf (λ n. n.container_name ≢ name) nodes
      → IsWorking name s
      → IsWorking name (heal_each now cfg.vpn_heal_grace_period nodes s)
  unfolding heal_each
  heal_each-IsWorking [] s others h = h
  heal_each-IsWorking (n ∷ nodes) s others h =
      elim (Bool-cases (node_needs_healing now cfg.vpn_heal_grace_period n)) [
        | inl sick ↦ rw sick (
            heal_each-IsWorking nodes _ others.1
              (set_vpn_node_draining-IsWorking name now n.container_name s others.0 h))
        | inr well ↦ rw well (heal_each-IsWorking nodes s others.1 h)
      ]

  heal_not_ready-IsWorking :
      (s : Store) → IsWorking name s → IsWorking name (heal_not_ready cfg now s)
  unfolding heal_not_ready list_not_ready_vpn_nodes
  heal_not_ready-IsWorking s h =
      heal_each-IsWorking (list_not_ready_vpn_nodes s) s
        (keep-others (list_vpn_nodes s.vpn_nodes) (list-Works name s.vpn_nodes h.entries)) h

  lost-other : (n : VpnNode) → Works name n → is_lost cfg now n ≡ true → n.container_name ≢ name
  unfolding is_lost
  lost-other n w lost e = ground (arith, lost, (w e).0)

  drain_or_collect-IsWorking :
      (nodes : List VpnNode) (f : Fleet D)
      → AllOf (Works name) nodes
      → IsWorking name f.store
      → IsWorking name (drain_or_collect lower trim docker cfg now nodes f).store
  unfolding drain_or_collect
  drain_or_collect-IsWorking [] f w h = h
  drain_or_collect-IsWorking (n ∷ nodes) f w h = drain_or_collect-IsWorking nodes _ w.1 (
      either-IsWorking lower trim docker cfg now name (str_eq n.lifecycle "draining") _ _
        (λ drains.
          gc_draining-IsWorking lower trim docker cfg now name n f
            (λ e. ground (arith, drains, (w.0 e).1)) h)
        (λ _.
          either-IsWorking lower trim docker cfg now name (is_lost cfg now n) _ f
            (λ lost.
              set_vpn_node_draining-IsWorking name now n.container_name f.store
                (lost-other n w.0 lost) h)
            (λ _. h)))

  -- A VPN node that is in the store, healthy and not draining, and that Docker reports, with no
  -- status but of a container that has not ended, is in the store, healthy and not draining after
  -- a round of the lifecycle manager that scales neither up nor down once the report is recorded.
  -- The round may heal, drain and remove any other nodes, and Docker may answer its calls in any
  -- way.
  pub reconcile-IsWorking :
      (provision_one : Fleet D → Fleet D) (observed : List Observed) (f : Fleet D)
      → AllOf (Runs name) observed
      → Reports name observed
      → (let synced = sync_managed_snapshot lower trim docker cfg now observed f in
          reconcile_scale cfg now
            (total_count synced.creds)
            (available_count synced.creds)
            synced.store
          ≡ (0, synced.store))
      → IsWorking name f.store
      → IsWorking name
          (reconcile lower trim docker cfg now true provision_one (some observed) f).store
  unfolding reconcile provision_each
  reconcile-IsWorking provision_one observed f r o steady h =
      let synced = sync_managed_snapshot lower trim docker cfg now observed f in
      let healed = on_store lower trim docker cfg now (heal_not_ready cfg now) synced in
      let k = heal_not_ready-IsWorking synced.store (
        sync_managed_snapshot-IsWorking lower trim docker cfg now name observed f r
          (Reports-observed name observed o) h) in
      rw steady (
        drain_or_collect-IsWorking (list_vpn_nodes healed.store.vpn_nodes) healed
          (list-Works name healed.store.vpn_nodes k.entries) k)
