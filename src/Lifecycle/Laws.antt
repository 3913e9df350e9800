-- ===== src/Lifecycle/Laws.antt =====
-- How far `reconcileScale` goes.
use acestream_orchestrator.Prelude.{
  ℕ, ◌+◌, ◌-◌, ◌≤◌, ◌<◌, ◌≡◌, ◌⊎◌, inl, inr, refl, sym, ◌∙◌, ◌||◌, Option, none, some, List, [],
  ◌∷◌, arith, ltb, leb, ◌==◌, take, length, length-take_le, String, str_eq, Bool-cases,
}
use acestream_orchestrator.Prelude.Maps.{Map, lookup, insert}
use acestream_orchestrator.State.{Store, VpnNode}
use acestream_orchestrator.State.Nodes.{
  keep, list_vpn_nodes, list_dynamic_vpn_nodes, count_active, count_active_dynamic_vpn_nodes,
  set_vpn_node_draining,
}
use acestream_orchestrator.Lifecycle.{
  LifecycleConfig, desired_vpns, is_settled, ScoredNode, score_all, by_disruption, drain_nodes,
  scale_down_idle, steer, reconcile_scale,
}

-- A drain takes one node at most out of those that count.
count_active-insert :
    (name : String) (n : VpnNode) (nodes : Map VpnNode)
    → lookup name nodes ≡ some n
    → (now : ℕ)
    → count_active (list_vpn_nodes nodes)
      ≤ count_active (
          list_vpn_nodes
            (insert name (record n { lifecycle = "draining"; draining_since = some now }) nodes))
        + 1
unfolding count_active list_vpn_nodes insert lookup
count_active-insert name n [] e now = absurd (cc)
count_active-insert name n ((other, m) ∷ nodes) e now = elim (Bool-cases (str_eq other name)) [
  | inl here ↦ rw here (ground arith)
  | inr away ↦
      rw away (ground (arith, count_active-insert name n nodes (sym (rw away refl) ∙ e) now))
]

drain_one :
    (now : ℕ) (name : String) (s : Store)
    → count_active_dynamic_vpn_nodes s
      ≤ count_active_dynamic_vpn_nodes (set_vpn_node_draining now name s).1 + 1
unfolding count_active_dynamic_vpn_nodes set_vpn_node_draining
drain_one now name s = go (lookup name s.vpn_nodes) refl
  where
    go :
        (o : Option VpnNode)
        → lookup name s.vpn_nodes ≡ o
        → count_active_dynamic_vpn_nodes s
          ≤ count_active_dynamic_vpn_nodes (set_vpn_node_draining now name s).1 + 1
    go none e = rw (e, set_vpn_node_draining) (omega arith)
    go (some n) e =
        rw (e, set_vpn_node_draining)
          (elim (Bool-cases (str_eq n.lifecycle "draining")) [
            | inl drains ↦ rw drains (omega arith)
            | inr runs ↦ rw runs (count_active-insert name n s.vpn_nodes e now)
          ])

drain_nodes_count :
    (now : ℕ) (scored : List ScoredNode) (s : Store)
    → count_active_dynamic_vpn_nodes s
      ≤ count_active_dynamic_vpn_nodes (drain_nodes now scored s) + length scored
unfolding drain_nodes
drain_nodes_count now [] s = omega arith
drain_nodes_count now (a ∷ rest) s =
    let t = (set_vpn_node_draining now a.node.container_name s).1 in
    omega (arith, drain_one now a.node.container_name s, drain_nodes_count now rest t)

-- The settled nodes are among those that count.
settled_count :
    (now : ℕ) (nodes : List VpnNode)
    → length (keep (is_settled now) (keep (λ n. n.managed_dynamic) nodes)) ≤ count_active nodes
unfolding keep count_active
settled_count now [] = omega arith
settled_count now (n ∷ nodes) = ground (arith, settled_count now nodes)

scale_down_idle_count :
    (now desired : ℕ) (s : Store)
    → desired ≤ count_active_dynamic_vpn_nodes s
    → desired ≤ count_active_dynamic_vpn_nodes (scale_down_idle now desired s)
unfolding scale_down_idle list_dynamic_vpn_nodes count_active_dynamic_vpn_nodes
scale_down_idle_count now desired s h =
    let nodes = list_dynamic_vpn_nodes s in
    let active = keep (is_settled now) nodes in
    let gone = take (length active - desired) (by_disruption (score_all active s)) in
    elim (Bool-cases (length active == 0 || leb desired (length nodes - length active))) [
      | inl stays ↦ rw stays h
      | inr shrinks ↦ rw shrinks (
          omega (
            arith,
            h,
            settled_count now (list_vpn_nodes s.vpn_nodes),
            length-take_le (length active - desired) (by_disruption (score_all active s)),
            drain_nodes_count now gone s,
          ))
    ]

-- What `reconcileScale` has done. With too few nodes it provisions, within the free credentials,
-- no more than are missing, and the store is as it was. With enough of them it provisions none, and
-- at least as many as desired are left that do not drain.
abbrev pub IsSteered : ℕ → ℕ → Store → ℕ × Store → Type 0
IsSteered desired available s (n, t) =
    ((count_active_dynamic_vpn_nodes s < desired)
      × (count_active_dynamic_vpn_nodes s + n ≤ desired)
      × (n ≤ available)
      × ((n ≡ available) ⊎ (count_active_dynamic_vpn_nodes s + n ≡ desired))
      × (t ≡ s))
    ⊎ (n ≡ 0) × (desired ≤ count_active_dynamic_vpn_nodes t)

steer-IsSteered :
    (now desired available : ℕ) (s : Store)
    → IsSteered desired available s
        (steer now desired (count_active_dynamic_vpn_nodes s) available s)
unfolding steer
steer-IsSteered now desired available s =
    let actual = count_active_dynamic_vpn_nodes s in
    elim (Bool-cases (ltb actual desired)) [
      | inl few ↦ rw few (elim (Bool-cases (ltb available (desired - actual))) [
        | inl scarce ↦
            rw scarce
              (inl (ground (arith, few), ground (arith, few, scarce), omega arith, inl refl, refl))
        | inr plenty ↦ rw plenty (
            inl (
              ground (arith, few),
              ground (arith, few),
              ground (arith, plenty),
              inr (ground (arith, few)),
              refl,
            ))
      ])
      | inr enough ↦ rw enough (elim (Bool-cases (ltb desired actual)) [
        | inl many ↦
            rw many (inr (refl, scale_down_idle_count now desired s (ground (arith, many))))
        | inr exact ↦ rw exact (inr (refl, ground (arith, enough)))
      ])
    ]

-- Scaling, whatever is in the store: see `IsSteered`. The desired number of nodes is never above
-- the number of credentials.
pub reconcile_scale-IsSteered :
    (cfg : LifecycleConfig) (now total available : ℕ) (s : Store)
    → IsSteered (desired_vpns cfg total s) available s (reconcile_scale cfg now total available s)
      × (desired_vpns cfg total s ≤ total)
unfolding reconcile_scale desired_vpns
reconcile_scale-IsSteered cfg now total available s =
    (steer-IsSteered now (desired_vpns cfg total s) available s, ground arith)
