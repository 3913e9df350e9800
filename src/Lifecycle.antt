-- ===== src/Lifecycle.antt =====
-- app/orchestrator/internal/controlplane/vpn/lifecycle.go: how many VPN nodes there should be, and
-- which drain. Times are nanoseconds. The provisioner is there (`lm.prov` is not nil). The fraction
-- of 80 % is exact, where the source rounds to a float. Events and messages to Redis are left out.
pub mod Destroy
pub mod Sync
pub mod Laws
pub mod Confirmed
pub mod Retry
pub mod Kept
pub mod Recorded
pub mod Survive
mod Tests
use acestream_orchestrator.Prelude.{
  ℕ, suc, ◌+◌, ◌-◌, ◌*◌, Bool, true, false, ◌&&◌, ◌||◌, not, Option, none, some, List, [], ◌∷◌,
  if◌then◌else◌, ltb, leb, ◌==◌, take, length, String, str_eq,
}
use acestream_orchestrator.Prelude.Maps.{Map}
use acestream_orchestrator.State.{
  Engine, Store, VpnNode, list_engines, engines_by_vpn, mark_engine_draining,
}
use acestream_orchestrator.State.Scaling.{get_stream_count}
use acestream_orchestrator.State.Nodes.{
  keep, list_dynamic_vpn_nodes, list_not_ready_vpn_nodes, count_active_dynamic_vpn_nodes,
  set_vpn_node_draining,
}
use acestream_orchestrator.Controller.Rebalance.{ceil_div, is_within}

pub record LifecycleConfig : Type 0 where
  pub preferred_engines_per_vpn : ℕ
  pub vpn_unhealthy_grace_period : ℕ
  pub vpn_draining_hard_timeout : ℕ
  pub vpn_heal_grace_period : ℕ
  pub container_label_key : String
  pub container_label_val : String

unfoldable pub count_vpn : List Engine → ℕ
count_vpn [] = 0
count_vpn (e ∷ engines) =
    let rest = count_vpn engines in
    if not (str_eq e.vpn_container "") && not e.draining then suc rest else rest

unfoldable pub count_vpn_engines : Store → ℕ
count_vpn_engines s = count_vpn (list_engines s.engines)

-- `max` of this package.
abbrev pub larger : ℕ → ℕ → ℕ
larger a b = if ltb b a then a else b

-- `demand / (preferred * 0.8)`, rounded up, where the divisor is at least 1.
unfoldable pub desired_for : ℕ → ℕ → ℕ
desired_for preferred demand =
    let per_vpn = if preferred == 0 then 4 else preferred in
    if ltb 0 demand then ceil_div (10 * demand) (larger (8 * per_vpn) 10) else 0

-- How many nodes there should be, with no more than there are credentials.
unfoldable pub desired_vpns : LifecycleConfig → ℕ → Store → ℕ
desired_vpns cfg total s =
    let wanted =
      desired_for cfg.preferred_engines_per_vpn (larger (count_vpn_engines s) s.desired_replicas) in
    if ltb total wanted then total else wanted

-- A node that may go: it does not drain, and is not healthy since less than two minutes.
abbrev pub is_settled : ℕ → VpnNode → Bool
is_settled now n =
    not (str_eq n.lifecycle "draining") && not (is_within now 120000000000 n.healthy_since)

unfoldable pub stream_total : List Engine → Store → ℕ
stream_total [] s = 0
stream_total (e ∷ engines) s = get_stream_count e.container_id s + stream_total engines s

pub record ScoredNode : Type 0 where
  pub node : VpnNode
  pub streams : ℕ
  pub engines : ℕ

unfoldable pub score : Store → VpnNode → ScoredNode
score s n =
    let engines = engines_by_vpn n.container_name s.engines in
    record { node = n; streams = stream_total engines s; engines = length engines }

unfoldable pub score_all : List VpnNode → Store → List ScoredNode
score_all [] s = []
score_all (n ∷ nodes) s = score s n ∷ score_all nodes s

abbrev pub disrupts_less : ScoredNode → ScoredNode → Bool
disrupts_less a b =
    if not (a.streams == b.streams) then ltb a.streams b.streams else ltb a.engines b.engines

-- A sort by insertion stands for `sort.Slice`, which leaves equals in some order.
unfoldable pub insert_node : ScoredNode → List ScoredNode → List ScoredNode
insert_node a [] = a ∷ []
insert_node a (b ∷ rest) =
    let later = insert_node a rest in if disrupts_less b a then b ∷ later else a ∷ b ∷ rest

unfoldable pub by_disruption : List ScoredNode → List ScoredNode
by_disruption [] = []
by_disruption (a ∷ rest) = insert_node a (by_disruption rest)

unfoldable pub drain_nodes : ℕ → List ScoredNode → Store → Store
drain_nodes now [] s = s
drain_nodes now (a ∷ rest) s =
    drain_nodes now rest (set_vpn_node_draining now a.node.container_name s).1

unfoldable pub scale_down_idle : ℕ → ℕ → Store → Store
scale_down_idle now desired s =
    let nodes = list_dynamic_vpn_nodes s in
    let active = keep (is_settled now) nodes in
    if length active == 0 || leb desired (length nodes - length active)
    then s
    else drain_nodes now (take (length active - desired) (by_disruption (score_all active s))) s

-- The end of `reconcileScale`: how often `provisionOne` is called, and the store.
unfoldable pub steer : ℕ → ℕ → ℕ → ℕ → Store → ℕ × Store
steer now desired actual available s =
    let deficit = desired - actual in
    if ltb actual desired
    then (if ltb available deficit then available else deficit, s)
    else (0, if ltb desired actual then scale_down_idle now desired s else s)

-- `total` and `available` count the credentials.
unfoldable pub reconcile_scale : LifecycleConfig → ℕ → ℕ → ℕ → Store → ℕ × Store
reconcile_scale cfg now total available s =
    steer now (desired_vpns cfg total s) (count_active_dynamic_vpn_nodes s) available s

-- `t != nil && now.Sub(*t) >= grace`.
abbrev pub is_overdue : ℕ → ℕ → Option ℕ → Bool
is_overdue now grace none = false
is_overdue now grace (some t) = leb (t + grace) now

unfoldable pub node_needs_healing : ℕ → ℕ → VpnNode → Bool
node_needs_healing now grace n = is_overdue now grace n.unhealthy_since

unfoldable pub heal_each : ℕ → ℕ → List VpnNode → Store → Store
heal_each now grace [] s = s
heal_each now grace (n ∷ nodes) s =
    heal_each now grace nodes (
      if node_needs_healing now grace n
      then (set_vpn_node_draining now n.container_name s).1
      else s)

-- The set of active healings is empty between calls, which are one after the other.
unfoldable pub heal_not_ready : LifecycleConfig → ℕ → Store → Store
heal_not_ready cfg now s = heal_each now cfg.vpn_heal_grace_period (list_not_ready_vpn_nodes s) s

-- The engines of a node that drains.
unfoldable pub drain_engines : List Engine → Store → Store
drain_engines [] s = s
drain_engines (e ∷ engines) s =
    drain_engines engines (mark_engine_draining e.container_id "vpn_draining" s).1

unfoldable pub all_idle : List Engine → Store → Bool
all_idle [] s = true
all_idle (e ∷ engines) s =
    let rest = all_idle engines s in
    if ltb 0 (get_stream_count e.container_id s) then false else rest

-- `t != nil && time.Since(*t) > d`.
abbrev pub is_over : ℕ → ℕ → Option ℕ → Bool
is_over now d none = false
is_over now d (some t) = ltb (t + d) now

-- The test of `reconcile` on a node that does not drain yet.
unfoldable pub is_lost : LifecycleConfig → ℕ → VpnNode → Bool
is_lost cfg now n =
    not n.healthy
    && n.managed_dynamic
    && is_over now cfg.vpn_unhealthy_grace_period n.unhealthy_since
