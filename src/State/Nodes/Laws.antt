-- ===== src/State/Nodes/Laws.antt =====
-- The health of VPN nodes and the times they keep of it.
use acestream_orchestrator.Prelude.{
  ℕ, ◌≡◌, refl, sym, ap, subst, ◌∙◌, Bool, true, false, ◌&&◌, ◌||◌, not, Option, none, some, List,
  [], ◌∷◌, if◌then◌else◌, arith, Bool-cases, Option-cases, inl, inr, String, str_eq, eq_iff,
}
use acestream_orchestrator.Prelude.Maps.{lookup, insert, lookup-insert, lookup-delete}
use acestream_orchestrator.State.{Store, is_some, VpnNode}
use acestream_orchestrator.State.Nodes.{
  inherit, timed, upserted, upsert_vpn_node, remove_vpn_node, update_node, with_health,
  set_vpn_node_condition, set_vpn_node_healthy, set_vpn_node_status, set_vpn_node_draining,
  set_vpn_node_lifecycle, update_vpn_node_control_host, is_vpn_node_draining, is_draining,
  same_container,
}

-- A healthy node has no time of falling ill, and a sick one has it and no time of getting well.
abbrev pub IsTimed : VpnNode → Type 0
IsTimed n =
    (is_some n.unhealthy_since ≡ not n.healthy)
    × ((not n.healthy && is_some n.healthy_since) ≡ false)

abbrev pub IsTimedIf : Option VpnNode → Type 0
IsTimedIf none = Unit {0}
IsTimedIf (some n) = IsTimed n

-- The nodes of a store are such.
abbrev pub AllTimed : Store → Type 0
AllTimed s = (name : String) → IsTimedIf (lookup name s.vpn_nodes)

timed-IsTimed : (now : ℕ) (n : VpnNode) → IsTimed (timed now n)
timed-IsTimed now n = ground (arith, n.unhealthy_since)

pub upserted-IsTimed : (now : ℕ) (o : Option VpnNode) (n : VpnNode) → IsTimed (upserted now o n)
unfolding upserted
upserted-IsTimed now o n = timed-IsTimed now (inherit now o n)

pub with_health-IsTimed :
    (now : ℕ) (healthy : Bool) (n : VpnNode) → IsTimed (with_health now healthy n)
with_health-IsTimed now healthy n = ground arith

pub insert-AllTimed :
    (key : String) (n : VpnNode) (s : Store)
    → IsTimed n
    → AllTimed s
    → AllTimed (record s { vpn_nodes = insert key n s.vpn_nodes })
insert-AllTimed key n s t a name =
    subst IsTimedIf (sym (lookup-insert key name n s.vpn_nodes))
      (elim (Bool-cases (str_eq key name)) [ inl same ↦ rw same t | inr apart ↦ rw apart (a name) ])

pub update_node-AllTimed :
    (name : String) (f : VpnNode → VpnNode) (s : Store)
    → ((n : VpnNode) → IsTimed n → IsTimed (f n))
    → AllTimed s
    → AllTimed (update_node name f s)
unfolding update_node
update_node-AllTimed name f s h a = elim (Option-cases (lookup name s.vpn_nodes)) [
  | inl gone ↦ subst AllTimed {x = s} {y = update_node name f s} (rw (gone, update_node) refl) a
  | inr (n, e) ↦
      subst AllTimed {x = record s { vpn_nodes = insert name (f n) s.vpn_nodes }}
        {y = update_node name f s} (rw (e, update_node) refl)
        (insert-AllTimed name (f n) s (h n (subst IsTimedIf e (a name))) a)
]

-- A call on the nodes, with the time that it reads.
pub data NodeCall : Type 0 where
  upserts : ℕ → VpnNode → NodeCall
  removes : String → NodeCall
  sets_condition sets_status : ℕ → String → String → NodeCall
  sets_healthy : ℕ → String → Bool → NodeCall
  sets_draining : ℕ → String → NodeCall
  sets_lifecycle sets_control_host : String → String → NodeCall

abbrev pub step : NodeCall → Store → Store
step (upserts now n) s = upsert_vpn_node now n s
step (removes name) s = (remove_vpn_node name s).1
step (sets_condition now name condition) s = set_vpn_node_condition now name condition s
step (sets_status now name status) s = set_vpn_node_status now name status s
step (sets_healthy now name healthy) s = set_vpn_node_healthy now name healthy s
step (sets_draining now name) s = (set_vpn_node_draining now name s).1
step (sets_lifecycle name lifecycle) s = set_vpn_node_lifecycle name lifecycle s
step (sets_control_host name host) s = update_vpn_node_control_host name host s

abbrev pub run : List NodeCall → Store → Store
run [] s = s
run (c ∷ cs) s = run cs (step c s)

pub remove_vpn_node-AllTimed :
    (name : String) (s : Store) → AllTimed s → AllTimed (remove_vpn_node name s).1
unfolding remove_vpn_node
remove_vpn_node-AllTimed name s a = elim (Bool-cases (is_some (lookup name s.vpn_nodes))) [
  | inl there ↦
      rw (there, remove_vpn_node)
        (λ other.
          subst IsTimedIf (sym (lookup-delete name other s.vpn_nodes))
            (elim (Bool-cases (str_eq name other)) [
              | inl same ↦ rw same tt
              | inr apart ↦ rw apart (a other)
            ]))
  | inr gone ↦ rw (gone, remove_vpn_node) a
]

pub set_vpn_node_draining-AllTimed :
    (now : ℕ) (name : String) (s : Store)
    → AllTimed s
    → AllTimed (set_vpn_node_draining now name s).1
unfolding set_vpn_node_draining
set_vpn_node_draining-AllTimed now name s a = go (lookup name s.vpn_nodes) (a name)
  where
    go :
        (o : Option VpnNode)
        → IsTimedIf o
        → AllTimed
            (elim o as (λ o. Bool × Store) [
              | none ↦ (false, s)
              | some n ↦ if str_eq n.lifecycle "draining" then (false, s) else (
                true,
                record s {
                  vpn_nodes =
                      insert name
                        (record n { lifecycle = "draining"; draining_since = some now })
                        s.vpn_nodes;
                },
              )
            ]).1
    go none t = a
    go (some n) t = elim (Bool-cases (str_eq n.lifecycle "draining")) [
      | inl draining ↦ rw draining a
      | inr active ↦ rw active (
          insert-AllTimed name (record n { lifecycle = "draining"; draining_since = some now }) s t
            a)
    ]

update_vpn_node_control_host-AllTimed :
    (name host : String) (s : Store)
    → AllTimed s
    → AllTimed (update_vpn_node_control_host name host s)
unfolding update_vpn_node_control_host
update_vpn_node_control_host-AllTimed name host s a = elim (Bool-cases (str_eq host "")) [
  | inl empty ↦ rw empty a
  | inr named ↦
      rw named (update_node-AllTimed name (λ n. record n { control_host = host }) s (λ n t. t) a)
]

pub step-AllTimed : (c : NodeCall) (s : Store) → AllTimed s → AllTimed (step c s)
unfolding upsert_vpn_node set_vpn_node_condition set_vpn_node_status set_vpn_node_healthy
    set_vpn_node_lifecycle
step-AllTimed (upserts now n) s a =
    insert-AllTimed n.container_name (upserted now (lookup n.container_name s.vpn_nodes) n) s
      (upserted-IsTimed now (lookup n.container_name s.vpn_nodes) n) a
step-AllTimed (removes name) s a = remove_vpn_node-AllTimed name s a
step-AllTimed (sets_condition now name condition) s a =
    update_node-AllTimed name (λ n. record n { condition = condition; last_seen = now }) s
      (λ n t. t) a
step-AllTimed (sets_status now name status) s a =
    update_node-AllTimed name (λ n. record n { status = status; last_seen = now }) s (λ n t. t) a
step-AllTimed (sets_healthy now name healthy) s a =
    update_node-AllTimed name (with_health now healthy) s (λ n t. with_health-IsTimed now healthy n)
      a
step-AllTimed (sets_draining now name) s a = set_vpn_node_draining-AllTimed now name s a
step-AllTimed (sets_lifecycle name lifecycle) s a =
    update_node-AllTimed name (λ n. record n { lifecycle = lifecycle }) s (λ n t. t) a
step-AllTimed (sets_control_host name host) s a =
    update_vpn_node_control_host-AllTimed name host s a

-- After any calls on the nodes, each healthy node has no time of falling ill, and each sick one has
-- that time and none of getting well.
pub run-AllTimed : (cs : List NodeCall) (s : Store) → AllTimed s → AllTimed (run cs s)
run-AllTimed [] s a = a
run-AllTimed (c ∷ cs) s a = run-AllTimed cs (step c s) (step-AllTimed c s a)

timed-lifecycle : (now : ℕ) (n : VpnNode) → (timed now n).lifecycle ≡ n.lifecycle
timed-lifecycle now n = elim (Bool-cases n.healthy) [
  | inl well ↦ rw well refl
  | inr ill ↦ rw ill refl
]

inherit-lifecycle :
    (now : ℕ) (old n : VpnNode)
    → old.lifecycle ≡ "draining"
    → (inherit now (some old) n).lifecycle
      ≡ (if same_container old n then old.lifecycle else n.lifecycle)
inherit-lifecycle now old n d = elim (Bool-cases (same_container old n)) [
  | inl same ↦ rw (same, d) refl
  | inr apart ↦ rw apart refl
]

-- A new report on a draining node leaves it draining if it is of the node's container, or one of
-- the two names no container; else it is draining exactly if the report says so.
pub upsert_vpn_node-is_vpn_node_draining :
    (now : ℕ) (old n : VpnNode) (s : Store)
    → lookup n.container_name s.vpn_nodes ≡ some old
    → old.lifecycle ≡ "draining"
    → is_vpn_node_draining n.container_name (upsert_vpn_node now n s)
      ≡ (same_container old n || str_eq n.lifecycle "draining")
unfolding is_vpn_node_draining upsert_vpn_node upserted
upsert_vpn_node-is_vpn_node_draining now old n s e d =
    let m = inherit now (lookup n.container_name s.vpn_nodes) n in
    let stored : VpnNode = record (timed now m) { last_seen = now } in
    ap is_draining (lookup-insert n.container_name n.container_name stored s.vpn_nodes)
    ∙ ap (λ b. is_draining (if b then some stored else lookup n.container_name s.vpn_nodes)) here
    ∙ ap (λ lifecycle. str_eq lifecycle "draining")
        (timed-lifecycle now m
          ∙ ap (λ o. (inherit now o n).lifecycle) e
          ∙ inherit-lifecycle now old n d)
    ∙ ground (arith, d, eq_iff old.lifecycle "draining")
  where
    here : str_eq n.container_name n.container_name ≡ true
    here = ground (arith, eq_iff n.container_name n.container_name)
