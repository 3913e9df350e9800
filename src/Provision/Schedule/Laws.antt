-- ===== src/Provision/Schedule/Laws.antt =====
-- What is reserved for an engine is given back when it does not come up.
use acestream_orchestrator.Prelude.{
  ℕ, ◌+◌, ◌-◌, ◌≡◌, ◌≢◌, inl, inr, refl, subst, ◌∙◌, Bool, true, false, ◌&&◌, not, List, [], ◌∷◌,
  arith, if◌then◌else◌, ltb, String, str_eq, eq_iff, Bool-cases,
}
use mathlib.Core.Bool.{false≢true}
use acestream_orchestrator.Prelude.Maps.{Map, insert, lookup-insert, lookup-delete}
use acestream_orchestrator.State.{Store, VpnNode, count, decrement}
use acestream_orchestrator.State.Vpn.{
  has_forwarded, is_forwarded_pending, incr_vpn_pending, set_forwarded_pending,
  select_and_claim_vpn, try_claim_forwarded_slot,
}
use acestream_orchestrator.State.Vpn.Forwarded.{is_free, is_forwarded_pending-insert}
use acestream_orchestrator.Provision.{EngineConfig, World}
use acestream_orchestrator.Provision.Schedule.{
  Surroundings, node_supports_port_forwarding, internal_port, with_forwarded_port,
  elect_forwarded_engine,
}
use acestream_orchestrator.Provision.Nodes.{
  chosen_or_full, overflow, select_ready, select_vpn_nodes, ready_names, density_limit,
}

-- The engines and the claims on the forwarded slots are the same.
pub record Kept (s t : Store) : Type 0 where
  pub engines : t.engines ≡ s.engines
  pub forwarded_pending : t.forwarded_pending ≡ s.forwarded_pending

select_and_claim_vpn-Kept :
    (names : List String) (limit : ℕ) (s : Store) → Kept s (select_and_claim_vpn names limit s).1
unfolding select_and_claim_vpn incr_vpn_pending
select_and_claim_vpn-Kept names limit s = ground arith

chosen_or_full_store : (n : ℕ) (out : String × Store) → (chosen_or_full n out).1 ≡ out.1
unfolding chosen_or_full
chosen_or_full_store n (chosen, s) = refl

overflow-Kept :
    (cfg : EngineConfig) (limit : ℕ) (names : List String) (s : Store)
    → Kept s (overflow cfg limit names s).1
unfolding overflow chosen_or_full
overflow-Kept cfg limit names s =
    ground (arith, select_and_claim_vpn-Kept names cfg.max_engines_per_vpn s)

select_ready-Kept :
    (cfg : EngineConfig) (names : List String) (s : Store) → Kept s (select_ready cfg names s).1
unfolding select_ready
select_ready-Kept cfg names s =
    let limit = density_limit cfg s.desired_replicas in
    ground (
      arith,
      select_and_claim_vpn-Kept names limit s,
      overflow-Kept cfg limit names (select_and_claim_vpn names limit s).1,
    )

pub select_vpn_nodes-Kept :
    (normal lower : String → String) (now : ℕ) (cfg : EngineConfig) (nodes : List VpnNode)
    (s : Store)
    → Kept s (select_vpn_nodes normal lower now cfg nodes s).1
unfolding select_vpn_nodes
select_vpn_nodes-Kept normal lower now cfg [] s = record {
  engines = refl;
  forwarded_pending = refl;
}
select_vpn_nodes-Kept normal lower now cfg (n ∷ nodes) s =
    go (ready_names normal lower now s (n ∷ nodes)) refl
  where
    go :
        (names : List String)
        → ready_names normal lower now s (n ∷ nodes) ≡ names
        → Kept s (select_vpn_nodes normal lower now cfg (n ∷ nodes) s).1
    go [] e = rw (e, select_vpn_nodes) (record { engines = refl; forwarded_pending = refl })
    go (name ∷ names) e = rw (e, select_vpn_nodes) (select_ready-Kept cfg (name ∷ names) s)

-- The reservations of places on nodes, and the slots of forwarded engines, are those of before.
pub record Balanced (s t : Store) : Type 0 where
  pub pending : (name : String) → count name t.vpn_pending ≡ count name s.vpn_pending
  pub slots : (vpn : String) → is_free vpn t ≡ is_free vpn s

-- A selection has counted one engine more for its node, and for no other.
abbrev pub counted : String → String → ℕ
counted vpn name = if not (str_eq vpn "") && str_eq vpn name then 1 else 0

pub record Taken (vpn : String) (s t : Store) : Type 0 where
  pub kept : Kept s t
  pub pending :
      (name : String) → count name t.vpn_pending ≡ count name s.vpn_pending + counted vpn name

pub Kept-is_free : (s t : Store) → Kept s t → (vpn : String) → is_free vpn t ≡ is_free vpn s
unfolding is_forwarded_pending
Kept-is_free s t k vpn = rw (k.engines, k.forwarded_pending) refl

pub count-decrement :
    (vpn name : String) (counts : Map ℕ)
    → count name (decrement vpn counts) ≡ count name counts - (if str_eq vpn name then 1 else 0)
unfolding count decrement
count-decrement vpn name counts =
    ground (arith, lookup-insert vpn name (count vpn counts - 1) counts, eq_iff vpn name)

pub is_free-delete :
    (vpn other : String) (s : Store)
    → is_free other (set_forwarded_pending vpn false s)
      ≡ (if str_eq vpn other then not (has_forwarded other s.engines) else is_free other s)
unfolding set_forwarded_pending is_forwarded_pending
is_free-delete vpn other s =
    ground (arith, lookup-delete vpn other s.forwarded_pending, eq_iff vpn other)

-- What an election leaves: the engines and the reservations of places, and the slots too but for
-- one that was free and is now taken by the engine that was elected.
pub record Elected (vpn : String) (w : World) (out : (Bool × ℕ) × World) : Type 0 where
  pub engines : out.1.store.engines ≡ w.store.engines
  pub pending : out.1.store.vpn_pending ≡ w.store.vpn_pending
  pub won : out.0.0 ≡ true → (vpn ≢ "") × (is_free vpn w.store ≡ true)
  pub slots :
      (other : String)
      → is_free other out.1.store
        ≡ (if out.0.0 && str_eq vpn other then false else is_free other w.store)

internal_port-Elected : (vpn : String) (w : World) → Elected vpn w (internal_port vpn w)
unfolding internal_port
internal_port-Elected vpn w = record {
  engines = refl;
  pending = refl;
  won = λ e. absurd (false≢true e);
  slots = λ other. refl;
}

-- The store with the slot of the node claimed.
abbrev claimed : String → Store → Store
claimed vpn s = record s { forwarded_pending = insert vpn true s.forwarded_pending }

is_free-claimed :
    (vpn other : String) (s : Store)
    → is_free other (claimed vpn s) ≡ (if str_eq vpn other then false else is_free other s)
is_free-claimed vpn other s =
    ground (arith, is_forwarded_pending-insert vpn other s, eq_iff vpn other)

is_free-unclaimed :
    (vpn other : String) (s : Store)
    → is_free vpn s ≡ true
    → is_free other (set_forwarded_pending vpn false (claimed vpn s)) ≡ is_free other s
is_free-unclaimed vpn other s free =
    is_free-delete vpn other (claimed vpn s) ∙ elim (Bool-cases (str_eq vpn other)) [
      | inl here ↦ rw here (there ((eq_iff vpn other).0 here))
      | inr away ↦ rw away (is_free-claimed vpn other s ∙ rw away refl)
    ]
  where
    there : vpn ≡ other → not (has_forwarded other s.engines) ≡ is_free other s
    there e = subst (λ o. not (has_forwarded o s.engines) ≡ is_free o s) e (ground (arith, free))

with_forwarded_port-Elected :
    (p : ℕ) (vpn : String) (w : World)
    → vpn ≢ ""
    → is_free vpn w.store ≡ true
    → Elected vpn w (with_forwarded_port p vpn (record w { store = claimed vpn w.store }))
unfolding with_forwarded_port internal_port set_forwarded_pending
with_forwarded_port-Elected p vpn w named free = elim (Bool-cases (ltb 0 p)) [
  | inl has ↦ rw has (record {
    engines = refl;
    pending = refl;
    won = λ _. (named, free);
    slots = λ other. is_free-claimed vpn other w.store;
  })
  | inr blank ↦ rw blank (record {
    engines = refl;
    pending = refl;
    won = λ t. absurd (false≢true t);
    slots = λ other. is_free-unclaimed vpn other w.store free;
  })
]

pub elect_forwarded_engine-Elected :
    (env : Surroundings) (vpn : String) (w : World)
    → Elected vpn w (elect_forwarded_engine env vpn w)
unfolding elect_forwarded_engine try_claim_forwarded_slot
elect_forwarded_engine-Elected env vpn w = elim (Bool-cases (str_eq vpn "")) [
  | inl blank ↦ rw blank (record {
    engines = refl;
    pending = refl;
    won = λ t. absurd (false≢true t);
    slots = λ other. refl;
  })
  | inr named ↦
      rw named
        (elim (Bool-cases
          (node_supports_port_forwarding env.provider_supports_forwarding vpn w.store)) [
            | inr unable ↦ rw unable (internal_port-Elected vpn w)
            | inl able ↦ rw able (elim (Bool-cases (has_forwarded vpn w.store.engines)) [
              | inl held ↦ rw held (internal_port-Elected vpn w)
              | inr unheld ↦ rw unheld (elim (Bool-cases (is_forwarded_pending vpn w.store)) [
                | inl waits ↦ rw waits (internal_port-Elected vpn w)
                | inr idle ↦ rw idle (
                    with_forwarded_port-Elected (env.forwarded_port vpn) vpn w
                      (λ e. absurd (ground (arith, named, (eq_iff vpn "").1 e)))
                      (rw (unheld, idle) refl))
              ])
            ])
          ])
]
