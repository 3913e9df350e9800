-- ===== src/Lifecycle/Kept.antt =====
-- A VPN node that works, and what the calls on other nodes leave of it.
use acestream_orchestrator.Prelude.{
  ℕ, ◌≡◌, ◌≢◌, inl, inr, refl, sym, ap, subst, ◌∙◌, Bool, true, false, Option, none, some, [], ◌∷◌,
  arith, AllOf, String, str_eq, eq_iff, Bool-cases,
}
use acestream_orchestrator.Prelude.Maps.{Map, lookup, insert, delete, lookup-insert, lookup-delete}
use acestream_orchestrator.State.{Store, VpnNode, is_some}
use acestream_orchestrator.State.Nodes.{
  list_vpn_nodes, update_node, with_health, set_vpn_node_draining, set_vpn_node_healthy,
  set_vpn_node_status, remove_vpn_node, upsert_vpn_node, upserted,
}

module _ (name : String) where
  -- A node of this name is healthy and does not drain.
  abbrev pub Works : VpnNode → Type 0
  Works n = n.container_name ≡ name → (n.healthy ≡ true) × (str_eq n.lifecycle "draining" ≡ false)

  -- The nodes are kept under their names, and those of this name work.
  abbrev pub Entries : Map VpnNode → Type 0
  Entries [] = Unit {0}
  Entries ((key, n) ∷ nodes) = (n.container_name ≡ key) × Works n × Entries nodes

  -- The node of this name is in the store and works.
  pub record IsWorking (s : Store) : Type 0 where
    pub there : is_some (lookup name s.vpn_nodes) ≡ true
    pub entries : Entries s.vpn_nodes

  lookup-Entries :
      (key : String) (n : VpnNode) (nodes : Map VpnNode)
      → Entries nodes
      → lookup key nodes ≡ some n
      → (n.container_name ≡ key) × Works n
  unfolding lookup
  lookup-Entries key n [] h e = absurd (cc)
  lookup-Entries key n ((other, m) ∷ nodes) h e = elim (Bool-cases (str_eq other key)) [
    | inl here ↦
        let same : m ≡ n = ground (arith, e, here) in
        subst (λ k. (k.container_name ≡ key) × Works k) same (h.0 ∙ (eq_iff other key).0 here, h.1)
    | inr away ↦ lookup-Entries key n nodes h.2 (ground (arith, e, away))
  ]

  insert-Entries :
      (key : String) (n : VpnNode) (nodes : Map VpnNode)
      → n.container_name ≡ key
      → Works n
      → Entries nodes
      → Entries (insert key n nodes)
  unfolding insert
  insert-Entries key n [] e w h = (e, w, tt)
  insert-Entries key n ((other, m) ∷ nodes) e w h = elim (Bool-cases (str_eq other key)) [
    | inl here ↦ rw here (e ∙ sym ((eq_iff other key).0 here), w, h.2)
    | inr away ↦ rw away (h.0, h.1, insert-Entries key n nodes e w h.2)
  ]

  delete-Entries : (key : String) (nodes : Map VpnNode) → Entries nodes → Entries (delete key nodes)
  unfolding delete
  delete-Entries key [] h = tt
  delete-Entries key ((other, m) ∷ nodes) h = elim (Bool-cases (str_eq other key)) [
    | inl here ↦ rw here (delete-Entries key nodes h.2)
    | inr away ↦ rw away (h.0, h.1, delete-Entries key nodes h.2)
  ]

  insert-IsWorking :
      (key : String) (n : VpnNode) (s : Store)
      → n.container_name ≡ key
      → Works n
      → IsWorking s
      → IsWorking (record s { vpn_nodes = insert key n s.vpn_nodes })
  insert-IsWorking key n s e w h = record {
    there = ground (arith, lookup-insert key name n s.vpn_nodes, h.there);
    entries = insert-Entries key n s.vpn_nodes e w h.entries;
  }

  -- A change of one node that keeps its name and, if it is the node, that it works.
  pub update_node-IsWorking :
      (key : String) (f : VpnNode → VpnNode) (s : Store)
      → ((n : VpnNode) → (f n).container_name ≡ n.container_name)
      → ((n : VpnNode) → n.container_name ≡ key → Works n → Works (f n))
      → IsWorking s
      → IsWorking (update_node key f s)
  unfolding update_node
  update_node-IsWorking key f s same works h = go (lookup key s.vpn_nodes) refl
    where
      go : (o : Option VpnNode) → lookup key s.vpn_nodes ≡ o → IsWorking (update_node key f s)
      go none e = rw (e, update_node) h
      go (some n) e =
          let old = lookup-Entries key n s.vpn_nodes h.entries e in
          rw (e, update_node)
            (insert-IsWorking key (f n) s (same n ∙ old.0) (works n old.0 old.1) h)

  -- A change of another node may be any.
  other-Works :
      (key : String) (f : VpnNode → VpnNode)
      → key ≢ name
      → ((n : VpnNode) → (f n).container_name ≡ n.container_name)
      → (n : VpnNode) → n.container_name ≡ key
      → Works n
      → Works (f n)
  other-Works key f other same n e w = λ c. absurd (other (sym e ∙ sym (same n) ∙ c))

  pub set_vpn_node_healthy-IsWorking :
      (now : ℕ) (key : String) (b : Bool) (s : Store)
      → key ≢ name
      → IsWorking s
      → IsWorking (set_vpn_node_healthy now key b s)
  unfolding set_vpn_node_healthy
  set_vpn_node_healthy-IsWorking now key b s other h =
      let same : (n : VpnNode) → (with_health now b n).container_name ≡ n.container_name =
        λ n. ground arith in
      update_node-IsWorking key (with_health now b) s same
        (other-Works key (with_health now b) other same) h

  pub set_vpn_node_status-IsWorking :
      (now : ℕ) (key status : String) (s : Store)
      → IsWorking s
      → IsWorking (set_vpn_node_status now key status s)
  unfolding set_vpn_node_status
  set_vpn_node_status-IsWorking now key status s h =
      update_node-IsWorking key (λ n. record n { status = status; last_seen = now }) s (λ n. refl)
        (λ n e w. w) h

  pub set_vpn_node_draining-IsWorking :
      (now : ℕ) (key : String) (s : Store)
      → key ≢ name
      → IsWorking s
      → IsWorking (set_vpn_node_draining now key s).1
  unfolding set_vpn_node_draining
  set_vpn_node_draining-IsWorking now key s other h = go (lookup key s.vpn_nodes) refl
    where
      go :
          (o : Option VpnNode)
          → lookup key s.vpn_nodes ≡ o
          → IsWorking (set_vpn_node_draining now key s).1
      go none e = rw (e, set_vpn_node_draining) h
      go (some n) e =
          let old = lookup-Entries key n s.vpn_nodes h.entries e in
          rw (e, set_vpn_node_draining)
            (elim (Bool-cases (str_eq n.lifecycle "draining")) [
              | inl drains ↦ rw drains h
              | inr runs ↦ rw runs (
                  insert-IsWorking key
                    (record n { lifecycle = "draining"; draining_since = some now }) s old.0
                    (λ c. absurd (other (sym old.0 ∙ c))) h)
            ])

  pub remove_vpn_node-IsWorking :
      (key : String) (s : Store) → key ≢ name → IsWorking s → IsWorking (remove_vpn_node key s).1
  unfolding remove_vpn_node
  remove_vpn_node-IsWorking key s other h = elim (Bool-cases (is_some (lookup key s.vpn_nodes))) [
    | inr gone ↦ rw gone h
    | inl found ↦ rw found (record {
      there = ground (arith, lookup-delete key name s.vpn_nodes, h.there, eq_iff key name);
      entries = delete-Entries key s.vpn_nodes h.entries;
    })
  ]

  pub upsert_vpn_node-IsWorking :
      (now : ℕ) (n : VpnNode) (s : Store)
      → n.container_name ≢ name
      → IsWorking s
      → IsWorking (upsert_vpn_node now n s)
  unfolding upsert_vpn_node upserted
  upsert_vpn_node-IsWorking now n s other h =
      let same = upserted-name now (lookup n.container_name s.vpn_nodes) n in
      insert-IsWorking n.container_name (upserted now (lookup n.container_name s.vpn_nodes) n) s
        same (λ c. absurd (other (sym same ∙ c))) h
    where
      upserted-name :
          (t : ℕ) (o : Option VpnNode) (m : VpnNode)
          → (upserted t o m).container_name ≡ m.container_name
      upserted-name t none m = ground arith
      upserted-name t (some x) m = ground arith

  -- The store of other things with the same nodes.
  pub same-IsWorking : (s t : Store) → t.vpn_nodes ≡ s.vpn_nodes → IsWorking s → IsWorking t
  same-IsWorking s t e h = record {
    there = ap (λ nodes. is_some (lookup name nodes)) e ∙ h.there;
    entries = subst Entries (sym e) h.entries;
  }

  pub list-Works : (nodes : Map VpnNode) → Entries nodes → AllOf Works (list_vpn_nodes nodes)
  unfolding list_vpn_nodes
  list-Works [] h = tt
  list-Works ((key, n) ∷ nodes) h = (h.1, list-Works nodes h.2)
