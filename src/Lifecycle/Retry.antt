-- ===== src/Lifecycle/Retry.antt =====
-- `DestroyNode` releases what a node holds when Docker has confirmed that its containers are gone,
-- and only then.
use acestream_orchestrator.Prelude.{
  ℕ, ◌≡◌, ◌⊎◌, inl, inr, refl, ap, subst, AllOf, ◌∙◌, Bool, true, false, ◌||◌, not, Option, none,
  some, List, [], ◌∷◌, arith, String, str_eq, eq_iff, Bool-cases,
}
use acestream_orchestrator.Prelude.Maps.{lookup, lookup-delete}
use acestream_orchestrator.State.{Engine, Store, engines_by_vpn, remove_engine, forget}
use acestream_orchestrator.State.Nodes.{get_vpn_node, set_vpn_node_draining, remove_vpn_node}
use acestream_orchestrator.Leases.{CredentialManager, release_lease}
use acestream_orchestrator.AirVpn.{release_port}
use acestream_orchestrator.Lifecycle.{LifecycleConfig}
use acestream_orchestrator.Lifecycle.Confirmed.{
  IsOurs, IsEngine, containers_of, dependents, AllRemoved, Checked, Removes, Cleared,
  find_targets-Checked, remove_targets-Removes, remove_dependents-Cleared,
}
use acestream_orchestrator.Lifecycle.Destroy.{
  Container, NodeDocker, Fleet, DestroyError, find_targets, remove_dependents, remove_targets,
  remove_engines, release_node, is_external, ended, then_targets, with_dependents, with_targets,
  with_containers, with_client, known_id, trim_slash, destroy_node,
}

-- An error leaves the credentials, the ports and the engines, and the node, which at most drains.
module _ {D : Type 0} (name : String) (f : Fleet D) where
  pub record Retryable (now : ℕ) (g : Fleet D) : Type 0 where
    pub creds : g.creds ≡ f.creds
    pub ports : g.air_vpn_ports ≡ f.air_vpn_ports
    pub store : (g.store ≡ f.store) ⊎ (g.store ≡ (set_vpn_node_draining now name f.store).1)

  -- The node and its lease are gone, and the other nodes are as before.
  pub record Done (now : ℕ) (g : Fleet D) : Type 0 where
    pub nodes :
        g.store.vpn_nodes
        ≡ (remove_vpn_node name (set_vpn_node_draining now name f.store).1).1.vpn_nodes
    pub node : get_vpn_node name g.store ≡ none
    pub lease : lookup name g.creds.leases ≡ none
    pub port : g.air_vpn_ports ≡ release_port name f.air_vpn_ports

module _ {D : Type 0} (lower trim : String → String) (docker : NodeDocker D) where
  -- What Docker was asked and has answered until it is in the state `last`: all containers of the
  -- node's name were owned and of the known ID, all that run in its network were engines, and the
  -- removal of each, the engines first, was confirmed.
  pub record IsConfirmed (cfg : LifecycleConfig) (name : String) (f : Fleet D) (last : D)
      : Type 0 where
    pub client : D
    pub connected : docker.connect f.docker ≡ (true, client)
    pub containers : List Container
    pub all_listed : D
    pub found : docker.list_all client ≡ (some containers, all_listed)
    pub ours : AllOf (IsOurs lower trim name (known_id (get_vpn_node name f.store))) containers
    pub engines : List Container
    pub asked : D
    pub depend : docker.list_dependents name all_listed ≡ (some engines, asked)
    pub engines_ours : AllOf (IsEngine lower trim cfg) (dependents name engines)
    pub cleared : D
    pub engines_gone : AllRemoved docker (dependents name engines) asked cleared
    pub nodes_gone : AllRemoved docker (containers_of name containers) cleared last

remove_engines_nodes :
    (engines : List Engine) (s : Store) → (remove_engines engines s).vpn_nodes ≡ s.vpn_nodes
unfolding remove_engines remove_engine forget
remove_engines_nodes [] s = refl
remove_engines_nodes (e ∷ engines) s =
    remove_engines_nodes engines (remove_engine e.container_id s).1 ∙ ground arith

release_lease_gone :
    (name : String) (cm : CredentialManager) → lookup name (release_lease name cm).0.leases ≡ none
unfolding release_lease
release_lease_gone name cm = go (lookup name cm.leases) refl
  where
    go :
        (o : Option String)
        → lookup name cm.leases ≡ o
        → lookup name (release_lease name cm).0.leases ≡ none
    go none e = rw (e, release_lease) e
    go (some id) e =
        rw (e, release_lease)
          (lookup-delete name name cm.leases ∙ rw ((eq_iff name name).1 refl) refl)

remove_vpn_node_gone :
    (name : String) (s : Store) → lookup name (remove_vpn_node name s).1.vpn_nodes ≡ none
unfolding remove_vpn_node
remove_vpn_node_gone name s =
    ground (arith, lookup-delete name name s.vpn_nodes, (eq_iff name name).1 refl)

release_node-Done :
    {D : Type 0} (now : ℕ) (name : String) (f g : Fleet D)
    → g.store ≡ (set_vpn_node_draining now name f.store).1
    → g.air_vpn_ports ≡ f.air_vpn_ports
    → Done name f now (release_node name g)
unfolding release_node get_vpn_node
release_node-Done now name f g h p =
    let s = (remove_vpn_node name g.store).1 in
    record {
      nodes =
          remove_engines_nodes (engines_by_vpn name s.engines) s
          ∙ ap (λ t. (remove_vpn_node name t).1.vpn_nodes) h;
      node =
          ap (lookup name) (remove_engines_nodes (engines_by_vpn name s.engines) s)
          ∙ remove_vpn_node_gone name g.store;
      lease = release_lease_gone name g.creds;
      port = ap (release_port name) p;
    }

module _ {D : Type 0} (lower trim : String → String) (docker : NodeDocker D) (cfg : LifecycleConfig)
    (now : ℕ) (name : String) (f : Fleet D) where
  abbrev pub IsDestroyed : Option DestroyError × Fleet D → Type 0
  IsDestroyed (none, g) = Done name f now g × IsConfirmed lower trim docker cfg name f g.docker
  IsDestroyed (some e, g) = Retryable name f now g

  -- The fleet while the node drains and Docker is asked.
  abbrev asking : D → Fleet D
  asking d = record f { store = (set_vpn_node_draining now name f.store).1; docker = d }

  asking-Retryable : (d : D) → Retryable name f now (asking d)
  asking-Retryable d = record { creds = refl; ports = refl; store = inr refl }

  abbrev Confirmed : D → Type 0
  Confirmed = IsConfirmed lower trim docker cfg name f

  ended-IsDestroyed :
      (d c : D) (targets : List Container) (out : Option DestroyError × D)
      → ((last : D) → AllRemoved docker targets c last → Confirmed last)
      → Removes lower trim docker targets c out
      → IsDestroyed (ended lower trim docker name (asking d) out)
  unfolding release_node
  ended-IsDestroyed d c targets (some e, last) k h = asking-Retryable last
  ended-IsDestroyed d c targets (none, last) k h =
      (release_node-Done now name f (asking last) refl refl, k last h)

  then_targets-IsDestroyed :
      (d c : D) (engines targets : List Container) (out : Option DestroyError × D)
      → ((cleared last : D)
          → AllOf (IsEngine lower trim cfg) (dependents name engines)
          → AllRemoved docker (dependents name engines) c cleared
          → AllRemoved docker targets cleared last
          → Confirmed last)
      → Cleared lower trim docker cfg name engines c out
      → IsDestroyed (then_targets lower trim docker name (asking d) targets out)
  then_targets-IsDestroyed d c engines targets (some e, last) k h = asking-Retryable last
  then_targets-IsDestroyed d c engines targets (none, cleared) k h =
      ended-IsDestroyed d cleared targets (remove_targets lower trim docker targets cleared)
        (λ last. k cleared last h.0 h.1) (remove_targets-Removes lower trim docker targets cleared)

  with_dependents-IsDestroyed :
      (d c : D) (targets : List Container) (out : Option (List Container) × D)
      → docker.list_dependents name c ≡ out
      → ((engines : List Container) (asked cleared last : D)
          → docker.list_dependents name c ≡ (some engines, asked)
          → AllOf (IsEngine lower trim cfg) (dependents name engines)
          → AllRemoved docker (dependents name engines) asked cleared
          → AllRemoved docker targets cleared last
          → Confirmed last)
      → IsDestroyed (with_dependents lower trim docker cfg name (asking d) targets out)
  with_dependents-IsDestroyed d c targets (none, asked) e k = asking-Retryable asked
  with_dependents-IsDestroyed d c targets (some engines, asked) e k =
      then_targets-IsDestroyed d asked engines targets
        (remove_dependents lower trim docker cfg name engines asked)
        (λ cleared last. k engines asked cleared last e)
        (remove_dependents-Cleared lower trim docker cfg name engines asked)

  with_targets-IsDestroyed :
      (client listed : D) (containers : List Container)
      (out : (DestroyError × List Container) × Bool)
      → docker.connect f.docker ≡ (true, client)
      → docker.list_all client ≡ (some containers, listed)
      → Checked lower trim name (known_id (get_vpn_node name f.store)) containers out
      → IsDestroyed (with_targets lower trim docker cfg name (asking listed) out)
  with_targets-IsDestroyed client listed containers ((e, targets), false) a l h =
      asking-Retryable listed
  with_targets-IsDestroyed client listed containers ((e, targets), true) a l h =
      with_dependents-IsDestroyed listed listed targets (docker.list_dependents name listed) refl
        (λ engines asked cleared last d i g r. record {
          client = client;
          connected = a;
          containers = containers;
          all_listed = listed;
          found = l;
          ours = h.1;
          engines = engines;
          asked = asked;
          depend = d;
          engines_ours = i;
          cleared = cleared;
          engines_gone = g;
          nodes_gone = subst (λ cs. AllRemoved docker cs cleared last) h.0 r;
        })

  with_containers-IsDestroyed :
      (client : D) (out : Option (List Container) × D)
      → docker.connect f.docker ≡ (true, client)
      → docker.list_all client ≡ out
      → IsDestroyed (
          with_containers lower trim docker cfg name
            (known_id (get_vpn_node name f.store))
            (asking client)
            out)
  with_containers-IsDestroyed client (none, listed) a l = asking-Retryable listed
  with_containers-IsDestroyed client (some containers, listed) a l =
      let id = known_id (get_vpn_node name f.store) in
      with_targets-IsDestroyed client listed containers (find_targets lower trim name id containers)
        a l (find_targets-Checked lower trim name id containers)

  with_client-IsDestroyed :
      (out : Bool × D)
      → docker.connect f.docker ≡ out
      → IsDestroyed (
          with_client lower trim docker cfg name
            (known_id (get_vpn_node name f.store))
            (asking f.docker)
            out)
  with_client-IsDestroyed (false, client) a = asking-Retryable client
  with_client-IsDestroyed (true, client) a =
      with_containers-IsDestroyed client (docker.list_all client) a refl

  -- However Docker answers, `DestroyNode` either returns no error or returns one. With no error,
  -- every container of the node's name was owned and had the known ID, if one was known, every
  -- listed container that carries the node's label was an engine, Docker has confirmed the removal
  -- of all of these, one by one, the node is gone from the store and holds no credential, its AirVPN
  -- port is released, and the other nodes are as before. After an error the credentials, the AirVPN
  -- ports and the store are as before, but that the node may drain now: it can be tried again.
  pub destroy_node-IsDestroyed : IsDestroyed (destroy_node lower trim docker cfg now name f)
  unfolding destroy_node
  destroy_node-IsDestroyed =
      elim (Bool-cases (str_eq name "" || not (str_eq (trim_slash name) name))) [
        | inl invalid ↦ rw invalid (record { creds = refl; ports = refl; store = inl refl })
        | inr valid ↦ rw valid (elim (Bool-cases (is_external (get_vpn_node name f.store))) [
          | inl foreign ↦ rw foreign (record { creds = refl; ports = refl; store = inl refl })
          | inr ours ↦ rw ours (with_client-IsDestroyed (docker.connect f.docker) refl)
        ])
      ]
