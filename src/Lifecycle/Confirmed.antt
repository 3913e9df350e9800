-- ===== src/Lifecycle/Confirmed.antt =====
-- What Docker has confirmed when the loops of `DestroyNode` have ended without an error.
use acestream_orchestrator.Prelude.{
  ◌≡◌, ◌≢◌, ◌⊎◌, inl, inr, refl, sym, ap, ◌∙◌, Bool, true, false, ◌&&◌, ◌||◌, not, Option, none,
  some, List, [], ◌∷◌, arith, if◌then◌else◌, AllOf, String, str_eq, eq_iff, Bool-cases,
}
use acestream_orchestrator.Lifecycle.{LifecycleConfig}
use acestream_orchestrator.Lifecycle.Destroy.{
  Container, Removal, removed, not_found, not_removed, NodeDocker, DestroyError, has_label,
  node_stuck, engine_stuck, vpn_role, owned_vpn, is_named, is_gone, add_target, find_targets,
  remove_dependents, remove_targets,
}

module _ {D : Type 0} (docker : NodeDocker D) where
  -- Docker has answered that the container was removed, or that there is none.
  abbrev pub Confirms : Container → D → D → Type 0
  Confirms c d e = (docker.remove c.id d ≡ (removed, e)) ⊎ (docker.remove c.id d ≡ (not_found, e))

  -- One after the other, for all of them, and no other call.
  abbrev pub AllRemoved : List Container → D → D → Type 0
  AllRemoved [] d e = e ≡ d
  AllRemoved (c ∷ containers) d e = (m : D) × Confirms c d m × AllRemoved containers m e

-- The containers of this name.
abbrev pub containers_of : String → List Container → List Container
containers_of name [] = []
containers_of name (c ∷ containers) =
    let rest = containers_of name containers in if is_named name c.names then c ∷ rest else rest

-- The containers that carry the label of this node.
abbrev pub dependents : String → List Container → List Container
dependents name [] = []
dependents name (c ∷ containers) =
    let rest = dependents name containers in
    if has_label "acestream.vpn_container" name c.labels then c ∷ rest else rest

module _ (lower trim : String → String) where
  -- A container of the node's name is owned and has the ID that is known, if one is, and no other
  -- container has that ID.
  abbrev pub IsOurs : String → String → Container → Type 0
  IsOurs name id c =
      (is_named name c.names ≡ true
        → (owned_vpn lower trim name c.labels ≡ true) × ((id ≡ "") ⊎ (id ≡ c.id)))
      × (is_named name c.names ≡ false → (id ≡ "") ⊎ (c.id ≢ id))

  -- A container with the label of the engines, and no VPN node.
  abbrev pub IsEngine : LifecycleConfig → Container → Type 0
  IsEngine cfg c =
      (has_label cfg.container_label_key cfg.container_label_val c.labels ≡ true)
      × (vpn_role lower trim "" c.labels ≡ false)

  abbrev pub Checked :
      String → String → List Container → (DestroyError × List Container) × Bool → Type 0
  Checked name id containers ((e, targets), false) = Unit {0}
  Checked name id containers ((e, targets), true) =
      (targets ≡ containers_of name containers) × AllOf (IsOurs name id) containers

  add_target-Checked :
      (name id : String) (c : Container) (containers : List Container)
      (out : (DestroyError × List Container) × Bool)
      → is_named name c.names ≡ true
      → owned_vpn lower trim name c.labels ≡ true
      → (id ≡ "") ⊎ (id ≡ c.id)
      → Checked name id containers out
      → Checked name id (c ∷ containers) (add_target c out)
  add_target-Checked name id c containers ((e, targets), false) n o i h = tt
  add_target-Checked name id c containers ((e, targets), true) n o i h =
      (ap (λ l. c ∷ l) h.0 ∙ sym (rw n refl), ((λ _. (o, i), λ f. ground (arith, n, f)), h.1))

  skip-Checked :
      (name id : String) (c : Container) (containers : List Container)
      (out : (DestroyError × List Container) × Bool)
      → is_named name c.names ≡ false
      → (id ≡ "") ⊎ (c.id ≢ id)
      → Checked name id containers out
      → Checked name id (c ∷ containers) out
  skip-Checked name id c containers ((e, targets), false) n i h = tt
  skip-Checked name id c containers ((e, targets), true) n i h =
      (h.0 ∙ sym (rw n refl), ((λ t. ground (arith, n, t), λ _. i), h.1))

  pub find_targets-Checked :
      (name id : String) (containers : List Container)
      → Checked name id containers (find_targets lower trim name id containers)
  unfolding find_targets
  find_targets-Checked name id [] = (refl, tt)
  find_targets-Checked name id (c ∷ containers) =
      let rest = find_targets-Checked name id containers in
      let out = find_targets lower trim name id containers in
      elim (Bool-cases (is_named name c.names)) [
        | inr other ↦ rw other (elim (Bool-cases (not (str_eq id "") && str_eq c.id id)) [
          | inl moved ↦ rw moved tt
          | inr apart ↦
              rw apart (skip-Checked name id c containers out other (free_id id c.id apart) rest)
        ])
        | inl here ↦ rw here (elim (Bool-cases (owned_vpn lower trim name c.labels)) [
          | inr foreign ↦ rw foreign tt
          | inl owned ↦ rw owned (elim (Bool-cases (not (str_eq id "") && not (str_eq id c.id))) [
            | inl changes ↦ rw changes tt
            | inr agrees ↦ rw agrees (
                add_target-Checked name id c containers out here owned (same_id id c.id agrees)
                  rest)
          ])
        ])
      ]
    where
      free_id :
          (id other : String)
          → (not (str_eq id "") && str_eq other id) ≡ false
          → (id ≡ "") ⊎ (other ≢ id)
      free_id id other h = ground (arith, h, eq_iff id "", eq_iff other id)

      same_id :
          (id other : String)
          → (not (str_eq id "") && not (str_eq id other)) ≡ false
          → (id ≡ "") ⊎ (id ≡ other)
      same_id id other h = ground (arith, h, eq_iff id "", eq_iff id other)

  module _ {D : Type 0} (docker : NodeDocker D) where
    abbrev pub Removes : List Container → D → Option DestroyError × D → Type 0
    Removes targets d (some e, last) = Unit {0}
    Removes targets d (none, last) = AllRemoved docker targets d last

    first-Removes :
        (c : Container) (targets : List Container) (d m : D) (out : Option DestroyError × D)
        → Confirms docker c d m
        → Removes targets m out
        → Removes (c ∷ targets) d out
    first-Removes c targets d m (some e, last) h rest = tt
    first-Removes c targets d m (none, last) h rest = (m, h, rest)

    -- What a call of Docker means for the loop that goes on when the container is gone.
    after-Removes :
        (c : Container) (targets : List Container) (d : D) (e : DestroyError) (r : Removal) (m : D)
        (out : Option DestroyError × D)
        → docker.remove c.id d ≡ (r, m)
        → Removes targets m out
        → Removes (c ∷ targets) d (if is_gone r then out else (some e, m))
    after-Removes c targets d e removed m out h rest = first-Removes c targets d m out (inl h) rest
    after-Removes c targets d e not_found m out h rest =
        first-Removes c targets d m out (inr h) rest
    after-Removes c targets d e not_removed m out h rest = tt

    pub remove_targets-Removes :
        (targets : List Container) (d : D)
        → Removes targets d (remove_targets lower trim docker targets d)
    unfolding remove_targets
    remove_targets-Removes [] d = refl
    remove_targets-Removes (c ∷ targets) d =
        let (removal, m) = docker.remove c.id d in
        after-Removes c targets d (node_stuck c.id) removal m
          (remove_targets lower trim docker targets m) refl (remove_targets-Removes targets m)

    abbrev pub Cleared :
        LifecycleConfig → String → List Container → D → Option DestroyError × D → Type 0
    Cleared cfg name engines d (some e, last) = Unit {0}
    Cleared cfg name engines d (none, last) =
        AllOf (IsEngine cfg) (dependents name engines)
        × AllRemoved docker (dependents name engines) d last

    first-Cleared :
        (cfg : LifecycleConfig) (name : String) (c : Container) (engines : List Container) (d : D)
        (e : DestroyError) (r : Removal) (m : D) (out : Option DestroyError × D)
        → docker.remove c.id d ≡ (r, m)
        → has_label "acestream.vpn_container" name c.labels ≡ true
        → IsEngine cfg c
        → Cleared cfg name engines m out
        → Cleared cfg name (c ∷ engines) d (if is_gone r then out else (some e, m))
    first-Cleared cfg name c engines d e not_removed m out h l i rest = tt
    first-Cleared cfg name c engines d e removed m (some f, last) h l i rest = tt
    first-Cleared cfg name c engines d e not_found m (some f, last) h l i rest = tt
    first-Cleared cfg name c engines d e removed m (none, last) h l i rest =
        rw l ((i, rest.0), (m, inl h, rest.1))
    first-Cleared cfg name c engines d e not_found m (none, last) h l i rest =
        rw l ((i, rest.0), (m, inr h, rest.1))

    skip-Cleared :
        (cfg : LifecycleConfig) (name : String) (c : Container) (engines : List Container) (d : D)
        (out : Option DestroyError × D)
        → has_label "acestream.vpn_container" name c.labels ≡ false
        → Cleared cfg name engines d out
        → Cleared cfg name (c ∷ engines) d out
    skip-Cleared cfg name c engines d (some e, last) l rest = tt
    skip-Cleared cfg name c engines d (none, last) l rest = rw l rest

    pub remove_dependents-Cleared :
        (cfg : LifecycleConfig) (name : String) (engines : List Container) (d : D)
        → Cleared cfg name engines d (remove_dependents lower trim docker cfg name engines d)
    unfolding remove_dependents
    remove_dependents-Cleared cfg name [] d = (tt, refl)
    remove_dependents-Cleared cfg name (c ∷ engines) d =
        let (removal, m) = docker.remove c.id d in
        let skipped = remove_dependents lower trim docker cfg name engines d in
        let rest = remove_dependents lower trim docker cfg name engines m in
        elim (Bool-cases (has_label "acestream.vpn_container" name c.labels)) [
          | inr other ↦ rw other (
              skip-Cleared cfg name c engines d skipped other
                (remove_dependents-Cleared cfg name engines d))
          | inl depends ↦
              rw depends
                (elim (Bool-cases (
                  not (has_label cfg.container_label_key cfg.container_label_val c.labels)
                  || vpn_role lower trim "" c.labels)) [
                    | inl foreign ↦ rw foreign tt
                    | inr engine ↦ rw engine (
                        first-Cleared cfg name c engines d (engine_stuck c.id) removal m rest refl
                          depends (ground (arith, engine), ground (arith, engine))
                          (remove_dependents-Cleared cfg name engines m))
                  ])
        ]
