-- ===== src/AirVpn/Laws.antt =====
-- The two maps of the pool agree, so no two containers hold one port.
use acestream_orchestrator.Prelude.{
  ℕ, ◌≡◌, refl, sym, subst, ◌∙◌, Option, none, some, List, [], ◌∷◌, if◌then◌else◌, ◌==◌, arith,
  Bool-cases, inl, inr, String, eq_iff,
}
use acestream_orchestrator.Prelude.Maps.{lookup, lookup-insert, lookup-delete}
use acestream_orchestrator.State.{is_some}
use acestream_orchestrator.AirVpn.{
  AirVpnPortPool, new_air_vpn_port_pool, holder, unclaim, is_seen, union, drop_claim, evict_port,
  evict_each, rebuild, free_port, claim_port, acquire_from, acquire_port, release_claim,
  release_port,
}

-- A container holds a port in one map exactly if it does in the other.
pub record IsMatched (p : AirVpnPortPool) : Type 0 where
  pub to_claimed :
      (name : String) (port : ℕ)
      → lookup name p.by_cont ≡ some port
      → holder port p.claimed ≡ some name
  pub to_by_cont :
      (name : String) (port : ℕ)
      → holder port p.claimed ≡ some name
      → lookup name p.by_cont ≡ some port

holder-unclaim :
    (port other : ℕ) (claimed : List (ℕ × String))
    → holder other (unclaim port claimed) ≡ (if port == other then none else holder other claimed)
unfolding holder unclaim
holder-unclaim port other [] = ground arith
holder-unclaim port other ((p, name) ∷ claimed) = ground (arith, holder-unclaim port other claimed)

drop_claim-IsMatched :
    (port : ℕ) (name : String) (p : AirVpnPortPool)
    → lookup name p.by_cont ≡ some port
    → IsMatched p
    → IsMatched (drop_claim port name p)
drop_claim-IsMatched port name p e m = record {
  to_claimed = λ other q h. ground (
    arith,
    h,
    e,
    holder-unclaim port q p.claimed,
    lookup-delete name other p.by_cont,
    m.to_claimed other q,
    m.to_claimed name port,
    eq_iff name other,
  );
  to_by_cont = λ other q h. ground (
    arith,
    h,
    e,
    holder-unclaim port q p.claimed,
    lookup-delete name other p.by_cont,
    m.to_by_cont other q,
    m.to_claimed name port,
    eq_iff name other,
  );
}

claim_port-IsMatched :
    (port : ℕ) (name : String) (p : AirVpnPortPool)
    → lookup name p.by_cont ≡ none
    → holder port p.claimed ≡ none
    → IsMatched p
    → IsMatched (claim_port name (some port) p).1
unfolding holder
claim_port-IsMatched port name p e f m = record {
  to_claimed = λ other q h. ground (
    arith,
    h,
    e,
    f,
    lookup-insert name other port p.by_cont,
    m.to_claimed other q,
    eq_iff name other,
  );
  to_by_cont = λ other q h. ground (
    arith,
    h,
    e,
    f,
    lookup-insert name other port p.by_cont,
    m.to_by_cont other q,
    eq_iff name other,
  );
}

free_port-holder :
    (port : ℕ) (ports : List ℕ) (claimed : List (ℕ × String))
    → free_port ports claimed ≡ some port
    → holder port claimed ≡ none
unfolding free_port
free_port-holder port [] claimed h = ground (arith, h)
free_port-holder port (q ∷ ports) claimed h =
    go (holder q claimed) refl (λ k. free_port-holder port ports claimed k) h
  where
    go :
        (o : Option String)
        → holder q claimed ≡ o
        → (free_port ports claimed ≡ some port → holder port claimed ≡ none)
        → (if is_some o then free_port ports claimed else some q) ≡ some port
        → holder port claimed ≡ none
    go none e later k = ground (arith, e, k)
    go (some name) e later k = later k

acquire_port-IsMatched :
    (name : String) (p : AirVpnPortPool) → IsMatched p → IsMatched (acquire_port name p).1
unfolding acquire_port
acquire_port-IsMatched name p m = go (lookup name p.by_cont) refl (free_port p.all p.claimed) refl
  where
    go :
        (o : Option ℕ)
        → lookup name p.by_cont ≡ o
        → (free : Option ℕ) → free_port p.all p.claimed ≡ free
        → IsMatched (acquire_from name o p).1
    go (some port) e free f = m
    go none e none f = subst (λ o. IsMatched (claim_port name o p).1) (sym f) m
    go none e (some port) f =
        subst (λ o. IsMatched (claim_port name o p).1) (sym f)
          (claim_port-IsMatched port name p e (free_port-holder port p.all p.claimed f) m)

release_port-IsMatched :
    (name : String) (p : AirVpnPortPool) → IsMatched p → IsMatched (release_port name p)
unfolding release_port
release_port-IsMatched name p m = go (lookup name p.by_cont) refl
  where
    go : (o : Option ℕ) → lookup name p.by_cont ≡ o → IsMatched (release_claim name o p)
    go none e = m
    go (some port) e = drop_claim-IsMatched port name p e m

evict_port-IsMatched :
    (port : ℕ) (p : AirVpnPortPool)
    → IsMatched p
    → IsMatched (evict_port port (holder port p.claimed) p)
evict_port-IsMatched port p m = go (holder port p.claimed) refl
  where
    go : (o : Option String) → holder port p.claimed ≡ o → IsMatched (evict_port port o p)
    go none e = m
    go (some name) e = drop_claim-IsMatched port name p (m.to_by_cont name port e) m

evict_each-IsMatched :
    (claims : List (ℕ × String)) (p : AirVpnPortPool)
    → IsMatched p
    → IsMatched (evict_each claims p)
unfolding evict_each
evict_each-IsMatched [] p m = m
evict_each-IsMatched ((port, name) ∷ claims) p m = elim (Bool-cases (is_seen port p.all)) [
  | inl seen ↦ rw seen (evict_each-IsMatched claims p m)
  | inr gone ↦ rw gone (
      evict_each-IsMatched claims (evict_port port (holder port p.claimed) p)
        (evict_port-IsMatched port p m))
]

rebuild-IsMatched :
    (ports : List ℕ) (p : AirVpnPortPool) → IsMatched p → IsMatched (rebuild ports p)
unfolding rebuild
rebuild-IsMatched ports p m =
    evict_each-IsMatched p.claimed (record p { all = union ports [] })
      (record { to_claimed = m.to_claimed; to_by_cont = m.to_by_cont })

-- One call on the pool.
pub data PoolCall : Type 0 where
  rebuilds : List ℕ → PoolCall
  acquires releases : String → PoolCall

abbrev pub step : PoolCall → AirVpnPortPool → AirVpnPortPool
step (rebuilds ports) p = rebuild ports p
step (acquires name) p = (acquire_port name p).1
step (releases name) p = release_port name p

abbrev pub run : List PoolCall → AirVpnPortPool → AirVpnPortPool
run [] p = p
run (call ∷ calls) p = run calls (step call p)

run-IsMatched : (calls : List PoolCall) (p : AirVpnPortPool) → IsMatched p → IsMatched (run calls p)
run-IsMatched [] p m = m
run-IsMatched (rebuilds ports ∷ calls) p m =
    run-IsMatched calls (rebuild ports p) (rebuild-IsMatched ports p m)
run-IsMatched (acquires name ∷ calls) p m =
    run-IsMatched calls (acquire_port name p).1 (acquire_port-IsMatched name p m)
run-IsMatched (releases name ∷ calls) p m =
    run-IsMatched calls (release_port name p) (release_port-IsMatched name p m)

-- After any calls on a new pool, two containers that hold the same port are one container.
pub run-one_holder :
    (calls : List PoolCall) (name other : String) (port : ℕ)
    → lookup name (run calls new_air_vpn_port_pool).by_cont ≡ some port
    → lookup other (run calls new_air_vpn_port_pool).by_cont ≡ some port
    → name ≡ other
run-one_holder calls name other port h k =
    let m = run-IsMatched calls new_air_vpn_port_pool start in
    ground (arith, sym (m.to_claimed name port h) ∙ m.to_claimed other port k)
  where
    start : IsMatched new_air_vpn_port_pool
    start =
        unfold new_air_vpn_port_pool lookup holder in
        record { to_claimed = λ n q e. ground (arith, e); to_by_cont = λ n q e. ground (arith, e) }
