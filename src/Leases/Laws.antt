-- ===== src/Leases/Laws.antt =====
-- Acquiring and releasing: a credential is never handed to two containers at once.
use acestream_orchestrator.Prelude.{
  ℕ, ◌+◌, ◌≤◌, ◌≡◌, ◌≢◌, refl, sym, ap, subst, ◌∙◌, Option, none, some, List, [], ◌∷◌, ◌++◌, arith,
  if◌then◌else◌, String, str_eq, eq_iff, Option-cases, inl, inr,
}
use acestream_orchestrator.Prelude.Maps.{Map, lookup, insert, delete, lookup-insert}
use acestream_orchestrator.Leases.{
  Lease, CredentialManager, existing, granted, or_zero_time, acquire_lease, release_lease,
}

-- 1 if the texts are the same.
abbrev pub one_if : String → String → ℕ
one_if a b = if str_eq a b then 1 else 0

-- How often an ID stands in the queue, and how many containers hold it.
abbrev pub queued : String → List String → ℕ
queued id [] = 0
queued id (x ∷ xs) = one_if x id + queued id xs

abbrev pub holders : String → Map String → ℕ
holders id [] = 0
holders id ((key, x) ∷ leases) = one_if x id + holders id leases

-- Every credential is in the queue once, or held by one container, or neither.
abbrev pub IsExclusive : CredentialManager → Type 0
IsExclusive cm = (id : String) → queued id cm.available + holders id cm.leases ≤ 1

queued-append :
    (id x : String) (xs : List String) → queued id (xs ++ (x ∷ [])) ≡ queued id xs + one_if x id
queued-append id x [] = omega arith
queued-append id x (y ∷ xs) = omega (arith, queued-append id x xs)

pub holders-insert :
    (id key x : String) (leases : Map String)
    → holders id (insert key x leases) ≤ holders id leases + one_if x id
unfolding insert
holders-insert id key x [] = omega arith
holders-insert id key x ((name, y) ∷ leases) = ground (arith, holders-insert id key x leases)

pub holders-delete :
    (id key : String) (leases : Map String) → holders id (delete key leases) ≤ holders id leases
unfolding delete
holders-delete id key [] = omega arith
holders-delete id key ((name, y) ∷ leases) = ground (arith, holders-delete id key leases)

holders-delete_held :
    (id key x : String) (leases : Map String)
    → lookup key leases ≡ some x
    → holders id (delete key leases) + one_if x id ≤ holders id leases
unfolding delete lookup
holders-delete_held id key x [] e = absurd (cc)
holders-delete_held id key x ((name, y) ∷ leases) e =
    ground (arith, holders-delete_held id key x leases, holders-delete id key leases)

abbrev KeepsExclusive : CredentialManager × Option Lease → Type 0
KeepsExclusive out = IsExclusive out.0

-- The pool and the lease after a call that takes the next ID of the queue.
abbrev taken : ℕ → String → CredentialManager → String → List String → CredentialManager
taken now container_id cm cred_id rest = record cm {
  available = rest;
  leases = insert container_id cred_id cm.leases;
  lease_times = insert container_id now cm.lease_times;
}

module _ (now : ℕ) (container_id : String) (cm : CredentialManager) where
  acquire_lease_held :
      {c : String}
      → lookup container_id cm.leases ≡ some c
      → acquire_lease now container_id cm ≡ (cm, some (existing container_id c cm))
  unfolding acquire_lease
  acquire_lease_held h = rw (h, acquire_lease) refl

  acquire_lease_empty :
      lookup container_id cm.leases ≡ none
      → cm.available ≡ []
      → acquire_lease now container_id cm ≡ (cm, none)
  unfolding acquire_lease
  acquire_lease_empty h e = rw (h, acquire_lease) (simp (e))

  acquire_lease_next :
      {c : String} {rest : List String}
      → lookup container_id cm.leases ≡ none
      → cm.available ≡ c ∷ rest
      → acquire_lease now container_id cm
        ≡ (taken now container_id cm c rest, some (granted now container_id c cm))
  unfolding acquire_lease
  acquire_lease_next h e = rw (h, acquire_lease) (rw e refl)

  taken-IsExclusive :
      (c : String) (rest : List String)
      → IsExclusive cm
      → cm.available ≡ c ∷ rest
      → IsExclusive (taken now container_id cm c rest)
  taken-IsExclusive c rest v e id =
      omega (arith, v id, ap (queued id) e, holders-insert id container_id c cm.leases)

  acquire_lease-IsExclusive : IsExclusive cm → IsExclusive (acquire_lease now container_id cm).0
  acquire_lease-IsExclusive v = elim (Option-cases (lookup container_id cm.leases)) [
    | inl free ↦ go cm.available refl free
    | inr (c, held) ↦ subst KeepsExclusive (sym (acquire_lease_held held)) v
  ]
    where
      go :
          (available : List String)
          → cm.available ≡ available
          → lookup container_id cm.leases ≡ none
          → IsExclusive (acquire_lease now container_id cm).0
      go [] e free = subst KeepsExclusive (sym (acquire_lease_empty free e)) v
      go (c ∷ rest) e free =
          subst KeepsExclusive (sym (acquire_lease_next free e)) (taken-IsExclusive c rest v e)

release_lease-IsExclusive :
    (container_id : String) (cm : CredentialManager)
    → IsExclusive cm
    → IsExclusive (release_lease container_id cm).0
unfolding release_lease
release_lease-IsExclusive container_id cm v id = go (lookup container_id cm.leases) refl
  where
    go :
        (held : Option String)
        → lookup container_id cm.leases ≡ held
        → queued id (release_lease container_id cm).0.available
            + holders id (release_lease container_id cm).0.leases
          ≤ 1
    go none e = rw (e, holders, queued) (v id)
    go (some c) e = ground (
      arith,
      e,
      v id,
      queued-append id c cm.available,
      holders-delete_held id container_id c cm.leases e,
    )

-- A call on the pool.
pub data Call : Type 0 where
  acquires : ℕ → String → Call
  releases : String → Call

unfoldable pub run : List Call → CredentialManager → CredentialManager
run [] cm = cm
run (acquires now container_id ∷ calls) cm = run calls (acquire_lease now container_id cm).0
run (releases container_id ∷ calls) cm = run calls (release_lease container_id cm).0

run-IsExclusive :
    (calls : List Call) (cm : CredentialManager) → IsExclusive cm → IsExclusive (run calls cm)
unfolding run
run-IsExclusive [] cm v = v
run-IsExclusive (acquires now id ∷ calls) cm v =
    run-IsExclusive calls (acquire_lease now id cm).0 (acquire_lease-IsExclusive now id cm v)
run-IsExclusive (releases id ∷ calls) cm v =
    run-IsExclusive calls (release_lease id cm).0 (release_lease-IsExclusive id cm v)

holders-lookup :
    (id key : String) (leases : Map String) → lookup key leases ≡ some id → 1 ≤ holders id leases
unfolding lookup
holders-lookup id key [] e = absurd (cc)
holders-lookup id key ((name, x) ∷ leases) e =
    ground (arith, holders-lookup id key leases, eq_iff x id)

holders-two :
    (id key second : String) (leases : Map String)
    → key ≢ second
    → lookup key leases ≡ some id
    → lookup second leases ≡ some id
    → 2 ≤ holders id leases
unfolding lookup
holders-two id key second [] n e f = absurd (cc)
holders-two id key second ((name, x) ∷ leases) n e f = ground (
  arith,
  holders-two id key second leases n,
  holders-lookup id key leases,
  holders-lookup id second leases,
  eq_iff x id,
  eq_iff name key,
  eq_iff name second,
)

-- From a pool in which no credential is twice in the queue or on lease, no sequence of acquire
-- and release calls leads to two containers with the same credential.
pub run-exclusive :
    (calls : List Call) (cm : CredentialManager) (id key second : String)
    → IsExclusive cm
    → key ≢ second
    → lookup key (run calls cm).leases ≡ some id
    → lookup second (run calls cm).leases ≢ some id
run-exclusive calls cm id key second v n e f =
    omega
      (arith, run-IsExclusive calls cm v id, holders-two id key second (run calls cm).leases n e f)

-- A container that has got a lease gets, from a second call of `AcquireLease`, the same
-- credential, and the pool stays as the first call left it.
pub acquire_lease_again :
    (now later : ℕ) (container_id : String) (cm : CredentialManager)
    → (acquire_lease later container_id (acquire_lease now container_id cm).0)
      ≡ acquire_lease now container_id cm
acquire_lease_again now later container_id cm =
    elim (Option-cases (lookup container_id cm.leases)) [
      | inl free ↦ go cm.available refl free
      | inr (c, held) ↦
          twice (acquire_lease_held now container_id cm held)
            (acquire_lease_held later container_id cm held)
    ]
  where
    twice :
        {out : CredentialManager × Option Lease}
        → acquire_lease now container_id cm ≡ out
        → acquire_lease later container_id out.0 ≡ out
        → acquire_lease later container_id (acquire_lease now container_id cm).0
          ≡ acquire_lease now container_id cm
    twice first second =
        ap (λ (o : CredentialManager × Option Lease). acquire_lease later container_id o.0) first
        ∙ second
        ∙ sym first

    found :
        {V : Type 0} (value : V) (entries : Map V)
        → lookup container_id (insert container_id value entries) ≡ some value
    found value entries =
        rw (lookup-insert container_id container_id value entries)
          (rw ((eq_iff container_id container_id).1 refl) refl)

    go :
        (available : List String)
        → cm.available ≡ available
        → lookup container_id cm.leases ≡ none
        → acquire_lease later container_id (acquire_lease now container_id cm).0
          ≡ acquire_lease now container_id cm
    go [] e free =
        twice (acquire_lease_empty now container_id cm free e)
          (acquire_lease_empty later container_id cm free e)
    go (c ∷ rest) e free = twice (acquire_lease_next now container_id cm free e) (
        acquire_lease_held later container_id (taken now container_id cm c rest)
          (found {V = String} c cm.leases)
        ∙ ap
            (λ t. (
              taken now container_id cm c rest,
              some (record (granted now container_id c cm) { leased_at = or_zero_time t }),
            ))
            (found now cm.lease_times))
