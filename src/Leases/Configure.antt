-- ===== src/Leases/Configure.antt =====
-- credentials.go: `Configure` puts a new list of credentials in place of the pool. `digest` is the
-- text made of the index and the SHA-256 hash of a credential's JSON. The rebuild of the AirVPN
-- port pool at its end is left out: it is a separate state.
use acestream_orchestrator.Prelude.{
  ℕ, ◌+◌, ◌≤◌, ◌≡◌, refl, Bool, true, false, not, none, List, [], ◌∷◌, arith, if◌then◌else◌, String,
  str_eq, eq_iff, ◌⊎◌, inl,
}
use acestream_orchestrator.Prelude.Maps.{Map, lookup, insert, delete, lookup-insert}
use acestream_orchestrator.Leases.{text, Credential, CredentialManager, has, as_text, unused}
use acestream_orchestrator.Leases.Laws.{one_if, holders, holders-delete, IsExclusive}
use acestream_orchestrator.Leases.Restore.{pooled, queued-unused}

unfoldable pub build_credential_id : (ℕ → Credential → String) → ℕ → Credential → String
build_credential_id digest index cred =
    let id = as_text (lookup "id" cred) in if not (str_eq id "") then id else digest index cred

-- The loop that makes `newByID`, from `index` on.
unfoldable pub new_by_id :
    (ℕ → Credential → String) → ℕ → List Credential → Map Credential → Map Credential
new_by_id digest index [] by_id = by_id
new_by_id digest index (raw ∷ credentials) by_id =
    let id = build_credential_id digest index raw in
    new_by_id digest (index + 1) credentials (insert id (insert "id" (text id) raw) by_id)

-- `activeIDs`: the IDs on lease that the new pool still has.
unfoldable pub active_ids : Map Credential → Map String → Map Bool
active_ids by_id [] = []
active_ids by_id ((container_id, cred_id) ∷ leases) =
    let rest = active_ids by_id leases in
    if has (lookup cred_id by_id) then insert cred_id true rest else rest

-- The deletions, from a map with the containers as keys, of those whose credential is gone.
unfoldable pub evict : {V : Type 0} → Map Credential → Map String → Map V → Map V
evict by_id [] entries = entries
evict by_id ((container_id, cred_id) ∷ leases) entries =
    evict by_id leases (if has (lookup cred_id by_id) then entries else delete container_id entries)

unfoldable pub configure :
    (ℕ → Credential → String) → List Credential → CredentialManager → CredentialManager
configure digest credentials cm =
    let by_id = new_by_id digest 0 credentials [] in
    record {
      by_id = by_id;
      available = unused (active_ids by_id cm.leases) by_id;
      leases = evict by_id cm.leases cm.leases;
      lease_times = evict by_id cm.leases cm.lease_times;
    }

holders-evict :
    (id : String) (by_id : Map Credential) (leases entries : Map String)
    → holders id (evict by_id leases entries) ≤ holders id entries
unfolding evict
holders-evict id by_id [] entries = omega arith
holders-evict id by_id ((key, x) ∷ leases) entries = ground (
  arith,
  holders-evict id by_id leases (if has (lookup x by_id) then entries else delete key entries),
  holders-delete id key entries,
)

pooled-missing :
    (id : String) (by_id : Map Credential) → lookup id by_id ≡ none → pooled id by_id ≡ 0
unfolding lookup
pooled-missing id [] e = refl
pooled-missing id ((x, c) ∷ by_id) e = ground (arith, pooled-missing id by_id)

-- An ID of the new pool that is on lease is active.
active_ids-held :
    (id : String) (by_id : Map Credential) (leases : Map String)
    → holders id leases ≡ 0
      ⊎ (has (lookup id by_id) ≡ false)
      ⊎ (has (lookup id (active_ids by_id leases)) ≡ true)
unfolding active_ids
active_ids-held id by_id [] = inl refl
active_ids-held id by_id ((key, x) ∷ leases) = ground (
  arith,
  active_ids-held id by_id leases,
  lookup-insert x id true (active_ids by_id leases),
  eq_iff x id,
)

pooled-insert :
    (id x : String) (c : Credential) (by_id : Map Credential)
    → pooled id (insert x c by_id)
      ≡ (if has (lookup x by_id) then pooled id by_id else pooled id by_id + one_if x id)
unfolding insert lookup
pooled-insert id x c [] = omega arith
pooled-insert id x c ((y, d) ∷ by_id) = ground (arith, pooled-insert id x c by_id)

new_by_id-pooled :
    (digest : ℕ → Credential → String) (index : ℕ) (credentials : List Credential)
    (by_id : Map Credential)
    → ((id : String) → pooled id by_id ≤ 1)
    → (id : String) → pooled id (new_by_id digest index credentials by_id) ≤ 1
unfolding new_by_id
new_by_id-pooled digest index [] by_id v id = v id
new_by_id-pooled digest index (raw ∷ credentials) by_id v id =
    new_by_id-pooled digest (index + 1) credentials
      (insert name (insert "id" (text name) raw) by_id)
      (λ x. ground (
        arith,
        v x,
        pooled-insert x name (insert "id" (text name) raw) by_id,
        pooled-missing name by_id,
        eq_iff name x,
      ))
      id
  where
    name : String
    name = build_credential_id digest index raw

-- `Configure` with any list of credentials, even one that names an ID twice, keeps every
-- credential from being in the queue and on lease, or twice in either, if it was so before.
pub configure-IsExclusive :
    (digest : ℕ → Credential → String) (credentials : List Credential) (cm : CredentialManager)
    → IsExclusive cm
    → IsExclusive (configure digest credentials cm)
unfolding configure
configure-IsExclusive digest credentials cm v id =
    let by_id = new_by_id digest 0 credentials [] in
    ground (
      arith,
      v id,
      new_by_id-pooled digest 0 credentials [] (λ x. omega arith) id,
      queued-unused id (active_ids by_id cm.leases) by_id,
      holders-evict id by_id cm.leases cm.leases,
      active_ids-held id by_id cm.leases,
      pooled-missing id by_id,
    )
