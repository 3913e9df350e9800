-- ===== src/Leases.antt =====
-- app/orchestrator/internal/controlplane/vpn/credentials.go: the pool of VPN credentials and
-- their leases to containers. A field of a credential is a text or another JSON value; a text
-- field is all that is read. The clock is an argument.
pub mod Laws
pub mod Restore
pub mod Configure
mod Tests
use acestream_orchestrator.Prelude.{
  ℕ, zero, suc, ◌+◌, Bool, true, false, not, ◌&&◌, ◌||◌, Option, none, some, List, [], ◌∷◌, ◌++◌,
  if◌then◌else◌, String, str_eq, length,
}
use acestream_orchestrator.Prelude.Maps.{Map, lookup, insert, delete}

pub data Value : Type 0 where
  text : String → Value
  other : ℕ → Value

abbrev pub Credential : Type 0
Credential = Map Value

pub record Lease : Type 0 where
  pub container_id : String
  pub credential_id : String
  pub leased_at : ℕ
  pub credential : Credential

pub record CredentialManager : Type 0 where
  pub by_id : Map Credential
  pub available : List String
  pub leases : Map String
  pub lease_times : Map ℕ

unfoldable pub new_credential_manager : CredentialManager
new_credential_manager = record { by_id = []; available = []; leases = []; lease_times = [] }

abbrev pub has : {A : Type 0} → Option A → Bool
has none = false
has (some a) = true

-- `m[key]` for a key that may be missing, which gives the zero value.
abbrev pub or_zero_time : Option ℕ → ℕ
or_zero_time none = 0
or_zero_time (some t) = t

abbrev pub or_nil : Option Credential → Credential
or_nil none = []
or_nil (some c) = c

-- `v.(string)`, with the empty text for anything else.
abbrev pub as_text : Option Value → String
as_text none = ""
as_text (some (other n)) = ""
as_text (some (text s)) = s

-- The lease that a container has already.
abbrev pub existing : String → String → CredentialManager → Lease
existing container_id cred_id cm = record {
  container_id = container_id;
  credential_id = cred_id;
  leased_at = or_zero_time (lookup container_id cm.lease_times);
  credential = or_nil (lookup cred_id cm.by_id);
}

abbrev pub granted : ℕ → String → String → CredentialManager → Lease
granted now container_id cred_id cm = record {
  container_id = container_id;
  credential_id = cred_id;
  leased_at = now;
  credential = or_nil (lookup cred_id cm.by_id);
}

unfoldable pub acquire_lease : ℕ → String → CredentialManager → CredentialManager × Option Lease
acquire_lease now container_id cm = elim (lookup container_id cm.leases) [
  | some cred_id ↦ (cm, some (existing container_id cred_id cm))
  | none ↦ elim cm.available [
    | [] ↦ (cm, none)
    | cred_id ∷ rest ↦ (
      record cm {
        available = rest;
        leases = insert container_id cred_id cm.leases;
        lease_times = insert container_id now cm.lease_times;
      },
      some (granted now container_id cred_id cm),
    )
  ]
]

unfoldable pub release_lease : String → CredentialManager → CredentialManager × Bool
release_lease container_id cm = elim (lookup container_id cm.leases) [
  | none ↦ (cm, false)
  | some cred_id ↦ (
    record cm {
      leases = delete container_id cm.leases;
      lease_times = delete container_id cm.lease_times;
      available =
          if has (lookup cred_id cm.by_id) then cm.available ++ (cred_id ∷ []) else cm.available;
    },
    true,
  )
]

-- `usedIDs`, `newLeases` and `newTimes`.
pub record Restored : Type 0 where
  pub used : Map Bool
  pub leases : Map String
  pub times : Map ℕ

abbrev pub container_key : Map Value → String
container_key node =
    let name = as_text (lookup "container_name" node) in
    if not (str_eq name "") then name else as_text (lookup "container_id" node)

-- One round of the loop over the nodes.
unfoldable pub restore_node : ℕ → CredentialManager → Map Value → Restored → Restored
restore_node now cm node r =
    let cred_id = as_text (lookup "credential_id" node) in
    let key = container_key node in
    if str_eq cred_id "" || not (has (lookup cred_id cm.by_id))
    then r
    else if has (lookup cred_id r.used) || str_eq key ""
    then r
    else record {
      used = insert cred_id true r.used;
      leases = insert key cred_id r.leases;
      times = insert key now r.times;
    }

unfoldable pub restore_nodes : ℕ → CredentialManager → List (Map Value) → Restored → Restored
restore_nodes now cm [] r = r
restore_nodes now cm (node ∷ nodes) r = restore_nodes now cm nodes (restore_node now cm node r)

-- The IDs of the pool that are not used, in an order of the map.
unfoldable pub unused : Map Bool → Map Credential → List String
unused used [] = []
unused used ((id, c) ∷ by_id) =
    let rest = unused used by_id in if has (lookup id used) then rest else id ∷ rest

unfoldable pub restore_leases : ℕ → List (Map Value) → CredentialManager → CredentialManager
restore_leases now nodes cm =
    let r = restore_nodes now cm nodes (record { used = []; leases = []; times = [] }) in
    record cm { leases = r.leases; lease_times = r.times; available = unused r.used cm.by_id }

unfoldable pub available_count : CredentialManager → ℕ
available_count cm = length cm.available

unfoldable pub total_count : CredentialManager → ℕ
total_count cm = length cm.by_id
