-- ===== src/Leases/Restore.antt =====
-- `RestoreLeases`: the pool after a restart.
use acestream_orchestrator.Prelude.{
  ℕ, ◌+◌, ◌≤◌, Bool, true, List, [], ◌∷◌, arith, if◌then◌else◌, String, eq_iff,
}
use acestream_orchestrator.Prelude.Maps.{Map, lookup, lookup-insert}
use acestream_orchestrator.Leases.{
  Value, Credential, CredentialManager, has, as_text, container_key, Restored, restore_node,
  restore_nodes, unused, restore_leases,
}
use acestream_orchestrator.Leases.Laws.{one_if, queued, holders, IsExclusive, holders-insert}

-- How often an ID is a key of the pool.
abbrev pub pooled : String → Map Credential → ℕ
pooled id [] = 0
pooled id ((x, c) ∷ by_id) = one_if x id + pooled id by_id

-- A used ID is on lease at most once, and no other is.
abbrev IsCounted : Restored → Type 0
IsCounted r = (id : String) → holders id r.leases ≤ (if has (lookup id r.used) then 1 else 0)

restore_node-IsCounted :
    (now : ℕ) (cm : CredentialManager) (node : Map Value) (r : Restored)
    → IsCounted r
    → IsCounted (restore_node now cm node r)
unfolding restore_node
restore_node-IsCounted now cm node r v id =
    let cred_id = as_text (lookup "credential_id" node) in
    ground (
      arith,
      v id,
      v cred_id,
      lookup-insert cred_id id true r.used,
      holders-insert id (container_key node) cred_id r.leases,
      eq_iff cred_id id,
    )

restore_nodes-IsCounted :
    (now : ℕ) (cm : CredentialManager) (nodes : List (Map Value)) (r : Restored)
    → IsCounted r
    → IsCounted (restore_nodes now cm nodes r)
unfolding restore_nodes
restore_nodes-IsCounted now cm [] r v = v
restore_nodes-IsCounted now cm (node ∷ nodes) r v =
    restore_nodes-IsCounted now cm nodes (restore_node now cm node r)
      (restore_node-IsCounted now cm node r v)

pub queued-unused :
    (id : String) (used : Map Bool) (by_id : Map Credential)
    → queued id (unused used by_id) ≤ (if has (lookup id used) then 0 else pooled id by_id)
unfolding unused
queued-unused id used [] = ground arith
queued-unused id used ((x, c) ∷ by_id) = ground (arith, queued-unused id used by_id, eq_iff x id)

-- After `RestoreLeases` from any list of containers, on a pool in which no ID is twice, no
-- credential is in the queue and on lease, or twice in either: one that two of the containers
-- name is given to the first only.
pub restore_leases-IsExclusive :
    (now : ℕ) (nodes : List (Map Value)) (cm : CredentialManager)
    → ((id : String) → pooled id cm.by_id ≤ 1)
    → IsExclusive (restore_leases now nodes cm)
unfolding restore_leases
restore_leases-IsExclusive now nodes cm distinct id =
    let r = restore_nodes now cm nodes (record { used = []; leases = []; times = [] }) in
    ground (
      arith,
      distinct id,
      restore_nodes-IsCounted now cm nodes (record { used = []; leases = []; times = [] })
          (λ x. omega arith) id,
      queued-unused id r.used cm.by_id,
    )
