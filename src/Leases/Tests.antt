-- ===== src/Leases/Tests.antt =====
-- The theorems on the credential pool at concrete inputs.
use acestream_orchestrator.Prelude.{
  ◌+◌, ◌≤◌, ◌≡◌, ◌≢◌, refl, sym, Bool-cases, inl, inr, some, List, [], ◌∷◌, arith, String, str_eq,
  eq_iff,
}
use acestream_orchestrator.Prelude.Maps.{Map, lookup, insert, delete}
use acestream_orchestrator.Leases.{Value, text, CredentialManager, acquire_lease, release_lease}
use acestream_orchestrator.Leases.Laws.{
  Call, acquires, releases, run, run-exclusive, IsExclusive, one_if,
}

-- Two credentials, neither on lease.
abbrev two : CredentialManager
two = record {
  by_id = ("x", []) ∷ ("y", []) ∷ [];
  available = "x" ∷ "y" ∷ [];
  leases = [];
  lease_times = [];
}

x_or_y : (id : String) → one_if "x" id + one_if "y" id ≤ 1
x_or_y id = elim (Bool-cases (str_eq "x" id)) [
  | inl x ↦ rw (sym ((eq_iff "x" id).0 x)) (omega arith)
  | inr other ↦ rw other (elim (Bool-cases (str_eq "y" id)) [
    | inl y ↦ rw y (omega arith)
    | inr neither ↦ rw neither (omega arith)
  ])
]

two-IsExclusive : IsExclusive two
two-IsExclusive id = omega (arith, x_or_y id)

abbrev calls : List Call
calls = acquires 1 "a" ∷ releases "a" ∷ acquires 2 "a" ∷ acquires 3 "b" ∷ []

calls-run : lookup "a" (run calls two).leases ≡ some "y"
unfolding run acquire_lease release_lease lookup insert delete
calls-run = refl

run-exclusive_example : lookup "b" (run calls two).leases ≢ some "y"
run-exclusive_example =
    run-exclusive calls two "y" "a" "b" two-IsExclusive (λ e. ground (arith, e, eq_iff "a" "b"))
      calls-run

-- Two containers that name the same credential.
abbrev nodes : List (Map Value)
nodes =
    (("container_name", text "a") ∷ ("credential_id", text "x") ∷ [])
    ∷ (("container_name", text "b") ∷ ("credential_id", text "x") ∷ [])
    ∷ []
