-- ===== src/Breaker/Manager/Laws.antt =====
-- The named breakers of a manager are always there, and the gauge shows their state.
use acestream_orchestrator.Prelude.{
  ℕ, ◌≡◌, refl, true, false, Option, none, some, String, List, [], ◌∷◌, if◌then◌else◌, str_eq,
  Bool-cases, Option-cases, inl, inr, ◌⊎◌,
}
use acestream_orchestrator.Prelude.Maps.{Map, lookup, insert, lookup-insert}
use acestream_orchestrator.Breaker
use acestream_orchestrator.Breaker.{Breaker}
use acestream_orchestrator.Breaker.Manager.{
  Manager, Call, provisions, succeeded, failed, resets, step, run, reset_one, new_manager, resolve,
  choose, can_provision, record_success, record_failure, force_reset, reset_each, update, store,
  choose,
}

-- The map has a breaker under the name.
abbrev pub Present : String → Map Breaker → Type 0
Present name breakers = (b : Breaker) × (lookup name breakers ≡ some b)

pub record IsValid (m : Manager) : Type 0 where
  pub general : Present "general" m.breakers
  pub replacement : Present "replacement" m.breakers

Present-insert :
    (name op : String) (b : Breaker) (breakers : Map Breaker)
    → Present name breakers
    → Present name (insert op b breakers)
Present-insert name op b breakers (c, e) = elim (Bool-cases (str_eq op name)) [
  | inl same ↦ (b, rw (lookup-insert, same) refl)
  | inr other ↦ (c, rw (lookup-insert, other) e)
]

new_manager-IsValid : (gt gr rt rr : ℕ) → IsValid (new_manager gt gr rt rr)
unfolding new_manager lookup insert
new_manager-IsValid gt gr rt rr = record {
  general = (Breaker.new gt gr, refl);
  replacement = (Breaker.new rt rr, refl);
}

update-IsValid : (name : String) (b : Breaker) (m : Manager) → IsValid m → IsValid (update name b m)
unfolding update
update-IsValid name b m v = record {
  general = Present-insert "general" name b m.breakers v.general;
  replacement = Present-insert "replacement" name b m.breakers v.replacement;
}

store-IsValid : (name : String) (b : Breaker) (m : Manager) → IsValid m → IsValid (store name b m)
unfolding store
store-IsValid name b m v = record {
  general = Present-insert "general" name b m.breakers v.general;
  replacement = Present-insert "replacement" name b m.breakers v.replacement;
}

-- The breaker that a call on `op` works on, and its name.
pub resolve_total :
    (op : String) (m : Manager)
    → IsValid m
    → (name : String) × (b : Breaker) × (resolve op m ≡ some (name, b))
unfolding resolve
resolve_total op m v = elim (Option-cases (lookup op m.breakers)) [
  | inl missing ↦ ("general", v.general.0, rw (missing, choose) (rw v.general.1 refl))
  | inr (b, found) ↦ (op, b, rw found refl)
]

reset_each-IsValid : (l : Map Breaker) (m : Manager) → IsValid m → IsValid (reset_each l m)
unfolding reset_each
reset_each-IsValid [] m v = v
reset_each-IsValid ((name, b) ∷ rest) m v =
    reset_each-IsValid rest (update name (Breaker.force_reset b) m)
      (update-IsValid name (Breaker.force_reset b) m v)

reset_one-IsValid :
    (op : String) (o : Option Breaker) (m : Manager) → IsValid m → IsValid (reset_one op o m)
unfolding reset_one
reset_one-IsValid op none m v = v
reset_one-IsValid op (some b) m v = update-IsValid op (Breaker.force_reset b) m v

force_reset-IsValid : (op : String) (m : Manager) → IsValid m → IsValid (force_reset op m)
unfolding force_reset
force_reset-IsValid op m v = elim (Bool-cases (str_eq op "")) [
  | inl all ↦ rw all (reset_each-IsValid m.breakers m v)
  | inr one ↦ rw one (reset_one-IsValid op (lookup op m.breakers) m v)
]

step_total :
    (c : Call) (m : Manager) → IsValid m → (m' : Manager) × (step c m ≡ some m') × IsValid m'
unfolding step can_provision record_success record_failure
step_total (provisions now op) m v =
    let (name, b, e) = resolve_total op m v in
    (
      store name (Breaker.can_execute now b).0 m,
      rw (e, step, can_provision) refl,
      store-IsValid name (Breaker.can_execute now b).0 m v,
    )
step_total (succeeded now op) m v =
    let (name, b, e) = resolve_total op m v in
    (
      update name (Breaker.record_success now b) m,
      rw (e, step, record_success) refl,
      update-IsValid name (Breaker.record_success now b) m v,
    )
step_total (failed now op) m v =
    let (name, b, e) = resolve_total op m v in
    (
      update name (Breaker.record_failure now b) m,
      rw (e, step, record_failure) refl,
      update-IsValid name (Breaker.record_failure now b) m v,
    )
step_total (resets op) m v = (force_reset op m, refl, force_reset-IsValid op m v)

run_total_of_IsValid :
    (cs : List Call) (m : Manager) → IsValid m → (m' : Manager) × (run cs m ≡ some m') × IsValid m'
unfolding run
run_total_of_IsValid [] m v = (m, refl, v)
run_total_of_IsValid (c ∷ cs) m v =
    let (m', e, v') = step_total c m v in
    let (last, e', w) = run_total_of_IsValid cs m' v' in (last, rw (e, run) e', w)

-- No history of calls on a manager made by `NewManager`, with any operation types, ends in a
-- nil-pointer panic, and the `general` and the `replacement` breaker are there at its end.
pub run_total :
    (gt gr rt rr : ℕ) (cs : List Call)
    → (m : Manager) × (run cs (new_manager gt gr rt rr) ≡ some m) × IsValid m
run_total gt gr rt rr cs =
    run_total_of_IsValid cs (new_manager gt gr rt rr) (new_manager-IsValid gt gr rt rr)

-- The breaker that a failure of `op` is counted on, the one of that name or else `general`: it
-- takes the failure, the gauge of its name shows whether it is open now, and the breakers and
-- the gauges of all other names are as before.
pub record_failure_lem :
    (now : ℕ) (op other : String) (m : Manager)
    → IsValid m
    → (name : String) × (b : Breaker) × (m' : Manager) × (resolve op m ≡ some (name, b))
      × (record_failure now op m ≡ some m')
      × (lookup other m'.breakers ≡ (
          if str_eq name other
          then some (Breaker.record_failure now b)
          else lookup other m.breakers))
      × (lookup other m'.gauge ≡ (
          if str_eq name other
          then some (Breaker.is_open (Breaker.record_failure now b))
          else lookup other m.gauge))
unfolding record_failure update
record_failure_lem now op other m v =
    let (name, b, e) = resolve_total op m v in
    (
      name,
      b,
      update name (Breaker.record_failure now b) m,
      e,
      rw (e, record_failure) refl,
      lookup-insert name other _ m.breakers,
      lookup-insert name other _ m.gauge,
    )

-- A breaker in the state that a reset leaves.
abbrev pub ResetAt : String → Manager → Type 0
ResetAt name m =
    (b : Breaker) × (lookup name m.breakers ≡ some b)
    × (b.state ≡ Breaker.closed)
    × (b.failure_count ≡ 0)

update-ResetAt :
    (name op : String) (b : Breaker) (m : Manager)
    → ResetAt name m ⊎ (str_eq op name ≡ true)
    → ResetAt name (update op (Breaker.force_reset b) m)
unfolding update Breaker.force_reset
update-ResetAt name op b m r = elim (Bool-cases (str_eq op name)) [
  | inl same ↦ (Breaker.force_reset b, rw (lookup-insert, same) refl, refl, refl)
  | inr other ↦ elim r [
    | inl (c, e, s, z) ↦ (c, rw (lookup-insert, other) e, s, z)
    | inr same ↦ absurd (cc)
  ]
]

reset_each-ResetAt :
    (name : String) (l : Map Breaker) (m : Manager)
    → ResetAt name m ⊎ Present name l
    → ResetAt name (reset_each l m)
unfolding reset_each lookup
reset_each-ResetAt name [] m (inl r) = r
reset_each-ResetAt name [] m (inr p) = absurd (cc p.1)
reset_each-ResetAt name ((op, b) ∷ rest) m (inl r) =
    reset_each-ResetAt name rest (update op (Breaker.force_reset b) m)
      (inl (update-ResetAt name op b m (inl r)))
reset_each-ResetAt name ((op, b) ∷ rest) m (inr p) =
    reset_each-ResetAt name rest (update op (Breaker.force_reset b) m)
      (split (Bool-cases (str_eq op name)))
  where
    split :
        (str_eq op name ≡ true) ⊎ (str_eq op name ≡ false)
        → ResetAt name (update op (Breaker.force_reset b) m) ⊎ Present name rest
    split (inl same) = inl (update-ResetAt name op b m (inr same))
    split (inr other) = inr (p.0, rw other at p.1)

-- `ForceReset("")` closes every breaker that the manager has, and clears its failure count.
pub force_reset_all :
    (name : String) (m : Manager) → Present name m.breakers → ResetAt name (force_reset "" m)
unfolding force_reset
force_reset_all name m p = reset_each-ResetAt name m.breakers m (inr p)
