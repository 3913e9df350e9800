-- ===== src/HlsCache/Bounds.antt =====
-- The count of bytes is the size of what is cached, and stays within the limit.
use acestream_orchestrator.Prelude.{
  ℕ, zero, suc, ◌+◌, ◌-◌, ◌≤◌, ◌<◌, ◌≡◌, refl, ap, ◌&&◌, Option, none, some, List, [], ◌∷◌, ltb,
  length, arith, Bool-cases, Option-cases, inl, inr, String, eq_iff,
}
use acestream_orchestrator.HlsCache.{
  CacheEntry, GlobalCache, new_global_cache, find, unlink, remove_element, get, store, drop_back,
  remove_oldest, enforce, set, sweep, gc_round,
}

abbrev pub size_of : List CacheEntry → ℕ
size_of [] = 0
size_of (e ∷ entries) = length e.bytes + size_of entries

abbrev pub size_if : Option CacheEntry → ℕ
size_if none = 0
size_if (some e) = length e.bytes

size_of-unlink :
    (key : String) (entries : List CacheEntry)
    → size_of (unlink key entries) + size_if (find key entries) ≡ size_of entries
unfolding unlink find
size_of-unlink key [] = refl
size_of-unlink key (e ∷ entries) = ground (arith, size_of-unlink key entries)

size_of-drop_back :
    (entries : List CacheEntry)
    → size_of (drop_back entries).0 + (drop_back entries).1 ≡ size_of entries
unfolding drop_back
size_of-drop_back [] = refl
size_of-drop_back (e ∷ []) = omega arith
size_of-drop_back (e ∷ f ∷ entries) = omega (arith, size_of-drop_back (f ∷ entries))

length-drop_back : (entries : List CacheEntry) → length (drop_back entries).0 ≡ length entries - 1
unfolding drop_back
length-drop_back [] = omega arith
length-drop_back (e ∷ []) = omega arith
length-drop_back (e ∷ f ∷ entries) = omega (arith, length-drop_back (f ∷ entries))

-- The count of bytes is right.
unfoldable pub IsSized : GlobalCache → Type 0
IsSized c = c.total_bytes ≡ size_of c.evict_list

pub remove_oldest-IsSized : (c : GlobalCache) → IsSized c → IsSized (remove_oldest c)
unfolding IsSized remove_oldest
remove_oldest-IsSized c h = omega (arith, h, size_of-drop_back c.evict_list)

pub store-IsSized :
    (now : ℕ) (key : String) (bytes : List ℕ) (ttl : ℕ) (c : GlobalCache)
    → IsSized c
    → IsSized (store now key bytes ttl c)
unfolding IsSized store
store-IsSized now key bytes ttl c h = elim (Option-cases (find key c.evict_list)) [
  | inl new ↦ rw (new, store) (omega (arith, h))
  | inr (old, e) ↦ rw (e, store) (omega (arith, h, size_of-unlink key c.evict_list, ap size_if e))
]

-- Within the limit, if there is one.
unfoldable pub IsBounded : GlobalCache → Type 0
IsBounded c = 0 < c.max_bytes → c.total_bytes ≤ c.max_bytes

enforce-IsSized : (fuel : ℕ) (c : GlobalCache) → IsSized c → IsSized (enforce fuel c)
unfolding enforce
enforce-IsSized zero c h = h
enforce-IsSized (suc fuel) c h =
    let rest = enforce-IsSized fuel (remove_oldest c) (remove_oldest-IsSized c h) in
    elim (Bool-cases
      (ltb 0 c.max_bytes && ltb c.max_bytes c.total_bytes && ltb 0 (length c.evict_list))) [
        | inl over ↦ rw over rest
        | inr fits ↦ rw fits h
      ]

size_of-nil : (entries : List CacheEntry) → length entries ≡ 0 → size_of entries ≡ 0
size_of-nil [] h = refl
size_of-nil (e ∷ entries) h = absurd (omega (arith, h))

enforce-IsBounded :
    (fuel : ℕ) (c : GlobalCache)
    → IsSized c
    → length c.evict_list ≤ fuel
    → IsBounded (enforce fuel c)
unfolding enforce IsBounded IsSized
enforce-IsBounded zero c h l = λ p. omega (arith, h, size_of-nil c.evict_list (omega (arith, l)))
enforce-IsBounded (suc fuel) c h l =
    let rest = enforce-IsBounded fuel (remove_oldest c) (remove_oldest-IsSized c h) (shorter c l) in
    elim (Bool-cases
      (ltb 0 c.max_bytes && ltb c.max_bytes c.total_bytes && ltb 0 (length c.evict_list))) [
        | inl over ↦ rw over rest
        | inr fits ↦ rw fits (λ p. ground (arith, fits, p, h, size_of-nil c.evict_list))
      ]
  where
    shorter :
        (d : GlobalCache)
        → length d.evict_list ≤ suc fuel
        → length (remove_oldest d).evict_list ≤ fuel
    shorter d k = unfold remove_oldest in omega (arith, k, length-drop_back d.evict_list)

-- The count of bytes is the size of what is cached, and within the limit.
pub record IsValid (c : GlobalCache) : Type 0 where
  pub sized : IsSized c
  pub bounded : IsBounded c

set-IsValid :
    (now : ℕ) (key : String) (bytes : List ℕ) (ttl : ℕ) (c : GlobalCache)
    → IsSized c
    → IsValid (set now key bytes ttl c)
unfolding set
set-IsValid now key bytes ttl c h =
    let stored = store now key bytes ttl c in
    let sized = store-IsSized now key bytes ttl c h in
    record {
      sized = enforce-IsSized (length stored.evict_list) stored sized;
      bounded = enforce-IsBounded (length stored.evict_list) stored sized (omega arith);
    }

find-key :
    (key : String) (e : CacheEntry) (entries : List CacheEntry)
    → find key entries ≡ some e
    → e.key ≡ key
unfolding find
find-key key e [] h = ground (arith, h)
find-key key e (x ∷ entries) h = ground (arith, h, find-key key e entries, eq_iff x.key key)

get-IsValid : (now : ℕ) (key : String) (c : GlobalCache) → IsValid c → IsValid (get now key c).1
unfolding get remove_element IsSized IsBounded
get-IsValid now key c v = elim (Option-cases (find key c.evict_list)) [
  | inl gone ↦ rw (gone, get) v
  | inr (e, found) ↦
      let size = size_of-unlink key c.evict_list in
      elim (Bool-cases (ltb e.expires now)) [
        | inl late ↦ rw (found, get) (rw late (expired e found))
        | inr fresh ↦
            rw (found, get)
              (rw fresh (record {
                sized = omega (arith, v.sized, size, ap size_if found);
                bounded = v.bounded;
              }))
      ]
]
  where
    expired : (e : CacheEntry) → find key c.evict_list ≡ some e → IsValid (remove_element e c)
    expired e found =
        let size = ap (λ k. size_of (unlink k c.evict_list)) (find-key key e c.evict_list found) in
        record {
          sized = omega (arith, v.sized, size, size_of-unlink key c.evict_list, ap size_if found);
          bounded = λ p. omega (arith, v.bounded p);
        }

size_of-sweep :
    (now : ℕ) (entries : List CacheEntry)
    → size_of (sweep now entries).0 + (sweep now entries).1 ≡ size_of entries
unfolding sweep
size_of-sweep now [] = refl
size_of-sweep now (e ∷ entries) = ground (arith, size_of-sweep now entries)

gc_round-IsValid : (now : ℕ) (c : GlobalCache) → IsValid c → IsValid (gc_round now c)
unfolding gc_round IsSized IsBounded
gc_round-IsValid now c v = record {
  sized = omega (arith, v.sized, size_of-sweep now c.evict_list);
  bounded = λ p. omega (arith, v.bounded p);
}

-- One call on the cache.
pub data CacheCall : Type 0 where
  gets : ℕ → String → CacheCall
  sets : ℕ → String → List ℕ → ℕ → CacheCall
  collects : ℕ → CacheCall

abbrev pub step : CacheCall → GlobalCache → GlobalCache
step (gets now key) c = (get now key c).1
step (sets now key bytes ttl) c = set now key bytes ttl c
step (collects now) c = gc_round now c

abbrev pub run : List CacheCall → GlobalCache → GlobalCache
run [] c = c
run (call ∷ calls) c = run calls (step call c)

step-IsValid : (call : CacheCall) (c : GlobalCache) → IsValid c → IsValid (step call c)
step-IsValid (gets now key) c v = get-IsValid now key c v
step-IsValid (sets now key bytes ttl) c v = set-IsValid now key bytes ttl c v.sized
step-IsValid (collects now) c v = gc_round-IsValid now c v

run_from-IsValid : (calls : List CacheCall) (c : GlobalCache) → IsValid c → IsValid (run calls c)
run_from-IsValid [] c v = v
run_from-IsValid (call ∷ calls) c v = run_from-IsValid calls (step call c) (step-IsValid call c v)

-- After any calls on a new cache the count of bytes is the size of what is cached, and if the limit
-- is positive it is at most the limit.
pub run-IsValid :
    (max_bytes : ℕ) (calls : List CacheCall) → IsValid (run calls (new_global_cache max_bytes))
unfolding new_global_cache IsSized IsBounded
run-IsValid max_bytes calls =
    run_from-IsValid calls (new_global_cache max_bytes)
      (record { sized = refl; bounded = λ p. omega arith })
