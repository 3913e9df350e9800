-- ===== src/HlsCache/Hits.antt =====
-- What is put into the cache is found in it.
use acestream_orchestrator.Prelude.{
  ℕ, zero, suc, ◌+◌, ◌≤◌, ◌<◌, ◌≡◌, refl, ap, ◌∙◌, true, false, ◌&&◌, some, List, [], ◌∷◌, ltb,
  length, arith, Bool-cases, Option-cases, inl, inr, String, eq_iff,
}
use acestream_orchestrator.HlsCache.{
  CacheEntry, GlobalCache, find, unlink, get, store, drop_back, remove_oldest, enforce, set,
}
use acestream_orchestrator.HlsCache.Bounds.{size_of, IsSized, remove_oldest-IsSized, store-IsSized}

-- The newest entry is this one, and fits.
record IsFront (e : CacheEntry) (c : GlobalCache) : Type 0 where
  sized : IsSized c
  rest : List CacheEntry
  front : c.evict_list ≡ e ∷ rest
  fits : 0 < c.max_bytes → length e.bytes ≤ c.max_bytes

remove_oldest-IsFront :
    (e f : CacheEntry) (rest : List CacheEntry) (c : GlobalCache)
    → IsSized c
    → (0 < c.max_bytes → length e.bytes ≤ c.max_bytes)
    → c.evict_list ≡ e ∷ f ∷ rest
    → IsFront e (remove_oldest c)
remove_oldest-IsFront e f rest c s h l = record {
  sized = remove_oldest-IsSized c s;
  rest = (drop_back (f ∷ rest)).0;
  front = unfold remove_oldest drop_back in ap (λ entries. (drop_back entries).0) l;
  fits = unfold remove_oldest in h;
}

enforce-IsFront :
    (fuel : ℕ) (e : CacheEntry) (c : GlobalCache) → IsFront e c → IsFront e (enforce fuel c)
unfolding enforce
enforce-IsFront zero e c i = i
enforce-IsFront (suc fuel) e c i =
    elim (Bool-cases
      (ltb 0 c.max_bytes && ltb c.max_bytes c.total_bytes && ltb 0 (length c.evict_list))) [
        | inl over ↦ rw over (enforce-IsFront fuel e (remove_oldest c) (go i.rest i.front over))
        | inr fits ↦ rw fits i
      ]
  where
    go :
        (rest : List CacheEntry)
        → c.evict_list ≡ e ∷ rest
        → (ltb 0 c.max_bytes && ltb c.max_bytes c.total_bytes && ltb 0 (length c.evict_list)) ≡ true
        → IsFront e (remove_oldest c)
    go [] l over = absurd (unfold IsSized in ground (arith, over, i.fits, i.sized, ap size_of l))
    go (f ∷ rest) l over = remove_oldest-IsFront e f rest c i.sized i.fits l

store-IsFront :
    (now : ℕ) (key : String) (bytes : List ℕ) (ttl : ℕ) (c : GlobalCache)
    → IsSized c
    → (0 < c.max_bytes → length bytes ≤ c.max_bytes)
    → IsFront (record { key = key; bytes = bytes; expires = now + ttl }) (store now key bytes ttl c)
store-IsFront now key bytes ttl c s h = elim (Option-cases (find key c.evict_list)) [
  | inl new ↦ record {
    sized = store-IsSized now key bytes ttl c s;
    rest = c.evict_list;
    front = unfold store in rw (new, store) refl;
    fits = unfold store in rw (new, store) h;
  }
  | inr (old, e) ↦ record {
    sized = store-IsSized now key bytes ttl c s;
    rest = unlink key c.evict_list;
    front = unfold store in rw (e, store) refl;
    fits = unfold store in rw (e, store) h;
  }
]

find-front :
    (e : CacheEntry) (rest entries : List CacheEntry)
    → entries ≡ e ∷ rest
    → find e.key entries ≡ some e
unfolding find
find-front e rest entries l = ap (find e.key) l ∙ ground (arith, eq_iff e.key e.key)

get-fresh :
    (now : ℕ) (e : CacheEntry) (c : GlobalCache)
    → find e.key c.evict_list ≡ some e
    → now ≤ e.expires
    → (get now e.key c).0 ≡ some e.bytes
unfolding get
get-fresh now e c f l = rw (f, get) (rw (fresh) refl)
  where
    fresh : ltb e.expires now ≡ false
    fresh = ground (arith, l)

-- `Get` gives what `Set` put under the key, until its time to live has passed, if it is no larger
-- than the limit or there is none, and nothing else happens to the cache in between.
pub get-set :
    (now later : ℕ) (key : String) (bytes : List ℕ) (ttl : ℕ) (c : GlobalCache)
    → IsSized c
    → (0 < c.max_bytes → length bytes ≤ c.max_bytes)
    → later ≤ now + ttl
    → (get later key (set now key bytes ttl c)).0 ≡ some bytes
unfolding set
get-set now later key bytes ttl c s h l =
    let entry : CacheEntry = record { key = key; bytes = bytes; expires = now + ttl } in
    let stored = store now key bytes ttl c in
    let i =
      enforce-IsFront (length stored.evict_list) entry stored
        (store-IsFront now key bytes ttl c s h) in
    get-fresh later entry (enforce (length stored.evict_list) stored)
      (find-front entry i.rest (enforce (length stored.evict_list) stored).evict_list i.front) l
