-- ===== src/HlsCache.antt =====
-- app/orchestrator/internal/proxy/hls/cache.go: the cache of HLS segments, bounded in bytes, least
-- recently used first out. The list has the newest entry first; the map from keys to its elements
-- is a search of the list, as each element is under its own key in the map. Times are nanoseconds.
pub mod Bounds
pub mod Hits
mod Tests
use acestream_orchestrator.Prelude.{
  ℕ, zero, suc, ◌+◌, ◌-◌, Bool, true, false, ◌&&◌, Option, none, some, List, [], ◌∷◌, if◌then◌else◌,
  ltb, length, String, str_eq,
}

pub record CacheEntry : Type 0 where
  pub key : String
  pub bytes : List ℕ
  pub expires : ℕ

pub record GlobalCache : Type 0 where
  pub max_bytes : ℕ
  pub total_bytes : ℕ
  pub evict_list : List CacheEntry

unfoldable pub new_global_cache : ℕ → GlobalCache
new_global_cache max_bytes = record { max_bytes = max_bytes; total_bytes = 0; evict_list = [] }

unfoldable pub find : String → List CacheEntry → Option CacheEntry
find key [] = none
find key (e ∷ entries) = let later = find key entries in if str_eq e.key key then some e else later

unfoldable pub unlink : String → List CacheEntry → List CacheEntry
unlink key [] = []
unlink key (e ∷ entries) =
    let later = unlink key entries in if str_eq e.key key then entries else e ∷ later

-- `removeElement`, of an entry that is in the list.
unfoldable pub remove_element : CacheEntry → GlobalCache → GlobalCache
remove_element e c = record c {
  evict_list = unlink e.key c.evict_list;
  total_bytes = c.total_bytes - length e.bytes;
}

unfoldable pub get : ℕ → String → GlobalCache → Option (List ℕ) × GlobalCache
get now key c = elim (find key c.evict_list) [
  | none ↦ (none, c)
  | some e ↦
      if ltb e.expires now
      then (none, remove_element e c)
      else (some e.bytes, record c { evict_list = e ∷ unlink key c.evict_list })
]

-- `Set`, without the loop at its end.
unfoldable pub store : ℕ → String → List ℕ → ℕ → GlobalCache → GlobalCache
store now key bytes ttl c =
    let entry : CacheEntry = record { key = key; bytes = bytes; expires = now + ttl } in
    elim (find key c.evict_list) [
      | some old ↦ record c {
        evict_list = entry ∷ unlink key c.evict_list;
        total_bytes = c.total_bytes - length old.bytes + length bytes;
      }
      | none ↦ record c {
        evict_list = entry ∷ c.evict_list;
        total_bytes = c.total_bytes + length bytes;
      }
    ]

-- The list without its last entry, and the size of that.
unfoldable pub drop_back : List CacheEntry → List CacheEntry × ℕ
drop_back [] = ([], 0)
drop_back (e ∷ []) = ([], length e.bytes)
drop_back (e ∷ f ∷ entries) = let (front, size) = drop_back (f ∷ entries) in (e ∷ front, size)

unfoldable pub remove_oldest : GlobalCache → GlobalCache
remove_oldest c = record c {
  evict_list = (drop_back c.evict_list).0;
  total_bytes = c.total_bytes - (drop_back c.evict_list).1;
}

-- The loop at the end of `Set`; each round takes one entry from the list.
unfoldable pub enforce : ℕ → GlobalCache → GlobalCache
enforce zero c = c
enforce (suc fuel) c =
    let rest = enforce fuel (remove_oldest c) in
    if ltb 0 c.max_bytes && ltb c.max_bytes c.total_bytes && ltb 0 (length c.evict_list)
    then rest
    else c

unfoldable pub set : ℕ → String → List ℕ → ℕ → GlobalCache → GlobalCache
set now key bytes ttl c =
    let stored = store now key bytes ttl c in enforce (length stored.evict_list) stored

-- One round of `gcLoop`: what stays, and how many bytes go.
unfoldable pub sweep : ℕ → List CacheEntry → List CacheEntry × ℕ
sweep now [] = ([], 0)
sweep now (e ∷ entries) =
    let (kept, gone) = sweep now entries in
    if ltb e.expires now then (kept, gone + length e.bytes) else (e ∷ kept, gone)

unfoldable pub gc_round : ℕ → GlobalCache → GlobalCache
gc_round now c = record c {
  evict_list = (sweep now c.evict_list).0;
  total_bytes = c.total_bytes - (sweep now c.evict_list).1;
}
