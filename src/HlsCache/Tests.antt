-- ===== src/HlsCache/Tests.antt =====
-- The theorems on the cache at concrete inputs.
use acestream_orchestrator.Prelude.{◌≤◌, [], ◌∷◌, arith}
use acestream_orchestrator.HlsCache.{GlobalCache, new_global_cache, set, store, enforce, find}
use acestream_orchestrator.HlsCache.Bounds.{
  IsSized, IsValid, run, sets, gets, collects, run-IsValid,
}

run-IsValid_example : IsValid (
    run
      (sets 1 "a" (7 ∷ 8 ∷ []) 10 ∷ sets 2 "b" (9 ∷ 9 ∷ []) 10 ∷ gets 3 "b" ∷ collects 20 ∷ [])
      (new_global_cache 3))
run-IsValid_example =
    run-IsValid 3
      (sets 1 "a" (7 ∷ 8 ∷ []) 10 ∷ sets 2 "b" (9 ∷ 9 ∷ []) 10 ∷ gets 3 "b" ∷ collects 20 ∷ [])

abbrev filled : GlobalCache
filled = set 1 "a" (7 ∷ 8 ∷ []) 10 (new_global_cache 3)

filled-IsSized : IsSized filled
filled-IsSized = (run-IsValid 3 (sets 1 "a" (7 ∷ 8 ∷ []) 10 ∷ [])).sized

filled-fits : 2 ≤ filled.max_bytes
unfolding set store enforce new_global_cache find
filled-fits = omega arith
