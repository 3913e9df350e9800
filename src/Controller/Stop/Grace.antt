-- ===== src/Controller/Stop/Grace.antt =====
-- The grace period of `canStopEngine`, and what one call changes.
use acestream_orchestrator.Prelude.{
  ℕ, ◌+◌, ◌<◌, ◌≡◌, refl, ap, ◌∙◌, true, false, Option, none, some, List, [], ◌∷◌, if◌then◌else◌,
  leb, ◌==◌, arith, String, eq_iff,
}
use acestream_orchestrator.Prelude.Maps.{Map, lookup, insert, lookup-insert}
use acestream_orchestrator.State.{Engine, Store, list_engines}
use acestream_orchestrator.State.Select.{get_engine_total_load}
use acestream_orchestrator.State.Scaling.{get_stream_count, record_empty, clear_empty, empty_since}
use acestream_orchestrator.Controller.{Config}
use acestream_orchestrator.Controller.Stop.{
  free_engines, is_scarce, is_kept, wait_grace, can_stop_engine,
}

-- The store with other times of becoming empty.
abbrev pub at_times : Map ℕ → Store → Store
at_times times s = record s { empty_at = times }

free_engines-at_times :
    (times : Map ℕ) (engines : List Engine) (s : Store)
    → free_engines engines (at_times times s) ≡ free_engines engines s
unfolding free_engines get_stream_count
free_engines-at_times times [] s = refl
free_engines-at_times times (e ∷ engines) s = rw (free_engines-at_times times engines s) refl

is_scarce-at_times :
    (times : Map ℕ) (o : Option Engine) (s : Store) → is_scarce o (at_times times s) ≡ is_scarce o s
is_scarce-at_times times none s = refl
is_scarce-at_times times (some e) s = refl

-- The tests on load, floors and balance do not read those times.
pub is_kept-at_times :
    (cfg : Config) (id : String) (times : Map ℕ) (s : Store)
    → is_kept cfg id (at_times times s) ≡ is_kept cfg id s
unfolding is_kept get_engine_total_load
is_kept-at_times cfg id times s =
    rw
      (
        free_engines-at_times times (list_engines s.engines) s,
        is_scarce-at_times times (lookup id s.engines) s,
      )
      refl

record_empty-at_times :
    (now : ℕ) (id : String) (s : Store)
    → lookup id s.empty_at ≡ none
    → record_empty now id s ≡ at_times (insert id now s.empty_at) s
unfolding record_empty
record_empty-at_times now id s h = rw (h, record_empty) refl

pub wait_grace-none :
    (cfg : Config) (now : ℕ) (id : String) (s : Store)
    → lookup id s.empty_at ≡ none
    → wait_grace cfg now id (empty_since id s) s ≡ (false, at_times (insert id now s.empty_at) s)
unfolding wait_grace empty_since
wait_grace-none cfg now id s h =
    rw (h, wait_grace) (ap (λ next. (false, next)) (record_empty-at_times now id s h))

pub wait_grace-some :
    (cfg : Config) (now t : ℕ) (id : String) (s : Store)
    → lookup id s.empty_at ≡ some t
    → wait_grace cfg now id (empty_since id s) s
      ≡ (if leb (t + cfg.grace_period) now then (true, clear_empty id s) else (false, s))
unfolding wait_grace empty_since
wait_grace-some cfg now t id s h = rw (h, wait_grace) refl

pub can_stop_engine-wait_grace :
    (cfg : Config) (now : ℕ) (id : String) (s : Store)
    → is_kept cfg id s ≡ false
    → 0 < cfg.grace_period
    → can_stop_engine cfg now false id s ≡ wait_grace cfg now id (empty_since id s) s
unfolding can_stop_engine
can_stop_engine-wait_grace cfg now id s k g = rw (k) (rw (waits) refl)
  where
    waits : (cfg.grace_period == 0) ≡ false
    waits = ground arith

-- An engine that nothing but the grace period keeps, first asked about at `first`, is kept then,
-- and a later call, if the store is otherwise the same, lets it go exactly when the grace period
-- has passed since `first`.
pub can_stop_engine_grace :
    (cfg : Config) (first now : ℕ) (id : String) (s : Store)
    → is_kept cfg id s ≡ false
    → 0 < cfg.grace_period
    → empty_since id s ≡ none
    → let next = (can_stop_engine cfg first false id s).1 in
      ((can_stop_engine cfg first false id s).0 ≡ false)
      × ((can_stop_engine cfg now false id next).0 ≡ leb (first + cfg.grace_period) now)
unfolding empty_since
can_stop_engine_grace cfg first now id s k g h =
    let times = insert id first s.empty_at in
    let asked = can_stop_engine-wait_grace cfg first id s k g ∙ wait_grace-none cfg first id s h in
    let since : lookup id times ≡ some first =
      lookup-insert id id first s.empty_at ∙ ground (arith, eq_iff id id) in
    rw asked (
      refl,
      ap (λ r. r.0)
            (can_stop_engine-wait_grace cfg now id (at_times times s)
                (is_kept-at_times cfg id times s ∙ k) g
              ∙ wait_grace-some cfg now first id (at_times times s) since)
          ∙ ground arith,
    )
