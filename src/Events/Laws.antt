-- ===== src/Events/Laws.antt =====
-- The event log against the list of all events recorded since it was cleared.
use mathlib.Core.List.{reverse, append_assoc, append-nil}
use acestream_orchestrator.Prelude.{
  ℕ, zero, suc, ◌-◌, ◌≤◌, ◌≡◌, refl, sym, ap, ◌∙◌, inl, inr, List, [], ◌∷◌, ◌++◌, arith,
  if◌then◌else◌, leb, take, last_of, last_of-append, String, Bool-cases,
}
use acestream_orchestrator.Events.{
  EventEntry, EventLog, max_event_log_size, next_seq, with_id, record_event, clear_events, is_shown,
  newest, effective, filter_of, snapshot,
}

-- The events of this type, or all.
abbrev pub shown : String → List EventEntry → List EventEntry
shown filter [] = []
shown filter (e ∷ events) =
    let rest = shown filter events in if is_shown filter e then e ∷ rest else rest

newest_lem :
    (filter : String) (n : ℕ) (events : List EventEntry)
    → 1 ≤ n
    → newest filter n events ≡ take n (shown filter events)
unfolding newest
newest_lem filter n [] h = sym (take_nil n)
  where
    take_nil : (k : ℕ) → take {A = EventEntry} k [] ≡ []
    take_nil zero = refl
    take_nil (suc k) = refl
newest_lem filter n (e ∷ events) h = elim (Bool-cases (is_shown filter e)) [
  | inr hidden ↦ rw hidden (newest_lem filter n events h)
  | inl seen ↦ rw seen (elim (Bool-cases (leb n 1)) [
    | inl full ↦
        rw full (ap (λ k. take k (e ∷ shown filter events)) {x = 1} {y = n} (ground (arith, full)))
    | inr more ↦ rw more (
        ap (λ l. e ∷ l) (newest_lem filter (n - 1) events (ground (arith, more)))
        ∙ ap (λ k. take k (e ∷ shown filter events)) {x = suc (n - 1)} {y = n} (omega arith))
  ])
]

-- Events one after the other, each with the time of its call.
abbrev pub record_each : List (ℕ × EventEntry) → EventLog → EventLog
record_each [] l = l
record_each ((now, entry) ∷ calls) l = record_each calls (record_event now entry l)

-- The same as they are kept, with_id after `seq`.
abbrev pub numbered_each : ℕ → List (ℕ × EventEntry) → List EventEntry
numbered_each seq [] = []
numbered_each seq ((now, entry) ∷ calls) =
    with_id (next_seq seq) now entry ∷ numbered_each (next_seq seq) calls

record_each-events :
    (calls : List (ℕ × EventEntry)) (all : List EventEntry) (l : EventLog)
    → l.events ≡ last_of max_event_log_size all
    → (record_each calls l).events ≡ last_of max_event_log_size (all ++ numbered_each l.seq calls)
unfolding record_event
record_each-events [] all l h = h ∙ ap (last_of max_event_log_size) (sym (append-nil all))
record_each-events ((now, entry) ∷ calls) all l h =
    let e = with_id (next_seq l.seq) now entry in
    record_each-events calls (all ++ (e ∷ [])) (record_event now entry l) (
      ap (λ events. last_of max_event_log_size (events ++ (e ∷ []))) h
      ∙ last_of-append max_event_log_size all e)
    ∙ ap (last_of max_event_log_size)
        (append_assoc all (e ∷ []) (numbered_each (next_seq l.seq) calls))

-- After the log was cleared and any events were recorded, a snapshot shows, of the last 500 of
-- them, those of the type that is asked for (of every type for "all" or no text), the newest
-- first, up to the limit, which is 100 if none is given.
pub snapshot-record_each :
    (normal : String → String) (limit : ℕ) (event_type : String) (calls : List (ℕ × EventEntry))
    (l : EventLog)
    → (snapshot normal limit event_type (record_each calls (clear_events l))).0
      ≡ take (effective limit) (
          shown
            (filter_of normal event_type)
            (reverse (last_of max_event_log_size (numbered_each l.seq calls))))
unfolding snapshot clear_events max_event_log_size
snapshot-record_each normal limit event_type calls l =
    newest_lem (filter_of normal event_type) (effective limit)
      (reverse (record_each calls (clear_events l)).events) (ground arith)
    ∙ ap (λ events. take (effective limit) (shown (filter_of normal event_type) (reverse events)))
        (record_each-events calls [] (clear_events l) refl)
