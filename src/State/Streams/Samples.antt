-- ===== src/State/Streams/Samples.antt =====
-- The samples of a stream: at most 720, the last ones.
use acestream_orchestrator.Prelude.{
  ℕ, ◌≤◌, ◌≡◌, refl, sym, ap, ◌∙◌, List, [], ◌∷◌, ◌++◌, if◌then◌else◌, length, last_of,
  last_of-append, length-last_of, Option-cases, Bool-cases, inl, inr, String, str_eq, eq_iff, arith,
}
use mathlib.Core.List.{append_assoc, append-nil}
use acestream_orchestrator.Prelude.Maps.{lookup, insert, lookup-insert}
use acestream_orchestrator.State.{Store, StreamState, StatSnapshot}
use acestream_orchestrator.State.Streams.{
  max_stat_history, samples, with_sample, update_stream, get_stats, append_stat,
}

update_stream-stats :
    (id : String) (f : StreamState → StreamState) (s : Store)
    → (update_stream id f s).stats ≡ s.stats
unfolding update_stream
update_stream-stats id f s = elim (Option-cases (lookup id s.streams)) [
  | inl gone ↦ rw (gone, update_stream) refl
  | inr (st, e) ↦ rw (e, update_stream) refl
]

get_stats-append_stat :
    (now : ℕ) (id other : String) (snap : StatSnapshot) (s : Store)
    → get_stats other (append_stat now id snap s) ≡ (
        if str_eq id other
        then last_of max_stat_history (get_stats other s ++ (snap ∷ []))
        else get_stats other s)
unfolding append_stat get_stats
get_stats-append_stat now id other snap s =
    let hist = last_of max_stat_history (get_stats id s ++ (snap ∷ [])) in
    ap (λ stats. samples (lookup other stats))
      (update_stream-stats id (with_sample now snap) (record s { stats = insert id hist s.stats }))
    ∙ ap samples (lookup-insert id other hist s.stats)
    ∙ (elim (Bool-cases (str_eq id other)) [
      | inl same ↦ rw same (
          ap (λ key. last_of max_stat_history (get_stats key s ++ (snap ∷ []))) {x = id} {y = other}
            (ground (arith, eq_iff id other)))
      | inr apart ↦ rw apart refl
    ])

-- Samples of streams, the first one first, each with the time of its call.
abbrev pub append_stats : List (ℕ × String × StatSnapshot) → Store → Store
append_stats [] s = s
append_stats ((now, id, snap) ∷ calls) s = append_stats calls (append_stat now id snap s)

-- The samples of one stream among them.
abbrev pub samples_of : String → List (ℕ × String × StatSnapshot) → List StatSnapshot
samples_of id [] = []
samples_of id ((now, other, snap) ∷ calls) =
    if str_eq other id then snap ∷ samples_of id calls else samples_of id calls

-- If the store has the last samples of a list for a stream, it has the last ones of the list and
-- those appended for the stream, whatever is appended for others: never more than 720.
get_stats-append_stats_from :
    (id : String) (calls : List (ℕ × String × StatSnapshot)) (all : List StatSnapshot) (s : Store)
    → get_stats id s ≡ last_of max_stat_history all
    → get_stats id (append_stats calls s) ≡ last_of max_stat_history (all ++ samples_of id calls)
get_stats-append_stats_from id [] all s h = h ∙ ap (last_of max_stat_history) (sym (append-nil all))
get_stats-append_stats_from id ((now, other, snap) ∷ calls) all s h =
    elim (Bool-cases (str_eq other id)) [
      | inl same ↦ rw same (
          get_stats-append_stats_from id calls (all ++ (snap ∷ [])) (append_stat now other snap s) (
            get_stats-append_stat now other id snap s
            ∙ rw same (
                ap (λ hist. last_of max_stat_history (hist ++ (snap ∷ []))) h
                ∙ last_of-append max_stat_history all snap))
          ∙ ap (last_of max_stat_history) (append_assoc all (snap ∷ []) (samples_of id calls)))
      | inr apart ↦ rw apart (
          get_stats-append_stats_from id calls all (append_stat now other snap s)
            (get_stats-append_stat now other id snap s ∙ rw apart h))
    ]

-- After any calls of `AppendStat` on a store without samples of a stream, `GetStats` gives the last
-- 720 samples of that stream, in order.
pub get_stats-append_stats :
    (id : String) (calls : List (ℕ × String × StatSnapshot)) (s : Store)
    → get_stats id s ≡ []
    → (get_stats id (append_stats calls s) ≡ last_of max_stat_history (samples_of id calls))
      × (length (get_stats id (append_stats calls s)) ≤ max_stat_history)
get_stats-append_stats id calls s h =
    let e = get_stats-append_stats_from id calls [] s h in
    (e, rw e (length-last_of max_stat_history (samples_of id calls)))
