-- ===== src/State/Streams/Laws.antt =====
-- The count of streams of an engine, against the streams in the store.
use acestream_orchestrator.Prelude.{
  ℕ, suc, ◌+◌, ◌-◌, ◌==◌, ◌&&◌, ◌≡◌, ◌≢◌, refl, sym, ap, subst, ◌∙◌, not, Option, none, some, [],
  ◌∷◌, if◌then◌else◌, arith, Bool-cases, Option-cases, inl, inr, String, str_eq, eq_iff,
}
use acestream_orchestrator.Prelude.Maps.{Map, lookup, insert, delete, lookup-insert, lookup-delete}
use acestream_orchestrator.State.{
  Engine, Store, count, decrement, StreamState, StreamKeyPayload, SessionInfo, StreamStartedEvent,
  StreamEndedEvent,
}
use acestream_orchestrator.State.Select.{get_engine_total_load}
use acestream_orchestrator.State.Streams.{
  or_else, stream_key, content_id_of, fresh_stream, with_container, with_stream, with_key,
  with_session, named_by, with_engine, resolve_stream, register_stream, on_stream_started,
  stream_by_id, ended_stream, remove_stream, on_stream_ended,
}

-- Each stream is kept under its ID, once.
abbrev pub IsTable : Map StreamState → Type 0
IsTable [] = Unit {0}
IsTable ((key, st) ∷ streams) = (st.id ≡ key) × (lookup key streams ≡ none) × IsTable streams

-- How many streams are on the engine.
unfoldable pub streams_on : String → Map StreamState → ℕ
streams_on engine [] = 0
streams_on engine ((key, st) ∷ streams) =
    let rest = streams_on engine streams in if str_eq st.engine_id engine then suc rest else rest

abbrev pub on_engine : String → Option StreamState → ℕ
on_engine engine none = 0
on_engine engine (some st) = if str_eq st.engine_id engine then 1 else 0

streams_on-insert :
    (engine key : String) (st : StreamState) (streams : Map StreamState)
    → IsTable streams
    → streams_on engine (insert key st streams) + on_engine engine (lookup key streams)
      ≡ streams_on engine streams + on_engine engine (some st)
unfolding streams_on lookup insert
streams_on-insert engine key st [] h = ground arith
streams_on-insert engine key st ((name, old) ∷ streams) h =
    ground (arith, streams_on-insert engine key st streams h.2, eq_iff name key, h.1)

streams_on-delete :
    (engine key : String) (streams : Map StreamState)
    → IsTable streams
    → streams_on engine (delete key streams) + on_engine engine (lookup key streams)
      ≡ streams_on engine streams
unfolding streams_on lookup delete
streams_on-delete engine key [] h = ground arith
streams_on-delete engine key ((name, old) ∷ streams) h =
    ground (arith, streams_on-delete engine key streams h.2, eq_iff name key, h.1)

insert-IsTable :
    (st : StreamState) (streams : Map StreamState)
    → IsTable streams
    → IsTable (insert st.id st streams)
unfolding insert lookup
insert-IsTable st [] h = (refl, refl, tt)
insert-IsTable st ((name, old) ∷ streams) h = elim (Bool-cases (str_eq name st.id)) [
  | inl same ↦ rw same (ground (arith, eq_iff name st.id), h.1, h.2)
  | inr other ↦ rw other (
    h.0,
    lookup-insert st.id name st streams ∙ ground (arith, eq_iff st.id name, eq_iff name st.id, h.1),
    insert-IsTable st streams h.2,
  )
]

delete-IsTable :
    (key : String) (streams : Map StreamState) → IsTable streams → IsTable (delete key streams)
unfolding delete
delete-IsTable key [] h = tt
delete-IsTable key ((name, old) ∷ streams) h = elim (Bool-cases (str_eq name key)) [
  | inl same ↦ rw same (delete-IsTable key streams h.2)
  | inr other ↦
      rw other
        (h.0, lookup-delete key name streams ∙ ground (arith, h.1), delete-IsTable key streams h.2)
]

stream_by_id-lookup :
    (stream_id : String) (st : StreamState) (streams : Map StreamState)
    → IsTable streams
    → stream_by_id stream_id streams ≡ some st
    → lookup st.id streams ≡ some st
unfolding stream_by_id lookup
stream_by_id-lookup stream_id st [] h e = ground arith
stream_by_id-lookup stream_id st ((name, old) ∷ streams) h e = ground (
  arith,
  stream_by_id-lookup stream_id st streams h.2,
  eq_iff old.id stream_id,
  eq_iff name st.id,
  h.0,
  h.1,
)

ended_stream-lookup :
    (ev : StreamEndedEvent) (id : String) (st : StreamState) (streams : Map StreamState)
    → IsTable streams
    → ended_stream ev streams ≡ some (id, st)
    → lookup id streams ≡ some st
unfolding ended_stream
ended_stream-lookup ev id st streams h e =
    ground (arith, stream_by_id-lookup ev.stream_id st streams h)

count-insert :
    (key other : String) (n : ℕ) (counts : Map ℕ)
    → count other (insert key n counts) ≡ (if str_eq key other then n else count other counts)
unfolding count
count-insert key other n counts = rw (lookup-insert key other n counts) (ground arith)

pub count-decrement :
    (key other : String) (counts : Map ℕ)
    → count other (decrement key counts)
      ≡ (if str_eq key other then count other counts - 1 else count other counts)
unfolding decrement
count-decrement key other counts =
    ground (arith, count-insert key other (count key counts - 1) counts, eq_iff key other)

-- The count of every engine is the number of streams on it.
pub record IsCounted (s : Store) : Type 0 where
  pub table : IsTable s.streams
  pub counts :
      (engine : String) → engine ≢ "" → count engine s.stream_counts ≡ streams_on engine s.streams

register_stream-IsCounted :
    (st : StreamState) (s : Store)
    → IsCounted s
    → lookup st.id s.streams ≡ none
    → IsCounted (register_stream st s)
unfolding register_stream
register_stream-IsCounted st s c h = record {
  table = ground (arith, insert-IsTable st s.streams c.table);
  counts = λ engine named. ground (
    arith,
    h,
    named,
    c.counts engine named,
    streams_on-insert engine st.id st s.streams c.table,
    count-insert st.engine_id engine (count st.engine_id s.stream_counts + 1) s.stream_counts,
    eq_iff st.engine_id "",
    eq_iff st.engine_id engine,
  );
}

named_by-same :
    (o : Option Engine) (st : StreamState)
    → ((named_by o st).id ≡ st.id) × ((named_by o st).engine_id ≡ st.engine_id)
named_by-same none st = (refl, refl)
named_by-same (some e) st = (refl, refl)

with_engine-same :
    (engines : Map Engine) (st : StreamState)
    → ((with_engine engines st).id ≡ st.id) × ((with_engine engines st).engine_id ≡ st.engine_id)
with_engine-same engines st = elim (Bool-cases (str_eq st.engine_id "")) [
  | inl unnamed ↦ rw unnamed (refl, refl)
  | inr named ↦ rw named (
      named_by-same (lookup st.engine_id engines)
        (record st { container_id = or_else st.container_id st.engine_id }))
]

with_session-same :
    (session : Option SessionInfo) (st : StreamState)
    → ((with_session session st).id ≡ st.id) × ((with_session session st).engine_id ≡ st.engine_id)
with_session-same none st = (refl, refl)
with_session-same (some session) st = (refl, refl)

with_stream-same :
    (stream : Option StreamKeyPayload) (st : StreamState)
    → ((with_stream stream st).id ≡ or_else st.id (stream_key stream))
      × ((with_stream stream st).engine_id ≡ st.engine_id)
with_stream-same none st = (ground (arith, eq_iff st.id ""), refl)
with_stream-same (some stream) st = (refl, refl)

with_container-same :
    (ev : StreamStartedEvent) (st : StreamState)
    → ((with_container ev st).id ≡ st.id)
      × ((with_container ev st).engine_id ≡ or_else st.engine_id ev.container_id)
with_container-same ev st = elim (Bool-cases (str_eq ev.container_id "")) [
  | inl unnamed ↦
      rw unnamed (refl, ground (arith, unnamed, eq_iff ev.container_id "", eq_iff st.engine_id ""))
  | inr named ↦ rw named (refl, refl)
]

or_else_again : (s t : String) → or_else (or_else s t) t ≡ or_else s t
or_else_again s t = ground (arith, eq_iff s "", eq_iff t "")

-- What `OnStreamStarted` keeps of the event.
resolve_stream-same :
    (now : ℕ) (ev : StreamStartedEvent) (engines : Map Engine)
    → ((resolve_stream now ev engines).id ≡ content_id_of ev)
      × ((resolve_stream now ev engines).engine_id ≡ or_else ev.engine_id ev.container_id)
unfolding resolve_stream
resolve_stream-same now ev engines =
    let content_id = content_id_of ev in
    let named : StreamState = record (fresh_stream now content_id "started") {
      engine_id = ev.engine_id;
      engine_name = ev.engine_name;
      file_indexes = "0";
    } in
    let contained = with_container ev named in
    let keyed = with_key content_id (with_stream ev.stream contained) in
    let session = with_session-same ev.session keyed in
    let streamed = with_stream-same ev.stream contained in
    let engined = with_engine-same engines (with_session ev.session keyed) in
    let begun = with_container-same ev named in
    (
      engined.0
          ∙ session.0
          ∙ streamed.0
          ∙ ap (λ i. or_else i (stream_key ev.stream)) begun.0
          ∙ or_else_again ev.content_id (stream_key ev.stream),
      engined.1 ∙ session.1 ∙ streamed.1 ∙ begun.1,
    )

remove_stream-IsCounted :
    (id : String) (st : StreamState) (s : Store)
    → IsCounted s
    → lookup id s.streams ≡ some st
    → IsCounted (remove_stream id st s)
unfolding remove_stream
remove_stream-IsCounted id st s c h = record {
  table = delete-IsTable id s.streams c.table;
  counts = λ engine named. ground (
    arith,
    h,
    named,
    c.counts engine named,
    streams_on-delete engine id s.streams c.table,
    count-decrement st.engine_id engine s.stream_counts,
    eq_iff st.engine_id "",
    eq_iff st.engine_id engine,
  );
}

on_stream_ended-none :
    (ev : StreamEndedEvent) (s : Store)
    → ended_stream ev s.streams ≡ none
    → on_stream_ended ev s ≡ s
unfolding on_stream_ended
on_stream_ended-none ev s e = rw (e, on_stream_ended) refl

pub on_stream_ended-some :
    (ev : StreamEndedEvent) (id : String) (st : StreamState) (s : Store)
    → ended_stream ev s.streams ≡ some (id, st)
    → on_stream_ended ev s ≡ remove_stream id st s
unfolding on_stream_ended
on_stream_ended-some ev id st s e = rw (e, on_stream_ended) refl

-- The end of a stream keeps the count of every engine the number of streams on it, whether the
-- event names the stream by its content or by its ID, or names none.
pub on_stream_ended-IsCounted :
    (ev : StreamEndedEvent) (s : Store) → IsCounted s → IsCounted (on_stream_ended ev s)
on_stream_ended-IsCounted ev s c = elim (Option-cases (ended_stream ev s.streams)) [
  | inl gone ↦ subst IsCounted (sym (on_stream_ended-none ev s gone)) c
  | inr ((id, st), e) ↦
      subst IsCounted (sym (on_stream_ended-some ev id st s e))
        (remove_stream-IsCounted id st s c (ended_stream-lookup ev id st s.streams c.table e))
]

-- A stream that starts under an ID that no stream in the store has keeps the count of every engine
-- the number of streams on it.
pub on_stream_started-IsCounted :
    (now : ℕ) (ev : StreamStartedEvent) (s : Store)
    → IsCounted s
    → lookup (content_id_of ev) s.streams ≡ none
    → IsCounted (on_stream_started now ev s)
unfolding on_stream_started
on_stream_started-IsCounted now ev s c h =
    register_stream-IsCounted (resolve_stream now ev s.engines) s c
      (ap (λ id. lookup id s.streams) (resolve_stream-same now ev s.engines).0 ∙ h)

register_stream-load :
    (engine : String) (st : StreamState) (s : Store)
    → get_engine_total_load engine (register_stream st s) ≡ (
        if str_eq st.engine_id engine
          && (not (str_eq engine ""))
          && (count engine s.engine_pending == 0)
        then get_engine_total_load engine s + 1
        else get_engine_total_load engine s)
unfolding register_stream get_engine_total_load
register_stream-load engine st s = ground (
  arith,
  count-insert st.engine_id engine (count st.engine_id s.stream_counts + 1) s.stream_counts,
  count-decrement st.engine_id engine s.engine_pending,
  eq_iff st.engine_id "",
  eq_iff engine "",
  eq_iff st.engine_id engine,
)

-- A start turns a place that was reserved on the stream's engine into a stream there: the load of
-- the engine rises by one only if no place was reserved on it, and no other engine's load changes.
-- The engine is the event's engine or else its container.
pub on_stream_started-load :
    (now : ℕ) (engine : String) (ev : StreamStartedEvent) (s : Store)
    → get_engine_total_load engine (on_stream_started now ev s) ≡ (
        if str_eq (or_else ev.engine_id ev.container_id) engine
          && (not (str_eq engine ""))
          && (count engine s.engine_pending == 0)
        then get_engine_total_load engine s + 1
        else get_engine_total_load engine s)
unfolding on_stream_started
on_stream_started-load now engine ev s =
    register_stream-load engine (resolve_stream now ev s.engines) s
    ∙ ap
        (λ id.
          if str_eq id engine && (not (str_eq engine "")) && (count engine s.engine_pending == 0)
          then get_engine_total_load engine s + 1
          else get_engine_total_load engine s)
        (resolve_stream-same now ev s.engines).1
