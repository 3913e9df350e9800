-- ===== src/State/Streams.antt =====
-- store.go, the proxy's part: streams, the engine each is counted on, and their samples. A stream
-- that has ended is out of the store, so its last fields are not written.
pub mod Laws
pub mod Failed
pub mod Samples
mod Tests
use acestream_orchestrator.Prelude.{
  ℕ, zero, suc, ◌+◌, ◌-◌, Bool, true, false, not, Option, none, some, List, [], ◌∷◌, ◌++◌,
  if◌then◌else◌, ltb, ◌==◌, last_of, String, str_eq,
}
use acestream_orchestrator.Prelude.Maps.{Map, lookup, insert, delete}
use acestream_orchestrator.State.{
  Engine, Store, count, decrement, is_some, StreamState, StatSnapshot, StreamKeyPayload,
  SessionInfo, StreamStartedEvent, StreamEndedEvent,
}

abbrev pub max_stat_history : ℕ
max_stat_history = 720

-- `if s == "" { s = t }`.
abbrev pub or_else : String → String → String
or_else s t = if str_eq s "" then t else s

abbrev pub stream_key : Option StreamKeyPayload → String
stream_key none = ""
stream_key (some stream) = stream.key

abbrev pub content_id_of : StreamStartedEvent → String
content_id_of ev = or_else ev.content_id (stream_key ev.stream)

abbrev pub fresh_stream : ℕ → String → String → StreamState
fresh_stream now content_id status = record {
  id = content_id;
  content_id = content_id;
  key_type = "";
  key = "";
  file_indexes = "";
  seekback = 0;
  live_delay = 0;
  control_mode = "";
  stream_mode = "";
  container_id = "";
  container_name = "";
  engine_id = "";
  engine_name = "";
  playback_session_id = "";
  stat_url = "";
  command_url = "";
  is_live = false;
  bitrate = none;
  started_at = now;
  ended_at = none;
  last_activity = now;
  status = status;
  peers = none;
  speed_down = none;
  speed_up = none;
  downloaded = none;
  uploaded = none;
  proxy_buffer_pieces = none;
  active_clients = 0;
}

abbrev pub with_container : StreamStartedEvent → StreamState → StreamState
with_container ev st = if str_eq ev.container_id "" then st else record st {
  container_id = ev.container_id;
  engine_id = or_else st.engine_id ev.container_id;
}

abbrev pub with_stream : Option StreamKeyPayload → StreamState → StreamState
with_stream none st = st
with_stream (some stream) st = record st {
  key_type = stream.key_type;
  key = stream.key;
  file_indexes = or_else stream.file_indexes st.file_indexes;
  seekback = stream.seekback;
  live_delay = stream.live_delay;
  control_mode = stream.control_mode;
  stream_mode = stream.stream_mode;
  id = or_else st.id stream.key;
  content_id = or_else st.id stream.key;
}

abbrev pub with_key : String → StreamState → StreamState
with_key content_id st = record st {
  key = or_else st.key content_id;
  key_type = or_else st.key_type "content_id";
}

abbrev pub with_session : Option SessionInfo → StreamState → StreamState
with_session none st = st
with_session (some session) st = record st {
  playback_session_id = session.playback_session_id;
  stat_url = session.stat_url;
  command_url = session.command_url;
  is_live = not (session.is_live == 0);
  bitrate = session.bitrate;
}

abbrev pub named_by : Option Engine → StreamState → StreamState
named_by none st = st
named_by (some e) st = record st {
  engine_name = or_else st.engine_name e.container_name;
  container_name = or_else st.container_name e.container_name;
}

abbrev pub with_engine : Map Engine → StreamState → StreamState
with_engine engines st =
    if str_eq st.engine_id ""
    then st
    else named_by (lookup st.engine_id engines)
        (record st { container_id = or_else st.container_id st.engine_id })

abbrev pub with_names : StreamState → StreamState
with_names st =
    let engine_name = or_else st.engine_name st.engine_id in
    record st { engine_name = engine_name; container_name = or_else st.container_name engine_name }

unfoldable pub resolve_stream : ℕ → StreamStartedEvent → Map Engine → StreamState
resolve_stream now ev engines =
    let content_id = content_id_of ev in
    let named : StreamState = record (fresh_stream now content_id "started") {
      engine_id = ev.engine_id;
      engine_name = ev.engine_name;
      file_indexes = "0";
    } in
    with_names (
      with_engine engines (
        with_session ev.session
          (with_key content_id (with_stream ev.stream (with_container ev named)))))

-- The end of `OnStreamStarted`: one more stream on the engine, from those pending.
unfoldable pub register_stream : StreamState → Store → Store
register_stream st s =
    let stored = record s { streams = insert st.id st s.streams } in
    if str_eq st.engine_id "" then stored else record stored {
      stream_counts = insert st.engine_id (count st.engine_id s.stream_counts + 1) s.stream_counts;
      engine_pending = decrement st.engine_id s.engine_pending;
    }

unfoldable pub on_stream_started : ℕ → StreamStartedEvent → Store → Store
on_stream_started now ev s = register_stream (resolve_stream now ev s.engines) s

unfoldable pub on_stream_allocating : ℕ → String → String → String → Store → Store
on_stream_allocating now content_id stream_mode control_mode s =
    let st : StreamState = record (fresh_stream now content_id "allocating") {
      stream_mode = stream_mode;
      control_mode = control_mode;
    } in
    if is_some (lookup content_id s.streams)
    then s
    else record s { streams = insert content_id st s.streams }

abbrev pub or_fresh : ℕ → String → Option StreamState → StreamState
or_fresh now content_id none = fresh_stream now content_id ""
or_fresh now content_id (some st) = st

abbrev pub prebuffered : String → String → String → String → StreamState → StreamState
prebuffered engine_id engine_name stream_mode control_mode st = record st {
  status = "prebuf";
  engine_id = engine_id;
  engine_name = engine_name;
  container_id = engine_id;
  container_name = engine_name;
  stream_mode = stream_mode;
  control_mode = control_mode;
}

unfoldable pub on_stream_prebuffering :
    ℕ → String → String → String → String → String → Store → Store
on_stream_prebuffering now content_id engine_id engine_name stream_mode control_mode s =
    let st = or_fresh now content_id (lookup content_id s.streams) in
    record s {
      streams =
          insert content_id (prebuffered engine_id engine_name stream_mode control_mode st)
            s.streams;
    }

-- The search for a stream by its `ID`.
unfoldable pub stream_by_id : String → Map StreamState → Option StreamState
stream_by_id stream_id [] = none
stream_by_id stream_id ((key, st) ∷ streams) =
    let later = stream_by_id stream_id streams in if str_eq st.id stream_id then some st else later

-- The stream that has ended, with its key.
unfoldable pub ended_stream : StreamEndedEvent → Map StreamState → Option (String × StreamState)
ended_stream ev streams = elim (lookup ev.content_id streams) [
  | some st ↦ some (ev.content_id, st)
  | none ↦
      if str_eq ev.stream_id ""
      then none
      else elim (stream_by_id ev.stream_id streams) [ none ↦ none | some st ↦ some (st.id, st) ]
]

unfoldable pub remove_stream : String → StreamState → Store → Store
remove_stream id st s = record s {
  streams = delete id s.streams;
  stream_counts =
      if str_eq st.engine_id "" then s.stream_counts else decrement st.engine_id s.stream_counts;
}

unfoldable pub on_stream_ended : StreamEndedEvent → Store → Store
on_stream_ended ev s = elim (ended_stream ev s.streams) [
  | none ↦ s
  | some (id, st) ↦ remove_stream id st s
]

unfoldable pub update_stream : String → (StreamState → StreamState) → Store → Store
update_stream content_id f s = elim (lookup content_id s.streams) [
  | none ↦ s
  | some st ↦ record s { streams = insert content_id (f st) s.streams }
]

unfoldable pub update_stream_activity : ℕ → String → Store → Store
update_stream_activity now content_id s =
    update_stream content_id (λ st. record st { last_activity = now }) s

unfoldable pub update_stream_clients : ℕ → String → ℕ → Store → Store
update_stream_clients now content_id active_clients s =
    update_stream content_id
      (λ st. record st {
        active_clients = active_clients;
        last_activity = if ltb 0 active_clients then now else st.last_activity;
      })
      s

abbrev pub or_old : {A : Type 0} → Option A → Option A → Option A
or_old none old = old
or_old (some new) old = some new

abbrev pub samples : Option (List StatSnapshot) → List StatSnapshot
samples none = []
samples (some hist) = hist

abbrev pub with_sample : ℕ → StatSnapshot → StreamState → StreamState
with_sample now snap st = record st {
  last_activity = now;
  peers = or_old snap.peers st.peers;
  speed_down = or_old snap.speed_down st.speed_down;
  speed_up = or_old snap.speed_up st.speed_up;
  downloaded = or_old snap.downloaded st.downloaded;
  uploaded = or_old snap.uploaded st.uploaded;
  bitrate = or_old snap.bitrate st.bitrate;
  proxy_buffer_pieces = or_old snap.proxy_buffer_pieces st.proxy_buffer_pieces;
  status = or_else snap.status st.status;
}

unfoldable pub get_stats : String → Store → List StatSnapshot
get_stats content_id s = samples (lookup content_id s.stats)

unfoldable pub append_stat : ℕ → String → StatSnapshot → Store → Store
append_stat now content_id snap s = update_stream content_id (with_sample now snap) (record s {
  stats =
      insert content_id (last_of max_stat_history (get_stats content_id s ++ (snap ∷ []))) s.stats;
})

-- `for id := range s.stats`, deleting while ranging.
unfoldable pub prune_each : Map StreamState → Map (List StatSnapshot) → Map (List StatSnapshot)
prune_each streams [] = []
prune_each streams ((id, hist) ∷ rest) =
    let kept = prune_each streams rest in
    if is_some (lookup id streams) then (id, hist) ∷ kept else kept

unfoldable pub prune_stats : Store → Store
prune_stats s = record s { stats = prune_each s.streams s.stats }
