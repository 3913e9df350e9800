-- ===== src/State/Streams/Tests.antt =====
-- The theorems on streams at concrete inputs.
use acestream_orchestrator.Prelude.{◌≤◌, ◌≡◌, refl, none, some, [], ◌∷◌, length, last_of, String}
use acestream_orchestrator.Prelude.Maps.{lookup}
use acestream_orchestrator.State.{
  Store, new_store, count, StatSnapshot, StreamStartedEvent, StreamEndedEvent,
}
use acestream_orchestrator.State.Streams.{
  max_stat_history, on_stream_started, on_stream_ended, get_stats,
}
use acestream_orchestrator.State.Streams.Laws.{
  IsCounted, streams_on, on_stream_started-IsCounted, on_stream_ended-IsCounted,
}
use acestream_orchestrator.State.Streams.Samples.{append_stats, samples_of, get_stats-append_stats}

abbrev begins : String → StreamStartedEvent
begins id = record {
  content_id = id;
  engine_id = "a";
  engine_name = "";
  container_id = "";
  stream = none;
  session = none;
}

abbrev ends : String → StreamEndedEvent
ends id = record { content_id = id; stream_id = ""; container_id = ""; reason = "" }

abbrev playing : Store
playing = on_stream_started 5 (begins "c1") new_store

new_store-IsCounted : IsCounted new_store
unfolding new_store count lookup streams_on
new_store-IsCounted = record { table = tt; counts = λ engine named. refl }

on_stream_started-IsCounted_example : IsCounted playing
unfolding new_store lookup
on_stream_started-IsCounted_example =
    on_stream_started-IsCounted 5 (begins "c1") new_store new_store-IsCounted refl

on_stream_ended-IsCounted_example : IsCounted (on_stream_ended (ends "c1") playing)
on_stream_ended-IsCounted_example =
    on_stream_ended-IsCounted (ends "c1") playing on_stream_started-IsCounted_example

abbrev sample : StatSnapshot
sample = record {
  ts = 3;
  peers = some 4;
  speed_down = none;
  speed_up = none;
  downloaded = none;
  uploaded = none;
  status = "dl";
  bitrate = none;
  proxy_buffer_pieces = none;
}

get_stats-append_stats_example :
    (get_stats "c1" (append_stats ((8, "c1", sample) ∷ (9, "c2", sample) ∷ []) new_store)
      ≡ last_of max_stat_history (samples_of "c1" ((8, "c1", sample) ∷ (9, "c2", sample) ∷ [])))
    × (length (get_stats "c1" (append_stats ((8, "c1", sample) ∷ (9, "c2", sample) ∷ []) new_store))
        ≤ max_stat_history)
unfolding get_stats new_store lookup
get_stats-append_stats_example =
    get_stats-append_stats "c1" ((8, "c1", sample) ∷ (9, "c2", sample) ∷ []) new_store refl
