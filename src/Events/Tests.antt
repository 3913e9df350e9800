-- ===== src/Events/Tests.antt =====
-- The event log at concrete events.
use mathlib.Core.List.{reverse}
use acestream_orchestrator.Prelude.{ℕ, ◌≡◌, refl, List, [], ◌∷◌, String, take, last_of}
use acestream_orchestrator.Prelude.Digits.{itoa, digits}
use acestream_orchestrator.Events.{
  EventEntry, EventLog, max_event_log_size, with_defaults, with_id, record_event, clear_events,
  newest, effective, filter_of, snapshot,
}
use acestream_orchestrator.Events.Laws.{shown, record_each, numbered_each, snapshot-record_each}

abbrev event : String → EventEntry
event event_type = record {
  id = "";
  event_type = event_type;
  category = "created";
  message = "";
  timestamp = 0;
  container_id = "";
  stream_id = "";
}

abbrev empty_log : EventLog
empty_log = record { seq = 7; events = [] }

abbrev calls : List (ℕ × EventEntry)
calls = (1, event "vpn") ∷ (2, event "") ∷ (3, event "vpn") ∷ []

snapshot-record_each_example :
    (snapshot (λ t. t) 1 "vpn" (record_each calls (clear_events empty_log))).0
    ≡ take (effective 1) (
        shown
          (filter_of (λ t. t) "vpn")
          (reverse (last_of max_event_log_size (numbered_each 7 calls))))
snapshot-record_each_example = snapshot-record_each (λ t. t) 1 "vpn" calls empty_log

abbrev shown_id : List EventEntry → String
shown_id [] = ""
shown_id (e ∷ events) = e.id

snapshot_runs :
    shown_id (snapshot (λ t. t) 1 "vpn" (record_each calls (clear_events empty_log))).0 ≡ "ev_10"
unfolding snapshot newest record_event clear_events with_id with_defaults itoa digits
    max_event_log_size
snapshot_runs = refl
