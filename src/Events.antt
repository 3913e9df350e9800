-- ===== src/Events.antt =====
-- app/orchestrator/internal/state/event_log.go: the last events, for the user interface. The details
-- of an event are left out, as the log only keeps them; a time of 0 is Go's zero time.
pub mod Laws
mod Tests
use Prim.Native.String.{◌++◌ as append}
use mathlib.Core.List.{reverse}
use acestream_orchestrator.Prelude.{
  ℕ, ◌+◌, ◌-◌, ◌%◌, ◌^◌, Bool, ◌&&◌, not, List, [], ◌∷◌, ◌++◌, if◌then◌else◌, leb, ◌==◌, length,
  last_of, String, str_eq,
}
use acestream_orchestrator.Prelude.Maps.{Map, insert}
use acestream_orchestrator.Prelude.Digits.{itoa}
use acestream_orchestrator.State.{count}

pub record EventEntry : Type 0 where
  pub id : String
  pub event_type : String
  pub category : String
  pub message : String
  pub timestamp : ℕ
  pub container_id : String
  pub stream_id : String

pub record EventLog : Type 0 where
  pub seq : ℕ
  pub events : List EventEntry

unfoldable pub max_event_log_size : ℕ
max_event_log_size = 500

unfoldable pub with_defaults : ℕ → EventEntry → EventEntry
with_defaults now entry = record entry {
  event_type = if str_eq entry.event_type "" then "system" else entry.event_type;
  category = if str_eq entry.category "" then "info" else entry.category;
  timestamp = if entry.timestamp == 0 then now else entry.timestamp;
}

-- `l.seq++` wraps around.
abbrev pub next_seq : ℕ → ℕ
next_seq seq = (seq + 1) % 2 ^ 64

unfoldable pub with_id : ℕ → ℕ → EventEntry → EventEntry
with_id seq now entry = record (with_defaults now entry) { id = append "ev_" (itoa seq) }

unfoldable pub record_event : ℕ → EventEntry → EventLog → EventLog
record_event now entry l = record {
  seq = next_seq l.seq;
  events = last_of max_event_log_size (l.events ++ (with_id (next_seq l.seq) now entry ∷ []));
}

unfoldable pub clear_events : EventLog → EventLog
clear_events l = record l { events = [] }

unfoldable pub by_type : List EventEntry → Map ℕ → Map ℕ
by_type [] counts = counts
by_type (e ∷ events) counts =
    by_type events (insert e.event_type (count e.event_type counts + 1) counts)

abbrev pub is_shown : String → EventEntry → Bool
is_shown filter e = not (not (str_eq filter "") && not (str_eq e.event_type filter))

-- The loop from the newest event on, with room for `limit` more, which is positive.
unfoldable pub newest : String → ℕ → List EventEntry → List EventEntry
newest filter limit [] = []
newest filter limit (e ∷ events) =
    let skipped = newest filter limit events in
    let later = newest filter (limit - 1) events in
    if is_shown filter e then e ∷ (if leb limit 1 then [] else later) else skipped

abbrev pub effective : ℕ → ℕ
effective limit = if limit == 0 then 100 else limit

abbrev pub filter_of : (String → String) → String → String
filter_of normal event_type = if str_eq (normal event_type) "all" then "" else normal event_type

-- The events, how many there are, and how many of each type. `normal` is `ToLower` after
-- `TrimSpace`.
unfoldable pub snapshot : (String → String) → ℕ → String → EventLog → List EventEntry × ℕ × Map ℕ
snapshot normal limit event_type l = (
  newest (filter_of normal event_type) (effective limit) (reverse l.events),
  length l.events,
  by_type l.events [],
)
