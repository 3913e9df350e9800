-- ===== src/Hls.antt =====
-- app/orchestrator/internal/proxy/hls/segmenter.go: the HLS segments of a stream, cut from the
-- ring's chunks by program clock references. A time is a number of ticks of 90 kHz, which the
-- source divides by 90000 into float seconds; rounding is left out. `segStart` is -1 in the
-- source when it is not set. `none` is the panic of `IsKeyframe`.
pub mod Covers
pub mod Window
pub mod Blocks
pub mod Playlist
mod Tests
use acestream_orchestrator.Prelude.{
  ℕ, zero, suc, ◌+◌, ◌-◌, ◌*◌, ◌/◌, ◌%◌, Bool, true, false, ◌&&◌, ◌||◌, not, Option, none, some,
  List, [], ◌∷◌, ◌++◌, if◌then◌else◌, ltb, leb, ◌==◌, drop, take, length, last_of, and_then,
}
use acestream_orchestrator.Prelude.Int.{ℤ, pos, negsuc, sub_ℕ, ltb_ℤ}
use acestream_orchestrator.Ts.{packet_size, sync_byte, byte_at, PcrResult, find_pcr, from_sync}
use acestream_orchestrator.Ts.Keyframe.{is_keyframe}
use acestream_orchestrator.Ring.{RingBuffer, head_index, read_after}

-- 2 seconds, the five seconds of `flushTimeoutSec`, and 2.5 times the target.
abbrev pub target_dur : ℕ
target_dur = 180000

abbrev pub flush_timeout : ℕ
flush_timeout = 450000

abbrev pub max_dur : ℕ
max_dur = 450000

abbrev pub pcr_rollover : ℕ
pcr_rollover = 8589934592

pub record HlsSegment : Type 0 where
  pub seq : ℕ
  pub bytes : List ℕ
  pub duration : ℤ
  pub discontinuity : Bool

pub record Segmenter : Type 0 where
  pub window_size : ℕ
  pub segs : List HlsSegment
  pub pending_discontinuity : Bool

abbrev pub new_segmenter : ℕ → Segmenter
new_segmenter hls_window_size = record {
  window_size = if hls_window_size == 0 then 6 else hls_window_size;
  segs = [];
  pending_discontinuity = false;
}

abbrev pub aligned : List ℕ → ℕ
aligned bytes = length bytes / packet_size * packet_size

unfoldable pub push_segment : ℕ → List ℕ → ℤ → Segmenter → Segmenter
push_segment seq bytes dur s =
    let segment : HlsSegment = record {
      seq = seq;
      bytes = take (aligned bytes) bytes;
      duration = dur;
      discontinuity = s.pending_discontinuity;
    } in
    if aligned bytes == 0 then s else record s {
      pending_discontinuity = false;
      segs = last_of s.window_size (s.segs ++ (segment ∷ []));
    }

-- The local variables of `run`, and the segmenter.
pub record Worker : Type 0 where
  pub cursor : ℤ
  pub cursor_gen : ℕ
  pub acc : List ℕ
  pub seg_start : Option ℕ
  pub local_seq : ℕ
  pub segmenter : Segmenter

-- A segment with these bytes, and its number used up.
unfoldable pub cut : List ℕ → ℤ → Worker → Worker
cut bytes dur w = record w {
  segmenter = push_segment w.local_seq bytes dur w.segmenter;
  local_seq = w.local_seq + 1;
}

abbrev pub when_pcr : PcrResult → Option ℕ
when_pcr res = if res.has_pcr then some res.value else none

-- The duration of a segment that a discontinuity ends.
abbrev pub closing_dur : Option ℕ → PcrResult → ℤ
closing_dur none res = pos target_dur
closing_dur (some start) res = if res.has_pcr then sub_ℕ res.value start else pos target_dur

-- The branch of a packet with the discontinuity flag, which `before` has not.
unfoldable pub discontinue : List ℕ → List ℕ → PcrResult → Worker → Worker
discontinue pkt before res w =
    let closed =
      if leb packet_size (length before) then cut before (closing_dur w.seg_start res) w else w in
    record closed { acc = pkt; seg_start = when_pcr res }

-- The time since the start: the ticks, wrapped, or a jump.
pub data Elapsed : Type 0 where
  ticks : ℕ → Elapsed
  jump : Elapsed

unfoldable pub elapsed_since : ℕ → ℕ → Elapsed
elapsed_since start pcr =
    if ltb (pcr + pcr_rollover / 2) start
    then ticks (pcr + pcr_rollover - start)
    else if ltb pcr start || ltb 5400000 (pcr - start)
    then jump
    else ticks (pcr - start)

-- A cut behind the packet that ends `acc`, at its clock reference.
unfoldable pub cut_at : ℕ → ℕ → Worker → Worker
cut_at pcr dur w = record (cut w.acc (pos dur) w) { acc = []; seg_start = some pcr }

-- `res.RandomAccess || ts.IsKeyframe(pkt)`.
abbrev pub is_key : List ℕ → PcrResult → Option Bool
is_key pkt res = if res.random_access then some true else is_keyframe pkt

-- The test on the target duration; `acc` ends with the packet.
unfoldable pub cut_if_due : List ℕ → PcrResult → ℕ → Worker → Option Worker
cut_if_due pkt res elapsed w = if ltb elapsed target_dur then some w else elim (is_key pkt res) [
  | none ↦ none
  | some key ↦ some (if key || leb max_dur elapsed then cut_at res.value elapsed w else w)
]

-- The end of the loop's body, for a packet with a clock reference.
unfoldable pub with_pcr : List ℕ → PcrResult → Worker → Option Worker
with_pcr pkt res w = elim w.seg_start [
  | none ↦ some (record w { seg_start = some res.value })
  | some start ↦ elim (elapsed_since start res.value) [
    | jump ↦ some (cut_at res.value target_dur w)
    | ticks elapsed ↦ cut_if_due pkt res elapsed w
  ]
]

-- The body of the loop for one packet.
unfoldable pub process_packet : List ℕ → Worker → Option Worker
process_packet pkt w =
    let res = find_pcr pkt in
    let added = w.acc ++ pkt in
    if res.discontinuity
    then some (discontinue pkt (take (length added - packet_size) added) res w)
    else if not res.has_pcr
    then some (record w { acc = added })
    else with_pcr pkt res (record w { acc = added })

-- The loop over the packets of a chunk, from `off` on.
unfoldable pub process_from : ℕ → List ℕ → Worker → Option Worker
process_from zero chunk w = some w
process_from (suc fuel) chunk w = elim (ltb (length chunk) packet_size) [
  | true ↦ some w
  | false ↦ elim (byte_at chunk 0 == sync_byte) [
    | true ↦
        and_then (process_packet (take packet_size chunk) w)
          (process_from fuel (drop packet_size chunk))
    | false ↦ elim (from_sync (drop 1 chunk)) [
      | none ↦ some w
      | some rest ↦ process_from fuel rest w
    ]
  ]
]

-- Each round drops a byte or more.
unfoldable pub process_chunk : List ℕ → Worker → Option Worker
process_chunk chunk w = process_from (length chunk + 1) chunk w

unfoldable pub process_chunks : List (List ℕ) → Worker → Option Worker
process_chunks [] w = some w
process_chunks (chunk ∷ chunks) w = and_then (process_chunk chunk w) (process_chunks chunks)

unfoldable pub re_anchor : RingBuffer → Worker → Worker
re_anchor rb w = record w {
  acc = [];
  seg_start = none;
  cursor = head_index rb;
  cursor_gen = rb.generation;
  segmenter = record w.segmenter { pending_discontinuity = true };
}

abbrev pub flush_dur : Option ℕ → ℕ
flush_dur none = target_dur
flush_dur (some start) = flush_timeout

-- The flush timer.
unfoldable pub flush : Worker → Worker
flush w =
    let n = aligned w.acc in
    if leb packet_size (length w.acc)
    then record (cut (take n w.acc) (pos (flush_dur w.seg_start)) w) {
      acc = drop n w.acc;
      seg_start = none;
    }
    else w

-- One round of `run`, with whether the flush timer has fired when there is nothing to read.
unfoldable pub turn : Bool → RingBuffer → Worker → Option Worker
turn fired rb w =
    let (chunks, new_cursor) = read_after w.cursor 5 rb in
    elim chunks [
      | c ∷ cs ↦ process_chunks (c ∷ cs) (record w { cursor = new_cursor })
      | [] ↦ some (
          if not (rb.generation == w.cursor_gen)
          then re_anchor rb w
          else if fired
          then flush w
          else w)
    ]

-- What `Manifest` writes, one for each line; `extinf` and `segment_url` stand for the formatted
-- duration and the URL with this number.
pub data Line : Type 0 where
  extm3u version discontinuity : Line
  target_duration media_sequence segment_url : ℕ → Line
  extinf : ℤ → Line

abbrev pub to_ℕ : ℤ → ℕ
to_ℕ (pos n) = n
to_ℕ (negsuc n) = 0

unfoldable pub longest : List HlsSegment → ℕ → ℕ
longest [] max = max
longest (seg ∷ segs) max =
    longest segs (if ltb max (to_ℕ seg.duration) then to_ℕ seg.duration else max)

unfoldable pub segment_lines : List HlsSegment → List Line
segment_lines [] = []
segment_lines (seg ∷ segs) =
    (if seg.discontinuity then discontinuity ∷ [] else [])
    ++ (extinf seg.duration ∷ segment_url seg.seq ∷ segment_lines segs)

-- `int(math.Ceil(maxDur)) + 1`, of ticks.
abbrev pub whole_seconds : ℕ → ℕ
whole_seconds t = (t + 89999) / 90000 + 1

unfoldable pub manifest_of : List HlsSegment → List Line
manifest_of [] = extm3u ∷ version ∷ target_duration 4 ∷ media_sequence 0 ∷ []
manifest_of (seg ∷ segs) =
    extm3u
    ∷ version
    ∷ target_duration (whole_seconds (longest (seg ∷ segs) 0))
    ∷ media_sequence seg.seq
    ∷ segment_lines (seg ∷ segs)

unfoldable pub manifest : Segmenter → List Line
manifest s = manifest_of s.segs

unfoldable pub find_segment : ℕ → List HlsSegment → Option (List ℕ)
find_segment seq [] = none
find_segment seq (seg ∷ segs) =
    let later = find_segment seq segs in if seg.seq == seq then some seg.bytes else later

unfoldable pub segment : ℕ → Segmenter → Option (List ℕ)
segment seq s = find_segment seq s.segs

unfoldable pub total_bytes : List HlsSegment → ℕ
total_bytes [] = 0
total_bytes (seg ∷ segs) = length seg.bytes + total_bytes segs

unfoldable pub memory_usage : Segmenter → ℕ
memory_usage s = total_bytes s.segs
