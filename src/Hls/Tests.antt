-- ===== src/Hls/Tests.antt =====
-- The theorems on the segmenter at concrete inputs.
use acestream_orchestrator.Prelude.{
  ◌-◌, ◌*◌, if◌then◌else◌, ltb, ◌≡◌, refl, none, List, [], ◌∷◌, ◌++◌, arith, ℕ, replicate,
}
use acestream_orchestrator.Prelude.Int.{pos, negsuc}
use acestream_orchestrator.Ts.Block.{block}
use acestream_orchestrator.Hls.{
  HlsSegment, Segmenter, Worker, new_segmenter, push_segment, process_chunks, manifest, segment,
}
use acestream_orchestrator.Hls.Window.{IsLog, pushed, push_segment-IsLog}
use acestream_orchestrator.Hls.Covers.{Covers, GrownIf}
use acestream_orchestrator.Hls.Blocks.{chunks_of, process_chunks-GrownIf}
use acestream_orchestrator.Hls.Playlist.{
  AllWithin, bytes_at, announced, segment_lem, manifest-AllWithin,
}

abbrev new_worker : Worker
new_worker = record {
  cursor = negsuc 0;
  cursor_gen = 0;
  acc = [];
  seg_start = none;
  local_seq = 0;
  segmenter = new_segmenter 1;
}

new_segmenter-IsLog : IsLog [] (new_segmenter 1)
new_segmenter-IsLog = record { window = refl; numbered = tt }

new_worker-Covers : Covers [] [] new_worker
new_worker-Covers = record { logged = new_segmenter-IsLog; next = refl; kept = refl; whole = refl }

-- A packet with the clock reference 0, and one with a discontinuity.
abbrev clock_packet : List ℕ
clock_packet = 0x47 ∷ 1 ∷ 0 ∷ 0x20 ∷ 183 ∷ 0x10 ∷ replicate 182 0

abbrev break_packet : List ℕ
break_packet = 0x47 ∷ 1 ∷ 0 ∷ 0x20 ∷ 183 ∷ 0x80 ∷ replicate 182 0

abbrev input : List (List (List ℕ))
input = (clock_packet ∷ []) ∷ (break_packet ∷ clock_packet ∷ []) ∷ []

process_chunks-GrownIf_example :
    GrownIf [] ([] ++ block (chunks_of input)) (process_chunks (chunks_of input) new_worker)
process_chunks-GrownIf_example =
    process_chunks-GrownIf [] [] input new_worker new_worker-Covers
      ((refl, refl, tt), ((refl, refl, (refl, refl, tt)), tt))

-- Two segments pushed, of which the window has one.
abbrev first_segment : HlsSegment
first_segment = pushed 0 clock_packet (pos 180000) (new_segmenter 1)

abbrev one_pushed : Segmenter
one_pushed = push_segment 0 clock_packet (pos 180000) (new_segmenter 1)

abbrev second_segment : HlsSegment
second_segment = pushed 1 break_packet (pos 200000) one_pushed

abbrev two_pushed : Segmenter
two_pushed = push_segment 1 break_packet (pos 200000) one_pushed

one_pushed-IsLog : IsLog (first_segment ∷ []) one_pushed
one_pushed-IsLog =
    push_segment-IsLog [] clock_packet (pos 180000) (new_segmenter 1) new_segmenter-IsLog
      (omega arith, refl)

two_pushed-IsLog : IsLog (first_segment ∷ second_segment ∷ []) two_pushed
two_pushed-IsLog =
    push_segment-IsLog (first_segment ∷ []) break_packet (pos 200000) one_pushed one_pushed-IsLog
      (omega arith, refl)

two_pushed-size : two_pushed.window_size ≡ 1
unfolding push_segment
two_pushed-size = refl

manifest-AllWithin_example :
    AllWithin ((announced (manifest two_pushed)).0 * 90000) two_pushed.segs
    × ((announced (manifest two_pushed)).1 ≡ 2 - two_pushed.window_size)
manifest-AllWithin_example =
    manifest-AllWithin (first_segment ∷ second_segment ∷ []) two_pushed two_pushed-IsLog
      (omega arith) (omega (arith, two_pushed-size))

segment_lem_example : segment 1 two_pushed ≡ (
    if ltb 1 (2 - two_pushed.window_size)
    then none
    else bytes_at (first_segment ∷ second_segment ∷ []) 1)
segment_lem_example =
    segment_lem 1 (first_segment ∷ second_segment ∷ []) two_pushed two_pushed-IsLog
