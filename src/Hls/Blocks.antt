-- ===== src/Hls/Blocks.antt =====
-- The worker on chunks of whole packets, and on its timer and its resets.
use acestream_orchestrator.Prelude.{
  ℕ, zero, suc, ◌+◌, ◌<◌, ◌≡◌, refl, sym, ap, subst, ◌∙◌, true, false, Option, none, some, List, [],
  ◌∷◌, ◌++◌, ltb, leb, ◌==◌, take, drop, length, length-append, and_then, fun_ext, arith,
  Bool-cases, inl, inr,
}
use mathlib.Core.List.{append_assoc, append-nil}
use acestream_orchestrator.Prelude.Int.{pos}
use acestream_orchestrator.Ts.{packet_size, sync_byte, byte_at}
use acestream_orchestrator.Ts.Block.{Packets, block, drop_append, take_append, byte_at_append}
use acestream_orchestrator.Ring.{RingBuffer}
use acestream_orchestrator.Hls.{
  HlsSegment, Worker, aligned, cut, flush_dur, process_packet, process_from, process_chunk,
  process_chunks, flush, re_anchor,
}
use acestream_orchestrator.Hls.Window.{bytes_of, pushed}
use acestream_orchestrator.Hls.Covers.{
  Covers, Grown, GrownIf, same-Grown, cut-Covers, process_packet-GrownIf,
}

-- The packets, one after the other.
process_packets : List (List ℕ) → Worker → Option Worker
process_packets [] w = some w
process_packets (p ∷ ps) w = and_then (process_packet p w) (process_packets ps)

process_from-synced :
    (fuel : ℕ) (p rest : List ℕ) (w : Worker)
    → length p ≡ packet_size
    → byte_at p 0 ≡ sync_byte
    → process_from (suc fuel) (p ++ rest) w ≡ and_then (process_packet p w) (process_from fuel rest)
unfolding process_from
process_from-synced fuel p rest w l b =
    rw (whole, process_from)
      (rw (synced) (rw (take_append packet_size p rest l, drop_append packet_size p rest l) refl))
  where
    whole : ltb (length (p ++ rest)) packet_size ≡ false
    whole = ground (arith, l, length-append p rest)

    synced : (byte_at (p ++ rest) 0 == sync_byte) ≡ true
    synced = rw (byte_at_append p rest (omega (arith, l))) (ground (arith, b))

process_from-block :
    (fuel : ℕ) (ps : List (List ℕ)) (w : Worker)
    → Packets ps
    → length (block ps) < fuel
    → process_from fuel (block ps) w ≡ process_packets ps w
unfolding process_packets
process_from-block zero ps w h k = absurd (omega arith)
process_from-block (suc fuel) [] w h k = unfold process_from in refl
process_from-block (suc fuel) (p ∷ ps) w h k =
    process_from-synced fuel p (block ps) w h.0 h.1
    ∙ ap (and_then (process_packet p w)) (
        fun_ext (λ next.
          process_from-block fuel ps next h.2 (omega (arith, h.0, length-append p (block ps)))))

GrownIf-append :
    (log l : List HlsSegment) (bytes : List ℕ) (o : Option Worker)
    → GrownIf (log ++ l) bytes o
    → GrownIf log bytes o
GrownIf-append log l bytes none g = tt
GrownIf-append log l bytes (some w) (m, c) =
    (l ++ m, subst (λ k. Covers k bytes w) (append_assoc log l m) c)

and_then-GrownIf :
    (log : List HlsSegment) (bytes next_bytes : List ℕ) (o : Option Worker)
    (f : Worker → Option Worker)
    → GrownIf log bytes o
    → ((l : List HlsSegment) (w : Worker) → Covers l bytes w → GrownIf l next_bytes (f w))
    → GrownIf log next_bytes (and_then o f)
unfolding and_then
and_then-GrownIf log bytes next_bytes none f g h = tt
and_then-GrownIf log bytes next_bytes (some w) f (l, c) h =
    GrownIf-append log l next_bytes (f w) (h (log ++ l) w c)

process_packets-GrownIf :
    (log : List HlsSegment) (bytes : List ℕ) (ps : List (List ℕ)) (w : Worker)
    → Covers log bytes w
    → Packets ps
    → GrownIf log (bytes ++ block ps) (process_packets ps w)
unfolding process_packets
process_packets-GrownIf log bytes [] w c h = (
  [],
  subst (λ b. Covers (log ++ []) b w) (sym (append-nil bytes))
      (subst (λ l. Covers l bytes w) (sym (append-nil log)) c),
)
process_packets-GrownIf log bytes (p ∷ ps) w c h =
    and_then-GrownIf log (bytes ++ p) (bytes ++ (p ++ block ps)) (process_packet p w)
      (process_packets ps) (process_packet-GrownIf log bytes p w c h.0)
      (λ l next k.
        subst (λ b. GrownIf l b (process_packets ps next)) (append_assoc bytes p (block ps))
          (process_packets-GrownIf l (bytes ++ p) ps next k h.2))

process_chunk-GrownIf :
    (log : List HlsSegment) (bytes : List ℕ) (ps : List (List ℕ)) (w : Worker)
    → Covers log bytes w
    → Packets ps
    → GrownIf log (bytes ++ block ps) (process_chunk (block ps) w)
unfolding process_chunk
process_chunk-GrownIf log bytes ps w c h =
    subst (GrownIf log (bytes ++ block ps))
      (sym (process_from-block (length (block ps) + 1) ps w h (omega arith)))
      (process_packets-GrownIf log bytes ps w c h)

-- Chunks, each a block of whole packets.
abbrev pub Blocks : List (List (List ℕ)) → Type 0
Blocks [] = Unit {0}
Blocks (ps ∷ pss) = Packets ps × Blocks pss

abbrev pub chunks_of : List (List (List ℕ)) → List (List ℕ)
chunks_of [] = []
chunks_of (ps ∷ pss) = block ps ∷ chunks_of pss

-- Chunks of whole packets: unless the keyframe test panics, all their packets are added, in order,
-- to the segments pushed and the one being collected, and the segments pushed before stay.
pub process_chunks-GrownIf :
    (log : List HlsSegment) (bytes : List ℕ) (pss : List (List (List ℕ))) (w : Worker)
    → Covers log bytes w
    → Blocks pss
    → GrownIf log (bytes ++ block (chunks_of pss)) (process_chunks (chunks_of pss) w)
unfolding process_chunks
process_chunks-GrownIf log bytes [] w c h = (
  [],
  subst (λ b. Covers (log ++ []) b w) (sym (append-nil bytes))
      (subst (λ l. Covers l bytes w) (sym (append-nil log)) c),
)
process_chunks-GrownIf log bytes (ps ∷ pss) w c h =
    and_then-GrownIf log (bytes ++ block ps) (bytes ++ (block ps ++ block (chunks_of pss)))
      (process_chunk (block ps) w) (process_chunks (chunks_of pss))
      (process_chunk-GrownIf log bytes ps w c h.0)
      (λ l next k.
        subst (λ b. GrownIf l b (process_chunks (chunks_of pss) next))
          (append_assoc bytes (block ps) (block (chunks_of pss)))
          (process_chunks-GrownIf l (bytes ++ block ps) pss next k h.1))

take-all :
    (bytes : List ℕ) (n : ℕ) → n ≡ length bytes → (take n bytes ≡ bytes) × (drop n bytes ≡ [])
take-all [] zero h = (refl, refl)
take-all [] (suc n) h = (refl, refl)
take-all (b ∷ bytes) zero h = absurd (omega arith)
take-all (b ∷ bytes) (suc n) h =
    let (taken, dropped) = take-all bytes n (omega arith) in (ap (λ t. b ∷ t) taken, dropped)

-- The flush timer loses nothing either: what was collected becomes a segment, if it is a packet or
-- more.
pub flush-Grown :
    (log : List HlsSegment) (bytes : List ℕ) (w : Worker)
    → Covers log bytes w
    → Grown log bytes (flush w)
unfolding flush
flush-Grown log bytes w c = elim (Bool-cases (leb packet_size (length w.acc))) [
  | inl enough ↦
      let (taken, dropped) = take-all w.acc (aligned w.acc) (omega (arith, c.whole)) in
      rw (enough, taken, dropped)
        (
          pushed (length log) w.acc (pos (flush_dur w.seg_start)) w.segmenter ∷ [],
          subst
              (λ b.
                Covers
                  (log
                    ++ (pushed (length log) w.acc (pos (flush_dur w.seg_start)) w.segmenter ∷ []))
                  b
                  (record (cut w.acc (pos (flush_dur w.seg_start)) w) {
                    acc = [];
                    seg_start = none;
                  }))
              (append-nil bytes)
              (cut-Covers log bytes [] (pos (flush_dur w.seg_start)) none w c (ground arith) refl),
        )
  | inr few ↦ rw few (same-Grown log bytes w c)
]

-- A new anchor drops what was being collected and keeps every segment.
pub re_anchor-Covers :
    (log : List HlsSegment) (bytes : List ℕ) (rb : RingBuffer) (w : Worker)
    → Covers log bytes w
    → Covers log (bytes_of log) (re_anchor rb w)
unfolding re_anchor
re_anchor-Covers log bytes rb w c = record {
  logged = record { window = c.logged.window; numbered = c.logged.numbered };
  next = c.next;
  kept = append-nil (bytes_of log);
  whole = refl;
}
