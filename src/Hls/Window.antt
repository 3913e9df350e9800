-- ===== src/Hls/Window.antt =====
-- Pushing: what the window of segments holds, against all segments ever pushed.
use acestream_orchestrator.Prelude.{
  ℕ, zero, suc, ◌+◌, ◌%◌, ◌<◌, ◌≡◌, refl, sym, ap, ◌∙◌, false, List, [], ◌∷◌, ◌++◌, ◌==◌, take,
  length, last_of, last_of-append, arith,
}
use mathlib.Core.List.{append_assoc, append-nil}
use acestream_orchestrator.Prelude.Int.{ℤ}
use acestream_orchestrator.Ts.{packet_size}
use acestream_orchestrator.Hls.{HlsSegment, Segmenter, push_segment, aligned}

-- The bytes of segments, in order.
abbrev pub bytes_of : List HlsSegment → List ℕ
bytes_of [] = []
bytes_of (seg ∷ segs) = seg.bytes ++ bytes_of segs

-- Whole packets, at least one of them.
abbrev pub IsWhole : List ℕ → Type 0
IsWhole bytes = (0 < length bytes) × (length bytes % packet_size ≡ 0)

-- The segments are numbered from `n` on, and each is some whole packets.
abbrev pub Numbered : ℕ → List HlsSegment → Type 0
Numbered n [] = Unit {0}
Numbered n (seg ∷ segs) = (seg.seq ≡ n) × IsWhole seg.bytes × Numbered (n + 1) segs

-- All segments ever pushed are `log`, numbered from 0 on, of which the segmenter has the last.
pub record IsLog (log : List HlsSegment) (s : Segmenter) : Type 0 where
  pub window : s.segs ≡ last_of s.window_size log
  pub numbered : Numbered 0 log

Numbered-append :
    (n : ℕ) (log : List HlsSegment) (seg : HlsSegment)
    → Numbered n log
    → seg.seq ≡ n + length log
    → IsWhole seg.bytes
    → Numbered n (log ++ (seg ∷ []))
Numbered-append n [] seg h e w = (omega (arith, e), w, tt)
Numbered-append n (x ∷ log) seg h e w =
    (h.0, h.1, Numbered-append (n + 1) log seg h.2 (omega (arith, e)) w)

pub bytes_of-append :
    (log : List HlsSegment) (seg : HlsSegment)
    → bytes_of (log ++ (seg ∷ [])) ≡ bytes_of log ++ seg.bytes
bytes_of-append [] seg = append-nil seg.bytes
bytes_of-append (x ∷ log) seg =
    ap (λ b. x.bytes ++ b) (bytes_of-append log seg)
    ∙ sym (append_assoc x.bytes (bytes_of log) seg.bytes)

take-all : (bytes : List ℕ) (n : ℕ) → n ≡ length bytes → take n bytes ≡ bytes
take-all [] zero h = refl
take-all [] (suc n) h = refl
take-all (b ∷ bytes) zero h = absurd (omega arith)
take-all (b ∷ bytes) (suc n) h = ap (λ t. b ∷ t) (take-all bytes n (omega arith))

aligned-whole : (bytes : List ℕ) → IsWhole bytes → aligned bytes ≡ length bytes
aligned-whole bytes h = omega (arith, h.0, h.1)

-- The segment that is pushed.
abbrev pub pushed : ℕ → List ℕ → ℤ → Segmenter → HlsSegment
pushed seq bytes dur s = record {
  seq = seq;
  bytes = bytes;
  duration = dur;
  discontinuity = s.pending_discontinuity;
}

push_segment_whole :
    (seq : ℕ) (bytes : List ℕ) (dur : ℤ) (s : Segmenter)
    → IsWhole bytes
    → push_segment seq bytes dur s ≡ record s {
      pending_discontinuity = false;
      segs = last_of s.window_size (s.segs ++ (pushed seq bytes dur s ∷ []));
    }
unfolding push_segment
push_segment_whole seq bytes dur s w =
    rw (some_bytes, take-all bytes (aligned bytes) (aligned-whole bytes w)) refl
  where
    some_bytes : (aligned bytes == 0) ≡ false
    some_bytes = ground (arith, w, aligned-whole bytes w)

pub push_segment-IsLog :
    (log : List HlsSegment) (bytes : List ℕ) (dur : ℤ) (s : Segmenter)
    → IsLog log s
    → IsWhole bytes
    → IsLog (log ++ (pushed (length log) bytes dur s ∷ [])) (push_segment (length log) bytes dur s)
push_segment-IsLog log bytes dur s h w =
    rw (push_segment_whole (length log) bytes dur s w) (record {
      window =
          ap (λ l. last_of s.window_size (l ++ (pushed (length log) bytes dur s ∷ []))) h.window
          ∙ last_of-append s.window_size log (pushed (length log) bytes dur s);
      numbered = Numbered-append 0 log (pushed (length log) bytes dur s) h.numbered (omega arith) w;
    })
