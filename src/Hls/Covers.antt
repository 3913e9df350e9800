-- ===== src/Hls/Covers.antt =====
-- What the worker of `run` keeps: every packet is in one segment or in the one being collected.
use acestream_orchestrator.Prelude.{
  ℕ, ◌-◌, ◌%◌, ◌<◌, ◌≡◌, refl, sym, ap, subst, ◌∙◌, Bool, true, false, ◌||◌, not, Option, none,
  some, List, [], ◌∷◌, ◌++◌, if◌then◌else◌, ltb, leb, take, length, length-append, arith,
  Bool-cases, inl, inr,
}
use mathlib.Core.List.{append_assoc, append-nil}
use acestream_orchestrator.Prelude.Int.{ℤ, pos}
use acestream_orchestrator.Ts.{packet_size, PcrResult, find_pcr}
use acestream_orchestrator.Hls.{
  HlsSegment, Worker, cut, cut_at, closing_dur, when_pcr, discontinue, Elapsed, ticks, jump,
  elapsed_since, is_key, cut_if_due, with_pcr, process_packet, target_dur, max_dur,
}
use acestream_orchestrator.Hls.Window.{bytes_of, bytes_of-append, IsLog, pushed, push_segment-IsLog}

-- The segments pushed so far, `log`, with what is collected, are exactly the bytes of the packets
-- since the worker began or was last anchored anew.
pub record Covers (log : List HlsSegment) (bytes : List ℕ) (w : Worker) : Type 0 where
  pub logged : IsLog log w.segmenter
  pub next : w.local_seq ≡ length log
  pub kept : bytes_of log ++ w.acc ≡ bytes
  pub whole : length w.acc % packet_size ≡ 0

-- The same with more segments.
abbrev pub Grown : List HlsSegment → List ℕ → Worker → Type 0
Grown log bytes w = (more : List HlsSegment) × Covers (log ++ more) bytes w

abbrev pub GrownIf : List HlsSegment → List ℕ → Option Worker → Type 0
GrownIf log bytes none = Unit {0}
GrownIf log bytes (some w) = Grown log bytes w

pub same-Grown :
    (log : List HlsSegment) (bytes : List ℕ) (w : Worker) → Covers log bytes w → Grown log bytes w
same-Grown log bytes w c = ([], subst (λ l. Covers l bytes w) (sym (append-nil log)) c)

-- A cut of all that was collected, after which `rest` is collected.
pub cut-Covers :
    (log : List HlsSegment) (bytes rest : List ℕ) (dur : ℤ) (start : Option ℕ) (w : Worker)
    → Covers log bytes w
    → 0 < length w.acc
    → length rest % packet_size ≡ 0
    → Covers
        (log ++ (pushed (length log) w.acc dur w.segmenter ∷ []))
        (bytes ++ rest)
        (record (cut w.acc dur w) { acc = rest; seg_start = start })
unfolding cut
cut-Covers log bytes rest dur start w c n r = record {
  logged = rw c.next (push_segment-IsLog log w.acc dur w.segmenter c.logged (n, c.whole));
  next = omega (arith, c.next, length-append log (pushed (length log) w.acc dur w.segmenter ∷ []));
  kept =
      ap (λ b. b ++ rest)
        (bytes_of-append log (pushed (length log) w.acc dur w.segmenter) ∙ c.kept);
  whole = r;
}

add-Covers :
    (log : List HlsSegment) (bytes pkt : List ℕ) (w : Worker)
    → Covers log bytes w
    → length pkt ≡ packet_size
    → Covers log (bytes ++ pkt) (record w { acc = w.acc ++ pkt })
add-Covers log bytes pkt w c l = record {
  logged = c.logged;
  next = c.next;
  kept = sym (append_assoc (bytes_of log) w.acc pkt) ∙ ap (λ b. b ++ pkt) c.kept;
  whole = omega (arith, c.whole, length-append w.acc pkt);
}

start-Covers :
    (log : List HlsSegment) (bytes : List ℕ) (start : Option ℕ) (w : Worker)
    → Covers log bytes w
    → Covers log bytes (record w { seg_start = start })
start-Covers log bytes start w c = record {
  logged = c.logged;
  next = c.next;
  kept = c.kept;
  whole = c.whole;
}

cut_at-Grown :
    (log : List HlsSegment) (bytes : List ℕ) (pcr dur : ℕ) (w : Worker)
    → Covers log bytes w
    → 0 < length w.acc
    → Grown log bytes (cut_at pcr dur w)
unfolding cut_at
cut_at-Grown log bytes pcr dur w c n = (
  pushed (length log) w.acc (pos dur) w.segmenter ∷ [],
  subst
      (λ b.
        Covers (log ++ (pushed (length log) w.acc (pos dur) w.segmenter ∷ [])) b (cut_at pcr dur w))
      (append-nil bytes) (cut-Covers log bytes [] (pos dur) (some pcr) w c n refl),
)

cut_if_due-GrownIf :
    (log : List HlsSegment) (bytes pkt : List ℕ) (res : PcrResult) (elapsed : ℕ) (w : Worker)
    → Covers log bytes w
    → 0 < length w.acc
    → GrownIf log bytes (cut_if_due pkt res elapsed w)
unfolding cut_if_due
cut_if_due-GrownIf log bytes pkt res elapsed w c n = go (ltb elapsed target_dur) (is_key pkt res)
  where
    cut_or_not : (b : Bool) → Grown log bytes (if b then cut_at res.value elapsed w else w)
    cut_or_not true = cut_at-Grown log bytes res.value elapsed w c n
    cut_or_not false = same-Grown log bytes w c

    go :
        (early : Bool) (key : Option Bool)
        → GrownIf log bytes (
            if early then some w else elim key [
              | none ↦ none
              | some k ↦ some (if k || leb max_dur elapsed then cut_at res.value elapsed w else w)
            ])
    go true key = same-Grown log bytes w c
    go false none = tt
    go false (some k) = cut_or_not (k || leb max_dur elapsed)

with_pcr-GrownIf :
    (log : List HlsSegment) (bytes pkt : List ℕ) (res : PcrResult) (w : Worker)
    → Covers log bytes w
    → 0 < length w.acc
    → GrownIf log bytes (with_pcr pkt res w)
unfolding with_pcr
with_pcr-GrownIf log bytes pkt res w c n = go w.seg_start
  where
    by_time :
        (e : Elapsed)
        → GrownIf log bytes (elim e [
          | jump ↦ some (cut_at res.value target_dur w)
          | ticks elapsed ↦ cut_if_due pkt res elapsed w
        ])
    by_time jump = cut_at-Grown log bytes res.value target_dur w c n
    by_time (ticks elapsed) = cut_if_due-GrownIf log bytes pkt res elapsed w c n

    go :
        (start : Option ℕ)
        → GrownIf log bytes (elim start [
          | none ↦ some (record w { seg_start = some res.value })
          | some t ↦ elim (elapsed_since t res.value) [
            | jump ↦ some (cut_at res.value target_dur w)
            | ticks elapsed ↦ cut_if_due pkt res elapsed w
          ]
        ])
    go none = same-Grown log bytes _ (start-Covers log bytes (some res.value) w c)
    go (some t) = by_time (elapsed_since t res.value)

take-length : (xs ys : List ℕ) → take (length xs) (xs ++ ys) ≡ xs
take-length [] ys = refl
take-length (x ∷ xs) ys = ap (λ t. x ∷ t) (take-length xs ys)

-- `acc[:len(acc)-PacketSize]` takes the packet off again.
take-added :
    (acc pkt : List ℕ)
    → length pkt ≡ packet_size
    → take (length (acc ++ pkt) - packet_size) (acc ++ pkt) ≡ acc
take-added acc pkt l =
    ap (λ n. take n (acc ++ pkt)) {x = length (acc ++ pkt) - packet_size} {y = length acc}
      (omega (arith, l, length-append acc pkt))
    ∙ take-length acc pkt

append-empty : (xs ys : List ℕ) → length ys ≡ 0 → xs ++ ys ≡ xs
append-empty xs [] h = append-nil xs
append-empty xs (y ∷ ys) h = absurd (omega arith)

discontinue-Grown :
    (log : List HlsSegment) (bytes pkt : List ℕ) (res : PcrResult) (w : Worker)
    → Covers log bytes w
    → length pkt ≡ packet_size
    → Grown log (bytes ++ pkt) (discontinue pkt w.acc res w)
unfolding discontinue
discontinue-Grown log bytes pkt res w c l = elim (Bool-cases (leb packet_size (length w.acc))) [
  | inl some_packets ↦ rw some_packets (
    pushed (length log) w.acc (closing_dur w.seg_start res) w.segmenter ∷ [],
    cut-Covers log bytes pkt (closing_dur w.seg_start res) (when_pcr res) w c (ground arith)
        (omega (arith, l)),
  )
  | inr few ↦ rw few (
      same-Grown log (bytes ++ pkt) _ (record {
        logged = c.logged;
        next = c.next;
        kept =
            ap (λ b. b ++ pkt)
              (sym (append-empty (bytes_of log) w.acc (ground (arith, c.whole))) ∙ c.kept);
        whole = omega (arith, l);
      }))
]

-- One packet of 188 bytes: unless the keyframe test panics, the packet is added to what the worker
-- keeps, and every segment pushed before is still there.
pub process_packet-GrownIf :
    (log : List HlsSegment) (bytes pkt : List ℕ) (w : Worker)
    → Covers log bytes w
    → length pkt ≡ packet_size
    → GrownIf log (bytes ++ pkt) (process_packet pkt w)
unfolding process_packet
process_packet-GrownIf log bytes pkt w c l =
    subst
      (λ before. GrownIf log (bytes ++ pkt) (
        if res.discontinuity
        then some (discontinue pkt before res w)
        else if not res.has_pcr
        then some (record w { acc = w.acc ++ pkt })
        else with_pcr pkt res (record w { acc = w.acc ++ pkt })))
      (sym (take-added w.acc pkt l)) (go res.discontinuity res.has_pcr)
  where
    res : PcrResult
    res = find_pcr pkt

    added : Covers log (bytes ++ pkt) (record w { acc = w.acc ++ pkt })
    added = add-Covers log bytes pkt w c l

    go :
        (disc has : Bool)
        → GrownIf log (bytes ++ pkt) (
            if disc
            then some (discontinue pkt w.acc res w)
            else if not has
            then some (record w { acc = w.acc ++ pkt })
            else with_pcr pkt res (record w { acc = w.acc ++ pkt }))
    go true has = discontinue-Grown log bytes pkt res w c l
    go false false = same-Grown log (bytes ++ pkt) (record w { acc = w.acc ++ pkt }) added
    go false true =
        with_pcr-GrownIf log (bytes ++ pkt) pkt res (record w { acc = w.acc ++ pkt }) added
          (omega (arith, l, length-append w.acc pkt))
