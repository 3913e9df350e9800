-- ===== src/Ring/Stream.antt =====
-- Writing: the chunks that `Write` stores are the stream cut into pieces of the target size.
use acestream_orchestrator.Prelude.{
  ℕ, zero, suc, ◌+◌, ◌≤◌, ◌<◌, ◌≡◌, refl, sym, ap, subst, ◌∙◌, true, false, ◌||◌, List, [], ◌∷◌,
  ◌++◌, arith, ltb, leb, ◌==◌, drop, take, length, length-drop, Bool-cases, inl, inr, some,
}
use mathlib.Core.List.{reverse, reverse-cons, append_assoc, append-nil}
use acestream_orchestrator.Ring.{
  RingBuffer, store_chunk, store_chunks, broadcast, finish_write, write,
}
use acestream_orchestrator.Ring.History.{Holds, store_chunk-Holds}

abbrev pub flat : List (List ℕ) → List ℕ
flat [] = []
flat (c ∷ cs) = c ++ flat cs

-- Every chunk has the length.
abbrev pub AllLength : ℕ → List (List ℕ) → Type 0
AllLength n [] = Unit {0}
AllLength n (c ∷ cs) = (length c ≡ n) × AllLength n cs

append-take-drop : (n : ℕ) (xs : List ℕ) → take n xs ++ drop n xs ≡ xs
append-take-drop zero xs = refl
append-take-drop (suc n) [] = refl
append-take-drop (suc n) (x ∷ xs) = ap (λ t. x ∷ t) (append-take-drop n xs)

length-take : (n : ℕ) (xs : List ℕ) → n ≤ length xs → length (take n xs) ≡ n
length-take zero xs h = refl
length-take (suc n) [] h = absurd (omega arith)
length-take (suc n) (x ∷ xs) h = omega (arith, length-take n xs (omega arith))

-- `cs`, oldest first, are the chunks that were stored: with what is left in `partial` they are
-- the bytes, each has the target size, and less than that is left. `written` lists them.
pub record Cut (hist : List (List ℕ)) (base target : ℕ) (bytes : List ℕ) (before : List (List ℕ))
    (rb : RingBuffer) (written : List (List ℕ)) : Type 0 where
  pub cs : List (List ℕ)
  pub holds : Holds (hist ++ cs) base rb
  pub bytes_kept : flat cs ++ rb.partial ≡ bytes
  pub sizes : AllLength target cs
  pub rest : length rb.partial < target
  pub listed : written ≡ reverse cs ++ before

partial-Holds :
    (hist : List (List ℕ)) (base : ℕ) (rest : List ℕ) (rb : RingBuffer)
    → Holds hist base rb
    → Holds hist base (record rb { partial = rest })
partial-Holds hist base rest rb v = record {
  positive = v.positive;
  slots_length = v.slots_length;
  seq_length = v.seq_length;
  head_length = v.head_length;
  base_le = v.base_le;
  indexed = v.indexed;
  stored = v.stored;
  recent = v.recent;
}

timed-Holds :
    (now : ℕ) (hist : List (List ℕ)) (base : ℕ) (rb : RingBuffer)
    → Holds hist base rb
    → Holds hist base (record rb { last_write_time = some now })
timed-Holds now hist base rb v = record {
  positive = v.positive;
  slots_length = v.slots_length;
  seq_length = v.seq_length;
  head_length = v.head_length;
  base_le = v.base_le;
  indexed = v.indexed;
  stored = v.stored;
  recent = v.recent;
}

broadcast-Holds :
    (later : ℕ) (hist : List (List ℕ)) (base : ℕ) (rb : RingBuffer)
    → Holds hist base rb
    → Holds hist base (broadcast (record rb { last_chunk_write_time = some later }))
unfolding broadcast
broadcast-Holds later hist base rb v = record {
  positive = v.positive;
  slots_length = v.slots_length;
  seq_length = v.seq_length;
  head_length = v.head_length;
  base_le = v.base_le;
  indexed = v.indexed;
  stored = v.stored;
  recent = v.recent;
}

Cut-cons :
    (hist : List (List ℕ)) (base target : ℕ) (c bytes : List ℕ) (before : List (List ℕ))
    (rb : RingBuffer) (written : List (List ℕ))
    → length c ≡ target
    → Cut (hist ++ (c ∷ [])) base target bytes (c ∷ before) rb written
    → Cut hist base target (c ++ bytes) before rb written
Cut-cons hist base target c bytes before rb written l k = record {
  cs = c ∷ k.cs;
  holds = subst (λ h. Holds h base rb) (append_assoc hist (c ∷ []) k.cs) k.holds;
  bytes_kept = append_assoc c (flat k.cs) rb.partial ∙ ap (◌++◌ c) k.bytes_kept;
  sizes = (l, k.sizes);
  rest = k.rest;
  listed =
      k.listed
      ∙ sym (append_assoc (reverse k.cs) (c ∷ []) before)
      ∙ ap (λ r. r ++ before) (sym (reverse-cons c k.cs));
}

Cut-done :
    (hist : List (List ℕ)) (base : ℕ) (aligned : List ℕ) (written : List (List ℕ)) (rb : RingBuffer)
    → Holds hist base rb
    → length aligned < rb.target_size
    → Cut hist base rb.target_size aligned written (record rb { partial = aligned }) written
Cut-done hist base aligned written rb v l = record {
  cs = [];
  holds =
      subst (λ h. Holds h base (record rb { partial = aligned })) (sym (append-nil hist))
        (partial-Holds hist base aligned rb v);
  bytes_kept = refl;
  sizes = tt;
  rest = l;
  listed = refl;
}

module _ (fuel : ℕ) (aligned : List ℕ) (written : List (List ℕ)) (rb : RingBuffer) where
  store_chunks-more :
      leb rb.target_size (length aligned) ≡ true
      → store_chunks (suc fuel) aligned written rb
        ≡ store_chunks fuel
            (drop rb.target_size aligned)
            (take rb.target_size aligned ∷ written)
            (store_chunk (take rb.target_size aligned) rb)
  unfolding store_chunks
  store_chunks-more h = rw (h, store_chunks) refl

  store_chunks-done :
      leb rb.target_size (length aligned) ≡ false
      → store_chunks (suc fuel) aligned written rb ≡ (record rb { partial = aligned }, written)
  unfolding store_chunks
  store_chunks-done h = rw (h, store_chunks) refl

target_size-store_chunk :
    (c : List ℕ) (rb : RingBuffer) → (store_chunk c rb).target_size ≡ rb.target_size
unfolding store_chunk
target_size-store_chunk c rb = refl

abbrev pub CutBy :
    List (List ℕ) → ℕ → ℕ → List ℕ → List (List ℕ) → RingBuffer × List (List ℕ) → Type 0
CutBy hist base target bytes before (rb, written) = Cut hist base target bytes before rb written

store_chunks-Cut :
    (fuel : ℕ) (aligned : List ℕ) (written : List (List ℕ)) (hist : List (List ℕ)) (base : ℕ)
    (rb : RingBuffer)
    → 0 < rb.target_size
    → length aligned < fuel
    → Holds hist base rb
    → CutBy hist base rb.target_size aligned written (store_chunks fuel aligned written rb)
unfolding store_chunk store_chunks
store_chunks-Cut zero aligned written hist base rb t f v = absurd (omega arith)
store_chunks-Cut (suc fuel) aligned written hist base rb t f v =
    elim (Bool-cases (leb rb.target_size (length aligned))) [
      | inl enough ↦ rw (store_chunks-more fuel aligned written rb enough) (
          subst
            (λ bytes. CutBy hist base rb.target_size bytes written (
              store_chunks fuel (drop rb.target_size aligned) (chunk ∷ written)
                (store_chunk chunk rb)))
            (append-take-drop rb.target_size aligned)
            (Cut-cons hist base rb.target_size chunk (drop rb.target_size aligned) written _ _
              (length-take rb.target_size aligned (ground arith))
              (store_chunks-Cut fuel (drop rb.target_size aligned) (chunk ∷ written)
                (hist ++ (chunk ∷ [])) base (store_chunk chunk rb)
                (rw (target_size-store_chunk chunk rb) t)
                (ground (arith, length-drop rb.target_size aligned))
                (store_chunk-Holds hist base chunk rb v))))
      | inr few ↦
          rw (store_chunks-done fuel aligned written rb few)
            (Cut-done hist base aligned written rb v (ground arith))
    ]
  where
    chunk : List ℕ
    chunk = take rb.target_size aligned

store_chunks-notify :
    (fuel : ℕ) (aligned : List ℕ) (written : List (List ℕ)) (rb : RingBuffer)
    → (store_chunks fuel aligned written rb).0.notify ≡ rb.notify
unfolding store_chunk store_chunks
store_chunks-notify zero aligned written rb = refl
store_chunks-notify (suc fuel) aligned written rb =
    elim (Bool-cases (leb rb.target_size (length aligned))) [
      | inl enough ↦ rw (store_chunks-more fuel aligned written rb enough) (
          store_chunks-notify fuel (drop rb.target_size aligned)
            (take rb.target_size aligned ∷ written) (store_chunk (take rb.target_size aligned) rb))
      | inr few ↦ rw (store_chunks-done fuel aligned written rb few) refl
    ]

-- The broadcasts of a write that stored these chunks.
abbrev pub broadcasts : List (List ℕ) → ℕ
broadcasts [] = 0
broadcasts (c ∷ cs) = 1

CutBy-finish_write :
    (hist : List (List ℕ)) (base target later : ℕ) (bytes : List ℕ)
    (out : RingBuffer × List (List ℕ))
    → CutBy hist base target bytes [] out
    → CutBy hist base target bytes [] (finish_write later out)
unfolding finish_write broadcast
CutBy-finish_write hist base target later bytes (rb, []) k = k
CutBy-finish_write hist base target later bytes (rb, c ∷ written) k = record {
  cs = k.cs;
  holds = broadcast-Holds later (hist ++ k.cs) base rb k.holds;
  bytes_kept = k.bytes_kept;
  sizes = k.sizes;
  rest = k.rest;
  listed = k.listed;
}

finish_write-notify :
    (later n : ℕ) (out : RingBuffer × List (List ℕ))
    → out.0.notify ≡ n
    → (finish_write later out).0.notify ≡ n + broadcasts (finish_write later out).1
unfolding finish_write broadcast
finish_write-notify later n (rb, []) e = omega (arith, e)
finish_write-notify later n (rb, c ∷ written) e = omega (arith, e)

-- A `Write` of some bytes into a ring that was not stopped: the bytes left over from before and
-- the new ones are cut, in order, into chunks of the target size, which are stored after the
-- chunks of before; less than a chunk is left over for the next write. The readers are woken
-- once if a chunk was stored, and else not.
pub write_stream :
    (now later : ℕ) (bytes : List ℕ) (hist : List (List ℕ)) (base : ℕ) (rb : RingBuffer)
    → Holds hist base rb
    → 0 < rb.target_size
    → 0 < length bytes
    → rb.stopped ≡ false
    → CutBy hist base rb.target_size (rb.partial ++ bytes) [] (write now later bytes rb)
      × ((write now later bytes rb).0.notify ≡ rb.notify + broadcasts (write now later bytes rb).1)
unfolding write
write_stream now later bytes hist base rb v t n s =
    rw (given, write)
      (elim (Bool-cases (ltb (length combined) rb.target_size)) [
        | inl short ↦ rw short (
          Cut-done hist base combined [] timed (timed-Holds now hist base rb v) (ground arith),
          omega arith,
        )
        | inr enough ↦ rw enough (
          CutBy-finish_write hist base rb.target_size later combined stored (
              store_chunks-Cut (length combined + 1) combined [] hist base timed t (omega arith)
                (timed-Holds now hist base rb v)),
          finish_write-notify later rb.notify stored
              (store_chunks-notify (length combined + 1) combined [] timed),
        )
      ])
  where
    combined : List ℕ
    combined = rb.partial ++ bytes

    timed : RingBuffer
    timed = record rb { last_write_time = some now }

    stored : RingBuffer × List (List ℕ)
    stored = store_chunks (length combined + 1) combined [] timed

    given : (length bytes == 0 || rb.stopped) ≡ false
    given = rw s (ground (arith, n))
