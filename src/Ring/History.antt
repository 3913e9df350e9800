-- ===== src/Ring/History.antt =====
-- What the slots of a ring hold, against the list of all chunks that were ever stored in it.
use acestream_orchestrator.Prelude.{
  ℕ, zero, suc, ◌+◌, ◌%◌, ◌≤◌, ◌<◌, ◌≡◌, ◌≢◌, refl, sym, ap, ◌∙◌, false, some, List, [], ◌∷◌, ◌++◌,
  arith, if◌then◌else◌, ◌==◌, ==_iff, get_elem?, set, length, replicate, length-append, length-set,
  length-replicate, get_elem?-set_self, get_elem?-set_ne, Bool-cases, inl, inr,
}
use native.Mathlib.Nat.{mod-lt}
use acestream_orchestrator.Prelude.Int.{ℤ, pos, negsuc}
use acestream_orchestrator.Ring.{RingBuffer, slot_count, next_pow2, new, store_chunk, reset}

-- Two indices less than `cap` apart are kept in different slots.
mod-ne : (i h cap : ℕ) → 0 < cap → i < h → h < i + cap → i % cap ≢ h % cap
mod-ne i h cap c l k e = grind arith

-- The chunks `hist` were stored, in order, since the ring was made, and those from index `base`
-- on since the last reset: the ring holds the last `cap` of these, and no index before `base`.
pub record Holds (hist : List (List ℕ)) (base : ℕ) (rb : RingBuffer) : Type 0 where
  pub positive : 0 < rb.cap
  pub slots_length : length rb.slots ≡ rb.cap
  pub seq_length : length rb.seq ≡ rb.cap
  pub head_length : rb.head ≡ length hist
  pub base_le : base ≤ rb.head
  pub indexed :
      (i : ℕ)
      → base ≤ i
      → i < rb.head
      → rb.head ≤ i + rb.cap
      → get_elem? rb.seq (i % rb.cap) ≡ some (pos i)
  pub stored :
      (i : ℕ)
      → base ≤ i
      → i < rb.head
      → rb.head ≤ i + rb.cap
      → get_elem? rb.slots (i % rb.cap) ≡ get_elem? hist i
  pub recent : (slot i : ℕ) → get_elem? rb.seq slot ≡ some (pos i) → base ≤ i

get_elem?-append :
    (hist : List (List ℕ)) (chunk : List ℕ) (i : ℕ)
    → i < length hist
    → get_elem? (hist ++ (chunk ∷ [])) i ≡ get_elem? hist i
get_elem?-append [] chunk i h = absurd (omega arith)
get_elem?-append (x ∷ hist) chunk zero h = refl
get_elem?-append (x ∷ hist) chunk (suc i) h = get_elem?-append hist chunk i (omega arith)

get_elem?-append_last :
    (hist : List (List ℕ)) (chunk : List ℕ)
    → get_elem? (hist ++ (chunk ∷ [])) (length hist) ≡ some chunk
get_elem?-append_last [] chunk = refl
get_elem?-append_last (x ∷ hist) chunk = get_elem?-append_last hist chunk

-- The seq entries after a write: the new index in its slot, the others as they were.
recent-set :
    (seq : List ℤ) (s h base slot i : ℕ)
    → base ≤ h
    → ((t j : ℕ) → get_elem? seq t ≡ some (pos j) → base ≤ j)
    → get_elem? (set seq s (pos h)) slot ≡ some (pos i)
    → base ≤ i
recent-set [] s h base slot i b r e = absurd (cc)
recent-set (x ∷ seq) zero h base zero i b r e = ground arith
recent-set (x ∷ seq) zero h base (suc slot) i b r e = r (suc slot) i e
recent-set (x ∷ seq) (suc s) h base zero i b r e = r zero i e
recent-set (x ∷ seq) (suc s) h base (suc slot) i b r e =
    recent-set seq s h base slot i b (λ t j. r (suc t) j) e

-- `storeChunk` adds the chunk to the history that the ring holds a window of.
pub store_chunk-Holds :
    (hist : List (List ℕ)) (base : ℕ) (chunk : List ℕ) (rb : RingBuffer)
    → Holds hist base rb
    → Holds (hist ++ (chunk ∷ [])) base (store_chunk chunk rb)
unfolding store_chunk
store_chunk-Holds hist base chunk rb v = record {
  positive = v.positive;
  slots_length = length-set rb.slots (rb.head % rb.cap) chunk ∙ v.slots_length;
  seq_length = length-set rb.seq (rb.head % rb.cap) (pos rb.head) ∙ v.seq_length;
  head_length = omega (arith, v.head_length, length-append hist (chunk ∷ []));
  base_le = omega (arith, v.base_le);
  indexed = λ i b l k. elim (Bool-cases (i == rb.head)) [
    | inl new ↦
        rw ((==_iff i rb.head).0 new)
          (get_elem?-set_self rb.seq (rb.head % rb.cap) (pos rb.head) (within rb.seq v.seq_length))
    | inr old ↦
        get_elem?-set_ne rb.seq (pos rb.head) (λ e. apart i (before i l old) k (sym e))
        ∙ v.indexed i b (before i l old) (omega arith)
  ];
  stored = λ i b l k. elim (Bool-cases (i == rb.head)) [
    | inl new ↦ rw ((==_iff i rb.head).0 new) (
        get_elem?-set_self rb.slots (rb.head % rb.cap) chunk (within rb.slots v.slots_length)
        ∙ sym (
            ap (get_elem? (hist ++ (chunk ∷ []))) v.head_length ∙ get_elem?-append_last hist chunk))
    | inr old ↦
        get_elem?-set_ne rb.slots chunk (λ e. apart i (before i l old) k (sym e))
        ∙ v.stored i b (before i l old) (omega arith)
        ∙ sym (get_elem?-append hist chunk i (omega (arith, before i l old, v.head_length)))
  ];
  recent =
      λ slot i e. recent-set rb.seq (rb.head % rb.cap) rb.head base slot i v.base_le v.recent e;
}
  where
    within : {A : Type 0} (xs : List A) → length xs ≡ rb.cap → rb.head % rb.cap < length xs
    within xs e = omega (arith, mod-lt rb.head v.positive)

    before : (i : ℕ) → i < rb.head + 1 → (i == rb.head) ≡ false → i < rb.head
    before i l o = ground arith

    apart : (i : ℕ) → i < rb.head → rb.head + 1 ≤ i + rb.cap → i % rb.cap ≢ rb.head % rb.cap
    apart i l k = mod-ne i rb.head rb.cap v.positive l (omega arith)

get_elem?-replicate : (n i : ℕ) (z : ℤ) {j : ℤ} → get_elem? (replicate n z) i ≡ some j → z ≡ j
get_elem?-replicate zero i z e = absurd (cc)
get_elem?-replicate (suc n) zero z e = ground arith
get_elem?-replicate (suc n) (suc i) z e = get_elem?-replicate n i z e

next_pow2-ge : (n : ℕ) → 4 ≤ next_pow2 n
unfolding next_pow2
next_pow2-ge n = ground arith

-- A new ring holds nothing, in at least four slots.
pub new-Holds : (target_chunk_size slots : ℕ) → Holds [] 0 (new target_chunk_size slots)
unfolding new
new-Holds target_chunk_size slots = record {
  positive = omega (arith, next_pow2-ge (if slots == 0 then 16 else slots));
  slots_length = length-replicate {A = List ℕ} (slot_count slots) [];
  seq_length = length-replicate (slot_count slots) (negsuc 0);
  head_length = refl;
  base_le = omega arith;
  indexed = λ i b l k. absurd (omega arith);
  stored = λ i b l k. absurd (omega arith);
  recent = λ slot i e. absurd (cc (get_elem?-replicate (slot_count slots) slot (negsuc 0) e));
}

-- After a `Reset` the ring holds none of the chunks stored before it, and the next one gets the
-- index that it would have had: indices go on from the head.
pub reset-Holds :
    (hist : List (List ℕ)) (base : ℕ) (rb : RingBuffer)
    → Holds hist base rb
    → Holds hist rb.head (reset rb)
unfolding reset
reset-Holds hist base rb v = record {
  positive = v.positive;
  slots_length = length-replicate {A = List ℕ} (length rb.slots) [] ∙ v.slots_length;
  seq_length = length-replicate (length rb.seq) (negsuc 0) ∙ v.seq_length;
  head_length = v.head_length;
  base_le = omega arith;
  indexed = λ i b l k. absurd (omega arith);
  stored = λ i b l k. absurd (omega arith);
  recent = λ slot i e. absurd (cc (get_elem?-replicate (length rb.seq) slot (negsuc 0) e));
}
