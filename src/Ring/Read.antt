-- ===== src/Ring/Read.antt =====
-- Reading after a cursor: what `ReadAfter` and `WriteAfterTo` deliver, against the chunks stored.
use acestream_orchestrator.Prelude.{
  ℕ, zero, suc, ◌+◌, ◌-◌, ◌%◌, ◌≤◌, ◌<◌, ◌≡◌, refl, ap, ◌∙◌, Bool, true, false, ◌||◌, not, some,
  List, [], ◌∷◌, arith, if◌then◌else◌, ◌==◌, ==_iff, get_or, get_elem?, drop, take, length,
  Bool-cases, inl, inr,
}
use native.Mathlib.Numerals.{add-one}
use acestream_orchestrator.Prelude.Int.{ℤ, pos, negsuc, ltb_ℤ}
use acestream_orchestrator.Ring.{
  RingBuffer, is_index, start_index, end_index, collect, with_cursor, chunks_after, read_after,
  head_index,
}
use acestream_orchestrator.Ring.History.{Holds}

get_or-get_elem? :
    {A : Type 0} (xs : List A) (i : ℕ) (d a : A) → get_elem? xs i ≡ some a → get_or xs i d ≡ a
get_or-get_elem? [] i d a e = absurd (cc)
get_or-get_elem? (x ∷ xs) zero d a e = ground arith
get_or-get_elem? (x ∷ xs) (suc i) d a e = get_or-get_elem? xs i d a e

get_elem?-get_or_pos :
    (xs : List ℤ) (s i : ℕ) → get_or xs s (negsuc 0) ≡ pos i → get_elem? xs s ≡ some (pos i)
get_elem?-get_or_pos [] s i e = absurd (cc)
get_elem?-get_or_pos (x ∷ xs) zero i e = ap some e
get_elem?-get_or_pos (x ∷ xs) (suc s) i e = get_elem?-get_or_pos xs s i e

is_index-pos : (z : ℤ) (i : ℕ) → is_index z i ≡ true → z ≡ pos i
is_index-pos (pos j) i h = ap pos ((==_iff j i).0 h)
is_index-pos (negsuc j) i h = absurd (cc)

-- The next chunk of the stored ones.
take-drop :
    (n i : ℕ) (hist : List (List ℕ)) {c : List ℕ}
    → get_elem? hist i ≡ some c
    → take (suc n) (drop i hist) ≡ c ∷ take n (drop (suc i) hist)
take-drop n i [] e = absurd (cc)
take-drop n zero (x ∷ hist) e = ground arith
take-drop n (suc i) (x ∷ hist) e = take-drop n i hist e

get_elem?-some :
    (hist : List (List ℕ)) (i : ℕ) → i < length hist → (c : List ℕ) × (get_elem? hist i ≡ some c)
get_elem?-some [] i h = absurd (omega arith)
get_elem?-some (x ∷ hist) zero h = (x, refl)
get_elem?-some (x ∷ hist) (suc i) h = get_elem?-some hist i (omega arith)

collect-Holds :
    (n i : ℕ) (hist : List (List ℕ)) (base : ℕ) (rb : RingBuffer)
    → Holds hist base rb
    → base ≤ i
    → i + n ≤ rb.head
    → rb.head ≤ i + rb.cap
    → collect n i rb ≡ take n (drop i hist)
unfolding collect
collect-Holds zero i hist base rb v b l k = refl
collect-Holds (suc n) i hist base rb v b l k =
    let (c, e) = get_elem?-some hist i (omega (arith, v.head_length)) in
    rw (take-drop n i hist e) (
      rw (get_or-get_elem? rb.seq (i % rb.cap) (negsuc 0) (pos i) (v.indexed i b (omega arith) k)) (
        rw
          (
            get_or-get_elem? rb.slots (i % rb.cap) [] c (v.stored i b (omega arith) k ∙ e),
            collect-Holds n (i + 1) hist base rb v (omega arith) (omega arith) (omega arith),
          )
          (ground (arith, add-one i))))

collect-missing :
    (n i : ℕ) (hist : List (List ℕ)) (base : ℕ) (rb : RingBuffer)
    → Holds hist base rb
    → i < base
    → collect n i rb ≡ []
unfolding collect
collect-missing zero i hist base rb v l = refl
collect-missing (suc n) i hist base rb v l =
    elim (Bool-cases (is_index (get_or rb.seq (i % rb.cap) (negsuc 0)) i)) [
      | inl there ↦ absurd (
          omega (
            arith,
            v.recent (i % rb.cap) i
                (get_elem?-get_or_pos rb.seq (i % rb.cap) i (is_index-pos _ i there)),
          ))
      | inr gone ↦ rw gone refl
    ]

-- The cursor is behind the newest chunk.
abbrev pub IsBehind : ℤ → RingBuffer → Type 0
IsBehind after rb = (0 < rb.head) × (ltb_ℤ after (head_index rb) ≡ true)

-- The first index that a reader behind this cursor is given: the next one, or the oldest in the
-- ring if that has been overwritten.
abbrev pub first_index : ℤ → RingBuffer → ℕ
first_index after rb = start_index after (rb.head - rb.cap)

pub first_index-lt :
    (after : ℤ) (rb : RingBuffer) → 0 < rb.cap → IsBehind after rb → first_index after rb < rb.head
unfolding head_index
first_index-lt (pos a) rb c h = ground arith
first_index-lt (negsuc a) rb c h = omega (arith, h.0)

first_index-ge : (after : ℤ) (rb : RingBuffer) → rb.head ≤ first_index after rb + rb.cap
first_index-ge (pos a) rb = ground arith
first_index-ge (negsuc a) rb = omega arith

pub length-take-drop :
    (n i : ℕ) (hist : List (List ℕ)) → i + n ≤ length hist → length (take n (drop i hist)) ≡ n
length-take-drop zero i hist h = refl
length-take-drop (suc n) zero [] h = absurd (omega arith)
length-take-drop (suc n) (suc i) [] h = absurd (omega arith)
length-take-drop (suc n) zero (x ∷ hist) h =
    omega (arith, length-take-drop n zero hist (omega arith))
length-take-drop (suc n) (suc i) (x ∷ hist) h = length-take-drop (suc n) i hist (omega arith)

with_cursor-cons :
    (after : ℤ) (start n : ℕ) (cs : List (List ℕ))
    → length cs ≡ suc n
    → with_cursor after start cs ≡ (cs, pos (start + n))
with_cursor-cons after start n [] h = absurd (omega arith)
with_cursor-cons after start n (c ∷ cs) h = ground (arith, h)

behind_test :
    (after : ℤ) (rb : RingBuffer)
    → IsBehind after rb
    → (rb.head == 0 || not (ltb_ℤ after (head_index rb))) ≡ false
behind_test after rb h = rw h.1 (ground (arith, h.0))

-- How many chunks a read of at most `max` of them gives.
abbrev pub amount : ℤ → ℕ → RingBuffer → ℕ
amount after max rb = end_index (first_index after rb) max rb.head - first_index after rb

chunks_after-Holds :
    (after : ℤ) (max : ℕ) (hist : List (List ℕ)) (base : ℕ) (rb : RingBuffer)
    → Holds hist base rb
    → IsBehind after rb
    → base ≤ first_index after rb
    → 0 < max
    → chunks_after after max rb ≡ (
      take (amount after max rb) (drop (first_index after rb) hist),
      pos (first_index after rb + (amount after max rb - 1)),
    )
unfolding chunks_after
chunks_after-Holds after max hist base rb v h b m =
    rw (behind_test after rb h, chunks_after)
      (rw (collect-Holds n start hist base rb v b (omega (arith, fits)) (first_index-ge after rb)) (
        with_cursor-cons after start (n - 1) (take n (drop start hist))
          (length-take-drop n start hist (omega (arith, fits, v.head_length)) ∙ some_left)))
  where
    start : ℕ
    start = first_index after rb

    n : ℕ
    n = amount after max rb

    inside : start < rb.head
    inside = first_index-lt after rb v.positive h

    fits : start + n ≤ rb.head
    fits = ground (arith, inside)

    some_left : n ≡ suc (n - 1)
    some_left = ground (arith, inside)

chunks_after-gap :
    (after : ℤ) (max : ℕ) (hist : List (List ℕ)) (base : ℕ) (rb : RingBuffer)
    → Holds hist base rb
    → first_index after rb < base
    → chunks_after after max rb ≡ ([], after)
unfolding chunks_after
chunks_after-gap after max hist base rb v l = go (rb.head == 0 || not (ltb_ℤ after (head_index rb)))
  where
    go :
        (b : Bool)
        → (if b
            then ([], after)
            else with_cursor after
                (first_index after rb)
                (collect (amount after max rb) (first_index after rb) rb))
          ≡ ([], after)
    go true = refl
    go false =
        rw (collect-missing (amount after max rb) (first_index after rb) hist base rb v l) refl

-- A reader that is behind and has lost nothing to a reset gets, from `ReadAfter` with a positive
-- limit, exactly the next chunks of the stream in order: from the index after its cursor, or
-- from the oldest one that the ring still has, up to the limit or the newest chunk. Its cursor
-- moves to the last chunk that it got.
pub read_after_window :
    (after : ℤ) (max : ℕ) (hist : List (List ℕ)) (base : ℕ) (rb : RingBuffer)
    → Holds hist base rb
    → IsBehind after rb
    → base ≤ first_index after rb
    → 0 < max
    → (read_after after max rb ≡ (
      take (amount after max rb) (drop (first_index after rb) hist),
      pos (first_index after rb + (amount after max rb - 1)),
    ))
      × (0 < amount after max rb)
      × (amount after max rb ≤ max)
unfolding read_after
read_after_window after max hist base rb v h b m = (
  rw (given, read_after) (chunks_after-Holds after max hist base rb v h b m),
  ground (arith, first_index-lt after rb v.positive h),
  ground (arith, first_index-lt after rb v.positive h),
)
  where
    given : (max == 0) ≡ false
    given = ground arith

-- A reader whose next index lies before the last reset gets nothing from `ReadAfter` and keeps
-- its cursor, whatever has been stored since and however large its limit is.
pub read_after_gap :
    (after : ℤ) (max : ℕ) (hist : List (List ℕ)) (base : ℕ) (rb : RingBuffer)
    → Holds hist base rb
    → first_index after rb < base
    → read_after after max rb ≡ ([], after)
unfolding read_after
read_after_gap after max hist base rb v l =
    chunks_after-gap after (if max == 0 then 10 else max) hist base rb v l
