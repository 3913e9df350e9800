-- ===== src/Ring.antt =====
-- app/orchestrator/internal/proxy/buffer/ring.go: the ring of stream chunks. Indices and byte
-- counts do not reach 2 ^ 63 and do not wrap here; an index that may be -1 is a signed integer.
-- `cap` is a power of two, so `i & mask` is `i % cap`. `time.Now()` is an argument. The channel
-- `notify` is the number of broadcasts so far. The bitrate estimate, which `Write` feeds and `Reset`
-- clears, is left out, but for the byte counter.
pub mod History
pub mod Read
pub mod Wait
pub mod Stream
pub mod RoundTrip
mod Tests
use acestream_orchestrator.Prelude.{
  ℕ, zero, suc, ◌+◌, ◌-◌, ◌*◌, ◌/◌, ◌%◌, Bool, true, false, ◌&&◌, ◌||◌, not, Option, none, some,
  List, [], ◌∷◌, ◌++◌, if◌then◌else◌, ltb, leb, ◌==◌, get_or, set, drop, take, length, replicate,
}
use acestream_orchestrator.Prelude.Int.{ℤ, pos, negsuc, sub_ℕ, ltb_ℤ}
use Prim.Native.Nat.{bit_or}

-- The ring without the samples and the result of the bitrate estimate.
pub record RingBuffer : Type 0 where
  pub slots : List (List ℕ)
  pub seq : List ℤ
  pub head : ℕ
  pub cap : ℕ
  pub target_size : ℕ
  pub partial : List ℕ
  pub notify : ℕ
  pub stopped : Bool
  pub last_write_time : Option ℕ
  pub last_chunk_write_time : Option ℕ
  pub generation : ℕ
  pub pcr_total_bytes : ℕ

-- `n |= n >> k`, with the shift as a division by 2 ^ k.
smear : ℕ → ℕ → ℕ
smear d n = bit_or n (n / d)

unfoldable pub next_pow2 : ℕ → ℕ
unfolding smear
next_pow2 n =
    let m = smear 65536 (smear 256 (smear 16 (smear 4 (smear 2 (n - 1))))) + 1 in
    if ltb m 4 then 4 else m

abbrev pub slot_count : ℕ → ℕ
slot_count slots = next_pow2 (if slots == 0 then 16 else slots)

unfoldable pub new : ℕ → ℕ → RingBuffer
new target_chunk_size slots = record {
  slots = replicate (slot_count slots) [];
  seq = replicate (slot_count slots) (negsuc 0);
  head = 0;
  cap = slot_count slots;
  target_size = if target_chunk_size == 0 then 188 * 5644 else target_chunk_size;
  partial = [];
  notify = 0;
  stopped = false;
  last_write_time = none;
  last_chunk_write_time = none;
  generation = 0;
  pcr_total_bytes = 0;
}

unfoldable pub store_chunk : List ℕ → RingBuffer → RingBuffer
store_chunk chunk rb = record rb {
  head = rb.head + 1;
  slots = set rb.slots (rb.head % rb.cap) chunk;
  seq = set rb.seq (rb.head % rb.cap) (pos rb.head);
  pcr_total_bytes = rb.pcr_total_bytes + length chunk;
}

-- The loop of `Write`, which ends with what is left in `partial`. The list is the chunks that it
-- stored, newest first; each round takes a byte or more.
unfoldable pub store_chunks : ℕ → List ℕ → List (List ℕ) → RingBuffer → RingBuffer × List (List ℕ)
store_chunks zero aligned written rb = (record rb { partial = aligned }, written)
store_chunks (suc fuel) aligned written rb = elim (leb rb.target_size (length aligned)) [
  | true ↦
      store_chunks fuel (drop rb.target_size aligned) (take rb.target_size aligned ∷ written)
        (store_chunk (take rb.target_size aligned) rb)
  | false ↦ (record rb { partial = aligned }, written)
]

unfoldable pub broadcast : RingBuffer → RingBuffer
broadcast rb = record rb { notify = rb.notify + 1 }

-- The end of `Write` for the chunks that were stored.
finish_write : ℕ → RingBuffer × List (List ℕ) → RingBuffer × List (List ℕ)
unfolding broadcast
finish_write later (rb, []) = (rb, [])
finish_write later (rb, chunk ∷ written) =
    (broadcast (record rb { last_chunk_write_time = some later }), chunk ∷ written)

-- `Write`, with the chunks that it stored, newest first; the source returns their number.
unfoldable pub write : ℕ → ℕ → List ℕ → RingBuffer → RingBuffer × List (List ℕ)
unfolding finish_write
write now later bytes rb =
    let combined = rb.partial ++ bytes in
    let timed = record rb { last_write_time = some now } in
    if length bytes == 0 || rb.stopped
    then (rb, [])
    else if ltb (length combined) rb.target_size
    then (record timed { partial = combined }, [])
    else finish_write later (store_chunks (length combined + 1) combined [] timed)

unfoldable pub head_index : RingBuffer → ℤ
head_index rb = sub_ℕ rb.head 1

-- `max(afterIndex + 1, oldest)`, where `oldest` is not negative.
abbrev pub start_index : ℤ → ℕ → ℕ
start_index (pos a) oldest = if ltb (a + 1) oldest then oldest else a + 1
start_index (negsuc a) oldest = oldest

abbrev pub is_index : ℤ → ℕ → Bool
is_index (pos j) i = j == i
is_index (negsuc j) i = false

-- The loop over `i`, with `n` indices to go: the chunks up to the first slot that does not hold
-- its index.
unfoldable pub collect : ℕ → ℕ → RingBuffer → List (List ℕ)
collect zero i rb = []
collect (suc n) i rb =
    let rest = collect n (i + 1) rb in
    if is_index (get_or rb.seq (i % rb.cap) (negsuc 0)) i
    then get_or rb.slots (i % rb.cap) [] ∷ rest
    else []

abbrev pub end_index : ℕ → ℕ → ℕ → ℕ
end_index start max_chunks head = if ltb head (start + max_chunks) then head else start + max_chunks

-- The chunks and the new cursor, which stays where it was if there are none.
abbrev pub with_cursor : ℤ → ℕ → List (List ℕ) → List (List ℕ) × ℤ
with_cursor after start [] = ([], after)
with_cursor after start (c ∷ cs) = (c ∷ cs, sub_ℕ (start + length (c ∷ cs)) 1)

unfoldable pub chunks_after : ℤ → ℕ → RingBuffer → List (List ℕ) × ℤ
chunks_after after max_chunks rb =
    let start = start_index after (rb.head - rb.cap) in
    if rb.head == 0 || not (ltb_ℤ after (head_index rb))
    then ([], after)
    else with_cursor after start (collect (end_index start max_chunks rb.head - start) start rb)

unfoldable pub read_after : ℤ → ℕ → RingBuffer → List (List ℕ) × ℤ
read_after after max_chunks rb = chunks_after after (if max_chunks == 0 then 10 else max_chunks) rb

-- `net.Buffers.WriteTo` is the argument `send`: the bytes sent and whether there was an error.
unfoldable pub write_after_to : (List (List ℕ) → ℕ × Bool) → ℤ → ℕ → RingBuffer → ℕ × ℤ × Bool
write_after_to send after max_chunks rb =
    let (chunks, last) = chunks_after after (if max_chunks == 0 then 15 else max_chunks) rb in
    elim chunks [ [] ↦ (0, after, false) | c ∷ cs ↦ ((send (c ∷ cs)).0, last, (send (c ∷ cs)).1) ]

-- Whether the channel that `Wait` returns is closed already; otherwise it is closed by the next
-- broadcast.
unfoldable pub wait_ready : ℤ → RingBuffer → Bool
wait_ready after rb = ltb_ℤ after (head_index rb)

abbrev fresh : Option ℕ → ℕ → ℕ → Bool
fresh none now max_silence = false
fresh (some t) now max_silence = leb now (t + max_silence)

unfoldable pub is_fresh : ℕ → ℕ → RingBuffer → Bool
is_fresh now max_silence rb = fresh rb.last_write_time now max_silence

unfoldable pub is_chunk_fresh : ℕ → ℕ → RingBuffer → Bool
is_chunk_fresh now max_silence rb = fresh rb.last_chunk_write_time now max_silence

unfoldable pub reset : RingBuffer → RingBuffer
reset rb = record rb {
  partial = [];
  seq = replicate (length rb.seq) (negsuc 0);
  slots = replicate (length rb.slots) [];
  last_write_time = none;
  last_chunk_write_time = none;
  pcr_total_bytes = 0;
  generation = rb.generation + 1;
}

unfoldable pub stop : RingBuffer → RingBuffer
stop rb = broadcast (record rb { stopped = true })
