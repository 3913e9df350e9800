-- ===== src/Ring/Tests.antt =====
-- The theorems on the ring at concrete inputs.
use acestream_orchestrator.Prelude.{◌++◌, ◌+◌, ◌-◌, ◌≤◌, ◌<◌, ◌≡◌, refl, [], ◌∷◌, arith, drop, take}
use acestream_orchestrator.Prelude.Int.{pos, negsuc}
use acestream_orchestrator.Ring.{
  RingBuffer, new, next_pow2, store_chunk, store_chunks, write, read_after, head_index,
}
use acestream_orchestrator.Ring.History.{Holds, new-Holds, store_chunk-Holds}
use acestream_orchestrator.Ring.Stream.{flat, CutBy, broadcasts, write_stream}
use acestream_orchestrator.Ring.RoundTrip.{read_after-write}
use acestream_orchestrator.Ring.Read.{amount, first_index, read_after_window}

abbrev empty : RingBuffer
empty = new 2 4

-- Two chunks stored.
abbrev filled : RingBuffer
filled = store_chunk (3 ∷ 4 ∷ []) (store_chunk (1 ∷ 2 ∷ []) empty)

filled-Holds : Holds ((1 ∷ 2 ∷ []) ∷ (3 ∷ 4 ∷ []) ∷ []) 0 filled
filled-Holds =
    store_chunk-Holds ((1 ∷ 2 ∷ []) ∷ []) 0 (3 ∷ 4 ∷ []) (store_chunk (1 ∷ 2 ∷ []) empty)
      (store_chunk-Holds [] 0 (1 ∷ 2 ∷ []) empty (new-Holds 2 4))

write_stream_example :
    CutBy [] 0 2 (1 ∷ 2 ∷ 3 ∷ []) [] (write 5 6 (1 ∷ 2 ∷ 3 ∷ []) empty)
    × ((write 5 6 (1 ∷ 2 ∷ 3 ∷ []) empty).0.notify
        ≡ 0 + broadcasts (write 5 6 (1 ∷ 2 ∷ 3 ∷ []) empty).1)
unfolding new
write_stream_example =
    write_stream 5 6 (1 ∷ 2 ∷ 3 ∷ []) [] 0 empty (new-Holds 2 4) (omega arith) (omega arith) refl

read_after_window_example :
    (read_after (pos 0) 10 filled ≡ (
      take
          (amount (pos 0) 10 filled)
          (drop (first_index (pos 0) filled) ((1 ∷ 2 ∷ []) ∷ (3 ∷ 4 ∷ []) ∷ [])),
      pos (first_index (pos 0) filled + (amount (pos 0) 10 filled - 1)),
    ))
    × (0 < amount (pos 0) 10 filled)
    × (amount (pos 0) 10 filled ≤ 10)
unfolding new next_pow2 store_chunk head_index
read_after_window_example =
    read_after_window (pos 0) 10 ((1 ∷ 2 ∷ []) ∷ (3 ∷ 4 ∷ []) ∷ []) 0 filled filled-Holds
      (omega arith, refl) (omega arith) (omega arith)

read_after-write_example :
    flat (read_after (negsuc 0) 9 (write 5 6 (1 ∷ 2 ∷ 3 ∷ []) empty).0).0
      ++ (write 5 6 (1 ∷ 2 ∷ 3 ∷ []) empty).0.partial
    ≡ 1 ∷ 2 ∷ 3 ∷ []
unfolding new next_pow2 write store_chunks store_chunk
read_after-write_example =
    read_after-write 5 6 9 (1 ∷ 2 ∷ 3 ∷ []) empty (new-Holds 2 4) refl (omega arith) (omega arith)
      refl (omega arith) (omega arith) (omega arith)
