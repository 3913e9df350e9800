-- ===== src/Ts/Null.antt =====
-- ts_core.go: null packets, which keep a connection alive, carry no clock reference.
use acestream_orchestrator.Prelude.{
  ℕ, zero, suc, ◌+◌, ◌*◌, ◌%◌, ◌≡◌, refl, ap, ◌∙◌, Option, none, List, [], ◌∷◌, ◌++◌, arith, length,
  length-append, length-replicate,
}
use acestream_orchestrator.Ts.{
  packet_size, PcrTicks, or_last, create_null_packet, null_chunk, create_null_chunk, packet_pcr,
  scan_for_last_pcr,
}
use acestream_orchestrator.Ts.Block.{Packets, block}
use acestream_orchestrator.Ts.Clock.{last_pcr, scan_for_last_pcr-block}

length-create_null_packet : (counter : ℕ) → length (create_null_packet counter) ≡ packet_size
unfolding create_null_packet
length-create_null_packet counter = omega (arith, length-replicate {A = ℕ} 184 0)

-- Byte 3 says that there is a payload and no adaptation field.
packet_pcr-create_null_packet : (counter : ℕ) → packet_pcr (create_null_packet counter) ≡ none
unfolding packet_pcr create_null_packet
packet_pcr-create_null_packet counter = ground arith

-- The packets of a null chunk.
null_packets : ℕ → ℕ → ℕ → List (List ℕ)
null_packets zero i start_cc = []
null_packets (suc n) i start_cc =
    create_null_packet ((start_cc + i % 256) % 256 % 16) ∷ null_packets n (i + 1) start_cc

null_chunk-block : (n i counter : ℕ) → null_chunk n i counter ≡ block (null_packets n i counter)
unfolding null_chunk null_packets
null_chunk-block zero i counter = refl
null_chunk-block (suc n) i counter =
    ap (◌++◌ (create_null_packet ((counter + i % 256) % 256 % 16)))
      (null_chunk-block n (i + 1) counter)

null_packets-Packets : (n i counter : ℕ) → Packets (null_packets n i counter)
unfolding null_packets
null_packets-Packets zero i counter = tt
null_packets-Packets (suc n) i counter = (
  length-create_null_packet ((counter + i % 256) % 256 % 16),
  unfold create_null_packet in refl,
  null_packets-Packets n (i + 1) counter,
)

last_pcr-null_packets : (n i counter : ℕ) → last_pcr (null_packets n i counter) none ≡ none
unfolding null_packets
last_pcr-null_packets zero i counter = refl
last_pcr-null_packets (suc n) i counter =
    ap (λ (o : Option PcrTicks). last_pcr (null_packets n (i + 1) counter) (or_last o none))
      (packet_pcr-create_null_packet ((counter + i % 256) % 256 % 16))
    ∙ last_pcr-null_packets n (i + 1) counter

length-null_chunk : (n i counter : ℕ) → length (null_chunk n i counter) ≡ n * 188
unfolding null_chunk
length-null_chunk zero i counter = omega arith
length-null_chunk (suc n) i counter = omega (
  arith,
  length-append (create_null_packet ((counter + i % 256) % 256 % 16))
      (null_chunk n (i + 1) counter),
  length-create_null_packet ((counter + i % 256) % 256 % 16),
  length-null_chunk n (i + 1) counter,
)

-- `CreateNullChunk(n, counter)` is n * 188 bytes long, and `ScanForLastPCR` finds no clock reference
-- in it, whatever the continuity counter.
pub create_null_chunk_lem :
    (n counter : ℕ)
    → (length (create_null_chunk n counter) ≡ n * 188)
      × (scan_for_last_pcr (create_null_chunk n counter) ≡ none)
unfolding create_null_chunk
create_null_chunk_lem n counter = (
  length-null_chunk n 0 counter,
  rw (null_chunk-block n 0 counter) (
      scan_for_last_pcr-block (null_packets n 0 counter) (null_packets-Packets n 0 counter)
      ∙ last_pcr-null_packets n 0 counter),
)
