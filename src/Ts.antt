-- ===== src/Ts.antt =====
-- app/orchestrator/internal/proxy/ts: null packets (ts_core.go), program clock references (pcr.go)
-- and keyframes (h264.go) of MPEG-TS packets. A byte is a number below 256; the shifts and masks
-- of the source are quotients and remainders by powers of two. A slice read out of range panics.
pub mod Agreement
pub mod Block
pub mod Clock
pub mod Null
pub mod Keyframe
mod Tests
use acestream_orchestrator.Prelude.{
  ℕ, zero, suc, ◌+◌, ◌-◌, ◌*◌, ◌/◌, ◌%◌, Bool, true, false, ◌&&◌, ◌||◌, not, Option, none, some,
  List, [], ◌∷◌, ◌++◌, if◌then◌else◌, ltb, leb, ◌==◌, get_or, drop, take, length, replicate,
}

abbrev pub packet_size : ℕ
packet_size = 188

abbrev pub sync_byte : ℕ
sync_byte = 0x47

-- `pkt[i]`, where the code has made sure that `i` is in range.
abbrev pub byte_at : List ℕ → ℕ → ℕ
byte_at pkt i = get_or pkt i 0

-- Whether the bit of weight `w`, a power of two, is set.
abbrev pub bit : ℕ → ℕ → Bool
bit w b = (b / w) % 2 == 1

-- `0x10 | (cc & 0x0F)`: the two parts share no bit.
unfoldable pub create_null_packet : ℕ → List ℕ
create_null_packet cc = sync_byte ∷ 0x1F ∷ 0xFF ∷ (0x10 + cc % 16) ∷ replicate 184 0

-- The loop over `i`, with `n` packets left to make. `startCC + uint8(i)` wraps at 256.
null_chunk : ℕ → ℕ → ℕ → List ℕ
null_chunk zero i start_cc = []
null_chunk (suc n) i start_cc =
    create_null_packet ((start_cc + i % 256) % 256 % 16) ++ null_chunk n (i + 1) start_cc

unfoldable pub create_null_chunk : ℕ → ℕ → List ℕ
unfolding null_chunk
create_null_chunk n start_cc = null_chunk n 0 start_cc

-- `value` is the 33-bit base; the source divides it by 90000 into seconds.
pub record PcrResult : Type 0 where
  pub value : ℕ
  pub has_pcr : Bool
  pub discontinuity : Bool
  pub random_access : Bool

abbrev pub no_pcr : PcrResult
no_pcr = record { value = 0; has_pcr = false; discontinuity = false; random_access = false }

-- `pkt[6] << 25 | … | pkt[10] >> 7`: the parts share no bit.
unfoldable pub pcr_base : List ℕ → ℕ
pcr_base pkt =
    byte_at pkt 6 * 33554432
    + byte_at pkt 7 * 131072
    + byte_at pkt 8 * 512
    + byte_at pkt 9 * 2
    + byte_at pkt 10 / 128

unfoldable pub pcr_extension : List ℕ → ℕ
pcr_extension pkt = byte_at pkt 10 % 2 * 256 + byte_at pkt 11

unfoldable pub find_pcr : List ℕ → PcrResult
find_pcr pkt =
    if ltb (length pkt) packet_size || not (byte_at pkt 0 == sync_byte)
    then no_pcr
    else if byte_at pkt 3 / 32 % 2 == 0
    then no_pcr
    else if ltb (byte_at pkt 4) 1 || ltb packet_size (5 + byte_at pkt 4)
    then no_pcr
    else (let flags = byte_at pkt 5 in
        let timed = bit 16 flags && leb 7 (byte_at pkt 4) in
        record {
          value = if timed then pcr_base pkt else 0;
          has_pcr = timed;
          discontinuity = bit 128 flags;
          random_access = bit 64 flags;
        })

-- The result of a scan: ticks of 27 MHz and the PID.
pub record PcrTicks : Type 0 where
  pub ticks : ℕ
  pub pid : ℕ

-- What one packet of `ScanForLastPCR` gives, if it carries a clock reference.
unfoldable pub packet_pcr : List ℕ → Option PcrTicks
packet_pcr pkt =
    if leb 2 (byte_at pkt 3 / 16 % 4)
    then (if (leb 7 (byte_at pkt 4) && leb (5 + byte_at pkt 4) packet_size)
          && bit 16 (byte_at pkt 5)
        then some (record {
          ticks = pcr_base pkt * 300 + pcr_extension pkt;
          pid = byte_at pkt 1 % 32 * 256 + byte_at pkt 2;
        })
        else none)
    else none

-- `bytes.IndexByte(data, SyncByte)`, with the rest of the data from the byte on.
unfoldable pub from_sync : List ℕ → Option (List ℕ)
from_sync [] = none
from_sync (b ∷ bs) = if b == sync_byte then some (b ∷ bs) else from_sync bs

abbrev pub or_last : Option PcrTicks → Option PcrTicks → Option PcrTicks
or_last none last = last
or_last (some p) last = some p

-- The loop of `ScanForLastPCR` on the data from `i` on.
unfoldable pub scan_from : ℕ → List ℕ → Option PcrTicks → Option PcrTicks
scan_from zero bytes last = last
scan_from (suc fuel) bytes last = elim (ltb (length bytes) packet_size) [
  | true ↦ last
  | false ↦ elim (byte_at bytes 0 == sync_byte) [
    | true ↦
        scan_from fuel (drop packet_size bytes) (or_last (packet_pcr (take packet_size bytes)) last)
    | false ↦ elim (from_sync (drop 1 bytes)) [ none ↦ last | some rest ↦ scan_from fuel rest last ]
  ]
]

-- Each round drops a byte or more, so the length and one are rounds enough.
unfoldable pub scan_for_last_pcr : List ℕ → Option PcrTicks
scan_for_last_pcr bytes = scan_from (length bytes + 1) bytes none
