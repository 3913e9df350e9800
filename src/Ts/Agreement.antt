-- ===== src/Ts/Agreement.antt =====
-- pcr.go: `FindPCR` and `ScanForLastPCR` read the same clock reference.
use acestream_orchestrator.Prelude.{
  ℕ, ◌+◌, ◌*◌, ◌/◌, ◌%◌, ◌≤◌, ◌≡◌, true, false, not, Option, none, some, List, arith, leb, ◌==◌,
  length,
}
use acestream_orchestrator.Ts.{
  packet_size, sync_byte, byte_at, PcrTicks, pcr_extension, find_pcr, packet_pcr,
}

-- The two results agree on the packet: both have a clock reference, and the ticks are those of
-- the 90 kHz base and the extension, or neither has.
abbrev pub AgreeOn : List ℕ → Option PcrTicks → Type 0
AgreeOn pkt none = (find_pcr pkt).has_pcr ≡ false
AgreeOn pkt (some p) =
    ((find_pcr pkt).has_pcr ≡ true) × (p.ticks ≡ (find_pcr pkt).value * 300 + pcr_extension pkt)

adaptation : (b : ℕ) → leb 2 (b / 16 % 4) ≡ not (b / 32 % 2 == 0)
adaptation b = ground arith

-- On a whole packet that begins with the sync byte, `FindPCR` finds a clock reference exactly
-- when the scan of `ScanForLastPCR` does, and its base is the one in the ticks.
pub find_pcr-packet_pcr :
    (pkt : List ℕ)
    → packet_size ≤ length pkt
    → byte_at pkt 0 ≡ sync_byte
    → AgreeOn pkt (packet_pcr pkt)
unfolding find_pcr packet_pcr
find_pcr-packet_pcr pkt l s = rw (adaptation (byte_at pkt 3)) (ground arith)
