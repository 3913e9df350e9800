-- ===== src/Ts/Keyframe.antt =====
-- h264.go: `IsKeyframe`, which reads some bytes without a test that they are there. `none` is the
-- panic of an index or a slice that is out of range.
pub mod Bounds
use acestream_orchestrator.Prelude.{
  ℕ, zero, suc, ◌+◌, ◌-◌, ◌/◌, ◌%◌, Bool, true, false, ◌&&◌, ◌||◌, not, Option, none, some, List,
  [], ◌∷◌, if◌then◌else◌, ltb, leb, ◌==◌, get_elem?, drop, length,
}
use acestream_orchestrator.Ts.{packet_size, sync_byte, byte_at, bit}

-- The offset of the payload.
unfoldable pub payload_start : List ℕ → ℕ
payload_start pkt = if leb 2 (byte_at pkt 3 / 16 % 4) then 5 + byte_at pkt 4 else 4

unfoldable pub is_h264_key : ℕ → Bool
is_h264_key b = let h264 = b % 32 in h264 == 5 || h264 == 7 || h264 == 8

unfoldable pub is_hevc_key : ℕ → Bool
is_hevc_key b =
    let hevc = b / 2 % 64 in hevc == 19 || hevc == 20 || hevc == 32 || hevc == 33 || hevc == 34

-- The index of the NAL header behind a start code at the front of `es`, if there is one.
unfoldable pub nal_index : List ℕ → Option ℕ
nal_index es =
    if byte_at es 0 == 0 && byte_at es 1 == 0
    then (if byte_at es 2 == 1
        then some 3
        else if byte_at es 2 == 0 && byte_at es 3 == 1
        then some 4
        else none)
    else none

-- One round of the scan, at the front of `es`.
unfoldable pub starts_key : List ℕ → Bool
unfolding nal_index is_h264_key is_hevc_key
starts_key es = elim (nal_index es) [
  | none ↦ false
  | some i ↦
      if ltb i (length es) then is_h264_key (byte_at es i) || is_hevc_key (byte_at es i) else false
]

-- `for i := 0; i < len(es)-4; i++`: every suffix of more than four bytes.
unfoldable pub scan_nals : List ℕ → Bool
scan_nals [] = false
scan_nals (b ∷ es) = if ltb 4 (length (b ∷ es)) then starts_key (b ∷ es) || scan_nals es else false

-- `payload[i:]`.
slice_from : ℕ → List ℕ → Option (List ℕ)
slice_from i payload = if leb i (length payload) then some (drop i payload) else none

unfoldable pub scan_payload : List ℕ → Option Bool
unfolding slice_from
scan_payload payload =
    if ltb (length payload) 6
      || not (byte_at payload 0 == 0 && byte_at payload 1 == 0 && byte_at payload 2 == 1)
    then some false
    else if ltb (byte_at payload 3) 0xE0 || ltb 0xEF (byte_at payload 3)
    then some false
    else elim (get_elem? payload 8) [
      | none ↦ none
      | some header ↦
          let pes_header_len = 6 + header + 3 in
          elim (slice_from (if leb (length payload) pes_header_len then 9 else pes_header_len)
            payload) [ none ↦ none | some es ↦ some (scan_nals es) ]
    ]

unfoldable pub is_keyframe : List ℕ → Option Bool
is_keyframe pkt =
    if ltb (length pkt) packet_size || not (byte_at pkt 0 == sync_byte)
    then some false
    else if not (bit 64 (byte_at pkt 1))
    then some false
    else if leb packet_size (payload_start pkt)
    then some false
    else scan_payload (drop (payload_start pkt) pkt)
