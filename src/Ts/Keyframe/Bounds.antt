-- ===== src/Ts/Keyframe/Bounds.antt =====
-- h264.go: exactly which packets make `IsKeyframe` read out of range.
use acestream_orchestrator.Prelude.{
  ℕ, zero, suc, ◌≤◌, ◌<◌, ◌≡◌, ◌≢◌, ◌↔◌, ◌⊎◌, refl, Bool, true, false, ◌&&◌, none, List, [], ◌∷◌,
  arith, leb, ◌==◌, get_elem?, drop, length,
}
use acestream_orchestrator.Ts.{packet_size, sync_byte, byte_at, bit}
use acestream_orchestrator.Ts.Keyframe.{payload_start, slice_from, scan_payload, is_keyframe}

-- A payload that begins with the start code and a video stream ID.
abbrev pub is_video_pes : List ℕ → Bool
is_video_pes payload =
    (byte_at payload 0 == 0 && byte_at payload 1 == 0 && byte_at payload 2 == 1)
    && (leb 0xE0 (byte_at payload 3) && leb (byte_at payload 3) 0xEF)

get_elem?-none_iff : (bs : List ℕ) (i : ℕ) → (get_elem? bs i ≡ none) ↔ (length bs ≤ i)
get_elem?-none_iff [] i = (λ e. omega arith, λ h. refl)
get_elem?-none_iff (b ∷ bs) zero = (λ e. absurd (cc), λ h. absurd (omega arith))
get_elem?-none_iff (b ∷ bs) (suc i) = (
  λ e. omega (arith, (get_elem?-none_iff bs i).0 e),
  λ h. (get_elem?-none_iff bs i).1 (omega arith),
)

-- A payload that is video and ends within the fixed part of its PES header.
abbrev pub IsCutOff : List ℕ → Type 0
IsCutOff payload = (6 ≤ length payload) × (length payload ≤ 8) × (is_video_pes payload ≡ true)

scan_payload_cut : (payload : List ℕ) → IsCutOff payload → scan_payload payload ≡ none
unfolding scan_payload
scan_payload_cut payload h = rw ((get_elem?-none_iff payload 8).1 h.1, scan_payload) (ground arith)

scan_payload_whole : (payload : List ℕ) → 9 ≤ length payload → scan_payload payload ≢ none
unfolding scan_payload slice_from
scan_payload_whole payload h = ground (arith, (get_elem?-none_iff payload 8).0)

scan_payload_other :
    (payload : List ℕ)
    → (length payload < 6) ⊎ (is_video_pes payload ≡ false)
    → scan_payload payload ≢ none
unfolding scan_payload
scan_payload_other payload h = ground arith

scan_payload-none_iff : (payload : List ℕ) → (scan_payload payload ≡ none) ↔ IsCutOff payload
scan_payload-none_iff payload = (only, scan_payload_cut payload)
  where
    only : scan_payload payload ≡ none → IsCutOff payload
    only e = ground (arith, scan_payload_whole payload, scan_payload_other payload)

-- A packet that reaches the scan of its payload: long enough, in sync, a payload starts in it,
-- and the payload begins before the 188th byte.
abbrev pub HasPayload : List ℕ → Type 0
HasPayload pkt =
    (packet_size ≤ length pkt)
    × (byte_at pkt 0 ≡ sync_byte)
    × (bit 64 (byte_at pkt 1) ≡ true)
    × (payload_start pkt < packet_size)

-- `IsKeyframe` reads past the end of the packet, and so panics, exactly on the packets that reach
-- the scan with a payload that starts with a video PES header and is 6, 7 or 8 bytes long.
pub is_keyframe-none_iff :
    (pkt : List ℕ)
    → (is_keyframe pkt ≡ none) ↔ (HasPayload pkt × IsCutOff (drop (payload_start pkt) pkt))
unfolding is_keyframe
is_keyframe-none_iff pkt = (only, all)
  where
    only : is_keyframe pkt ≡ none → HasPayload pkt × IsCutOff (drop (payload_start pkt) pkt)
    only e = ground (arith, (scan_payload-none_iff (drop (payload_start pkt) pkt)).0)

    all : HasPayload pkt × IsCutOff (drop (payload_start pkt) pkt) → is_keyframe pkt ≡ none
    all h = ground (arith, (scan_payload-none_iff (drop (payload_start pkt) pkt)).1 h.1)
