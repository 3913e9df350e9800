-- ===== src/Ts/Tests.antt =====
-- The theorems on packets at concrete inputs.
use acestream_orchestrator.Prelude.{
  ℕ, ◌+◌, ◌*◌, ◌≡◌, ◌↔◌, refl, none, some, List, [], ◌∷◌, ◌++◌, arith, replicate, drop,
}
use acestream_orchestrator.Ts.{pcr_base, pcr_extension, packet_pcr}
use acestream_orchestrator.Ts.Keyframe.{payload_start, is_keyframe}
use acestream_orchestrator.Ts.Keyframe.Bounds.{HasPayload, IsCutOff, is_keyframe-none_iff}

-- A packet with a clock reference.
abbrev clock_packet : List ℕ
clock_packet = 0x47 ∷ 1 ∷ 0 ∷ 0x20 ∷ 183 ∷ 0x10 ∷ 1 ∷ 2 ∷ 3 ∷ 4 ∷ 5 ∷ 6 ∷ replicate 176 0

clock_packet-read :
    packet_pcr clock_packet ≡ some (record { ticks = pcr_base clock_packet * 300 + 262; pid = 256 })
unfolding packet_pcr pcr_extension
clock_packet-read = refl

-- A packet with a video payload of seven bytes.
abbrev cut_packet : List ℕ
cut_packet =
    0x47 ∷ 0x40 ∷ 0 ∷ 0x30 ∷ 176 ∷ (replicate 176 0 ++ (0 ∷ 0 ∷ 1 ∷ 0xE0 ∷ 0 ∷ 0 ∷ 0x80 ∷ []))

is_keyframe-none_iff_example :
    (is_keyframe cut_packet ≡ none)
    ↔ (HasPayload cut_packet × IsCutOff (drop (payload_start cut_packet) cut_packet))
is_keyframe-none_iff_example = is_keyframe-none_iff cut_packet

is_keyframe_panics : is_keyframe cut_packet ≡ none
unfolding payload_start
is_keyframe_panics =
    is_keyframe-none_iff_example.1
      ((omega arith, refl, refl, omega arith), (omega arith, omega arith, refl))
