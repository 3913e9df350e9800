-- ===== src/Ts/Clock.antt =====
-- pcr.go: the range of a clock reference, and the scan of a block of packets.
use acestream_orchestrator.Prelude.{
  ℕ, zero, suc, ◌+◌, ◌*◌, ◌^◌, ◌≤◌, ◌<◌, ◌≡◌, refl, sym, ◌∙◌, Bool, true, false, Option, none, some,
  List, [], ◌∷◌, ◌++◌, arith, ltb, ◌==◌, drop, take, length, length-append, length-drop, Bool-cases,
  inl, inr,
}
use mathlib.Core.Option.{some_inj}
use acestream_orchestrator.Ts.Block.{Packets, block, drop_append, take_append, byte_at_append}
use acestream_orchestrator.Ts.{
  packet_size, sync_byte, byte_at, PcrTicks, pcr_base, pcr_extension, packet_pcr, from_sync,
  or_last, scan_from, scan_for_last_pcr,
}

-- Every byte is below 256.
abbrev pub Bytes : List ℕ → Type 0
Bytes [] = Unit {0}
Bytes (b ∷ bs) = (b < 256) × Bytes bs

byte_at-lt : (bs : List ℕ) (i : ℕ) → Bytes bs → byte_at bs i < 256
byte_at-lt [] i h = omega arith
byte_at-lt (b ∷ bs) zero h = h.0
byte_at-lt (b ∷ bs) (suc i) h = byte_at-lt bs i h.1

pcr_base-lt : (pkt : List ℕ) → Bytes pkt → pcr_base pkt < 2 ^ 33
unfolding pcr_base
pcr_base-lt pkt h = omega (
  arith,
  byte_at-lt pkt 6 h,
  byte_at-lt pkt 7 h,
  byte_at-lt pkt 8 h,
  byte_at-lt pkt 9 h,
  byte_at-lt pkt 10 h,
)

pcr_extension-lt : (pkt : List ℕ) → Bytes pkt → pcr_extension pkt < 512
unfolding pcr_extension
pcr_extension-lt pkt h = omega (arith, byte_at-lt pkt 11 h)

-- The bounds of a result, if there is one.
abbrev pub InRange : Option PcrTicks → Type 0
InRange none = Unit {0}
InRange (some p) = (p.ticks < 300 * 2 ^ 33 + 212) × (p.pid < 2 ^ 13)

packet_pcr-InRange : (pkt : List ℕ) → Bytes pkt → InRange (packet_pcr pkt)
unfolding packet_pcr
packet_pcr-InRange pkt h =
    ground
      (arith, pcr_base-lt pkt h, pcr_extension-lt pkt h, byte_at-lt pkt 1 h, byte_at-lt pkt 2 h)

Bytes-drop : (n : ℕ) (bs : List ℕ) → Bytes bs → Bytes (drop n bs)
Bytes-drop zero bs h = h
Bytes-drop (suc n) [] h = h
Bytes-drop (suc n) (b ∷ bs) h = Bytes-drop n bs h.1

Bytes-take : (n : ℕ) (bs : List ℕ) → Bytes bs → Bytes (take n bs)
Bytes-take zero bs h = tt
Bytes-take (suc n) [] h = h
Bytes-take (suc n) (b ∷ bs) h = (h.0, Bytes-take n bs h.1)

-- What follows a sync byte is not longer than what was searched, and is again bytes.
from_sync-length : (bs rest : List ℕ) → from_sync bs ≡ some rest → length rest ≤ length bs
unfolding from_sync
from_sync-length [] rest e = absurd (cc)
from_sync-length (b ∷ bs) rest e = elim (Bool-cases (b == sync_byte)) [
  | inl found ↦ let same : b ∷ bs ≡ rest = some_inj.0 (rw found at e) in rw (← same) (omega arith)
  | inr other ↦ omega (arith, from_sync-length bs rest (rw other at e))
]

from_sync-Bytes : (bs rest : List ℕ) → from_sync bs ≡ some rest → Bytes bs → Bytes rest
unfolding from_sync
from_sync-Bytes [] rest e h = absurd (cc)
from_sync-Bytes (b ∷ bs) rest e h = elim (Bool-cases (b == sync_byte)) [
  | inl found ↦ let same : b ∷ bs ≡ rest = some_inj.0 (rw found at e) in rw (← same) h
  | inr other ↦ from_sync-Bytes bs rest (rw other at e) h.1
]

or_last-InRange : (o last : Option PcrTicks) → InRange o → InRange last → InRange (or_last o last)
or_last-InRange none last h k = k
or_last-InRange (some p) last h k = h

scan_from-InRange :
    (fuel : ℕ) (bs : List ℕ) (last : Option PcrTicks)
    → Bytes bs
    → InRange last
    → InRange (scan_from fuel bs last)
unfolding scan_from
scan_from-InRange zero bs last h k = k
scan_from-InRange (suc fuel) bs last h k =
    go (ltb (length bs) packet_size) (byte_at bs 0 == sync_byte) (from_sync (drop 1 bs)) refl
      (scan_from-InRange fuel (drop packet_size bs)
        (or_last (packet_pcr (take packet_size bs)) last) (Bytes-drop packet_size bs h)
        (or_last-InRange (packet_pcr (take packet_size bs)) last
          (packet_pcr-InRange (take packet_size bs) (Bytes-take packet_size bs h)) k))
      (λ rest r. scan_from-InRange fuel rest last r k)
  where
    go :
        (short synced : Bool) (o : Option (List ℕ))
        → from_sync (drop 1 bs) ≡ o
        → InRange
            (scan_from fuel (drop packet_size bs) (or_last (packet_pcr (take packet_size bs)) last))
        → ((rest : List ℕ) → Bytes rest → InRange (scan_from fuel rest last))
        → InRange (elim short [
          | true ↦ last
          | false ↦ elim synced [
            | true ↦
                scan_from fuel
                  (drop packet_size bs)
                  (or_last (packet_pcr (take packet_size bs)) last)
            | false ↦ elim o [ none ↦ last | some rest ↦ scan_from fuel rest last ]
          ]
        ])
    go true synced o e x y = k
    go false true o e x y = x
    go false false none e x y = k
    go false false (some rest) e x y =
        y rest (from_sync-Bytes (drop 1 bs) rest e (Bytes-drop 1 bs h))

-- `ScanForLastPCR` on any bytes yields ticks of at most 300 * 2 ^ 33 + 211 and a PID of 13 bits.
pub scan_for_last_pcr-InRange : (bs : List ℕ) → Bytes bs → InRange (scan_for_last_pcr bs)
unfolding scan_for_last_pcr
scan_for_last_pcr-InRange bs h = scan_from-InRange (length bs + 1) bs none h tt

length-drop_packet :
    (bs : List ℕ) → ltb (length bs) packet_size ≡ false → length (drop packet_size bs) < length bs
length-drop_packet bs h = ground (arith, length-drop packet_size bs)

length-drop_sync :
    (bs rest : List ℕ)
    → ltb (length bs) packet_size ≡ false
    → from_sync (drop 1 bs) ≡ some rest
    → length rest < length bs
length-drop_sync bs rest h e = ground (arith, from_sync-length (drop 1 bs) rest e, length-drop 1 bs)

module _ (n : ℕ) (bs : List ℕ) (last : Option PcrTicks) where
  scan_from-short : ltb (length bs) packet_size ≡ true → scan_from (suc n) bs last ≡ last
  unfolding scan_from
  scan_from-short h = rw (h, scan_from) refl

  scan_from-synced :
      ltb (length bs) packet_size ≡ false
      → (byte_at bs 0 == sync_byte) ≡ true
      → scan_from (suc n) bs last
        ≡ scan_from n (drop packet_size bs) (or_last (packet_pcr (take packet_size bs)) last)
  unfolding scan_from
  scan_from-synced h s = rw (h, scan_from) (rw s refl)

  scan_from-lost :
      ltb (length bs) packet_size ≡ false
      → (byte_at bs 0 == sync_byte) ≡ false
      → scan_from (suc n) bs last
        ≡ elim (from_sync (drop 1 bs)) [ none ↦ last | some rest ↦ scan_from n rest last ]
  unfolding scan_from
  scan_from-lost h s = rw (h, scan_from) (rw s refl)

-- More rounds than bytes make no difference.
pub scan_from_enough :
    (n m : ℕ) (bs : List ℕ) (last : Option PcrTicks)
    → length bs < n
    → length bs < m
    → scan_from n bs last ≡ scan_from m bs last
scan_from_enough zero m bs last a b = absurd (omega arith)
scan_from_enough (suc n) zero bs last a b = absurd (omega arith)
scan_from_enough (suc n) (suc m) bs last a b = elim (Bool-cases (ltb (length bs) packet_size)) [
  | inl short ↦ scan_from-short n bs last short ∙ sym (scan_from-short m bs last short)
  | inr long ↦ elim (Bool-cases (byte_at bs 0 == sync_byte)) [
    | inl synced ↦
        scan_from-synced n bs last long synced
        ∙ scan_from_enough n m (drop packet_size bs)
            (or_last (packet_pcr (take packet_size bs)) last)
            (omega (arith, length-drop_packet bs long)) (omega (arith, length-drop_packet bs long))
        ∙ sym (scan_from-synced m bs last long synced)
    | inr lost ↦
        scan_from-lost n bs last long lost
        ∙ resume (from_sync (drop 1 bs)) refl long (λ rest x y. scan_from_enough n m rest last x y)
        ∙ sym (scan_from-lost m bs last long lost)
  ]
]
  where
    resume :
        (o : Option (List ℕ))
        → from_sync (drop 1 bs) ≡ o
        → ltb (length bs) packet_size ≡ false
        → ((rest : List ℕ)
            → length rest < n
            → length rest < m
            → scan_from n rest last ≡ scan_from m rest last)
        → Path
            (Option PcrTicks)
            (elim o [ none ↦ last | some rest ↦ scan_from n rest last ])
            (elim o [ none ↦ last | some rest ↦ scan_from m rest last ])
    resume none e long ih = refl
    resume (some rest) e long ih =
        ih rest (omega (arith, length-drop_sync bs rest long e))
          (omega (arith, length-drop_sync bs rest long e))

-- The last clock reference among the packets, each read by itself.
abbrev pub last_pcr : List (List ℕ) → Option PcrTicks → Option PcrTicks
last_pcr [] last = last
last_pcr (p ∷ ps) last = last_pcr ps (or_last (packet_pcr p) last)

scan_from-block :
    (n : ℕ) (ps : List (List ℕ)) (last : Option PcrTicks)
    → Packets ps
    → length (block ps) < n
    → scan_from n (block ps) last ≡ last_pcr ps last
scan_from-block zero ps last h k = absurd (omega arith)
scan_from-block (suc n) [] last h k = scan_from-short n [] last refl
scan_from-block (suc n) (p ∷ ps) last h k =
    scan_from-synced n (p ++ block ps) last (ground (arith, h.0, length-append p (block ps)))
      (rw (byte_at_append p (block ps) (omega (arith, h.0))) (ground (arith, h.1)))
    ∙ rw (drop_append packet_size p (block ps) h.0, take_append packet_size p (block ps) h.0)
        (scan_from-block n ps (or_last (packet_pcr p) last) h.2
          (omega (arith, length-append p (block ps), h.0)))

-- On a block of whole, aligned packets `ScanForLastPCR` gives the clock reference of the last
-- packet that has one, as reading each packet by itself does, and none if no packet has one.
pub scan_for_last_pcr-block :
    (ps : List (List ℕ)) → Packets ps → scan_for_last_pcr (block ps) ≡ last_pcr ps none
unfolding scan_for_last_pcr
scan_for_last_pcr-block ps h = scan_from-block (length (block ps) + 1) ps none h (omega arith)
