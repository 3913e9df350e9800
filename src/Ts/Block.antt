-- ===== src/Ts/Block.antt =====
-- Blocks of whole packets, as a chunk of the ring is when the stream is aligned.
use acestream_orchestrator.Prelude.{
  ℕ, zero, suc, ◌<◌, ◌≡◌, refl, ap, List, [], ◌∷◌, ◌++◌, arith, drop, take, length,
}
use acestream_orchestrator.Ts.{packet_size, sync_byte, byte_at}

-- A block of whole packets that each begin with the sync byte.
abbrev pub Packets : List (List ℕ) → Type 0
Packets [] = Unit {0}
Packets (p ∷ ps) = (length p ≡ packet_size) × (byte_at p 0 ≡ sync_byte) × Packets ps

abbrev pub block : List (List ℕ) → List ℕ
block [] = []
block (p ∷ ps) = p ++ block ps

pub drop_append : (n : ℕ) (xs ys : List ℕ) → length xs ≡ n → drop n (xs ++ ys) ≡ ys
drop_append zero [] ys h = refl
drop_append zero (x ∷ xs) ys h = absurd (omega arith)
drop_append (suc n) [] ys h = absurd (omega arith)
drop_append (suc n) (x ∷ xs) ys h = drop_append n xs ys (omega arith)

pub take_append : (n : ℕ) (xs ys : List ℕ) → length xs ≡ n → take n (xs ++ ys) ≡ xs
take_append zero [] ys h = refl
take_append zero (x ∷ xs) ys h = absurd (omega arith)
take_append (suc n) [] ys h = absurd (omega arith)
take_append (suc n) (x ∷ xs) ys h = ap (λ t. x ∷ t) (take_append n xs ys (omega arith))

pub byte_at_append : (xs ys : List ℕ) → 0 < length xs → byte_at (xs ++ ys) 0 ≡ byte_at xs 0
byte_at_append [] ys h = absurd (omega arith)
byte_at_append (x ∷ xs) ys h = refl
