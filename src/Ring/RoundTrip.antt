-- ===== src/Ring/RoundTrip.antt =====
-- What is written is what is read.
use acestream_orchestrator.Prelude.{
  ℕ, zero, suc, ◌-◌, ◌≤◌, ◌<◌, ◌≡◌, refl, ap, ◌∙◌, false, List, [], ◌∷◌, ◌++◌, arith, ltb, drop,
  take, length, length-drop, Bool-cases, inl, inr,
}
use acestream_orchestrator.Prelude.Int.{ℤ, negsuc}
use acestream_orchestrator.Ring.{RingBuffer, head_index, write, read_after}
use acestream_orchestrator.Ring.History.{Holds}
use acestream_orchestrator.Ring.Read.{read_after_window}
use acestream_orchestrator.Ring.Wait.{read_after-ahead}
use acestream_orchestrator.Ring.Stream.{flat, write_stream}

take-all : (n : ℕ) (cs : List (List ℕ)) → n ≡ length cs → take n cs ≡ cs
take-all zero [] h = refl
take-all zero (c ∷ cs) h = absurd (omega arith)
take-all (suc n) [] h = refl
take-all (suc n) (c ∷ cs) h = ap (λ t. c ∷ t) (take-all n cs (omega arith))

length-zero : (cs : List (List ℕ)) → length cs ≡ 0 → [] ≡ cs
length-zero [] h = refl
length-zero (c ∷ cs) h = absurd (omega arith)

read_after-all :
    (max : ℕ) (cs : List (List ℕ)) (rb : RingBuffer)
    → Holds cs 0 rb
    → rb.head ≤ rb.cap
    → rb.head ≤ max
    → 0 < max
    → (read_after (negsuc 0) max rb).0 ≡ cs
unfolding head_index
read_after-all max cs rb v fits few m = elim (Bool-cases (ltb 0 rb.head)) [
  | inl filled ↦
      ap (λ (r : List (List ℕ) × ℤ). r.0)
        (read_after_window (negsuc 0) max cs 0 rb v (ground arith, ground arith) (omega arith) m).0
      ∙ take-all _ _ (ground (arith, length-drop (rb.head - rb.cap) cs, v.head_length))
      ∙ ap (λ i. drop i cs) {x = rb.head - rb.cap} {y = 0} (omega arith)
  | inr unused ↦
      ap (λ (r : List (List ℕ) × ℤ). r.0) (read_after-ahead (negsuc 0) max rb (ground arith))
      ∙ length-zero cs (ground (arith, v.head_length))
]

-- Bytes written to a new ring come back: what a reader with the cursor -1 is given, followed by
-- what is left over in the ring, is the bytes, provided that the chunks that were stored are at
-- most as many as the ring has slots and as the reader asks for.
pub read_after-write :
    (now later max : ℕ) (bytes : List ℕ) (rb : RingBuffer)
    → Holds [] 0 rb
    → rb.partial ≡ []
    → 0 < rb.target_size
    → 0 < length bytes
    → rb.stopped ≡ false
    → (write now later bytes rb).0.head ≤ (write now later bytes rb).0.cap
    → (write now later bytes rb).0.head ≤ max
    → 0 < max
    → flat (read_after (negsuc 0) max (write now later bytes rb).0).0
        ++ (write now later bytes rb).0.partial
      ≡ bytes
read_after-write now later max bytes rb v p t n s fits few m =
    let cut = (write_stream now later bytes [] 0 rb v t n s).0 in
    ap (λ cs. flat cs ++ (write now later bytes rb).0.partial)
      (read_after-all max cut.cs (write now later bytes rb).0 cut.holds fits few m)
    ∙ cut.bytes_kept
    ∙ ap (λ rest. rest ++ bytes) p
