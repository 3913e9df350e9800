-- ===== src/Prelude/Last.antt =====
-- The end of a list: its last `n`.
use Prim.Native.Nat.{ℕ, zero, suc, ◌+◌, ◌-◌, ◌≤◌}
use mathlib.Core.Path.{◌≡◌, refl, sym, ap, ◌∙◌}
use mathlib.Core.Logic.{inl, inr}
use mathlib.Core.List.{List, [], ◌∷◌, ◌++◌}
use native.Mathlib.Omega.{arith}
use acestream_orchestrator.Prelude.Tests.{if◌then◌else◌, ltb, Bool-cases}
use acestream_orchestrator.Prelude.Lists.{length, drop, length-append, length-drop}

module _ {A : Type 0} where
  -- The last `n` of a list.
  abbrev pub last_of : ℕ → List A → List A
  last_of n xs = if ltb n (length xs) then drop (length xs - n) xs else xs

  drop-append : (n : ℕ) (xs ys : List A) → n ≤ length xs → drop n (xs ++ ys) ≡ drop n xs ++ ys
  drop-append zero xs ys h = refl
  drop-append (suc n) [] ys h = absurd (omega arith)
  drop-append (suc n) (x ∷ xs) ys h = drop-append n xs ys (omega arith)

  drop-nil : (n : ℕ) → drop {A = A} n [] ≡ []
  drop-nil zero = refl
  drop-nil (suc n) = refl

  drop-drop : (m n : ℕ) (xs : List A) → drop m (drop n xs) ≡ drop (n + m) xs
  drop-drop m zero xs = ap (λ k. drop k xs) {x = m} {y = 0 + m} (omega arith)
  drop-drop m (suc n) [] = drop-nil m ∙ sym (drop-nil (suc n + m))
  drop-drop m (suc n) (x ∷ xs) =
      drop-drop m n xs ∙ ap (λ k. drop k (x ∷ xs)) {x = suc (n + m)} {y = suc n + m} (omega arith)

  pub last_of-drop : (n : ℕ) (xs : List A) → last_of n xs ≡ drop (length xs - n) xs
  last_of-drop n xs = elim (Bool-cases (ltb n (length xs))) [
    | inl longer ↦ rw longer refl
    | inr fits ↦ rw fits (ap (λ k. drop k xs) {x = 0} {y = length xs - n} (ground arith))
  ]

  -- Keeping the last `n` after each step is keeping the last `n` of all.
  pub last_of-append :
      (n : ℕ) (xs : List A) (x : A)
      → last_of n (last_of n xs ++ (x ∷ [])) ≡ last_of n (xs ++ (x ∷ []))
  last_of-append n xs x =
      let k = length xs - n in
      let more = xs ++ (x ∷ []) in
      ap (λ l. last_of n (l ++ (x ∷ []))) (last_of-drop n xs)
      ∙ ap (last_of n) (sym (drop-append k xs (x ∷ []) (omega arith)))
      ∙ last_of-drop n (drop k more)
      ∙ drop-drop (length (drop k more) - n) k more
      ∙ ap (λ i. drop i more) {x = k + (length (drop k more) - n)} {y = length more - n}
          (omega (arith, length-drop k more, length-append xs (x ∷ [])))
      ∙ sym (last_of-drop n more)

  pub length-last_of : (n : ℕ) (xs : List A) → length (last_of n xs) ≤ n
  length-last_of n xs = ground (arith, length-drop (length xs - n) xs)
