-- ===== src/Prelude/Sets.antt =====
-- A Go `map[int]struct{}` that is only tested, extended and shrunk, as its membership test.
use Prim.Native.Nat.{ℕ}
use mathlib.Core.Path.{◌≡◌}
use mathlib.Core.Bool.{Bool, true, false}
use native.Mathlib.Omega.{arith}
use acestream_orchestrator.Prelude.Tests.{◌==◌, if◌then◌else◌}

abbrev pub Set : Type 0
Set = ℕ → Bool

abbrev pub empty : Set
empty q = false

abbrev pub add : ℕ → Set → Set
add p s q = if q == p then true else s q

abbrev pub remove : ℕ → Set → Set
remove p s q = if q == p then false else s q

pub remove-add : (p : ℕ) (s : Set) → s p ≡ false → (q : ℕ) → remove p (add p s) q ≡ s q
remove-add p s h q = ground arith
