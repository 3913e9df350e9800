-- ===== src/Prelude/Digits.antt =====
-- Numbers as text. A 64-bit number has at most 20 digits.
use Prim.Native.String.{String, ◌++◌ as append, slice}
use Prim.Native.Nat.{ℕ, zero, suc, ◌+◌, ◌/◌, ◌%◌}
use acestream_orchestrator.Prelude.Tests.{if◌then◌else◌, ltb}

-- `strconv.Itoa`, and the verb `%d`.
unfoldable pub digits : ℕ → ℕ → String
digits zero n = ""
digits (suc fuel) n =
    let rest = digits fuel (n / 10) in
    let last = slice "0123456789" (n % 10) (n % 10 + 1) in
    if ltb n 10 then last else append rest last

unfoldable pub itoa : ℕ → String
unfolding digits
itoa n = digits 20 n
