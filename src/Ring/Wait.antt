-- ===== src/Ring/Wait.antt =====
-- Waiting: `Wait` against what a read gives.
use acestream_orchestrator.Prelude.{
  ℕ, ◌≤◌, ◌<◌, ◌≡◌, refl, sym, ap, ◌∙◌, Bool, true, false, not, List, [], ◌∷◌, arith, length,
  Bool-cases, inl, inr,
}
use acestream_orchestrator.Prelude.Int.{ℤ, pos, negsuc, ltb_ℤ}
use acestream_orchestrator.Ring.{RingBuffer, head_index, chunks_after, read_after, wait_ready}
use acestream_orchestrator.Ring.History.{Holds}
use acestream_orchestrator.Ring.Read.{
  IsBehind, first_index, amount, read_after_window, length-take-drop, first_index-lt,
}

abbrev pub is_empty : List (List ℕ) → Bool
is_empty [] = true
is_empty (c ∷ cs) = false

-- A cursor is -1 or an index.
abbrev pub is_cursor : ℤ → Bool
is_cursor after = ltb_ℤ (negsuc 1) after

pub read_after-ahead :
    (after : ℤ) (max : ℕ) (rb : RingBuffer)
    → ltb_ℤ after (head_index rb) ≡ false
    → read_after after max rb ≡ ([], after)
unfolding read_after chunks_after
read_after-ahead after max rb h = rw (h, read_after) (ground arith)

behind :
    (after : ℤ) (rb : RingBuffer)
    → is_cursor after ≡ true
    → ltb_ℤ after (head_index rb) ≡ true
    → IsBehind after rb
unfolding head_index
behind (pos a) rb c h = (ground (arith, h), h)
behind (negsuc a) rb c h = (ground (arith, c, h), h)

is_empty-length : (cs : List (List ℕ)) → 0 < length cs → is_empty cs ≡ false
is_empty-length [] h = absurd (omega arith)
is_empty-length (c ∷ cs) h = refl

-- For a reader with a cursor of -1 or more that has lost nothing to a reset: the channel that
-- `Wait` returns is closed already exactly when `ReadAfter`, with a positive limit, has a chunk
-- for it.
pub wait_ready-read_after :
    (after : ℤ) (max : ℕ) (hist : List (List ℕ)) (base : ℕ) (rb : RingBuffer)
    → Holds hist base rb
    → is_cursor after ≡ true
    → base ≤ first_index after rb
    → 0 < max
    → wait_ready after rb ≡ not (is_empty (read_after after max rb).0)
unfolding wait_ready
wait_ready-read_after after max hist base rb v c b m =
    elim (Bool-cases (ltb_ℤ after (head_index rb))) [
      | inl more ↦
          let h = behind after rb c more in
          let (given, some_left, few) = read_after_window after max hist base rb v h b m in
          more
          ∙ sym (
              ap (λ (r : List (List ℕ) × ℤ). not (is_empty r.0)) given
              ∙ ap not (
                  is_empty-length _ (
                    omega (
                      arith,
                      some_left,
                      length-take-drop (amount after max rb) (first_index after rb) hist
                          (ground (arith, first_index-lt after rb v.positive h, v.head_length)),
                    ))))
      | inr none_left ↦
          none_left
          ∙ sym (
              ap (λ (r : List (List ℕ) × ℤ). not (is_empty r.0))
                (read_after-ahead after max rb none_left))
    ]
