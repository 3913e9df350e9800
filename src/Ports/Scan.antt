-- ===== src/Ports/Scan.antt =====
-- The search of `nextIn`: it goes once round the range, so it finds a free port if there is one.
use acestream_orchestrator.Prelude.{
  ℕ, zero, suc, ◌+◌, ◌-◌, ◌≤◌, ◌<◌, ◌≡◌, ◌≢◌, ◌⊎◌, inl, inr, refl, sym, ◌∙◌, true, false, Option,
  none, some, arith, ltb, if◌then◌else◌, Bool-cases,
}
use mathlib.Core.Bool.{false≢true}
use acestream_orchestrator.Prelude.Sets.{Set}
use acestream_orchestrator.Ports.{scan_ports, next_in}

-- `q` is among the first `n` ports from `p` on, going round from `hi` to `lo`.
abbrev pub Ahead : ℕ → ℕ → ℕ → ℕ → ℕ → Type 0
Ahead n p lo hi q = ((p ≤ q) × (q < p + n)) ⊎ (q + (hi + 1 - lo) < p + n)

-- What the search has found: a free port ahead, or that all ports ahead are used.
abbrev pub Scanned : ℕ → ℕ → ℕ → ℕ → Set → Option ℕ → Type 0
Scanned n p lo hi used (some q) = (lo ≤ q) × (q ≤ hi) × (used q ≡ false) × Ahead n p lo hi q
Scanned n p lo hi used none = (q : ℕ) → lo ≤ q → q ≤ hi → Ahead n p lo hi q → used q ≡ true

Scanned-used :
    (n p lo hi : ℕ) (used : Set) (r : Option ℕ)
    → lo ≤ p
    → p ≤ hi
    → suc n ≤ hi + 1 - lo
    → used p ≡ true
    → Scanned n (p + 1) lo hi used r
    → Scanned (suc n) p lo hi used r
Scanned-used n p lo hi used none a b c u h = λ q l k d. elim d [
  | inl d' ↦ elim (Bool-cases (ltb p q)) [
    | inl lt ↦ h q l k (inl (ground arith, ground arith))
    | inr ge ↦ rw (only q d'.0 (ground arith)) u
  ]
  | inr d' ↦ h q l k (inr (omega arith))
]
  where
    only : (q : ℕ) → p ≤ q → q ≤ p → q ≡ p
    only q x y = omega arith
Scanned-used n p lo hi used (some q) a b c u h = (
  h.0,
  h.1,
  h.2,
  elim (h.3) [ inl d ↦ inl (omega arith, omega arith) | inr d ↦ inr (omega arith) ],
)

Scanned-round :
    (n p lo hi : ℕ) (used : Set) (r : Option ℕ)
    → lo ≤ hi
    → p ≡ hi + 1
    → n ≤ hi + 1 - lo
    → Scanned n lo lo hi used r
    → Scanned n p lo hi used r
Scanned-round n p lo hi used none a e c h =
    λ q l k d. elim d [ inl d' ↦ absurd (omega arith) | inr d' ↦ h q l k (inl (l, omega arith)) ]
Scanned-round n p lo hi used (some q) a e c h = (h.0, h.1, h.2, inr (omega arith))

-- One round at a port of the range.
here :
    (n p lo hi : ℕ) (used : Set)
    → lo ≤ p
    → p ≤ hi
    → suc n ≤ hi + 1 - lo
    → Scanned n (p + 1) lo hi used (scan_ports n (p + 1) lo hi used)
    → Scanned (suc n) p lo hi used (if used p then scan_ports n (p + 1) lo hi used else some p)
here n p lo hi used a b c rest = elim (Bool-cases (used p)) [
  | inl u ↦ rw u (Scanned-used n p lo hi used _ a b c u rest)
  | inr f ↦ rw f (a, b, f, inl (omega arith, omega arith))
]

scan_ports-Scanned :
    (n p lo hi : ℕ) (used : Set)
    → lo ≤ p
    → p ≤ hi + 1
    → n ≤ hi + 1 - lo
    → Scanned n p lo hi used (scan_ports n p lo hi used)
unfolding scan_ports
scan_ports-Scanned zero p lo hi used a b c =
    λ q l k d. elim d [ inl d' ↦ absurd (omega arith) | inr d' ↦ absurd (omega arith) ]
scan_ports-Scanned (suc n) p lo hi used a b c = elim (Bool-cases (ltb hi p)) [
  | inl past ↦ rw past (
      Scanned-round (suc n) p lo hi used _ (omega arith) (ground arith) c (
        here n lo lo hi used (omega arith) (omega arith) c
          (scan_ports-Scanned n (lo + 1) lo hi used (omega arith) (omega arith) (omega arith))))
  | inr within ↦ rw within (
      here n p lo hi used a (ground arith) c
        (scan_ports-Scanned n (p + 1) lo hi used (omega arith) (ground arith) (omega arith)))
]

scan_ports-suc :
    (n p lo hi : ℕ) (used : Set) {q : ℕ}
    → scan_ports n p lo hi used ≡ some q
    → scan_ports (suc n) p lo hi used ≡ some q
unfolding scan_ports
scan_ports-suc zero p lo hi used h = cc
scan_ports-suc (suc n) p lo hi used h =
    let start : ℕ = if ltb hi p then lo else p in
    elim (Bool-cases (used start)) [
      | inl u ↦ rw u (scan_ports-suc n (start + 1) lo hi used (rw u at h))
      | inr f ↦ rw f (rw f at h)
    ]

-- What `nextIn` returns lies in the range and is not in use, if the cursor is not below the
-- range.
pub next_in_sound :
    (cur lo hi : ℕ) (used : Set) {p : ℕ}
    → lo ≤ cur
    → cur ≤ hi + 1
    → next_in cur lo hi used ≡ some p
    → (lo ≤ p) × (p ≤ hi) × (used p ≡ false)
unfolding next_in
next_in_sound cur lo hi used {p} a b e =
    let s = rw e at (scan_ports-Scanned (hi + 1 - lo) cur lo hi used a b (omega arith)) in
    (s.0, s.1, s.2)

-- `nextIn` fails only when every port of the range is in use.
pub next_in_complete :
    (cur lo hi : ℕ) (used : Set)
    → lo ≤ cur
    → cur ≤ hi + 1
    → next_in cur lo hi used ≡ none
    → (q : ℕ) → lo ≤ q
    → q ≤ hi
    → used q ≡ true
unfolding next_in
next_in_complete cur lo hi used a b e q l k =
    (rw e at (scan_ports-Scanned (hi + 1 - lo) cur lo hi used a b (omega arith))) q l k around
  where
    around : Ahead (hi + 1 - lo) cur lo hi q
    around = elim (Bool-cases (ltb q cur)) [
      | inl below ↦ inr (ground arith)
      | inr above ↦ inl (ground arith, ground arith)
    ]

-- Just past a port, `nextIn` comes back to that port only if no other port is free.
pub next_in_skips :
    (p lo hi q : ℕ) (used : Set)
    → lo ≤ p
    → p ≤ hi
    → lo ≤ q
    → q ≤ hi
    → q ≢ p
    → used q ≡ false
    → (r : ℕ) × (next_in (p + 1) lo hi used ≡ some r) × (r ≢ p)
unfolding next_in
next_in_skips p lo hi q used a b l k ne f = go (scan_ports (hi - lo) (p + 1) lo hi used) refl
  where
    whole : hi + 1 - lo ≡ suc (hi - lo)
    whole = omega arith

    ahead : (m : ℕ) → lo ≤ m → m ≤ hi → m ≢ p → Ahead (hi - lo) (p + 1) lo hi m
    ahead m c d n = elim (Bool-cases (ltb m p)) [
      | inl below ↦ inr (ground arith)
      | inr above ↦ inl (ground arith, ground arith)
    ]

    go :
        (o : Option ℕ)
        → scan_ports (hi - lo) (p + 1) lo hi used ≡ o
        → (r : ℕ) × (scan_ports (hi + 1 - lo) (p + 1) lo hi used ≡ some r) × (r ≢ p)
    go none e = absurd (
        false≢true (
          sym f
          ∙ (rw e at (
                scan_ports-Scanned (hi - lo) (p + 1) lo hi used (omega arith) (omega arith)
                  (omega arith)))
              q l k (ahead q l k ne)))
    go (some r) e =
        let s = rw e at (
          scan_ports-Scanned (hi - lo) (p + 1) lo hi used (omega arith) (omega arith)
            (omega arith)) in
        (
          r,
          rw whole (scan_ports-suc (hi - lo) (p + 1) lo hi used e),
          λ same. elim (s.3) [ inl d ↦ omega arith | inr d ↦ omega arith ],
        )
