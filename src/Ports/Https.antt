-- ===== src/Ports/Https.antt =====
-- The search of `AllocHTTPS` and `AllocateEnginePorts` for an HTTPS port other than a given one.
use acestream_orchestrator.Prelude.{
  ℕ, zero, suc, ◌+◌, ◌≤◌, ◌≡◌, ◌≢◌, ◌⊎◌, inl, inr, refl, sym, ◌∙◌, Bool, true, false, not, ◌||◌,
  Option, none, some, arith, Bool-cases, Option-cases, ◌==◌, ==_iff,
}
use mathlib.Core.Bool.{false≢true}
use acestream_orchestrator.Ports.{
  PortAllocator, next_in, Search, found, exhausted, spinning, search_https, take_https, alloc_https,
}
use acestream_orchestrator.Ports.Scan.{next_in_sound, next_in_complete, next_in_skips}

-- The cursor of the HTTPS range stands in the range or just past it.
pub record HttpsCursor (a : PortAllocator) : Type 0 where
  pub low : a.https_min ≤ a.https_next
  pub high : a.https_next ≤ a.https_max + 1

-- A port of the HTTPS range that is not in use.
abbrev pub FreeHttps : PortAllocator → ℕ → Type 0
FreeHttps a q = (a.https_min ≤ q) × (q ≤ a.https_max) × (a.used_https q ≡ false)

next-FreeHttps :
    (a : PortAllocator) (p : ℕ)
    → HttpsCursor a
    → next_in a.https_next a.https_min a.https_max a.used_https ≡ some p
    → FreeHttps a p
next-FreeHttps a p c e =
    next_in_sound a.https_next a.https_min a.https_max a.used_https c.low c.high e

next_total :
    (a : PortAllocator) (q : ℕ)
    → HttpsCursor a
    → FreeHttps a q
    → (p : ℕ) × (next_in a.https_next a.https_min a.https_max a.used_https ≡ some p) × FreeHttps a p
next_total a q c f =
    elim (Option-cases (next_in a.https_next a.https_min a.https_max a.used_https)) [
      | inl e ↦ absurd (
          false≢true (
            sym f.2
            ∙ next_in_complete a.https_next a.https_min a.https_max a.used_https c.low c.high e q
                f.0 f.1))
      | inr (p, e) ↦ (p, e, next-FreeHttps a p c e)
    ]

-- The allocator after a port has been passed over.
skip : ℕ → PortAllocator → PortAllocator
skip p a = record a { https_next = p + 1 }

skip-HttpsCursor : (a : PortAllocator) (p : ℕ) → FreeHttps a p → HttpsCursor (skip p a)
unfolding skip
skip-HttpsCursor a p f = omega arith

module _ (accept : ℕ → Bool) (avoid : ℕ) where
  search_https_take :
      (fuel p : ℕ) (a : PortAllocator)
      → next_in a.https_next a.https_min a.https_max a.used_https ≡ some p
      → accept p ≡ true
      → search_https (suc fuel) accept a ≡ (take_https p a, found p)
  unfolding search_https
  search_https_take fuel p a e good = rw (e, search_https) (rw good refl)

  search_https-skip :
      (fuel p : ℕ) (a : PortAllocator)
      → next_in a.https_next a.https_min a.https_max a.used_https ≡ some p
      → accept p ≡ false
      → search_https (suc fuel) accept a ≡ search_https fuel accept (skip p a)
  unfolding search_https skip
  search_https-skip fuel p a e bad = rw (e, search_https) (rw bad refl)

  -- Two rounds find a port, if a port other than `avoid` is free and `accept` refuses no other.
  pub search_https_found :
      (fuel q : ℕ) (a : PortAllocator)
      → ((p : ℕ) → accept p ≡ false → p ≡ avoid)
      → HttpsCursor a
      → FreeHttps a q
      → q ≢ avoid
      → (p n : ℕ) × (search_https (suc (suc fuel)) accept a
          ≡ (take_https p (record a { https_next = n }), found p))
        × FreeHttps a p
        × (accept p ≡ true)
  unfolding skip
  search_https_found fuel q a only c f ne =
      let (p, e, free) = next_total a q c f in
      elim (Bool-cases (accept p)) [
        | inl good ↦ (p, a.https_next, search_https_take (suc fuel) p a e good, free, good)
        | inr bad ↦
            let (r, again, other) =
              next_in_skips p a.https_min a.https_max q a.used_https free.0 free.1 f.0 f.1
                (λ s. ne (s ∙ only p bad)) f.2 in
            elim (Bool-cases (accept r)) [
              | inl good ↦ (
                r,
                p + 1,
                search_https-skip (suc fuel) p a e bad
                    ∙ search_https_take fuel r (skip p a) again good,
                next-FreeHttps (skip p a) r (skip-HttpsCursor a p free) again,
                good,
              )
              | inr worse ↦ absurd (other (only r worse ∙ sym (only p bad)))
            ]
      ]

  -- If the one free port is refused, the search goes on for ever: it spins with any fuel.
  pub search_https_spins :
      (fuel : ℕ) (a : PortAllocator)
      → accept avoid ≡ false
      → HttpsCursor a
      → FreeHttps a avoid
      → ((q : ℕ) → FreeHttps a q → q ≡ avoid)
      → (search_https fuel accept a).1 ≡ spinning
  unfolding skip search_https
  search_https_spins zero a refuse c f only = refl
  search_https_spins (suc fuel) a refuse c f only =
      let (p, e, free) = next_total a avoid c f in
      let bad : accept p ≡ false = rw (only p free) refuse in
      rw (search_https-skip fuel p a e bad)
        (search_https_spins fuel (skip p a) refuse (skip-HttpsCursor a p free) f only)

-- The ends of the search, with what each leaves of the allocator.
pub data Searched (accept : ℕ → Bool) (a : PortAllocator) : PortAllocator × Search → Type 0 where
  got :
      (p n : ℕ)
      → FreeHttps a p
      → accept p ≡ true
      → Searched accept a (take_https p (record a { https_next = n }), found p)
  full :
      (n : ℕ)
      → a.https_min ≤ n
      → n ≤ a.https_max + 1
      → Searched accept a (record a { https_next = n }, exhausted)
  spun : (n : ℕ) → Searched accept a (record a { https_next = n }, spinning)

Searched-skip :
    (accept : ℕ → Bool) (a : PortAllocator) (p : ℕ) {o : PortAllocator × Search}
    → Searched accept (skip p a) o
    → Searched accept a o
unfolding skip
Searched-skip accept a p (got q n f g) = got q n f g
Searched-skip accept a p (full n l h) = full n l h
Searched-skip accept a p (spun n) = spun n

pub search_https-Searched :
    (accept : ℕ → Bool) (fuel : ℕ) (a : PortAllocator)
    → HttpsCursor a
    → Searched accept a (search_https fuel accept a)
unfolding search_https
search_https-Searched accept zero a c = spun a.https_next
search_https-Searched accept (suc fuel) a c =
    go (λ p f. search_https-Searched accept fuel (skip p a) (skip-HttpsCursor a p f))
      (next_in a.https_next a.https_min a.https_max a.used_https) refl
  where
    go :
        ((p : ℕ) → FreeHttps a p → Searched accept (skip p a) (search_https fuel accept (skip p a)))
        → (o : Option ℕ) → next_in a.https_next a.https_min a.https_max a.used_https ≡ o
        → Searched accept a (search_https (suc fuel) accept a)
    go ih none e = rw (e, search_https) (full a.https_next c.low c.high)
    go ih (some p) e = elim (Bool-cases (accept p)) [
      | inl good ↦
          rw (search_https_take accept p fuel p a e good)
            (got p a.https_next (next-FreeHttps a p c e) good)
      | inr bad ↦
          rw (search_https-skip accept p fuel p a e bad)
            (Searched-skip accept a p (ih p (next-FreeHttps a p c e)))
    ]

avoids_only : (avoid p : ℕ) → (avoid == 0 || not (p == avoid)) ≡ false → p ≡ avoid
avoids_only avoid p h = ground arith

avoids : (avoid p : ℕ) → (avoid == 0 || not (p == avoid)) ≡ true → (avoid ≡ 0) ⊎ (p ≢ avoid)
avoids avoid p h = elim (Bool-cases (avoid == 0)) [
  | inl z ↦ inl ((==_iff avoid 0).0 z)
  | inr nz ↦ inr (λ e. ground arith)
]

-- `AllocHTTPS(avoid)` returns after at most two rounds whenever some port of the range other than
-- `avoid` is free: the port that it returns was free, lies in the range, is not `avoid` (unless
-- that is 0, for none), and is marked as used with the cursor just past it.
pub alloc_https_found :
    (fuel avoid q : ℕ) (a : PortAllocator)
    → HttpsCursor a
    → FreeHttps a q
    → q ≢ avoid
    → (p : ℕ) × ((alloc_https (suc (suc fuel)) avoid a).1 ≡ found p)
      × FreeHttps a p
      × ((avoid ≡ 0) ⊎ (p ≢ avoid))
      × ((alloc_https (suc (suc fuel)) avoid a).0.used_https p ≡ true)
      × ((alloc_https (suc (suc fuel)) avoid a).0.https_next ≡ p + 1)
unfolding alloc_https take_https
alloc_https_found fuel avoid q a c f ne =
    let (p, n, e, free, good) =
      search_https_found (λ p. avoid == 0 || not (p == avoid)) avoid fuel q a (avoids_only avoid) c
        f ne in
    (p, rw e refl, free, avoids avoid p good, rw e (ground arith), rw e refl)

-- `AllocHTTPS(avoid)` never returns, and so never gives back the allocator's lock, when `avoid`
-- is not 0 and is the only free port of the range: the search ends with no amount of fuel.
pub alloc_https_spins :
    (fuel avoid : ℕ) (a : PortAllocator)
    → avoid ≢ 0
    → HttpsCursor a
    → FreeHttps a avoid
    → ((q : ℕ) → FreeHttps a q → q ≡ avoid)
    → (alloc_https fuel avoid a).1 ≡ spinning
unfolding alloc_https
alloc_https_spins fuel avoid a nz c f only =
    search_https_spins (λ p. avoid == 0 || not (p == avoid)) avoid fuel a (ground arith) c f only
