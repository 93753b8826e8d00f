-- ===== src/Acquisition/Watchdog/Backoff.antt =====
-- `_reconnect` of acquisition/watchdog.py: its budget and its delays.
use loyiha.Base.{
  ℕ, suc, zero, ◌+◌, ◌≤◌, ◌<◌, ◌≡◌, refl, sym, ap, ◌∙◌, none, some, List, [], ◌∷◌, ◌++◌, arith, All,
}
use loyiha.Acquisition.Watchdog.{
  Driver, Dog, CaptureConfig, connected, refused, scanner_unavailable, backoff, max_backoff, slept,
  reconnected, attempts, reconnect,
}

append_nil : (xs : List ℕ) → xs ++ [] ≡ xs
append_nil [] = refl
append_nil (x ∷ xs) = ap (λ ys. x ∷ ys) (append_nil xs)

append_assoc : (xs ys zs : List ℕ) → (xs ++ ys) ++ zs ≡ xs ++ (ys ++ zs)
append_assoc [] ys zs = refl
append_assoc (x ∷ xs) ys zs = ap (λ ws. x ∷ ws) (append_assoc xs ys zs)

module _ (second : ℕ) (cfg : CaptureConfig) where
  abbrev wait : ℕ → List ℕ
  wait zero = []
  wait (suc a) = backoff second cfg (suc a) ∷ []

  -- The delays before so many attempts from the one numbered `a`: none before the very first.
  abbrev pub delays : ℕ → ℕ → List ℕ
  delays a zero = []
  delays a (suc n) = wait a ++ delays (a + 1) n

  delays-bounded : (a n : ℕ) → All (λ t. t ≤ max_backoff second) (delays a n)
  unfolding backoff
  delays-bounded a zero = tt
  delays-bounded zero (suc n) = delays-bounded 1 n
  delays-bounded (suc a) (suc n) = (omega arith, delays-bounded (suc a + 1) n)

  -- What a dog that made `n` attempts has done.
  pub record Tried (d d' : Dog) (a n : ℕ) : Type 0 where
    pub attempted : d'.connects ≡ d.connects + n
    pub waited : d'.sleeps ≡ d.sleeps ++ delays a n
    pub bounded : All (λ t. t ≤ max_backoff second) (delays a n)
    pub untouched : (d'.reads ≡ d.reads) × (d'.stats ≡ d.stats)

  slept_lem :
      (a : ℕ) (d : Dog)
      → ((slept second cfg a d).sleeps ≡ d.sleeps ++ wait a)
        × ((slept second cfg a d).connects ≡ d.connects)
        × ((slept second cfg a d).reads ≡ d.reads)
        × ((slept second cfg a d).stats ≡ d.stats)
  unfolding slept
  slept_lem zero d = (sym (append_nil d.sleeps), refl, refl, refl)
  slept_lem (suc a) d = (refl, refl, refl, refl)

  module _ {B : Type 0} (driver : Driver B) where
    abbrev pub next : ℕ → Dog → Dog
    next a d = record (slept second cfg a d) { connects = (slept second cfg a d).connects + 1 }

    Tried-step : (d d' : Dog) (a n : ℕ) → Tried (next a d) d' (a + 1) n → Tried d d' a (suc n)
    Tried-step d d' a n w =
        let (sl, co, re, st) = slept_lem a d in
        record {
          attempted = omega (arith, w.attempted, co);
          waited =
              w.waited
              ∙ ap (λ xs. xs ++ delays (a + 1) n) sl
              ∙ append_assoc d.sleeps (wait a) (delays (a + 1) n);
          bounded = delays-bounded a (suc n);
          untouched = (w.untouched.0 ∙ re, w.untouched.1 ∙ st);
        }

    exhausted :
        (n a : ℕ) (d : Dog)
        → ((i : ℕ) → i < n → driver.connect (d.connects + i) ≡ refused)
        → (d' : Dog) × (attempts second cfg driver n a d ≡ (some scanner_unavailable, d'))
          × Tried d d' a n
    unfolding attempts
    exhausted zero a d h = (
      d,
      refl,
      record {
        attempted = omega arith;
        waited = sym (append_nil d.sleeps);
        bounded = tt;
        untouched = (refl, refl);
      },
    )
    exhausted (suc n) a d h =
        let (_, co, _, _) = slept_lem a d in
        let here : driver.connect (slept second cfg a d).connects ≡ refused =
          ap driver.connect (omega (arith, co)) ∙ h 0 (omega arith) in
        let (d', run, w) =
          exhausted n (a + 1) (next a d)
            (λ i l. ap driver.connect (omega (arith, co)) ∙ h (suc i) (omega (arith, l))) in
        (d', rw (attempts, here) run, Tried-step d d' a n w)

    -- When every attempt of the budget is refused, `_reconnect` raises that the scanner is
    -- unavailable after exactly that many attempts, with the backoff delays between them, each
    -- within two minutes.
    pub reconnect_exhausted :
        (d : Dog)
        → ((i : ℕ) → i < cfg.reconnect_attempts → driver.connect (d.connects + i) ≡ refused)
        → (d' : Dog) × (reconnect second cfg driver d ≡ (some scanner_unavailable, d'))
          × Tried d d' 0 cfg.reconnect_attempts
    unfolding reconnect
    reconnect_exhausted d h = exhausted cfg.reconnect_attempts 0 d h

    found :
        (j n a : ℕ) (d : Dog)
        → j < n
        → ((i : ℕ) → i < j → driver.connect (d.connects + i) ≡ refused)
        → driver.connect (d.connects + j) ≡ connected
        → (d' : Dog) × (attempts second cfg driver n a d ≡ (none, reconnected d'))
          × Tried d d' a (suc j)
    unfolding attempts
    found j zero a d l h k = absurd (omega (arith, l))
    found zero (suc n) a d l h k =
        let (_, co, _, _) = slept_lem a d in
        let here : driver.connect (slept second cfg a d).connects ≡ connected =
          ap driver.connect (omega (arith, co)) ∙ k in
        (
          next a d,
          rw (attempts, here) refl,
          Tried-step d (next a d) a 0 (record {
            attempted = omega arith;
            waited = sym (append_nil (next a d).sleeps);
            bounded = tt;
            untouched = (refl, refl);
          }),
        )
    found (suc j) (suc n) a d l h k =
        let (_, co, _, _) = slept_lem a d in
        let here : driver.connect (slept second cfg a d).connects ≡ refused =
          ap driver.connect (omega (arith, co)) ∙ h 0 (omega arith) in
        let (d', run, w) =
          found j n (a + 1) (next a d) (omega (arith, l))
            (λ i b. ap driver.connect (omega (arith, co)) ∙ h (suc i) (omega (arith, b)))
            (ap driver.connect (omega (arith, co)) ∙ k) in
        (d', rw (attempts, here) run, Tried-step d d' a (suc j) w)

    -- When attempt `j` of the budget is the first that is not refused and it connects,
    -- `_reconnect` returns after exactly the attempts up to it, with the backoff delays between
    -- them, and it counts one reconnection and clears the errors.
    pub reconnect_found :
        (j : ℕ) (d : Dog)
        → j < cfg.reconnect_attempts
        → ((i : ℕ) → i < j → driver.connect (d.connects + i) ≡ refused)
        → driver.connect (d.connects + j) ≡ connected
        → (d' : Dog) × (reconnect second cfg driver d ≡ (none, reconnected d'))
          × Tried d d' 0 (suc j)
    unfolding reconnect
    reconnect_found j d l h k = found j cfg.reconnect_attempts 0 d l h k
