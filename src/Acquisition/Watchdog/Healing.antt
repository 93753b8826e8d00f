-- ===== src/Acquisition/Watchdog/Healing.antt =====
-- `monitored_read` of acquisition/watchdog.py: it heals what it can, and then returns a scan.
use loyiha.Base.{
  ℕ, suc, zero, ◌+◌, ◌≤◌, ◌<◌, ◌≡◌, refl, sym, ap, ◌∙◌, inl, inr, leb, none, arith, Bool-cases,
  subst,
}
use loyiha.Acquisition.Watchdog.{
  Driver, Dog, CaptureConfig, ReadResult, bundle, timeout, connection, frame, unexpected, connected,
  reconnected, reconnect, returned, again, read_failed, read_done, read_turn, turn, monitored_read,
}
use loyiha.Acquisition.Watchdog.Backoff.{reconnect_found}

-- the failures of a read after which the loop goes on
abbrev pub IsHealable : {B : Type 0} → ReadResult B → Type 0
IsHealable timeout = Unit
IsHealable connection = Unit
IsHealable frame = Unit
IsHealable _ = ⊥

module _ (second : ℕ) (cfg : CaptureConfig) {B : Type 0} (driver : Driver B) where
  module _ (up : (n : ℕ) → driver.connect n ≡ connected) (budget : 1 ≤ cfg.reconnect_attempts) where
    -- the counters that matter, before and after
    record Same (d d' : Dog) : Type 0 where
      reads : d'.reads ≡ d.reads
      scans : d'.stats.total_scans ≡ d.stats.total_scans

    reconnect_up : (d : Dog) → (d' : Dog) × (reconnect second cfg driver d ≡ (none, d')) × Same d d'
    unfolding reconnected
    reconnect_up d =
        let (d', run, w) =
          reconnect_found second cfg driver 0 d (omega (arith, budget))
            (λ i l. absurd (omega (arith, l))) (up (d.connects + 0)) in
        (
          reconnected d',
          run,
          record { reads = w.untouched.0; scans = ap (λ s. s.total_scans) w.untouched.1 },
        )

    -- A turn is a turn of reading, from a dog with the same counters.
    linked :
        (d : Dog)
        → (d' : Dog) × (turn second cfg driver d ≡ read_turn second cfg driver d') × Same d d'
    unfolding turn
    linked d = elim (Bool-cases (driver.is_connected d.connects d.reads)) [
      | inl p ↦ (d, rw p refl, record { reads = refl; scans = refl })
      | inr p ↦ let (d', run, same) = reconnect_up d in (d', rw (p, run) refl, same)
    ]

    healed_read :
        (d : Dog) (r : ReadResult B)
        → driver.read_scan d.reads ≡ r
        → IsHealable r
        → (d' : Dog) × (read_turn second cfg driver d ≡ again d')
          × (d'.reads ≡ d.reads + 1)
          × (d'.stats.total_scans ≡ d.stats.total_scans)
    unfolding read_turn
    healed_read d (bundle b) p h = absurd h
    healed_read d unexpected p h = absurd h
    healed_read d timeout p h =
        let (d', run, same) = reconnect_up (read_failed (record d { reads = d.reads + 1 })) in
        (d', rw (read_turn, p, run) refl, same.reads, same.scans)
    healed_read d connection p h =
        let (d', run, same) = reconnect_up (read_failed (record d { reads = d.reads + 1 })) in
        (d', rw (read_turn, p, run) refl, same.reads, same.scans)
    healed_read d frame p h =
        let (d', run, same) = reconnect_up (read_failed (record d { reads = d.reads + 1 })) in
        elim (Bool-cases (leb 5 (d.stats.consecutive_errors + 1))) [
          | inl q ↦ (d', rw (read_turn, p, q, run) refl, same.reads, same.scans)
          | inr q ↦ (
            read_failed (record d { reads = d.reads + 1 }),
            rw (read_turn, p, q) refl,
            refl,
            refl,
          )
        ]

    turn_heals :
        (d : Dog)
        → IsHealable (driver.read_scan d.reads)
        → (d' : Dog) × (turn second cfg driver d ≡ again d')
          × (d'.reads ≡ d.reads + 1)
          × (d'.stats.total_scans ≡ d.stats.total_scans)
    turn_heals d h =
        let (d₁, link, same) = linked d in
        let (d₂, run, re, sc) =
          healed_read d₁ (driver.read_scan d.reads) (ap driver.read_scan same.reads) h in
        (d₂, link ∙ run, re ∙ ap (λ n. n + 1) same.reads, sc ∙ same.scans)

    turn_returns :
        (d : Dog) (b : B)
        → driver.read_scan d.reads ≡ bundle b
        → (d' : Dog) × (turn second cfg driver d ≡ returned b d')
          × (d'.stats.total_scans ≡ d.stats.total_scans + 1)
          × (d'.stats.consecutive_errors ≡ 0)
    unfolding read_turn
    turn_returns d b h =
        let (d₁, link, same) = linked d in
        let here : driver.read_scan d₁.reads ≡ bundle b = ap driver.read_scan same.reads ∙ h in
        (
          read_done (record d₁ { reads = d₁.reads + 1 }),
          link ∙ rw (read_turn, here) refl,
          ap (λ n. n + 1) same.scans,
          refl,
        )

    -- With a scanner that reconnects and a budget, reads that fail by a timeout, a connection or a
    -- malformed frame are healed: when the n-th read is the first that yields a bundle, the loop
    -- returns it within n + 1 turns, and counts one scan and no error in a row.
    pub monitored_read_heals :
        (n : ℕ) (d : Dog) (b : B)
        → ((i : ℕ) → i < n → IsHealable (driver.read_scan (d.reads + i)))
        → driver.read_scan (d.reads + n) ≡ bundle b
        → (d' : Dog) × (monitored_read second cfg driver (suc n) d ≡ returned b d')
          × (d'.stats.total_scans ≡ d.stats.total_scans + 1)
          × (d'.stats.consecutive_errors ≡ 0)
    unfolding monitored_read
    monitored_read_heals zero d b h k =
        let (d', run, sc, er) = turn_returns d b (ap driver.read_scan (omega arith) ∙ k) in
        (d', rw (monitored_read, run) refl, sc, er)
    monitored_read_heals (suc n) d b h k =
        let zeroth : d.reads ≡ d.reads + 0 = omega arith in
        let first : IsHealable (driver.read_scan d.reads) =
          subst (λ m. IsHealable (driver.read_scan m)) (sym zeroth) (h 0 (omega arith)) in
        let (d₁, run, re, sc) = turn_heals d first in
        let (d₂, rest, sc₂, er) =
          monitored_read_heals n d₁ b
            (λ i l.
              subst (λ m. IsHealable (driver.read_scan m))
                (let e : d.reads + suc i ≡ d₁.reads + i = omega (arith, re) in e)
                (h (suc i) (omega (arith, l))))
            (ap driver.read_scan (omega (arith, re)) ∙ k) in
        (d₂, rw (monitored_read, run) rest, omega (arith, sc, sc₂), er)
