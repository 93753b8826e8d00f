-- ===== src/Acquisition/Watchdog/Patience.antt =====
-- `monitored_read` of acquisition/watchdog.py: how many errors in a row it puts up with.
use loyiha.Base.{
  ℕ, suc, zero, ◌+◌, ◌≤◌, ◌≡◌, refl, sym, ap, inl, inr, leb, Option, none, some, arith, Bool-cases,
}
use loyiha.Acquisition.Watchdog.{
  Driver, Dog, CaptureConfig, ReadResult, bundle, timeout, connection, frame, unexpected,
  ConnectResult, connected, refused, broken, WatchdogError, slept, reconnected, attempts, reconnect,
  Turn, returned, failed, again, after, heal, read_failed, read_turn, turn, monitored_read,
}

abbrev IsPatient : Dog → Type 0
IsPatient d = d.stats.consecutive_errors ≤ 4

module _ (second : ℕ) (cfg : CaptureConfig) {B : Type 0} (driver : Driver B) where
  attempts-clear :
      (n a : ℕ) (d d' : Dog)
      → attempts second cfg driver n a d ≡ (none, d')
      → d'.stats.consecutive_errors ≡ 0
  unfolding attempts reconnected
  attempts-clear zero a d d' h = absurd (ground (arith, h))
  attempts-clear (suc n) a d d' h =
      go (driver.connect (slept second cfg a d).connects) refl
        (λ e. attempts-clear n (a + 1) _ d' e)
    where
      next : Dog
      next = record (slept second cfg a d) { connects = (slept second cfg a d).connects + 1 }

      go :
          (r : ConnectResult)
          → driver.connect (slept second cfg a d).connects ≡ r
          → (attempts second cfg driver n (a + 1) next ≡ (none, d')
              → d'.stats.consecutive_errors ≡ 0)
          → d'.stats.consecutive_errors ≡ 0
      go connected p ih =
          let e : reconnected next ≡ d' =
            ap (λ (x : Option WatchdogError × Dog). x.1) (rw (attempts, p) at h) in
          sym (ap (λ (x : Dog). x.stats.consecutive_errors) e)
      go refused p ih = ih (rw (attempts, p) at h)
      go broken p ih = absurd (ground (arith, (rw (attempts, p) at h)))

  heal-IsPatient :
      (o : Option WatchdogError × Dog) (d d' : Dog)
      → reconnect second cfg driver d ≡ o
      → heal {B = B} o ≡ again d'
      → IsPatient d'
  unfolding reconnect
  heal-IsPatient (none, d₁) d d' p h =
      let e : d₁ ≡ d' = ground (arith, h) in
      let c = attempts-clear cfg.reconnect_attempts 0 d d₁ p in rw (← e) (omega (arith, c))
  heal-IsPatient (some e, d₁) d d' p h = absurd (ground (arith, h))

  read_turn-IsPatient :
      (d d' : Dog) → IsPatient d → read_turn second cfg driver d ≡ again d' → IsPatient d'
  unfolding read_turn
  read_turn-IsPatient d d' w h = go (driver.read_scan d.reads) refl
    where
      e : Dog
      e = read_failed (record d { reads = d.reads + 1 })

      go : (r : ReadResult B) → driver.read_scan d.reads ≡ r → IsPatient d'
      go (bundle b) p = absurd (ground (arith, (rw (read_turn, p) at h)))
      go unexpected p = absurd (ground (arith, (rw (read_turn, p) at h)))
      go timeout p = heal-IsPatient _ e d' refl (rw (read_turn, p) at h)
      go connection p = heal-IsPatient _ e d' refl (rw (read_turn, p) at h)
      go frame p = elim (Bool-cases (leb 5 (d.stats.consecutive_errors + 1))) [
        | inl q ↦ heal-IsPatient _ e d' refl (rw (read_turn, p, q) at h)
        | inr q ↦
            let s : e ≡ d' = ground (arith, (rw (read_turn, p, q) at h)) in
            rw (← s) (ground (arith, q))
      ]

  turn-IsPatient : (d d' : Dog) → IsPatient d → turn second cfg driver d ≡ again d' → IsPatient d'
  unfolding turn
  turn-IsPatient d d' w h = elim (Bool-cases (driver.is_connected d.connects d.reads)) [
    | inl p ↦ read_turn-IsPatient d d' w (rw p at h)
    | inr p ↦ go (reconnect second cfg driver d) refl (rw p at h)
  ]
    where
      go :
          (o : Option WatchdogError × Dog)
          → reconnect second cfg driver d ≡ o
          → after o (read_turn second cfg driver) ≡ again d'
          → IsPatient d'
      go (none, d₁) p k =
          let c : d₁.stats.consecutive_errors ≤ 4 = heal-IsPatient (none, d₁) d d₁ p refl in
          read_turn-IsPatient d₁ d' c k
      go (some e, d₁) p k = absurd (ground (arith, k))

  -- Between two turns of the loop at most four errors in a row are counted, whatever the driver
  -- does: a fifth one forces a reconnection, which clears them or ends the loop.
  pub monitored_read-patient :
      (fuel : ℕ) (d d' : Dog)
      → d.stats.consecutive_errors ≤ 4
      → monitored_read second cfg driver fuel d ≡ again d'
      → d'.stats.consecutive_errors ≤ 4
  unfolding monitored_read
  monitored_read-patient zero d d' w h = let e : d ≡ d' = ground (arith, h) in rw (← e) w
  monitored_read-patient (suc n) d d' w h =
      go (turn second cfg driver d) refl (λ d₁. monitored_read-patient n d₁ d')
    where
      go :
          (o : Turn B)
          → turn second cfg driver d ≡ o
          → ((d₁ : Dog)
              → IsPatient d₁
              → monitored_read second cfg driver n d₁ ≡ again d'
              → IsPatient d')
          → IsPatient d'
      go (returned b d₁) p ih = absurd (ground (arith, (rw (monitored_read, p) at h)))
      go (failed e d₁) p ih = absurd (ground (arith, (rw (monitored_read, p) at h)))
      go (again d₁) p ih = ih d₁ (turn-IsPatient d d₁ w p) (rw (monitored_read, p) at h)
