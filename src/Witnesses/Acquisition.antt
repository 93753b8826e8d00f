-- ===== src/Witnesses/Acquisition.antt =====
-- A scanner that refuses one connection, one that refuses all, and one that times out once.
use loyiha.Base.{ℕ, suc, ◌+◌, ◌≡◌, ◌<◌, refl, ◌==◌, true, false, [], if◌then◌else◌, arith}
use loyiha.Acquisition.Watchdog.{
  Driver, Dog, CaptureConfig, bundle, timeout, frame, connected, refused, returned, again,
  read_turn, turn, monitored_read,
}
use loyiha.Acquisition.Watchdog.Healing.{IsHealable, monitored_read_heals}

abbrev config : CaptureConfig
config = record { reconnect_attempts = 3; reconnect_delay = 5 }

abbrev new_dog : Dog
new_dog = record {
  stats = record {
    total_scans = 0;
    total_errors = 0;
    total_reconnects = 0;
    consecutive_errors = 0;
  };
  connects = 0;
  reads = 0;
  sleeps = [];
}

abbrev dead : Driver ℕ
dead = record { connect = λ n. refused; read_scan = λ n. timeout; is_connected = λ c r. false }

abbrev slow : Driver ℕ
slow = record {
  connect = λ n. if n == 0 then refused else connected;
  read_scan = λ n. bundle n;
  is_connected = λ c r. false;
}

abbrev late : Driver ℕ
late = record {
  connect = λ n. connected;
  read_scan = λ n. if n == 0 then timeout else bundle n;
  is_connected = λ c r. true;
}

abbrev noisy : Driver ℕ
noisy = record { connect = λ n. connected; read_scan = λ n. frame; is_connected = λ c r. true }

first_refused : (i : ℕ) → i < 1 → slow.connect (0 + i) ≡ refused
first_refused i l = ground (arith, l)

first-IsHealable : (i : ℕ) → i < 1 → IsHealable (late.read_scan (0 + i))
first-IsHealable ℕ.zero l = tt
first-IsHealable (suc i) l = absurd (omega (arith, l))

monitored_read_heals_example :
    (d' : Dog) × (monitored_read 1 config late 2 new_dog ≡ returned 1 d')
    × (d'.stats.total_scans ≡ 0 + 1)
    × (d'.stats.consecutive_errors ≡ 0)
monitored_read_heals_example =
    monitored_read_heals 1 config late (λ n. refl) (omega arith) 1 new_dog 1 first-IsHealable refl

noisy_turns : (d' : Dog) × (monitored_read 1 config noisy 3 new_dog ≡ again d')
unfolding monitored_read turn read_turn
noisy_turns = (_, refl)
