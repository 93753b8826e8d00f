-- ===== src/Acquisition/Watchdog.antt =====
-- acquisition/watchdog.py: the self-healing read of a scanner. The driver is a parameter: what its
-- n-th call of `connect` and of `read_scan` does, and whether it says that it is connected. Delays
-- are numbers of ticks; `second` is the number of ticks in a second. The text of the last error and
-- the time of the last reconnection, which are only reported, are left out.
pub mod Backoff
pub mod Healing
pub mod Patience
use loyiha.Base.{
  ℕ, suc, zero, ◌+◌, ◌*◌, ◌^◌, min, Bool, true, false, not, leb, Option, none, some, List, [], ◌∷◌,
  ◌++◌, if◌then◌else◌,
}

-- What a timed read returns: a bundle, or the exception that it caught.
pub data ReadResult (B : Type 0) : Type 0 where
  bundle : B → ReadResult B
  timeout connection frame unexpected : ReadResult B

-- What a call of `driver.connect` does: it returns, or raises a connection error or another one.
pub data ConnectResult : Type 0 where
  connected refused broken : ConnectResult

pub data WatchdogError : Type 0 where
  scanner_unavailable driver_error runtime_error : WatchdogError

pub record WatchdogStats : Type 0 where
  pub total_scans : ℕ
  pub total_errors : ℕ
  pub total_reconnects : ℕ
  pub consecutive_errors : ℕ

-- The counters, the calls of `connect` and `read_scan` so far, and the sleeps, oldest first.
pub record Dog : Type 0 where
  pub stats : WatchdogStats
  pub connects : ℕ
  pub reads : ℕ
  pub sleeps : List ℕ

pub record CaptureConfig : Type 0 where
  pub reconnect_attempts : ℕ
  pub reconnect_delay : ℕ

pub record Driver (B : Type 0) : Type 0 where
  pub connect : ℕ → ConnectResult
  pub read_scan : ℕ → ReadResult B
  pub is_connected : ℕ → ℕ → Bool

abbrev pub max_consecutive_frame_errors : ℕ
max_consecutive_frame_errors = 5

-- `_MAX_BACKOFF_S`
abbrev pub max_backoff : ℕ → ℕ
max_backoff second = 120 * second

-- `min(base_delay * (2 ** attempt), _MAX_BACKOFF_S)`
unfoldable pub backoff : ℕ → CaptureConfig → ℕ → ℕ
backoff second cfg attempt = min (cfg.reconnect_delay * 2 ^ attempt) (max_backoff second)

unfoldable pub slept : ℕ → CaptureConfig → ℕ → Dog → Dog
slept second cfg zero d = d
slept second cfg (suc n) d = record d { sleeps = d.sleeps ++ (backoff second cfg (suc n) ∷ []) }

-- what a call of `connect` that returned changes
unfoldable pub reconnected : Dog → Dog
reconnected d = record d {
  stats = record d.stats {
    total_reconnects = d.stats.total_reconnects + 1;
    consecutive_errors = 0;
  };
}

-- How a turn of the loop ends: with a bundle, with an exception, or with another turn.
pub data Turn (B : Type 0) : Type 0 where
  returned : B → Dog → Turn B
  failed : WatchdogError → Dog → Turn B
  again : Dog → Turn B

-- what follows a call of `_reconnect`, which may raise
abbrev pub after : {B : Type 0} → Option WatchdogError × Dog → (Dog → Turn B) → Turn B
after (none, d) k = k d
after (some e, d) k = failed e d

abbrev pub heal : {B : Type 0} → Option WatchdogError × Dog → Turn B
heal o = after o again

abbrev pub read_failed : Dog → Dog
read_failed d = record d {
  stats = record d.stats {
    total_errors = d.stats.total_errors + 1;
    consecutive_errors = d.stats.consecutive_errors + 1;
  };
}

abbrev pub read_done : Dog → Dog
read_done d = record d {
  stats = record d.stats { total_scans = d.stats.total_scans + 1; consecutive_errors = 0 };
}

-- The outcome of a method: `none`, or the exception that it raised, and the object after it.
module _ (second : ℕ) (cfg : CaptureConfig) {B : Type 0} (driver : Driver B) where
  -- the loop `for attempt in range(max_attempts)`, of which `left` turns are left
  unfoldable pub attempts : ℕ → ℕ → Dog → Option WatchdogError × Dog
  attempts zero attempt d = (some scanner_unavailable, d)
  attempts (suc left) attempt d =
      let d₁ = slept second cfg attempt d in
      let d₂ = record d₁ { connects = d₁.connects + 1 } in
      let rest = attempts left (attempt + 1) d₂ in
      elim (driver.connect d₁.connects) [
        | connected ↦ (none, reconnected d₂)
        | refused ↦ rest
        | broken ↦ (some driver_error, d₂)
      ]

  -- `_reconnect`; what the driver's `disconnect` raises before it is ignored
  unfoldable pub reconnect : Dog → Option WatchdogError × Dog
  reconnect d = attempts cfg.reconnect_attempts 0 d

  -- one turn of `while True` after the link is known to be up
  unfoldable pub read_turn : Dog → Turn B
  read_turn d =
      let d₁ = record d { reads = d.reads + 1 } in
      let e = read_failed d₁ in
      elim (driver.read_scan d.reads) [
        | bundle b ↦ returned b (read_done d₁)
        | timeout ↦ heal (reconnect e)
        | connection ↦ heal (reconnect e)
        | frame ↦
            if leb max_consecutive_frame_errors e.stats.consecutive_errors
            then heal (reconnect e)
            else again e
        | unexpected ↦ failed runtime_error e
      ]

  -- one turn of `while True`
  unfoldable pub turn : Dog → Turn B
  turn d =
      if driver.is_connected d.connects d.reads then read_turn d else after (reconnect d) read_turn

  -- `monitored_read`, for at most so many turns; with none left, nothing is returned yet
  unfoldable pub monitored_read : ℕ → Dog → Turn B
  monitored_read zero d = again d
  monitored_read (suc fuel) d = elim (turn d) [
    | returned b d₁ ↦ returned b d₁
    | failed e d₁ ↦ failed e d₁
    | again d₁ ↦ monitored_read fuel d₁
  ]
