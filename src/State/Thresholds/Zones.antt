-- ===== src/State/Thresholds/Zones.antt =====
-- `CategoryThreshold.decide` (app/state/thresholds.py): the three zones of a score.
use loyiha.Base.{◌≤◌, ◌<◌, ◌≡◌, ◌↔◌, arith}
use loyiha.Contracts.Common.{Score, ThreatCategory}
use loyiha.State.Thresholds.{auto_clear, monitor, alert, CategoryThreshold, decide, rank, defaults}

-- With the auto-clear threshold at or below the alert threshold the three decisions are the three
-- zones of the score, and each score is in exactly one.
pub decide_zones :
    (t : CategoryThreshold) (score : Score)
    → t.auto_clear_threshold ≤ t.alert_threshold
    → ((decide t score ≡ alert) ↔ (t.alert_threshold ≤ score))
      × ((decide t score ≡ monitor)
          ↔ ((t.auto_clear_threshold ≤ score) × (score < t.alert_threshold)))
      × ((decide t score ≡ auto_clear) ↔ (score < t.auto_clear_threshold))
unfolding decide
decide_zones t score h = (
  (λ e. ground (arith, e), λ e. ground (arith, e)),
  (λ e. (ground (arith, e), ground (arith, e)), λ e. ground (arith, e)),
  (λ e. ground (arith, e), λ e. ground (arith, e)),
)

-- A higher score never gets a less urgent decision, also where an administrator has set the two
-- thresholds the wrong way round.
pub decide_mono :
    (t : CategoryThreshold) (low high : Score)
    → low ≤ high
    → rank (decide t high) ≤ rank (decide t low)
unfolding decide
decide_mono t low high h = ground arith

-- The built-in thresholds are the right way round.
pub defaults_ordered :
    (c : ThreatCategory) → (defaults c).auto_clear_threshold ≤ (defaults c).alert_threshold
unfolding defaults
defaults_ordered ThreatCategory.narcotics = omega arith
defaults_ordered _ = omega arith
