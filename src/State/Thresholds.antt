-- ===== src/State/Thresholds.antt =====
-- app/state/thresholds.py: the alert thresholds, their cache, and the order of the alerts. A
-- decimal such as 0.55 is the double nearest to it, in units of 2^-1074.
pub mod Zones
pub mod Alerts
pub mod Cache
use loyiha.Base.{
  ℕ, ◌+◌, ◌-◌, ◌*◌, ◌^◌, Bool, true, false, Option, none, some, List, [], ◌∷◌, leb, ltb,
  if◌then◌else◌,
}
use loyiha.Contracts.Common.{
  Score, ThreatCategory, narcotics, firearm, bladed_weapon, explosive, currency, organic_anomaly,
  metallic_anomaly, contraband_other, unknown,
}
use loyiha.Contracts.Detection.{Detection}

pub data ThresholdDecision : Type 0 where
  auto_clear monitor alert : ThresholdDecision

pub record CategoryThreshold : Type 0 where
  pub alert_threshold : Score
  pub auto_clear_threshold : Score

-- `CategoryThreshold.decide`
unfoldable pub decide : CategoryThreshold → Score → ThresholdDecision
decide t score =
    if leb t.alert_threshold score
    then alert
    else if leb t.auto_clear_threshold score
    then monitor
    else auto_clear

-- the double with the significand `m` and the exponent -55
abbrev double : ℕ → Score
double m = m * 2 ^ 1019

-- `_DEFAULTS`; a category of the enum always has a row
unfoldable pub defaults : ThreatCategory → CategoryThreshold
defaults narcotics = record {
  alert_threshold = double 21617278211378380;
  auto_clear_threshold = double 7205759403792794;
}
defaults firearm = record {
  alert_threshold = double 19815838360430184;
  auto_clear_threshold = double 7205759403792794;
}
defaults bladed_weapon = record {
  alert_threshold = double 19815838360430184;
  auto_clear_threshold = double 7205759403792794;
}
defaults explosive = record {
  alert_threshold = double 18014398509481984;
  auto_clear_threshold = double 5404319552844595;
}
defaults currency = record {
  alert_threshold = double 23418718062326580;
  auto_clear_threshold = double 9007199254740992;
}
defaults organic_anomaly = record {
  alert_threshold = double 25220157913274776;
  auto_clear_threshold = double 10808639105689190;
}
defaults metallic_anomaly = record {
  alert_threshold = double 25220157913274776;
  auto_clear_threshold = double 10808639105689190;
}
defaults contraband_other = record {
  alert_threshold = double 23418718062326580;
  auto_clear_threshold = double 9007199254740992;
}
defaults unknown = record {
  alert_threshold = double 28823037615171176;
  auto_clear_threshold = double 18014398509481984;
}

-- The active rows, in the order in which the query returns them.
abbrev pub Rows : Type 0
Rows = List (ThreatCategory × CategoryThreshold)

-- Times of the monotonic clock are in milliseconds.
pub record ThresholdCache : Type 0 where
  pub cache : ThreatCategory → Option CategoryThreshold
  pub loaded_at : ℕ

abbrev pub empty_cache : ThresholdCache
empty_cache = record { cache = λ c. none; loaded_at = 0 }

abbrev pub cache_ttl_ms : ℕ
cache_ttl_ms = 60000

-- `invalidate`
unfoldable pub invalidate : ThresholdCache → ThresholdCache
invalidate c = record c { loaded_at = 0 }

abbrev pub same_category : ThreatCategory → ThreatCategory → Bool
same_category narcotics narcotics = true
same_category firearm firearm = true
same_category bladed_weapon bladed_weapon = true
same_category explosive explosive = true
same_category currency currency = true
same_category organic_anomaly organic_anomaly = true
same_category metallic_anomaly metallic_anomaly = true
same_category contraband_other contraband_other = true
same_category unknown unknown = true
same_category _ _ = false

-- the dict of `_load`: a later row of a category replaces an earlier one
unfoldable pub load_rows : Rows → ThreatCategory → Option CategoryThreshold
load_rows [] category = none
load_rows ((c, t) ∷ rest) category = elim (load_rows rest category) [
  | some later ↦ some later
  | none ↦ if same_category c category then some t else none
]

-- `if time.monotonic() - self._loaded_at > _CACHE_TTL_S: await self._load()`. The clock is read
-- once for the test and once for the time of the load; both are `now`.
unfoldable pub refresh : ℕ → Rows → ThresholdCache → ThresholdCache
refresh now rows c =
    if ltb cache_ttl_ms (now - c.loaded_at)
    then record { cache = load_rows rows; loaded_at = now }
    else c

abbrev pub or_default : ThreatCategory → Option CategoryThreshold → CategoryThreshold
or_default category none = defaults category
or_default category (some t) = t

-- `get`
unfoldable pub get_threshold :
    ℕ → Rows → ThreatCategory → ThresholdCache → CategoryThreshold × ThresholdCache
unfolding refresh
get_threshold now rows category c =
    let c' = refresh now rows c in (or_default category (c'.cache category), c')

pub record DetectionAlert : Type 0 where
  pub detection : Detection
  pub decision : ThresholdDecision
  pub threshold : CategoryThreshold

-- the sort key
abbrev pub rank : ThresholdDecision → ℕ
rank alert = 0
rank monitor = 1
rank auto_clear = 2

-- Python's sort is stable: an item stays before those of its own rank that stood behind it.
unfoldable pub insert_alert : DetectionAlert → List DetectionAlert → List DetectionAlert
insert_alert a [] = a ∷ []
insert_alert a (b ∷ bs) =
    let later = b ∷ insert_alert a bs in
    if leb (rank a.decision) (rank b.decision) then a ∷ b ∷ bs else later

unfoldable pub sort_alerts : List DetectionAlert → List DetectionAlert
sort_alerts [] = []
sort_alerts (a ∷ as') = insert_alert a (sort_alerts as')

-- the loop of `evaluate_detections`, each round at its own time of the clock
unfoldable pub judge_all :
    Rows → List (ℕ × Detection) → ThresholdCache → List DetectionAlert × ThresholdCache
judge_all rows [] c = ([], c)
judge_all rows ((now, det) ∷ rest) c =
    let (t, c₁) = get_threshold now rows det.category c in
    let (alerts, c₂) = judge_all rows rest c₁ in
    (record { detection = det; decision = decide t det.score; threshold = t } ∷ alerts, c₂)

unfoldable pub evaluate_detections :
    Rows → List (ℕ × Detection) → ThresholdCache → List DetectionAlert × ThresholdCache
evaluate_detections rows dets c =
    let (alerts, c') = judge_all rows dets c in (sort_alerts alerts, c')
