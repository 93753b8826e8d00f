-- ===== src/State/Thresholds/Cache.antt =====
-- `ThresholdCache` (app/state/thresholds.py): when a lookup reads the database.
use loyiha.Base.{ℕ, ◌+◌, ◌-◌, ◌≤◌, ◌<◌, ◌≡◌, arith, ltb, if◌then◌else◌}
use loyiha.Contracts.Common.{ThreatCategory}
use loyiha.State.Thresholds.{
  Rows, ThresholdCache, cache_ttl_ms, invalidate, load_rows, get_threshold, or_default,
}

-- After an invalidation the next lookup serves the rows of the database only when the monotonic
-- clock stands beyond the time to live; before that it serves what the cache held.
pub get_threshold-invalidate :
    (now : ℕ) (rows : Rows) (category : ThreatCategory) (c : ThresholdCache)
    → (get_threshold now rows category (invalidate c)).0
      ≡ or_default category
          (if ltb cache_ttl_ms now then load_rows rows category else c.cache category)
unfolding get_threshold invalidate
get_threshold-invalidate now rows category c = ground arith

-- A lookup that follows one which has loaded serves the same rows for the time to live, even if
-- the database has changed.
pub get_threshold_again :
    (now later : ℕ) (rows rows' : Rows) (category : ThreatCategory) (c : ThresholdCache)
    → cache_ttl_ms < now - c.loaded_at
    → later ≤ cache_ttl_ms
    → (get_threshold (now + later) rows' category (get_threshold now rows category c).1).0
      ≡ or_default category (load_rows rows category)
unfolding get_threshold
get_threshold_again now later rows rows' category c h k = ground arith
