-- ===== src/Contracts/Verdict/Integrity.antt =====
-- The guards of contracts/v1/verdict.py accept exactly the verdicts that stay inside their request.
use loyiha.Base.{
  ◌≡◌, refl, ◌↔◌, false, not, ◌&&◌, List, [], ◌∷◌, arith, All, In, IsDistinct, ok, >>_iff,
  raise_if_iff, contains, contains_iff, ℕ_eq, dedup, dedup_iff, In-dedup, length, ◌==◌, is_empty,
}
use loyiha.Contracts.Common.{Uuid, clear}
use loyiha.Contracts.Detection.{detection_ids}
use loyiha.Contracts.Verdict.{
  VerdictRequest, DetectionVerdict, OperatorVerdict, risk_payload_consistency, check_known,
  validate_referential_integrity, verdict_ids, is_clear,
}

-- The verdict speaks of the request's scan and of its detections only.
pub record StaysWithin (q : VerdictRequest) (v : OperatorVerdict) : Type 0 where
  pub same_scan : v.scan_id ≡ q.scan_id
  pub known : All (λ dv. In dv.detection_id (detection_ids q.detection.detections)) v.per_detection

pub known_test : (ids : List Uuid) (x : Uuid) → (not (contains (dedup ids) x) ≡ false) ↔ In x ids
known_test ids x = (
  λ h. (In-dedup ids x).0 ((contains_iff (dedup ids) x).0 (ground (arith, h))),
  λ i. ground (arith, (contains_iff (dedup ids) x).1 ((In-dedup ids x).1 i)),
)

check_known_iff :
    (ids : List Uuid) (dvs : List DetectionVerdict)
    → (check_known (dedup ids) dvs ≡ ok tt) ↔ All (λ dv. In dv.detection_id ids) dvs
unfolding check_known
check_known_iff ids [] = (λ h. tt, λ h. refl)
check_known_iff ids (dv ∷ dvs) = (
  λ h.
      let (a, b) = (>>_iff _ _ tt).0 h in
      ((known_test ids dv.detection_id).0 ((raise_if_iff _ _).0 a), (check_known_iff ids dvs).0 b),
  λ w. (>>_iff _ _ tt).1 (
    (raise_if_iff _ _).1 ((known_test ids dv.detection_id).1 w.0),
    (check_known_iff ids dvs).1 w.1,
  ),
)

-- `validate_referential_integrity` lets a verdict through exactly when it has the scan id of its
-- request and every detection it comments on is one of the request's detections.
pub validate_iff :
    (q : VerdictRequest) (v : OperatorVerdict)
    → (validate_referential_integrity q v ≡ ok tt) ↔ StaysWithin q v
unfolding validate_referential_integrity
validate_iff q v = (
  λ h.
      let (a, b) = (>>_iff _ _ tt).0 h in
      record {
        same_scan = same_scan_iff.0 ((raise_if_iff _ _).0 a);
        known = (check_known_iff (detection_ids q.detection.detections) v.per_detection).0 b;
      },
  λ w. (>>_iff _ _ tt).1 (
    (raise_if_iff _ _).1 (same_scan_iff.1 w.same_scan),
    (check_known_iff (detection_ids q.detection.detections) v.per_detection).1 w.known,
  ),
)
  where
    same_scan_iff : (not (v.scan_id == q.scan_id) ≡ false) ↔ (v.scan_id ≡ q.scan_id)
    same_scan_iff = (λ h. ground (arith, h), λ h. ground (arith, h))

-- The shape of a verdict on its own.
pub record IsWellFormed (v : OperatorVerdict) : Type 0 where
  pub clear_empty : v.overall_risk ≡ clear → v.per_detection ≡ []
  pub distinct : IsDistinct (verdict_ids v.per_detection)

-- The validator of a verdict accepts exactly the ones in which a CLEAR risk comes with no finding
-- and no detection is commented on twice.
pub risk_payload_consistency_iff :
    (v : OperatorVerdict) → (risk_payload_consistency v ≡ ok tt) ↔ IsWellFormed v
unfolding risk_payload_consistency
risk_payload_consistency_iff v = (
  λ h.
      let (a, b) = (>>_iff _ _ tt).0 h in
      record {
        clear_empty = clear_iff.0 ((raise_if_iff _ _).0 a);
        distinct = distinct_iff.0 ((raise_if_iff _ _).0 b);
      },
  λ w. (>>_iff _ _ tt).1 (
    (raise_if_iff _ _).1 (clear_iff.1 w.clear_empty),
    (raise_if_iff _ _).1 (distinct_iff.1 w.distinct),
  ),
)
  where
    clear_iff :
        (is_clear v.overall_risk && not (is_empty v.per_detection) ≡ false)
        ↔ (v.overall_risk ≡ clear → v.per_detection ≡ [])
    clear_iff = (λ h. ground (arith, h), λ h. ground (arith, h))

    distinct_iff :
        (not (length (verdict_ids v.per_detection) == length (dedup (verdict_ids v.per_detection)))
          ≡ false)
        ↔ IsDistinct (verdict_ids v.per_detection)
    distinct_iff = (
      λ h. (dedup_iff (verdict_ids v.per_detection)).0 (ground (arith, h)),
      λ d. ground (arith, (dedup_iff (verdict_ids v.per_detection)).1 d),
    )
