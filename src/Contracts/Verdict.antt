-- ===== src/Contracts/Verdict.antt =====
-- contracts/v1/verdict.py: the request to the VLM, its verdict, and the checks on both.
pub mod Integrity
use loyiha.Base.{
  Bool, true, false, not, ◌&&◌, List, [], ◌∷◌, ◌==◌, length, is_empty, map, contains, dedup, ℕ_eq,
  Result, ok, raised, raise_if, ◌>>=◌, ◌>>◌,
}
use loyiha.Contracts.Common.{Uuid, Score, Text, ThreatCategory, RiskBand, clear, ModelProvenance}
use loyiha.Contracts.Detection.{
  DetectionResult, Check, detection_ids, scan_id_mismatch, clear_with_findings,
  duplicate_verdict_id, hallucinated_detection,
}

pub data Locale : Type 0 where
  uz_latn uz_cyrl ru : Locale

pub record VerdictRequest : Type 0 where
  pub scan_id : Uuid
  pub detection : DetectionResult
  pub locale : Locale

pub record DetectionVerdict : Type 0 where
  pub detection_id : Uuid
  pub category : ThreatCategory
  pub rationale_uz : Text
  pub confidence : Score

-- `decision_support_only` is `Literal[True]`: it has one value, and is no field here.
pub record OperatorVerdict : Type 0 where
  pub verdict_id : Uuid
  pub scan_id : Uuid
  pub locale : Locale
  pub overall_risk : RiskBand
  pub summary_uz : Text
  pub per_detection : List DetectionVerdict
  pub model : ModelProvenance

-- `VerdictRequest._scan_ids_match`
unfoldable pub scan_ids_match : VerdictRequest → Check
scan_ids_match q = raise_if (not (q.detection.scan_id == q.scan_id)) scan_id_mismatch

abbrev pub is_clear : RiskBand → Bool
is_clear clear = true
is_clear _ = false

abbrev pub verdict_ids : List DetectionVerdict → List Uuid
verdict_ids = map (λ v. v.detection_id)

-- `OperatorVerdict._risk_payload_consistency`
unfoldable pub risk_payload_consistency : OperatorVerdict → Check
risk_payload_consistency v = do
  raise_if (is_clear v.overall_risk && not (is_empty v.per_detection)) clear_with_findings
  raise_if
      (not (length (verdict_ids v.per_detection) == length (dedup (verdict_ids v.per_detection))))
      duplicate_verdict_id

-- the loop `for dv in verdict.per_detection`
unfoldable pub check_known : List Uuid → List DetectionVerdict → Check
check_known known [] = ok tt
check_known known (dv ∷ dvs) =
    let rest = check_known known dvs in
    do raise_if (not (contains known dv.detection_id)) hallucinated_detection; rest

unfoldable pub validate_referential_integrity : VerdictRequest → OperatorVerdict → Check
validate_referential_integrity q v = do
  raise_if (not (v.scan_id == q.scan_id)) scan_id_mismatch
  check_known (dedup (detection_ids q.detection.detections)) v.per_detection
