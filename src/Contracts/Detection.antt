-- ===== src/Contracts/Detection.antt =====
-- contracts/v1/detection.py: what the detector found, and the validator of the message.
pub mod Frames
pub mod Consistency
use loyiha.Base.{
  Bool, true, false, not, ◌&&◌, Option, none, some, List, [], ◌∷◌, leb, ◌==◌, String, str_eq,
  if◌then◌else◌, length, is_empty, find, map, contains, dedup, String_eq, ℕ_eq, Result, ok, raised,
  raise_if, ◌>>=◌, ◌>>◌,
}
use loyiha.Contracts.Common.{
  Uuid, Score, ThreatCategory, StorageRef, ImageFrame, PixelBox, ModelProvenance, fits_within,
}

pub data DetectionStatus : Type 0 where
  completed completed_no_findings failed : DetectionStatus

pub record Detection : Type 0 where
  pub detection_id : Uuid
  pub frame_id : String
  pub box : PixelBox
  pub native_label : String
  pub category : ThreatCategory
  pub score : Score
  pub crop : Option StorageRef
  pub calibrated : Bool
  pub attributes : List (String × String)

pub record DetectionResult : Type 0 where
  pub scan_id : Uuid
  pub status : DetectionStatus
  pub model : ModelProvenance
  pub frames : List ImageFrame
  pub detections : List Detection
  pub error : Option String

-- The messages of the `ValueError`s that the validators of contracts/v1 raise.
pub data ContractError : Type 0 where
  duplicate_frame_id duplicate_detection_id unknown_frame_id box_exceeds_frame : ContractError
  failed_with_detections no_findings_with_detections failed_without_error : ContractError
  scan_id_mismatch clear_with_findings duplicate_verdict_id hallucinated_detection : ContractError
  missing_correction stray_correction : ContractError
  unknown_review duplicate_review unknown_missed_frame missed_exceeds_frame : ContractError

abbrev pub Check : Type 0
Check = Result ContractError (Unit {0})

-- `next((f for f in frames if f.frame_id == frame_id), None)`
unfoldable pub frame_by_id : List ImageFrame → String → Option ImageFrame
frame_by_id frames frame_id = find (λ f. str_eq f.frame_id frame_id) frames

unfoldable pub frame_check : Option ImageFrame → PixelBox → ContractError → ContractError → Check
frame_check none box missing exceeds = raised missing
frame_check (some f) box missing exceeds = raise_if (not (fits_within box f)) exceeds

-- the loop over `self.detections`
unfoldable pub check_detections : List ImageFrame → List Uuid → List Detection → Check
check_detections frames seen [] = ok tt
check_detections frames seen (d ∷ ds) =
    let rest = check_detections frames (d.detection_id ∷ seen) ds in
    do
      raise_if (contains seen d.detection_id) duplicate_detection_id
      frame_check (frame_by_id frames d.frame_id) d.box unknown_frame_id box_exceeds_frame
      rest

-- `not self.error`: no text, or an empty one
abbrev pub is_falsy : Option String → Bool
is_falsy none = true
is_falsy (some s) = str_eq s ""

abbrev pub is_failed : DetectionStatus → Bool
is_failed failed = true
is_failed _ = false

abbrev pub is_no_findings : DetectionStatus → Bool
is_no_findings completed_no_findings = true
is_no_findings _ = false

abbrev pub frame_ids : List ImageFrame → List String
frame_ids = map (λ f. f.frame_id)

abbrev pub detection_ids : List Detection → List Uuid
detection_ids = map (λ d. d.detection_id)

unfoldable pub has_findings : DetectionResult → Bool
has_findings r = not (is_empty r.detections)

-- `DetectionResult._check_consistency`
unfoldable pub check_consistency : DetectionResult → Check
check_consistency r = do
  raise_if (not (length (dedup (frame_ids r.frames)) == length r.frames)) duplicate_frame_id
  check_detections r.frames [] r.detections
  raise_if (is_failed r.status && not (is_empty r.detections)) failed_with_detections
  raise_if (is_no_findings r.status && not (is_empty r.detections)) no_findings_with_detections
  raise_if (is_failed r.status && is_falsy r.error) failed_without_error
