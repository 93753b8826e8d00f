-- ===== src/Contracts/Feedback.antt =====
-- contracts/v1/feedback.py: the operator's ground truth on a scan, and its validators.
pub mod Grounded
use loyiha.Base.{
  ℕ, ◌+◌, Bool, true, false, not, ◌&&◌, ◌||◌, Option, none, some, List, [], ◌∷◌, ◌==◌, String,
  str_eq, if◌then◌else◌, length, is_empty, count_if, contains, dedup, ℕ_eq, Result, ok, raised,
  raise_if, ◌>>=◌, ◌>>◌,
}
use loyiha.Contracts.Common.{Uuid, ThreatCategory, ImageFrame, PixelBox}
use loyiha.Contracts.Detection.{
  DetectionResult, Check, detection_ids, frame_check, scan_id_mismatch, missing_correction,
  stray_correction, unknown_review, duplicate_review, unknown_missed_frame, missed_exceeds_frame,
}

pub data DetectionJudgement : Type 0 where
  confirmed rejected reclassified unreviewed : DetectionJudgement

pub data OperatorOutcome : Type 0 where
  cleared inspected seized escalated : OperatorOutcome

pub record DetectionReview : Type 0 where
  pub detection_id : Uuid
  pub judgement : DetectionJudgement
  pub corrected_category : Option ThreatCategory
  pub note_uz : Option String

abbrev pub is_reclassified : DetectionJudgement → Bool
is_reclassified reclassified = true
is_reclassified _ = false

abbrev pub is_none {ℓ} : {A : Type ℓ} → Option A → Bool
is_none none = true
is_none (some a) = false

-- `DetectionReview._category_matches_judgement`
unfoldable pub category_matches_judgement : DetectionReview → Check
category_matches_judgement r = do
  raise_if (is_reclassified r.judgement && is_none r.corrected_category) missing_correction
  raise_if (not (is_reclassified r.judgement) && not (is_none r.corrected_category))
      stray_correction

pub record OperatorAnnotation : Type 0 where
  pub frame_id : String
  pub box : PixelBox
  pub category : ThreatCategory
  pub note_uz : Option String

pub record OperatorFeedback : Type 0 where
  pub feedback_id : Uuid
  pub scan_id : Uuid
  pub verdict_id : Option Uuid
  pub operator_id : String
  pub detection : DetectionResult
  pub outcome : OperatorOutcome
  pub reviews : List DetectionReview
  pub missed : List OperatorAnnotation
  pub decided_at : ℕ

-- `{f.frame_id: f for f in frames}.get(frame_id)`: the last frame of an id stays
unfoldable pub frames_by_id : List ImageFrame → String → Option ImageFrame
frames_by_id [] frame_id = none
frames_by_id (f ∷ fs) frame_id = elim (frames_by_id fs frame_id) [
  | some g ↦ some g
  | none ↦ if str_eq f.frame_id frame_id then some f else none
]

-- the loop `for r in self.reviews`
unfoldable pub check_reviews : List Uuid → List Uuid → List DetectionReview → Check
check_reviews known seen [] = ok tt
check_reviews known seen (r ∷ rs) =
    let rest = check_reviews known (r.detection_id ∷ seen) rs in
    do
      raise_if (not (contains known r.detection_id)) unknown_review
      raise_if (contains seen r.detection_id) duplicate_review
      rest

-- the loop `for m in self.missed`
unfoldable pub check_missed : List ImageFrame → List OperatorAnnotation → Check
check_missed frames [] = ok tt
check_missed frames (m ∷ ms) =
    let rest = check_missed frames ms in
    do
      frame_check (frames_by_id frames m.frame_id) m.box unknown_missed_frame missed_exceeds_frame
      rest

-- `OperatorFeedback._check_consistency`
unfoldable pub check_feedback : OperatorFeedback → Check
check_feedback f = do
  raise_if (not (f.detection.scan_id == f.scan_id)) scan_id_mismatch
  check_reviews (dedup (detection_ids f.detection.detections)) [] f.reviews
  check_missed f.detection.frames f.missed

abbrev pub is_positive : DetectionJudgement → Bool
is_positive confirmed = true
is_positive reclassified = true
is_positive _ = false

abbrev pub is_rejected : DetectionJudgement → Bool
is_rejected rejected = true
is_rejected _ = false

unfoldable pub n_gold_labels : OperatorFeedback → ℕ
n_gold_labels f = count_if (λ r. is_positive r.judgement) f.reviews + length f.missed

unfoldable pub n_hard_negatives : OperatorFeedback → ℕ
n_hard_negatives f = count_if (λ r. is_rejected r.judgement) f.reviews

unfoldable pub is_false_negative_report : OperatorFeedback → Bool
is_false_negative_report f = not (is_empty f.missed)

pub record FeedbackReceipt : Type 0 where
  pub feedback_id : Uuid
  pub scan_id : Uuid
  pub labels_queued : ℕ
  pub hard_negatives_queued : ℕ
  pub dataset_target : Option String
