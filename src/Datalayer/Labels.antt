-- ===== src/Datalayer/Labels.antt =====
-- datalayer/labelstore.py: the label candidates that an operator's feedback yields.
-- `str(uuid)` is the uuid itself, and `uuid.uuid4()` and the clock are parameters, asked at the
-- position of the entry that they are for.
pub mod Counts
pub mod Traced
use loyiha.Base.{
  ℕ, Bool, true, false, not, ◌&&◌, ◌==◌, Option, none, some, List, [], ◌∷◌, ◌++◌, String, length,
  is_empty, find, Result, ok, raised, if◌then◌else◌,
}
use loyiha.Contracts.Common.{Uuid, Score, ThreatCategory, unknown, ImageFrame, PixelBox}
use loyiha.Contracts.Detection.{Detection, frame_by_id, has_findings}
use loyiha.Contracts.Feedback.{
  OperatorFeedback, OperatorOutcome, cleared, DetectionReview, OperatorAnnotation,
  DetectionJudgement,
}

pub data LabelSource : Type 0 where
  operator_confirmed operator_reclassified operator_missed hard_negative true_negative_scan :
      LabelSource

pub data LabelStatus : Type 0 where
  pending reviewed consumed rejected : LabelStatus

-- `category` is absent when a reclassification came without its corrected category.
pub record LabelEntry : Type 0 where
  pub label_id : Uuid
  pub scan_id : Uuid
  pub scan_sha256 : String
  pub frame_id : String
  pub source : LabelSource
  pub category : Option ThreatCategory
  pub operator_id : String
  pub operator_outcome : OperatorOutcome
  pub box_x : Option ℕ
  pub box_y : Option ℕ
  pub box_w : Option ℕ
  pub box_h : Option ℕ
  pub status : LabelStatus
  pub original_model_score : Option Score
  pub corrected_from : Option ThreatCategory
  pub operator_note : Option String
  pub feedback_id : Option Uuid
  pub queued_at : ℕ
  pub reviewed_at : Option ℕ
  pub consumed_at : Option ℕ

abbrev pub option_map {ℓ κ} : {A : Type ℓ} {B : Type κ} → (A → B) → Option A → Option B
option_map f none = none
option_map f (some a) = some (f a)

abbrev pub or_else {ℓ} : {A : Type ℓ} → Option A → A → A
or_else none a = a
or_else (some b) a = b

-- the search for a detection of the embedded result by its id
unfoldable pub detection_by_id : List Detection → Uuid → Option Detection
detection_by_id ds i = find (λ d. d.detection_id == i) ds

unfoldable pub frame_sha256 : OperatorFeedback → String → String
frame_sha256 f i =
    or_else (option_map (λ g. g.image.sha256) (frame_by_id f.detection.frames i)) "unknown"

unfoldable pub detection_score : OperatorFeedback → Uuid → Option Score
detection_score f i = option_map (λ d. d.score) (detection_by_id f.detection.detections i)

unfoldable pub detection_frame_id : OperatorFeedback → Uuid → String
detection_frame_id f i =
    or_else (option_map (λ d. d.frame_id) (detection_by_id f.detection.detections i)) "unknown"

unfoldable pub detection_box : OperatorFeedback → Uuid → Option PixelBox
detection_box f i = option_map (λ d. d.box) (detection_by_id f.detection.detections i)

-- `next((d.category for d in ... if ...), ThreatCategory.UNKNOWN)`
unfoldable pub detection_category : OperatorFeedback → Uuid → ThreatCategory
detection_category f i =
    or_else (option_map (λ d. d.category) (detection_by_id f.detection.detections i)) unknown

-- `feedback.detection.frames[0]` raises an IndexError on an empty list.
pub data IndexError : Type 0 where
  index_error : IndexError

abbrev pub is_cleared : OperatorOutcome → Bool
is_cleared cleared = true
is_cleared _ = false

unfoldable pub is_true_negative : OperatorFeedback → Bool
is_true_negative f =
    is_cleared f.outcome
    && is_empty f.reviews
    && is_empty f.missed
    && not (has_findings f.detection)

module _ (uuid4 : ℕ → Uuid) (now : ℕ → ℕ) (f : OperatorFeedback) where
  -- the arguments that every `LabelEntry(...)` of the extraction has, and the defaults
  unfoldable pub entry :
      ℕ
      → String
      → String
      → LabelSource
      → Option ThreatCategory
      → Option PixelBox
      → Option Score
      → Option ThreatCategory
      → Option String
      → LabelEntry
  entry n sha256 frame_id source category box score from note = record {
    label_id = uuid4 n;
    scan_id = f.scan_id;
    scan_sha256 = sha256;
    frame_id = frame_id;
    source = source;
    category = category;
    operator_id = f.operator_id;
    operator_outcome = f.outcome;
    box_x = option_map (λ b. b.x) box;
    box_y = option_map (λ b. b.y) box;
    box_w = option_map (λ b. b.width) box;
    box_h = option_map (λ b. b.height) box;
    status = LabelStatus.pending;
    original_model_score = score;
    corrected_from = from;
    operator_note = note;
    feedback_id = some f.feedback_id;
    queued_at = now n;
    reviewed_at = none;
    consumed_at = none;
  }

  -- the entry of a review, of a source and a category
  unfoldable pub region_entry :
      ℕ → DetectionReview → LabelSource → Option ThreatCategory → Option ThreatCategory → LabelEntry
  region_entry n rev source category from =
      let frame_id = detection_frame_id f rev.detection_id in
      entry n (frame_sha256 f frame_id) frame_id source category (detection_box f rev.detection_id)
        (detection_score f rev.detection_id) from rev.note_uz

  -- one turn of the loop over the reviews, at which `n` entries are there
  unfoldable pub review_entries : ℕ → DetectionReview → List LabelEntry
  review_entries n rev = elim rev.judgement [
    | DetectionJudgement.confirmed ↦
        region_entry n rev operator_confirmed (some (detection_category f rev.detection_id)) none
        ∷ []
    | DetectionJudgement.reclassified ↦
        region_entry n rev operator_reclassified rev.corrected_category
          (some (detection_category f rev.detection_id))
        ∷ []
    | DetectionJudgement.rejected ↦
        region_entry n rev hard_negative (some (detection_category f rev.detection_id)) none ∷ []
    | DetectionJudgement.unreviewed ↦ []
  ]

  unfoldable pub add_reviews : List LabelEntry → List DetectionReview → List LabelEntry
  add_reviews entries [] = entries
  add_reviews entries (rev ∷ revs) =
      add_reviews (entries ++ review_entries (length entries) rev) revs

  unfoldable pub missed_entry : ℕ → OperatorAnnotation → LabelEntry
  missed_entry n ann =
      entry n (frame_sha256 f ann.frame_id) ann.frame_id operator_missed (some ann.category)
        (some ann.box) none none ann.note_uz

  unfoldable pub add_missed : List LabelEntry → List OperatorAnnotation → List LabelEntry
  add_missed entries [] = entries
  add_missed entries (ann ∷ anns) =
      add_missed (entries ++ (missed_entry (length entries) ann ∷ [])) anns

  unfoldable pub true_negative_entry : ℕ → ImageFrame → LabelEntry
  true_negative_entry n frame =
      entry n frame.image.sha256 frame.frame_id true_negative_scan (some unknown) none none none
        none

  unfoldable pub add_true_negative :
      List LabelEntry → List ImageFrame → Result IndexError (List LabelEntry)
  add_true_negative entries [] = if is_true_negative f then raised index_error else ok entries
  add_true_negative entries (frame ∷ frames) =
      if is_true_negative f
      then ok (entries ++ (true_negative_entry (length entries) frame ∷ []))
      else ok entries

  unfoldable pub extract_label_entries : Result IndexError (List LabelEntry)
  extract_label_entries =
      add_true_negative (add_missed (add_reviews [] f.reviews) f.missed) f.detection.frames
