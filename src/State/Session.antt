-- ===== src/State/Session.antt =====
-- The database as the scan store sees it (app/db/models.py), and one request's session over it:
-- the rows that the session has loaded stay what they were, whatever other requests commit.
use loyiha.Base.{ℕ, Bool, Option, some, List, ◌==◌, if◌then◌else◌, String, Result, ok, raised}
use loyiha.Contracts.Common.{
  Text, Uuid, Score, ScanSubject, ImageModality, ThreatCategory, RiskBand, PixelBox,
}
use loyiha.Contracts.Verdict.{DetectionVerdict}
use loyiha.Contracts.Feedback.{OperatorOutcome, DetectionReview, OperatorAnnotation}
use loyiha.State.Machine.{ScanState, StoreError}

-- Time stamps are numbers; the store only copies them.
pub record Scan : Type 0 where
  pub scanner_id : String
  pub lane_id : Option String
  pub subject : ScanSubject
  pub modality : ImageModality
  pub state : ScanState
  pub overall_risk : Option RiskBand
  pub acquired_at : ℕ
  pub analyzed_at : Option ℕ
  pub verdicted_at : Option ℕ
  pub decided_at : Option ℕ

pub record StoredDetection : Type 0 where
  pub scan_id : Uuid
  pub frame_id : String
  pub category : ThreatCategory
  pub native_label : String
  pub score : Score
  pub box : PixelBox
  pub calibrated : Bool

pub record StoredVerdict : Type 0 where
  pub verdict_id : Uuid
  pub overall_risk : RiskBand
  pub summary_uz : Text
  pub model_name : String
  pub model_version : String
  pub per_detection : List DetectionVerdict

pub record StoredFeedback : Type 0 where
  pub feedback_id : Uuid
  pub operator_id : String
  pub outcome : OperatorOutcome
  pub n_gold_labels : ℕ
  pub n_hard_negatives : ℕ
  pub reviews : List DetectionReview
  pub missed : List OperatorAnnotation
  pub decided_at : ℕ

-- Scans, verdicts and feedback are unique on `scan_id`, detections on `detection_id`. A verdict's id is
-- its primary key: `verdict_owner` is the scan whose verdict has an id.
pub record Db : Type 0 where
  pub scan : Uuid → Option Scan
  pub detection : Uuid → Option StoredDetection
  pub verdict : Uuid → Option StoredVerdict
  pub verdict_owner : Uuid → Option Uuid
  pub feedback : Uuid → Option StoredFeedback

pub record Session : Type 0 where
  pub db : Db
  pub cached : Uuid → Option Scan

abbrev pub put {ℓ} : {A : Type ℓ} → (Uuid → Option A) → Uuid → A → Uuid → Option A
put m k a j = if k == j then some a else m j

-- An operation of the store. An exception ends the request, and its transaction is rolled back.
abbrev pub M : Type 0 → Type 0
M A = Session → Result StoreError (A × Session)

abbrev pub pure : {A : Type 0} → A → M A
pure a s = ok (a, s)

abbrev pub raise : {A : Type 0} → StoreError → M A
raise e s = raised e

infixl 5 ◌>>=◌ ◌>>◌
abbrev pub ◌>>=◌ : {A B : Type 0} → M A → (A → M B) → M B
◌>>=◌ m f s = elim (m s) [ ok (a, s') ↦ f a s' | raised e ↦ raised e ]

abbrev pub ◌>>◌ : {B : Type 0} → M (Unit {0}) → M B → M B
m >> k = m >>= λ _. k

abbrev pub lift : {A : Type 0} → Result StoreError A → M A
lift (ok a) s = ok (a, s)
lift (raised e) s = raised e
