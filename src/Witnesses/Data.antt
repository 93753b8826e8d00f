-- ===== src/Witnesses/Data.antt =====
-- One baggage scan with a knife in it, and what the operators say about it.
use loyiha.Base.{none, some, [], ◌∷◌, String, false}
use loyiha.Contracts.Common.{
  codes, ImageFrame, PixelBox, ModelProvenance, bladed_weapon, baggage, dual_energy, high,
}
use loyiha.Contracts.Detection.{Detection, DetectionResult, completed}
use loyiha.Contracts.Verdict.{VerdictRequest, OperatorVerdict, uz_latn}
use loyiha.Contracts.Feedback.{
  DetectionReview, OperatorFeedback, FeedbackReceipt, confirmed, seized,
}
use loyiha.State.Machine.{ScanState}
use loyiha.State.Session.{Scan, Db, Session}

abbrev pub sha : String
sha = "aaaaaaaaaaaaaaaaaaaaaaaaaaaaaaaaaaaaaaaaaaaaaaaaaaaaaaaaaaaaaaaa"

abbrev pub knife_frame : ImageFrame
knife_frame = record {
  frame_id = "f1";
  width_px = 640;
  height_px = 480;
  image = record { uri = "store://f1"; media_type = "image/png"; sha256 = sha; size_bytes = 1000 };
  view_label = none;
}

abbrev pub knife_box : PixelBox
knife_box = record { x = 10; y = 20; width = 100; height = 50 }

abbrev pub knife : Detection
knife = record {
  detection_id = 7;
  frame_id = "f1";
  box = knife_box;
  native_label = "knife";
  category = bladed_weapon;
  score = 5;
  crop = none;
  calibrated = false;
  attributes = [];
}

abbrev pub detector : ModelProvenance
detector = record { name = "detector"; version = "1"; weights_sha256 = none; runtime = none }

abbrev pub knife_result : DetectionResult
knife_result = record {
  scan_id = 1;
  status = completed;
  model = detector;
  frames = knife_frame ∷ [];
  detections = knife ∷ [];
  error = none;
}

abbrev pub knife_request : VerdictRequest
knife_request = record { scan_id = 1; detection = knife_result; locale = uz_latn }

abbrev pub knife_verdict : OperatorVerdict
knife_verdict = record {
  verdict_id = 2;
  scan_id = 1;
  locale = uz_latn;
  overall_risk = high;
  summary_uz = codes "pichoq";
  per_detection =
      (record {
        detection_id = 7;
        category = bladed_weapon;
        rationale_uz = codes "pichoq";
        confidence = 5;
      })
      ∷ [];
  model = detector;
}

abbrev pub knife_review : DetectionReview
knife_review = record {
  detection_id = 7;
  judgement = confirmed;
  corrected_category = none;
  note_uz = none;
}

abbrev pub knife_feedback : OperatorFeedback
knife_feedback = record {
  feedback_id = 3;
  scan_id = 1;
  verdict_id = none;
  operator_id = "op-1";
  detection = knife_result;
  outcome = seized;
  reviews = knife_review ∷ [];
  missed = [];
  decided_at = 100;
}

abbrev pub knife_receipt : FeedbackReceipt
knife_receipt = record {
  feedback_id = 3;
  scan_id = 1;
  labels_queued = 1;
  hard_negatives_queued = 0;
  dataset_target = none;
}

abbrev pub scan_in : ScanState → Scan
scan_in state = record {
  scanner_id = "scanner-01";
  lane_id = some "lane-1";
  subject = baggage;
  modality = dual_energy;
  state = state;
  overall_risk = none;
  acquired_at = 1;
  analyzed_at = none;
  verdicted_at = none;
  decided_at = none;
}

-- the database in which every scan is in one state, and nothing else is stored
abbrev pub db_in : ScanState → Db
db_in state = record {
  scan = λ k. some (scan_in state);
  detection = λ k. none;
  verdict = λ k. none;
  verdict_owner = λ k. none;
  feedback = λ k. none;
}

-- a session on a database, that has loaded every scan in some other state
abbrev pub session_in : ScanState → ScanState → Session
session_in stored loaded = record { db = db_in stored; cached = λ k. some (scan_in loaded) }
