-- ===== src/Camera/Capture.antt =====
-- app/api/v1/camera.py, `POST /camera/capture`: one frame of the camera becomes a scan, which goes
-- through detector and language model at once. Each write has a session of its own and is
-- committed. The services, the camera's shot, the disk and SHA-256 are parameters, and so is
-- whether the audit sink writes a row, which it is asked to after each commit. `now n` is the n-th
-- reading of the clock.
pub mod Stored
pub mod Blind
use loyiha.Base.{
  ℕ, Bool, true, false, not, ◌==◌, Option, none, some, List, [], ◌∷◌, ◌++◌, String, length,
  if◌then◌else◌, Result, ok, raised,
}
use loyiha.Contracts.Common.{
  Uuid, Text, codes, append, ModelProvenance, RiskBand, clear, baggage, single_energy,
}
use loyiha.Contracts.Acquisition.{AcquisitionResult, acquisition_ok}
use loyiha.Contracts.Detection.{DetectionResult, DetectionStatus, completed_no_findings}
use loyiha.Contracts.Verdict.{VerdictRequest, OperatorVerdict, uz_latn}
use loyiha.State.Session.{Db, Session, M}
use loyiha.State.Store.{record_acquisition, record_detection, record_verdict}
use loyiha.State.Store.Effects.{fresh}
use loyiha.State.Machine.{StoreError}
use loyiha.Api.Access.{TokenClaims}
use loyiha.Api.Hops.{ServiceError}
use loyiha.Datalayer.Ingestion.{Bytes}
use loyiha.Camera.Stream.{CameraError}

-- 503, and what an exception that no handler names becomes
pub data CaptureError : Type 0 where
  camera_unavailable internal : CaptureError

pub data CaptureAudit : Type 0 where
  camera_captured : Uuid → ℕ → CaptureAudit
  detect_completed : Uuid → DetectionStatus → ℕ → CaptureAudit
  verdict_completed : Uuid → RiskBand → CaptureAudit

pub record CaptureResponse : Type 0 where
  pub scan_id : Uuid
  pub state : String
  pub overall_risk : RiskBand
  pub summary_uz : Text
  pub frame_id : String
  pub size : ℕ × ℕ

-- What a frame of the camera is: JPEG, size, device.
pub record Shot : Type 0 where
  pub jpeg : Bytes
  pub size : ℕ × ℕ
  pub device : String

pub record Services : Type 0 where
  pub detector : AcquisitionResult → Result ServiceError DetectionResult
  pub generator : VerdictRequest → Result ServiceError OperatorVerdict
  pub saves : Uuid → Shot → Bool
  pub frame_uri : Uuid → String
  pub sha256 : Bytes → String
  pub audits : CaptureAudit → Bool

abbrev first_lane : List String → Option String
first_lane [] = none
first_lane (l ∷ ls) = some l

unfoldable pub captured : Services → TokenClaims → ℕ → Uuid → Shot → AcquisitionResult
captured w claims now scan_id shot = record {
  scan_id = scan_id;
  scanner_id = append "usb-camera-" shot.device;
  lane_id = first_lane claims.lane_ids;
  operator_id = some claims.sub;
  subject = baggage;
  modality = single_energy;
  captured_at = now;
  emitted_at = now;
  frames =
      record {
        frame_id = "cam-0";
        width_px = shot.size.0;
        height_px = shot.size.1;
        image = record {
          uri = w.frame_uri scan_id;
          media_type = "image/jpeg";
          sha256 = w.sha256 shot.jpeg;
          size_bytes = length shot.jpeg;
        };
        view_label = some "camera";
      }
      ∷ [];
  notes = none;
}

abbrev pub no_detection : AcquisitionResult → DetectionResult
no_detection a = record {
  scan_id = a.scan_id;
  status = completed_no_findings;
  model = record {
    name = "no-detector";
    version = "0.0.0";
    weights_sha256 = none;
    runtime = some "camera-capture";
  };
  frames = a.frames;
  detections = [];
  error = none;
}

abbrev pub fallback_verdict : Uuid → Uuid → OperatorVerdict
fallback_verdict verdict_id scan_id = record {
  verdict_id = verdict_id;
  scan_id = scan_id;
  locale = uz_latn;
  overall_risk = clear;
  summary_uz = codes "Shubhali buyum aniqlanmadi. Qaror operatorga tegishli.";
  per_detection = [];
  model = record {
    name = "template";
    version = "1.0.0";
    weights_sha256 = none;
    runtime = some "fallback";
  };
}

-- `_run_detector`
unfoldable pub run_detector : Services → AcquisitionResult → DetectionResult
run_detector w a = trusted (w.detector a)
  where
    trusted : Result ServiceError DetectionResult → DetectionResult
    trusted (ok r) = if r.scan_id == a.scan_id then r else no_detection a
    trusted (raised e) = no_detection a

-- `_generate_verdict`, with the id of a fallback verdict
unfoldable pub generate_verdict : Services → Uuid → Uuid → DetectionResult → OperatorVerdict
generate_verdict w verdict_id scan_id r =
    let request : VerdictRequest = record { scan_id = scan_id; detection = r; locale = uz_latn } in
    trusted (w.generator request)
  where
    trusted : Result ServiceError OperatorVerdict → OperatorVerdict
    trusted (ok v) = if v.scan_id == scan_id then v else fallback_verdict verdict_id scan_id
    trusted (raised e) = fallback_verdict verdict_id scan_id

-- What the call leaves: its answer, the audit rows, and the database as committed.
pub record Captured : Type 0 where
  pub result : Result CaptureError CaptureResponse
  pub audited : List CaptureAudit
  pub db : Db

-- `await audit.record(…)`, whose exception ends the call
abbrev pub recorded :
    Services
    → CaptureAudit
    → Db
    → List CaptureAudit
    → (Db → List CaptureAudit → Captured)
    → Captured
recorded w row db audited next =
    if w.audits row
    then next db (audited ++ (row ∷ []))
    else record { result = raised internal; audited = audited; db = db }

-- `async with factory() as session: …; await session.commit()`, and the audit row of it
abbrev pub after :
    Services
    → Result StoreError (Unit {0} × Session)
    → CaptureAudit
    → Db
    → List CaptureAudit
    → (Db → List CaptureAudit → Captured)
    → Captured
after w (ok (done, s)) row db audited next = recorded w row s.db audited next
after w (raised e) row db audited next = record {
  result = raised internal;
  audited = audited;
  db = db;
}

abbrev pub committed :
    Services
    → M (Unit {0})
    → CaptureAudit
    → Db
    → List CaptureAudit
    → (Db → List CaptureAudit → Captured)
    → Captured
committed w step row db audited next = after w (step (fresh db)) row db audited next

module _ (w : Services) (claims : TokenClaims) (now : ℕ → ℕ) (verdict_id : Uuid) where
  abbrev pub answer : AcquisitionResult → Shot → OperatorVerdict → CaptureResponse
  answer a shot v = record {
    scan_id = a.scan_id;
    state = "verdicted";
    overall_risk = v.overall_risk;
    summary_uz = v.summary_uz;
    frame_id = "cam-0";
    size = shot.size;
  }

  -- the three writes
  unfoldable pub hops : AcquisitionResult → Shot → Db → Captured
  hops a shot db =
      let r = run_detector w a in
      let v = generate_verdict w verdict_id a.scan_id r in
      committed w (record_acquisition a) (camera_captured a.scan_id (length shot.jpeg)) db []
        λ db₁ first.
          committed w (record_detection (now 1) r)
            (detect_completed a.scan_id r.status (length r.detections)) db₁ first
            λ db₂ second.
              committed w (record_verdict (now 2) v a.scan_id)
                (verdict_completed a.scan_id v.overall_risk) db₂ second
                λ db₃ third. record { result = ok (answer a shot v); audited = third; db = db₃ }

  -- `capture`
  unfoldable pub capture : Uuid → Result CameraError Shot → Db → Captured
  capture scan_id (raised e) db = record {
    result = raised camera_unavailable;
    audited = [];
    db = db;
  }
  capture scan_id (ok shot) db =
      let a = captured w claims (now 0) scan_id shot in
      if not (w.saves scan_id shot)
      then record { result = raised internal; audited = []; db = db }
      else if not (acquisition_ok a)
      then record { result = raised internal; audited = []; db = db }
      else hops a shot db
