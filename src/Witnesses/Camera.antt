-- ===== src/Witnesses/Camera.antt =====
-- A camera of one-pixel images, whose detector or language model may fail.
use loyiha.Base.{
  ℕ, ◌+◌, ◌-◌, ◌≡◌, All, refl, true, false, Option, none, some, List, [], ◌∷◌, ok, raised, arith,
}
use loyiha.Contracts.Common.{clear}
use loyiha.Contracts.Acquisition.{acquisition_ok}
use loyiha.Contracts.Common.Fields.{frame_ok, storage_ok}
use loyiha.Contracts.Common.{is_sha256_hex}
use loyiha.State.Session.{Db}
use loyiha.State.Store.{detection_fits}
use loyiha.Api.Access.{bypass_claims}
use loyiha.Api.Hops.{service_failed, service_not_implemented}
use loyiha.Detector.Adapter.{WeaponsDetector, failure, detect, detect_sync}
use loyiha.Camera.Stream.{
  Vision, VideoStreamCapture, no_frame, frame_read, encoded, latest_frame, camera_timeout,
}
use loyiha.Camera.Analyzer.{
  Seams, CameraMessage, sent, band, analyze, analyze_once, build_acquisition, build_message,
  run_detector, run_verdict,
}
use loyiha.Camera.Analyzer.Honest.{IsHonest, analyze_once-IsHonest, detector_failure-clear}
use loyiha.Camera.Motion.{
  CameraConfig, UsbCameraDriver, started, captured, motion_score, moved, reader_turn, next_frame,
  encode_frame,
}
use loyiha.Camera.Motion.Still.{Reached, IsTaken, snapshot-IsStill}
use loyiha.Camera.Motion.Waiting.{next_frame-timeout}
use loyiha.Camera.Capture.{Services, Shot, capture, generate_verdict, fallback_verdict}
use loyiha.Camera.Capture as Capture
use loyiha.Camera.Capture.Stored.{IsCaptured, IsAccepted, capture-IsCaptured, verdicted_row}
use loyiha.Camera.Capture.Blind.{capture-clear}
use loyiha.Witnesses.Data.{sha, knife_result}
use loyiha.Witnesses.Detector.{weapons, knife_scan}

abbrev pixels : Vision ℕ
pixels = record {
  shape = λ i. (640, 480);
  crop = λ r i. i;
  encode = λ i. encoded (i ∷ []);
  writes = λ i. true;
}

abbrev live : VideoStreamCapture ℕ
live = record {
  roi = none;
  record_session = false;
  is_open = true;
  reader_alive = true;
  writer = none;
  latest_bgr = some 7;
  latest_jpeg = some (7 ∷ []);
  latest_ts = 1;
  frame_event = true;
  frames_read = 1;
  read_errors = 0;
}

abbrev seams : Seams
seams = record {
  detector = λ a. ok (record knife_result { scan_id = a.scan_id });
  generator = λ q. raised service_not_implemented;
  broadcast = λ lane m. true;
  persist = λ k jpeg. true;
  frame_uri = λ k. "file:///tmp/cam-0.jpg";
  sha256 = λ jpeg. sha;
  device = "0";
  lane_id = some "lane-1";
}

shown : (m : CameraMessage) × (analyze_once seams pixels 5 9 live live ≡ sent m)
unfolding analyze_once latest_frame analyze run_detector run_verdict build_message acquisition_ok
    frame_ok storage_ok is_sha256_hex
shown = (_, refl)

analyze_once-IsHonest_example :
    (bgr : ℕ) × (jpeg : List ℕ) × (live.latest_bgr ≡ some bgr)
    × (live.latest_jpeg ≡ some jpeg)
    × IsHonest seams (build_acquisition seams 5 jpeg (640, 480) 9) shown.0
analyze_once-IsHonest_example = analyze_once-IsHonest seams pixels 5 9 live live shown.0 shown.1

abbrev broken_weapons : WeaponsDetector ℕ
broken_weapons = record weapons { predict_frame = λ r. raised failure }

abbrev blind : Seams
blind = record seams { detector = λ a. ok (detect broken_weapons a) }

detector_failure-clear_example : (analyze blind knife_scan 9).risk_band ≡ band clear
unfolding detect_sync
detector_failure-clear_example = detector_failure-clear broken_weapons blind knife_scan 9 refl refl

abbrev difference : ℕ → ℕ → Option ℕ
difference a b = some ((a - b) + (b - a))

abbrev config : CameraConfig
config = record { roi = none; motion_thresh = 20; stable_frames = 1 }

abbrev turned : ℕ → ℕ → UsbCameraDriver ℕ → UsbCameraDriver ℕ
turned now image d = reader_turn pixels difference config now (frame_read image) d

arrived :
    Reached pixels difference config
      ((0, 100) ∷ (100, 100) ∷ (0, 0) ∷ [])
      (turned 3 100 (turned 2 100 (turned 1 0 started)))
unfolding reader_turn moved motion_score encode_frame
arrived =
    Reached.seen _ _ 3 100 refl
      (Reached.seen _ _ 2 100 refl (Reached.seen _ _ 1 0 refl Reached.begun))

snapshot-IsStill_example :
    IsTaken pixels difference config
      ((0, 100) ∷ (100, 100) ∷ (0, 0) ∷ [])
      (turned 4 100 (turned 3 100 (turned 2 100 (turned 1 0 started))))
unfolding reader_turn moved motion_score encode_frame
snapshot-IsStill_example =
    snapshot-IsStill pixels difference config ((0, 100) ∷ (100, 100) ∷ (0, 0) ∷ [])
      (turned 3 100 (turned 2 100 (turned 1 0 started))) 4 100 arrived refl (λ e. cc) refl

abbrev waiting : UsbCameraDriver ℕ
waiting = record started {
  state = captured;
  pending =
      some (record { jpeg_bytes = 7 ∷ []; size = (640, 480); captured_at = 1; motion_score = 3 });
  pending_event = true;
}

next_frame-timeout_example :
    (next_frame pixels difference config ((1, no_frame) ∷ (2, frame_read 5) ∷ []) waiting).0
    ≡ raised camera_timeout
unfolding motion_score
next_frame-timeout_example =
    next_frame-timeout pixels difference config ((1, no_frame) ∷ (2, frame_read 5) ∷ []) waiting
      refl refl (omega arith, tt)

abbrev services : Services
services = record {
  detector = λ a. ok (record knife_result { scan_id = a.scan_id });
  generator = λ q. raised service_failed;
  saves = λ k shot. true;
  frame_uri = λ k. "file:///tmp/cam-0.jpg";
  sha256 = λ jpeg. sha;
  audits = λ row. true;
}

abbrev shot : Shot
shot = record { jpeg = 7 ∷ []; size = (640, 480); device = "0" }

abbrev empty : Db
empty = record {
  scan = λ k. none;
  detection = λ k. none;
  verdict = λ k. none;
  verdict_owner = λ k. none;
  feedback = λ k. none;
}

abbrev clock : ℕ → ℕ
clock n = 9 + n

in_bounds : acquisition_ok (Capture.captured services bypass_claims 9 5 shot) ≡ true
unfolding Capture.captured acquisition_ok frame_ok storage_ok is_sha256_hex
in_bounds = refl

found_fits :
    All
      (λ d. detection_fits d ≡ true)
      (Capture.run_detector services (Capture.captured services bypass_claims 9 5 shot)).detections
unfolding Capture.captured Capture.run_detector detection_fits
found_fits = (refl, tt)

services-IsAccepted :
    IsAccepted services bypass_claims clock 2
      (Capture.captured services bypass_claims 9 5 shot)
      empty
unfolding Capture.captured generate_verdict
services-IsAccepted = record {
  detections_fit = found_fits;
  name_fits = omega arith;
  version_fits = omega arith;
  new_verdict = refl;
  audited = λ row. refl;
}

capture-IsCaptured_example :
    IsCaptured services bypass_claims clock 2
      (Capture.captured services bypass_claims 9 5 shot)
      shot
      (capture services bypass_claims clock 2 5 (ok shot) empty)
capture-IsCaptured_example =
    capture-IsCaptured services bypass_claims clock 2 5 shot empty refl in_bounds refl
      services-IsAccepted

capture-clear_example :
    (capture services bypass_claims clock 2 5 (ok shot) empty).db.scan 5
    ≡ some (
        verdicted_row
          (Capture.captured services bypass_claims 9 5 shot)
          clock
          (fallback_verdict 2 5))
capture-clear_example =
    capture-clear services bypass_claims clock 2 5 shot empty service_failed refl in_bounds refl
      refl (λ row. refl) found_fits (λ q. refl)
