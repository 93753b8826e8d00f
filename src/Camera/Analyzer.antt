-- ===== src/Camera/Analyzer.antt =====
-- camera/stream.py, `ContinuousAnalyzer`: the latest frame goes to the detector and to the language
-- model, and a message to the operators. Both services, the hub, the disk and SHA-256 are
-- parameters. Logs are left out; the text of an error is the kind of its exception.
pub mod Honest
use loyiha.Base.{
  ℕ, ◌+◌, Bool, true, false, not, ◌||◌, ◌==◌, Option, none, some, List, [], ◌∷◌, ◌++◌, String, map,
  length, if◌then◌else◌, Result, ok, raised,
}
use loyiha.Contracts.Common.{
  Uuid, Score, Text, codes, append, ImageFrame, StorageRef, ThreatCategory, RiskBand, clear,
  PixelBox, baggage, single_energy,
}
use loyiha.Contracts.Acquisition.{AcquisitionResult, acquisition_ok}
use loyiha.Contracts.Detection.{
  Detection, DetectionResult, DetectionStatus, failed, completed_no_findings, is_failed,
  is_no_findings,
}
use loyiha.Contracts.Verdict.{VerdictRequest, OperatorVerdict, uz_latn}
use loyiha.Api.Hops.{ServiceError}
use loyiha.Datalayer.Ingestion.{Bytes}
use loyiha.Vlm.Prompts.{compute_risk_band, decimal}
use loyiha.Camera.Stream.{Vision, VideoStreamCapture, latest_frame}

pub data RiskLabel : Type 0 where
  band : RiskBand → RiskLabel
  unavailable : RiskLabel

pub record DetectionPayload : Type 0 where
  pub category : ThreatCategory
  pub score : Score
  pub box : PixelBox

-- the message "camera.analysis"
pub record CameraMessage : Type 0 where
  pub device : String
  pub ts : ℕ
  pub risk_band : RiskLabel
  pub n_detections : ℕ
  pub summary_uz : Text
  pub detections : List DetectionPayload

-- what a cycle raises: pydantic's error, an error of the disk, an error of the hub
pub data CycleError : Type 0 where
  contract_violation persist_failed broadcast_failed : CycleError

pub record StreamState : Type 0 where
  pub running : Bool
  pub last_analysis_ts : Option ℕ
  pub frames_analyzed : ℕ
  pub last_risk_band : Option RiskLabel
  pub last_error : Option CycleError

-- `frame_uri` is where the frame of a scan is kept.
pub record Seams : Type 0 where
  pub detector : AcquisitionResult → Result ServiceError DetectionResult
  pub generator : VerdictRequest → Result ServiceError OperatorVerdict
  pub broadcast : Option String → CameraMessage → Bool
  pub persist : Uuid → Bytes → Bool
  pub frame_uri : Uuid → String
  pub sha256 : Bytes → String
  pub device : String
  pub lane_id : Option String

-- The result that stands for a detector that has not answered.
abbrev pub no_detector : AcquisitionResult → DetectionResult
no_detector a = record {
  scan_id = a.scan_id;
  status = failed;
  model = record {
    name = "no-detector";
    version = "0.0.0";
    weights_sha256 = none;
    runtime = some "camera-stream";
  };
  frames = a.frames;
  detections = [];
  error = some "Detektor ulanmagan yoki xato berdi — tahlil mavjud emas.";
}

abbrev pub payload : Detection → DetectionPayload
payload d = record { category = d.category; score = d.score; box = d.box }

abbrev unavailable_text : Text
unavailable_text =
    codes "Tahlil mavjud emas: detektor ulanmagan yoki xato berdi. Qaror operatorga tegishli."

abbrev clear_text : Text
clear_text = codes "Shubhali buyum aniqlanmadi. (VLM xulosasi mavjud emas.)"

abbrev boxes_text : ℕ → Text
boxes_text n =
    decimal n
    ++ codes " ta shubhali hudud aniqlandi. VLM xulosa matni mavjud emas — boxlarni ko'ring."

-- the end of `_build_message`
abbrev pub message : String → ℕ → DetectionResult → RiskLabel → Text → CameraMessage
message device ts r label text = record {
  device = device;
  ts = ts;
  risk_band = label;
  n_detections = length r.detections;
  summary_uz = text;
  detections = map payload r.detections;
}

-- `_build_message`
unfoldable pub build_message :
    String → ℕ → DetectionResult → Option OperatorVerdict → Bool → Bool → CameraMessage
build_message device ts r verdict false vlm_ok = message device ts r unavailable unavailable_text
build_message device ts r (some v) true true =
    message device ts r (band v.overall_risk) v.summary_uz
build_message device ts r verdict true vlm_ok =
    if is_no_findings r.status
    then message device ts r (band clear) clear_text
    else message device ts r (band (compute_risk_band r)) (boxes_text (length r.detections))

-- `_build_acquisition`
abbrev pub build_acquisition : Seams → Uuid → Bytes → ℕ × ℕ → ℕ → AcquisitionResult
build_acquisition w scan_id jpeg (width, height) now = record {
  scan_id = scan_id;
  scanner_id = append "usb-camera-" w.device;
  lane_id = w.lane_id;
  operator_id = none;
  subject = baggage;
  modality = single_energy;
  captured_at = now;
  emitted_at = now;
  frames =
      record {
        frame_id = "cam-0";
        width_px = width;
        height_px = height;
        image = record {
          uri = w.frame_uri scan_id;
          media_type = "image/jpeg";
          sha256 = w.sha256 jpeg;
          size_bytes = length jpeg;
        };
        view_label = some "camera";
      }
      ∷ [];
  notes = none;
}

-- How a cycle ends: no frame yet, an exception, or a message.
pub data Cycle : Type 0 where
  skipped : Cycle
  broken : CycleError → Cycle
  sent : CameraMessage → Cycle

module _ (w : Seams) where
  -- `_run_detector`
  unfoldable pub run_detector : AcquisitionResult → DetectionResult × Bool
  run_detector a = trusted (w.detector a)
    where
      trusted : Result ServiceError DetectionResult → DetectionResult × Bool
      trusted (ok r) = if r.scan_id == a.scan_id then (r, true) else (no_detector a, false)
      trusted (raised e) = (no_detector a, false)

  -- `_run_verdict`
  unfoldable pub run_verdict : Uuid → DetectionResult → Option OperatorVerdict × Bool
  run_verdict scan_id r =
      let request : VerdictRequest = record {
        scan_id = scan_id;
        detection = r;
        locale = uz_latn;
      } in
      if is_failed r.status then (none, false) else trusted (w.generator request)
    where
      trusted : Result ServiceError OperatorVerdict → Option OperatorVerdict × Bool
      trusted (ok v) = if v.scan_id == scan_id then (some v, true) else (none, false)
      trusted (raised e) = (none, false)

  -- the cycle's message, once there is an acquisition
  unfoldable pub analyze : AcquisitionResult → ℕ → CameraMessage
  analyze a now =
      let (r, detector_ok) = run_detector a in
      let (verdict, vlm_ok) = run_verdict a.scan_id r in
      build_message w.device now r verdict detector_ok vlm_ok

  abbrev pub analyze_frame : Uuid → ℕ → Bytes → ℕ × ℕ → Cycle
  analyze_frame scan_id now jpeg size =
      let a = build_acquisition w scan_id jpeg size now in
      if not (w.persist scan_id jpeg)
      then broken persist_failed
      else if not (acquisition_ok a)
      then broken contract_violation
      else if not (w.broadcast w.lane_id (analyze a now))
      then broken broadcast_failed
      else sent (analyze a now)

  -- `_analyze_once`, up to the counters. Frame and JPEG are read under two locks: `c` is what the
  -- reader holds at the first, `c'` at the second.
  unfoldable pub analyze_once :
      {I : Type 0} → Vision I → Uuid → ℕ → VideoStreamCapture I → VideoStreamCapture I → Cycle
  analyze_once {I} v scan_id now c c' = go (latest_frame v c) c'.latest_jpeg
    where
      go : Option (I × ℕ) → Option Bytes → Cycle
      go (some (bgr, ts)) (some jpeg) = analyze_frame scan_id now jpeg (v.shape bgr)
      go _ _ = skipped

  -- the counters of `_analyze_once`, and the handler in `_run`
  unfoldable pub counted : ℕ → Cycle → StreamState → StreamState
  counted now skipped s = s
  counted now (broken e) s = record s { last_error = some e }
  counted now (sent m) s = record s {
    frames_analyzed = s.frames_analyzed + 1;
    last_analysis_ts = some now;
    last_risk_band = some m.risk_band;
  }

  -- `_run` up to the stop event: for each turn the new id, the time and what the reader holds at
  -- the two reads
  unfoldable pub run_analysis :
      {I : Type 0}
      → Vision I
      → List (Uuid × ℕ × VideoStreamCapture I × VideoStreamCapture I)
      → StreamState
      → StreamState × List CameraMessage
  run_analysis v [] s = (s, [])
  run_analysis v ((scan_id, now, c, c') ∷ turns) s =
      let cycle = analyze_once v scan_id now c c' in
      let (end, messages) = run_analysis v turns (counted now cycle s) in
      (end, messages_of cycle ++ messages)
    where
      messages_of : Cycle → List CameraMessage
      messages_of (sent m) = m ∷ []
      messages_of _ = []
