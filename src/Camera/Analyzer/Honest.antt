-- ===== src/Camera/Analyzer/Honest.antt =====
-- camera/stream.py, `ContinuousAnalyzer`: where the risk that the operators see comes from.
use loyiha.Base.{
  ℕ, ◌≡◌, ◌≢◌, refl, ap, ◌⊎◌, inl, inr, Bool, true, false, not, none, some, [], map, arith,
  Bool-cases, Option-cases, Result-cases, ==_iff, ◌==◌, if◌then◌else◌, Result, ok, ok_inj, raised,
  subst,
}
use loyiha.Contracts.Common.{Uuid, clear}
use loyiha.Contracts.Acquisition.{AcquisitionResult, acquisition_ok}
use loyiha.Contracts.Detection.{
  DetectionResult, failed, completed_no_findings, is_failed, is_no_findings, has_findings,
}
use loyiha.Contracts.Verdict.{VerdictRequest, OperatorVerdict, uz_latn}
use loyiha.Api.Hops.{ServiceError}
use loyiha.Vlm.Prompts.{compute_risk_band}
use loyiha.Datalayer.Ingestion.{Bytes}
use loyiha.Detector.Adapter.{WeaponsDetector, failure, detect, detect_sync}
use loyiha.Camera.Stream.{Vision, VideoStreamCapture, latest_frame}
use loyiha.Camera.Analyzer.{
  Seams, CameraMessage, band, unavailable, broken, sent, persist_failed, contract_violation,
  broadcast_failed, payload, no_detector, run_detector, run_verdict, build_message,
  build_acquisition, analyze, analyze_once,
}

-- the request that goes to the language model
abbrev pub request_of : AcquisitionResult → DetectionResult → VerdictRequest
request_of a r = record { scan_id = a.scan_id; detection = r; locale = uz_latn }

-- The detector has answered for this scan.
abbrev pub IsAnswer : Seams → AcquisitionResult → DetectionResult → Type 0
IsAnswer w a r = (w.detector a ≡ ok r) × (r.scan_id ≡ a.scan_id)

-- The risk and the text are those of a verdict on this scan; or the risk is the detector's.
abbrev pub IsRisk : Seams → AcquisitionResult → DetectionResult → CameraMessage → Type 0
IsRisk w a r m =
    ((v : OperatorVerdict) × (r.status ≢ failed)
      × (w.generator (request_of a r) ≡ ok v)
      × (v.scan_id ≡ a.scan_id)
      × (m.risk_band ≡ band v.overall_risk)
      × (m.summary_uz ≡ v.summary_uz))
    ⊎ ((m.risk_band ≡ band clear) × (r.status ≡ completed_no_findings))
    ⊎ (m.risk_band ≡ band (compute_risk_band r))

-- The message comes from the detector's answer, or says that there is none.
abbrev pub IsHonest : Seams → AcquisitionResult → CameraMessage → Type 0
IsHonest w a m =
    ((r : DetectionResult) × IsAnswer w a r
      × (m.detections ≡ map payload r.detections)
      × IsRisk w a r m)
    ⊎ (((r : DetectionResult) → ¬ IsAnswer w a r)
        × (m.detections ≡ [])
        × (m.risk_band ≡ unavailable))

module _ (w : Seams) (a : AcquisitionResult) where
  other :
      (r r' : DetectionResult)
      → (r.scan_id == a.scan_id) ≡ false
      → ◌≡◌ {A = Result ServiceError DetectionResult} (ok r) (ok r')
      → r'.scan_id ≡ a.scan_id
      → ⊥
  other r r' q h e = ground (arith, q, ap (λ (x : DetectionResult). x.scan_id) (ok_inj h), e)

  run_detector-cases :
      ((r : DetectionResult) × IsAnswer w a r × (run_detector w a ≡ (r, true)))
      ⊎ (((r : DetectionResult) → ¬ IsAnswer w a r) × (run_detector w a ≡ (no_detector a, false)))
  unfolding run_detector
  run_detector-cases = elim (Result-cases (w.detector a)) [
    | inr (e, p) ↦ rw p (inr (λ r h. cc, refl))
    | inl (r, p) ↦ elim (Bool-cases (r.scan_id == a.scan_id)) [
      | inl q ↦ rw (p, q) (inl (r, (refl, (==_iff r.scan_id a.scan_id).0 q), refl))
      | inr q ↦ rw (p, q) (inr (λ r' h. other r r' q h.0 h.1, refl))
    ]
  ]

  plain :
      (now : ℕ) (r : DetectionResult) (vlm_ok : Bool)
      → IsRisk w a r (build_message w.device now r none true vlm_ok)
        × ((build_message w.device now r none true vlm_ok).detections ≡ map payload r.detections)
  unfolding build_message
  plain now r vlm_ok = elim (Bool-cases (is_no_findings r.status)) [
    | inl p ↦ rw p (inr (inl (refl, ground (arith, p))), refl)
    | inr p ↦ rw p (inr (inr refl), refl)
  ]

  run_verdict-cases :
      (r : DetectionResult)
      → (run_verdict w a.scan_id r ≡ (none, false))
        ⊎ ((v : OperatorVerdict) × (r.status ≢ failed)
            × (w.generator (request_of a r) ≡ ok v)
            × (v.scan_id ≡ a.scan_id)
            × (run_verdict w a.scan_id r ≡ (some v, true)))
  unfolding run_verdict
  run_verdict-cases r = elim (Bool-cases (is_failed r.status)) [
    | inl f ↦ rw f (inl refl)
    | inr f ↦ elim (Result-cases (w.generator (request_of a r))) [
      | inr (e, p) ↦ rw (f, p) (inl refl)
      | inl (v, p) ↦ elim (Bool-cases (v.scan_id == a.scan_id)) [
        | inl q ↦
            rw (f, p, q)
              (inr (v, λ e. ground (arith, f, e), refl, (==_iff v.scan_id a.scan_id).0 q, refl))
        | inr q ↦ rw (f, p, q) (inl refl)
      ]
    ]
  ]

  risk_of :
      (now : ℕ) (r : DetectionResult)
      → IsRisk w a r (
          build_message w.device now r
            (run_verdict w a.scan_id r).0
            true
            (run_verdict w a.scan_id r).1)
        × ((build_message w.device now r
              (run_verdict w a.scan_id r).0
              true
              (run_verdict w a.scan_id r).1).detections
            ≡ map payload r.detections)
  unfolding build_message
  risk_of now r = elim (run_verdict-cases r) [
    | inl p ↦ rw p (plain now r false)
    | inr (v, st, gen, scan, p) ↦ rw p (inl (v, st, gen, scan, refl, refl), refl)
  ]

  analyze-IsHonest : (now : ℕ) → IsHonest w a (analyze w a now)
  unfolding analyze build_message
  analyze-IsHonest now = elim run_detector-cases [
    | inl (r, answer, p) ↦ rw p (let (risk, same) = risk_of now r in inl (r, answer, same, risk))
    | inr (none_there, p) ↦ rw p (inr (none_there, refl, refl))
  ]

same_message :
    (kept good delivered : Bool) (x m : CameraMessage)
    → (if not kept
        then broken persist_failed
        else if not good
        then broken contract_violation
        else if not delivered
        then broken broadcast_failed
        else sent x)
      ≡ sent m
    → x ≡ m
same_message false good delivered x m h = cc
same_message true false delivered x m h = cc
same_message true true false x m h = cc
same_message true true true x m h = cc

-- Whatever the services do, a cycle that sends a message has a frame to speak of, and the message
-- comes from the detector's own answer for this scan: its boxes are the answer's, and its risk is
-- that of the language model's verdict on this scan, or else the detector's. Only when there is no
-- such answer does it say that the analysis is not available, and then it has no boxes. The JPEG may
-- be that of a later frame than the one that gives the size.
pub analyze_once-IsHonest :
    {I : Type 0} (w : Seams) (v : Vision I) (scan_id : Uuid) (now : ℕ) (c c' : VideoStreamCapture I)
    (m : CameraMessage)
    → analyze_once w v scan_id now c c' ≡ sent m
    → (bgr : I) × (jpeg : Bytes) × (c.latest_bgr ≡ some bgr)
      × (c'.latest_jpeg ≡ some jpeg)
      × IsHonest w (build_acquisition w scan_id jpeg (v.shape bgr) now) m
unfolding analyze_once latest_frame
analyze_once-IsHonest w v scan_id now c c' m h = elim (Option-cases c.latest_bgr) [
  | inl p ↦ cc (rw p at h)
  | inr (bgr, p) ↦ elim (Option-cases c'.latest_jpeg) [
    | inl q ↦ cc (rw (p, q) at h)
    | inr (jpeg, q) ↦ (
      bgr,
      jpeg,
      p,
      q,
      frame_sent (build_acquisition w scan_id jpeg (v.shape bgr) now) (w.persist scan_id jpeg)
          (rw (p, q) at h),
    )
  ]
]
  where
    frame_sent :
        (a : AcquisitionResult) (kept : Bool)
        → (if not kept
            then broken persist_failed
            else if not (acquisition_ok a)
            then broken contract_violation
            else if not (w.broadcast w.lane_id (analyze w a now))
            then broken broadcast_failed
            else sent (analyze w a now))
          ≡ sent m
        → IsHonest w a m
    frame_sent a kept h =
        subst (IsHonest w a)
          (same_message kept (acquisition_ok a) (w.broadcast w.lane_id (analyze w a now)) _ m h)
          (analyze-IsHonest w a now)

failed-clear :
    (w : Seams) (a : AcquisitionResult) (now : ℕ) (r : DetectionResult)
    → IsAnswer w a r
    → r.status ≡ failed
    → r.detections ≡ []
    → (analyze w a now).risk_band ≡ band clear
unfolding analyze build_message run_detector run_verdict
failed-clear w a now r (answer, same) f empty =
    let failing : is_failed r.status ≡ true = rw f refl in
    let findings : is_no_findings r.status ≡ false = rw f refl in
    let low : compute_risk_band r ≡ clear =
      unfold compute_risk_band has_findings in rw empty refl in
    rw (answer, (==_iff r.scan_id a.scan_id).1 same) (rw failing (rw findings (ap band low)))

-- When the run of the weapons detector fails, by an exception anywhere, its FAILED result counts as an
-- answer, and the operators are told that the risk is clear.
pub detector_failure-clear :
    {F : Type 0} (d : WeaponsDetector F) (w : Seams) (a : AcquisitionResult) (now : ℕ)
    → w.detector a ≡ ok (detect d a)
    → detect_sync d a.frames 0 ≡ raised failure
    → (analyze w a now).risk_band ≡ band clear
unfolding detect
detector_failure-clear d w a now wired raising =
    failed-clear w a now (detect d a) (wired, rw raising refl) (rw raising refl) (rw raising refl)
