-- ===== src/Api/Hops.antt =====
-- app/api/v1/detect.py, verdict.py and feedback.py: the hops of a scan from one component to the
-- next. The services are parameters, which return or raise. The audit rows of a call and the
-- messages it pushes stay when the call fails; its session is rolled back, and the label queue,
-- which is a file, is not.
pub mod Served
pub mod Banked
use loyiha.Base.{
  ℕ, Bool, true, false, Option, none, some, List, [], ◌∷◌, ◌++◌, String, if◌then◌else◌, length,
  Result, ok, raised,
}
use loyiha.Contracts.Common.{Uuid, RiskBand, high, medium}
use loyiha.Contracts.Acquisition.{AcquisitionResult}
use loyiha.Contracts.Detection.{DetectionResult, Check}
use loyiha.Contracts.Verdict.{VerdictRequest, OperatorVerdict, validate_referential_integrity}
use loyiha.Contracts.Feedback.{OperatorFeedback, OperatorOutcome, FeedbackReceipt}
use loyiha.State.Machine.{StoreError}
use loyiha.State.Session.{Scan, Session, M}
use loyiha.State.Store.{get, record_acquisition, record_detection, record_verdict, record_feedback}

-- 501, 502, and what an exception that no handler names becomes
pub data HopError : Type 0 where
  not_implemented invalid_verdict internal : HopError

-- `ServiceNotImplemented`, and any other exception of a service
pub data ServiceError : Type 0 where
  service_not_implemented service_failed : ServiceError

pub data HopAudit : Type 0 where
  detect_received detect_completed : Uuid → HopAudit
  verdict_received verdict_rejected verdict_completed : Uuid → HopAudit
  feedback_received feedback_banked : Uuid → HopAudit

pub data Push : Type 0 where
  scan_flagged : Uuid → Option String → RiskBand → ℕ → Push
  scan_decided : Uuid → Option String → OperatorOutcome → Push

-- What a call leaves behind.
pub record Hop (A : Type 0) : Type 0 where
  pub result : Result HopError (A × Session)
  pub audited : List HopAudit
  pub pushed : List Push

abbrev pub failed_with : {A : Type 0} → HopError → List HopAudit → Hop A
failed_with e audited = record { result = raised e; audited = audited; pushed = [] }

abbrev service_error : ServiceError → HopError
service_error service_not_implemented = not_implemented
service_error service_failed = internal

-- `POST /detect`
unfoldable pub detect :
    (AcquisitionResult → Result ServiceError DetectionResult)
    → ℕ
    → AcquisitionResult
    → Session
    → Hop DetectionResult
detect detector now a s = elim (record_acquisition a s) [
  | raised e ↦ failed_with internal []
  | ok (done, s₁) ↦ elim (detector a) [
    | raised e ↦ failed_with (service_error e) (detect_received a.scan_id ∷ [])
    | ok r ↦ elim (record_detection now r s₁) [
      | raised e ↦ failed_with internal (detect_received a.scan_id ∷ [])
      | ok (stored, s₂) ↦ record {
        result = ok (r, s₂);
        audited = detect_received a.scan_id ∷ detect_completed r.scan_id ∷ [];
        pushed = [];
      }
    ]
  ]
]

abbrev pub is_flagged : RiskBand → Bool
is_flagged high = true
is_flagged medium = true
is_flagged _ = false

abbrev lane_of : Option Scan → Option String
lane_of none = none
lane_of (some row) = row.lane_id

-- the message of a flagged scan, with the row read for its lane
abbrev pub flag_pushed :
    OperatorVerdict
    → List HopAudit
    → Result StoreError (Option Scan × Session)
    → Hop OperatorVerdict
flag_pushed v audited (raised e) = failed_with internal audited
flag_pushed v audited (ok (found, s')) = record {
  result = ok (v, s');
  audited = audited;
  pushed = scan_flagged v.scan_id (lane_of found) v.overall_risk (length v.per_detection) ∷ [];
}

-- after the store
abbrev pub stored_verdict :
    VerdictRequest → OperatorVerdict → Result StoreError (Unit {0} × Session) → Hop OperatorVerdict
stored_verdict q v (raised e) = failed_with internal (verdict_received q.scan_id ∷ [])
stored_verdict q v (ok (done, s')) =
    let audited = verdict_received q.scan_id ∷ verdict_completed v.scan_id ∷ [] in
    if is_flagged v.overall_risk
    then flag_pushed v audited (get v.scan_id s')
    else (record { result = ok (v, s'); audited = audited; pushed = [] })

-- what the guard says of a verdict
abbrev pub guarded : ℕ → VerdictRequest → OperatorVerdict → Session → Check → Hop OperatorVerdict
guarded now q v s (ok passed) = stored_verdict q v (record_verdict now v v.scan_id s)
guarded now q v s (raised e) =
    failed_with invalid_verdict (verdict_received q.scan_id ∷ verdict_rejected q.scan_id ∷ [])

abbrev pub generated :
    ℕ → VerdictRequest → Session → Result ServiceError OperatorVerdict → Hop OperatorVerdict
generated now q s (ok v) = guarded now q v s (validate_referential_integrity q v)
generated now q s (raised e) = failed_with (service_error e) (verdict_received q.scan_id ∷ [])

-- `POST /verdict`
unfoldable pub verdict :
    (VerdictRequest → Result ServiceError OperatorVerdict)
    → ℕ
    → VerdictRequest
    → Session
    → Hop OperatorVerdict
verdict generator now q s = generated now q s (generator q)

-- the end of `submit_feedback`, after the sink
unfoldable pub bank_feedback :
    ℕ → OperatorFeedback → FeedbackReceipt → Session → Hop FeedbackReceipt
bank_feedback now f receipt s = elim (record_feedback now f receipt s) [
  | raised e ↦ failed_with internal (feedback_received f.scan_id ∷ [])
  | ok (done, s₁) ↦ elim (get f.scan_id s₁) [
    | raised e ↦ failed_with internal (feedback_received f.scan_id ∷ feedback_banked f.scan_id ∷ [])
    | ok (found, s₂) ↦ record {
      result = ok (receipt, s₂);
      audited = feedback_received f.scan_id ∷ feedback_banked f.scan_id ∷ [];
      pushed = scan_decided f.scan_id (lane_of found) f.outcome ∷ [];
    }
  ]
]

-- `POST /feedback`, over a sink that keeps its labels in `L`
unfoldable pub submit_feedback :
    {L : Type 0}
    → (OperatorFeedback → L → Result ServiceError (FeedbackReceipt × L))
    → ℕ
    → OperatorFeedback
    → L
    → Session
    → Hop FeedbackReceipt × L
submit_feedback sink now f labels s = elim (sink f labels) [
  | raised e ↦ (failed_with (service_error e) (feedback_received f.scan_id ∷ []), labels)
  | ok (receipt, labels') ↦ (bank_feedback now f receipt s, labels')
]
