-- ===== src/Camera/Capture/Blind.antt =====
-- app/api/v1/camera.py, `POST /camera/capture`: a capture without an answer of the language model.
use loyiha.Base.{
  ℕ, ◌≤◌, ◌≡◌, refl, sym, ap, subst, ◌∙◌, All, length, arith, true, some, none, ok, raised,
}
use loyiha.Contracts.Common.{Uuid, codes}
use loyiha.Contracts.Acquisition.{acquisition_ok}
use loyiha.Contracts.Verdict.{VerdictRequest, OperatorVerdict}
use loyiha.State.Session.{Db}
use loyiha.State.Store.{detection_fits}
use loyiha.Api.Access.{TokenClaims}
use loyiha.Api.Hops.{ServiceError}
use loyiha.Camera.Capture.{
  Services, Shot, CaptureAudit, captured, run_detector, generate_verdict, fallback_verdict, capture,
}
use loyiha.Camera.Capture.Stored.{verdicted_row, capture-IsCaptured}

-- When the language model's service raises, whatever the detector has found, if it fits the columns of
-- the database, the scan is stored as VERDICTED with the risk CLEAR, like one in which nothing was
-- found; the audit sink writes and the fallback's id is new.
pub capture-clear :
    (w : Services) (claims : TokenClaims) (now : ℕ → ℕ) (verdict_id scan_id : Uuid) (shot : Shot)
    (db : Db) (e : ServiceError)
    → w.saves scan_id shot ≡ true
    → acquisition_ok (captured w claims (now 0) scan_id shot) ≡ true
    → db.scan scan_id ≡ none
    → db.verdict_owner verdict_id ≡ none
    → ((row : CaptureAudit) → w.audits row ≡ true)
    → All
        (λ d. detection_fits d ≡ true)
        (run_detector w (captured w claims (now 0) scan_id shot)).detections
    → ((q : VerdictRequest) → w.generator q ≡ raised e)
    → ((capture w claims now verdict_id scan_id (ok shot) db).db.scan scan_id
        ≡ some (
            verdicted_row
              (captured w claims (now 0) scan_id shot)
              now
              (fallback_verdict verdict_id scan_id)))
capture-clear w claims now verdict_id scan_id shot db e saved good new unused writes fit mute =
    let a = captured w claims (now 0) scan_id shot in
    let same : a.scan_id ≡ scan_id = unfold captured in refl in
    let template : generate_verdict w verdict_id a.scan_id (run_detector w a)
        ≡ fallback_verdict verdict_id a.scan_id =
      unfold generate_verdict in rw (mute _) refl in
    let (answered, audited, stored) =
      capture-IsCaptured w claims now verdict_id scan_id shot db saved good new (record {
        detections_fit = fit;
        name_fits =
            subst (λ (v : OperatorVerdict). length (codes v.model.name) ≤ 64) (sym template)
              (omega arith);
        version_fits =
            subst (λ (v : OperatorVerdict). length (codes v.model.version) ≤ 32) (sym template)
              (omega arith);
        new_verdict = ap (λ (v : OperatorVerdict). db.verdict_owner v.verdict_id) template ∙ unused;
        audited = writes;
      }) in
    subst
      (λ k.
        (capture w claims now verdict_id scan_id (ok shot) db).db.scan k
        ≡ some (verdicted_row a now (fallback_verdict verdict_id k)))
      same (stored ∙ ap (λ v. some (verdicted_row a now v)) template)
