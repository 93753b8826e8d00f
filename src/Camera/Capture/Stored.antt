-- ===== src/Camera/Capture/Stored.antt =====
-- app/api/v1/camera.py, `POST /camera/capture`: what is stored of a capture.
use loyiha.Base.{
  ℕ, ◌≤◌, ◌≡◌, ◌++◌, All, if◌then◌else◌, refl, sym, ap, ◌∙◌, subst, inl, inr, true, ◌==◌, ==_iff,
  ==_refl, Bool-cases, Result-cases, some, none, Option, List, [], ◌∷◌, length, ok, raised,
}
use loyiha.Contracts.Common.{Uuid, codes}
use loyiha.Contracts.Acquisition.{AcquisitionResult, acquisition_ok}
use loyiha.Contracts.Verdict.{OperatorVerdict}
use loyiha.State.Machine.{analyzed, verdicted}
use loyiha.State.Session.{Scan, Db, Session, M}
use loyiha.State.Store.{
  record_acquisition, record_detection, record_verdict, pending_scan, add_scan, detection_fits,
}
use loyiha.State.Store.Effects.{
  fresh, record_detection-analyzed, record_verdict-analyzed, unused-verdict_fits,
}
use loyiha.Api.Access.{TokenClaims}
use loyiha.Camera.Capture.{
  Services, Shot, Captured, captured, run_detector, generate_verdict, answer, hops, capture,
  internal, committed, after, CaptureAudit, camera_captured, detect_completed, verdict_completed,
}

-- The row of a scan that has gone through both services.
abbrev pub verdicted_row : AcquisitionResult → (ℕ → ℕ) → OperatorVerdict → Scan
verdicted_row a now v = record (pending_scan a) {
  state = verdicted;
  analyzed_at = some (now 1);
  verdicted_at = some (now 2);
  overall_risk = some v.overall_risk;
}

run_detector_scan : (w : Services) (a : AcquisitionResult) → (run_detector w a).scan_id ≡ a.scan_id
unfolding run_detector
run_detector_scan w a = elim (Result-cases (w.detector a)) [
  | inr (e, p) ↦ rw p refl
  | inl (r, p) ↦ elim (Bool-cases (r.scan_id == a.scan_id)) [
    | inl q ↦ rw (p, q) ((==_iff r.scan_id a.scan_id).0 q)
    | inr q ↦ rw (p, q) refl
  ]
]

committed-ok :
    (w : Services) (step : M (Unit {0})) (row : CaptureAudit) (db : Db)
    (audited : List CaptureAudit) (next : Db → List CaptureAudit → Captured) (s : Session)
    → step (fresh db) ≡ ok (tt, s)
    → w.audits row ≡ true
    → committed w step row db audited next ≡ next s.db (audited ++ (row ∷ []))
committed-ok w step row db audited next s h writes =
    ap (λ r. after w r row db audited next) h
    ∙ ap
        (λ b.
          if b
          then next s.db (audited ++ (row ∷ []))
          else record { result = raised internal; audited = audited; db = s.db })
        writes

module _ (w : Services) (claims : TokenClaims) (now : ℕ → ℕ) (verdict_id : Uuid) where
  -- The detector's part and the verdict's, of the database and of the answer.
  abbrev pub IsCaptured : AcquisitionResult → Shot → Captured → Type 0
  IsCaptured a shot out =
      let r = run_detector w a in
      let v = generate_verdict w verdict_id a.scan_id r in
      (out.result ≡ ok (answer w claims now verdict_id a shot v))
      × (out.audited
          ≡ camera_captured a.scan_id (length shot.jpeg)
            ∷ detect_completed a.scan_id r.status (length r.detections)
            ∷ verdict_completed a.scan_id v.overall_risk
            ∷ [])
      × (out.db.scan a.scan_id ≡ some (verdicted_row a now v))

  -- What the services have said fits the columns of the database, and the verdict's id is new to it;
  -- and the audit sink writes every row.
  pub record IsAccepted (a : AcquisitionResult) (db : Db) : Type 0 where
    pub detections_fit : All (λ d. detection_fits d ≡ true) (run_detector w a).detections
    pub name_fits :
        length (codes (generate_verdict w verdict_id a.scan_id (run_detector w a)).model.name) ≤ 64
    pub version_fits :
        length (codes (generate_verdict w verdict_id a.scan_id (run_detector w a)).model.version)
        ≤ 32
    pub new_verdict :
        db.verdict_owner (generate_verdict w verdict_id a.scan_id (run_detector w a)).verdict_id
        ≡ none
    pub audited : (row : CaptureAudit) → w.audits row ≡ true

  hops-IsCaptured :
      (a : AcquisitionResult) (shot : Shot) (db : Db)
      → db.scan a.scan_id ≡ none
      → IsAccepted a db
      → IsCaptured a shot (hops w claims now verdict_id a shot db)
  unfolding hops
  hops-IsCaptured a shot db new accepted =
      let r = run_detector w a in
      let v = generate_verdict w verdict_id a.scan_id r in
      let db₁ : Db = add_scan a db in
      let acquired : record_acquisition a (fresh db) ≡ ok (tt, fresh db₁) =
        unfold record_acquisition in rw new refl in
      let row₁ : db₁.scan r.scan_id ≡ some (pending_scan a) =
        rw (run_detector_scan w a, ==_refl a.scan_id) refl in
      let (s₂, detected, row₂, owners) =
        record_detection-analyzed (now 1) r db₁ (pending_scan a) row₁ (inl refl)
          accepted.detections_fit in
      let analyzed_row : Scan = record (pending_scan a) {
        state = analyzed;
        analyzed_at = some (now 1);
      } in
      let row₂' : s₂.db.scan a.scan_id ≡ some analyzed_row =
        subst (λ k. s₂.db.scan k ≡ some analyzed_row) (run_detector_scan w a) row₂ in
      let (s₃, judged, row₃) =
        record_verdict-analyzed (now 2) v a.scan_id s₂.db analyzed_row row₂' refl (
          unused-verdict_fits a.scan_id v s₂.db accepted.name_fits accepted.version_fits
            (ap (λ (o : Uuid → Option Uuid). o v.verdict_id) owners ∙ accepted.new_verdict)) in
      let whole =
        committed-ok w (record_acquisition a) _ db _ _ _ acquired (accepted.audited _)
        ∙ committed-ok w (record_detection (now 1) r) _ db₁ _ _ _ detected (accepted.audited _)
        ∙ committed-ok w (record_verdict (now 2) v a.scan_id) _ s₂.db _ _ _ judged
            (accepted.audited _) in
      subst (IsCaptured a shot) (sym whole) (refl, refl, row₃)

  -- A capture whose frame is saved and within the contract's bounds, under an id that no scan has,
  -- succeeds when what the services have said fits the database's columns, the verdict's id is new and
  -- the audit sink writes, even if a service has failed: the answer and the stored row have the risk of one
  -- verdict, the scan is VERDICTED, and there are three audit rows, in order.
  pub capture-IsCaptured :
      (scan_id : Uuid) (shot : Shot) (db : Db)
      → w.saves scan_id shot ≡ true
      → acquisition_ok (captured w claims (now 0) scan_id shot) ≡ true
      → db.scan scan_id ≡ none
      → IsAccepted (captured w claims (now 0) scan_id shot) db
      → IsCaptured
          (captured w claims (now 0) scan_id shot)
          shot
          (capture w claims now verdict_id scan_id (ok shot) db)
  unfolding capture
  capture-IsCaptured scan_id shot db saved good new accepted =
      let same : (captured w claims (now 0) scan_id shot).scan_id ≡ scan_id =
        unfold captured in refl in
      rw (saved, good)
        (hops-IsCaptured (captured w claims (now 0) scan_id shot) shot db (ap db.scan same ∙ new)
          accepted)
