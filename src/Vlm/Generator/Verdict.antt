-- ===== src/Vlm/Generator/Verdict.antt =====
-- vlm/generator.py: the verdict is one that the contract and the service accept.
use loyiha.Base.{
  ℕ, ◌+◌, ◌*◌, ◌≤◌, ◌≡◌, refl, sym, ap, ◌∙◌, inl, inr, true, ltb, List, [], ◌∷◌, arith, Bool-cases,
  All, In, All-In, IsDistinct, length, is_empty, ok, ok_inj, >>=-eq-ok, raise_if, subst, ◌↔◌,
}
use loyiha.Contracts.Common.{Uuid, clear}
use loyiha.Contracts.Detection.{Detection, DetectionResult, detection_ids, has_findings}
use loyiha.Contracts.Detection.Consistency.{IsConsistent}
use loyiha.Contracts.Verdict.{
  VerdictRequest, OperatorVerdict, DetectionVerdict, verdict_ids, validate_referential_integrity,
  risk_payload_consistency,
}
use loyiha.Contracts.Verdict.Integrity.{validate_iff, risk_payload_consistency_iff}
use loyiha.Vlm.Prompts.{compute_risk_band}
use loyiha.Vlm.Generator.{
  Generator, process_detection, process_detections, generate, generate_clear, generate_found,
  clear_verdict, found_verdict, build_verdict, rationale_of, frame_of, payload_of,
  rationale_too_long, slots_of,
}
use loyiha.Vlm.Generator.Slots.{slots_of_lem}
use loyiha.Vlm.Generator.Rationale.{append_text_disclaimer-fits}

-- One verdict for each detection, in order, each within the contract's bound.
pub record AreFor (ds : List Detection) (calls : ℕ) (out : List DetectionVerdict × ℕ) : Type 0 where
  pub same_ids : verdict_ids out.0 ≡ detection_ids ds
  bounded : All (λ dv. length dv.rationale_uz ≤ 2000) out.0
  few : out.1 ≤ calls + 2 * length ds

abbrev IsFor : Detection → ℕ → DetectionVerdict × ℕ → Type 0
IsFor d calls (dv, calls') =
    (dv.detection_id ≡ d.detection_id) × (length dv.rationale_uz ≤ 2000) × (calls' ≤ calls + 2)

process_detection-IsFor :
    (g : Generator) (r : DetectionResult) (d : Detection) (calls : ℕ) (out : DetectionVerdict × ℕ)
    → process_detection g r d calls ≡ ok out
    → IsFor d calls out
unfolding process_detection rationale_of
process_detection-IsFor g r d calls out h =
    let (frame, found, built) = >>=-eq-ok (frame_of r d) _ h in
    let (slots, calls') = slots_of g d frame calls in
    let (passed, short, made) =
      >>=-eq-ok (raise_if (ltb 2000 (length (rationale_of g d slots))) rationale_too_long) _
        built in
    subst (IsFor d calls) (ok_inj made)
      (refl, (append_text_disclaimer-fits _ _).0, (slots_of_lem g d frame calls).1)

pub process_detections-AreFor :
    (g : Generator) (r : DetectionResult) (ds : List Detection) (calls : ℕ)
    (out : List DetectionVerdict × ℕ)
    → process_detections g r ds calls ≡ ok out
    → AreFor ds calls out
unfolding process_detections
process_detections-AreFor g r [] calls out h =
    subst (AreFor [] calls) (ok_inj h) (record { same_ids = refl; bounded = tt; few = omega arith })
process_detections-AreFor g r (d ∷ ds) calls out h =
    let ((dv, calls'), one, h') = >>=-eq-ok (process_detection g r d calls) _ h in
    let ((dvs, calls''), rest, h'') = >>=-eq-ok (process_detections g r ds calls') _ h' in
    let (same, bound, few) = process_detection-IsFor g r d calls (dv, calls') one in
    let ih = process_detections-AreFor g r ds calls' (dvs, calls'') rest in
    subst (AreFor (d ∷ ds) calls) (ok_inj h'') (record {
      same_ids = rw (same, ih.same_ids);
      bounded = (bound, ih.bounded);
      few = omega (arith, ih.few);
    })

pub risk-clear_iff : (r : DetectionResult) → (compute_risk_band r ≡ clear) ↔ (r.detections ≡ [])
unfolding compute_risk_band has_findings
risk-clear_iff r = (λ h. ground (arith, h), λ h. rw h)

-- What a generated verdict promises to the service and to the operator.
pub record IsVerdictFor (q : VerdictRequest) (calls : ℕ) (v : OperatorVerdict) (calls' : ℕ)
    : Type 0 where
  pub stays_within : validate_referential_integrity q v ≡ ok tt
  pub well_formed : risk_payload_consistency v ≡ ok tt
  pub complete : verdict_ids v.per_detection ≡ detection_ids q.detection.detections
  pub bounded : All (λ dv. length dv.rationale_uz ≤ 2000) v.per_detection
  pub short : length v.summary_uz ≤ 4000
  pub clear_iff : (v.overall_risk ≡ clear) ↔ (q.detection.detections ≡ [])
  pub few : calls' ≤ calls + 2 * length q.detection.detections

build_verdict-eq-ok :
    (v out : OperatorVerdict) → build_verdict v ≡ ok out → (out ≡ v) × (length v.summary_uz ≤ 4000)
unfolding build_verdict
build_verdict-eq-ok v out h = elim (Bool-cases (ltb 4000 (length v.summary_uz))) [
  | inl long ↦ cc (rw long at h)
  | inr short ↦
      let (passed, checked, made) =
        >>=-eq-ok (payload_of (risk_payload_consistency v)) _ (rw short at h) in
      (sym (ok_inj made), ground (arith, short))
]

In-verdict_ids :
    (dvs : List DetectionVerdict) (dv : DetectionVerdict)
    → In dv dvs
    → In dv.detection_id (verdict_ids dvs)
In-verdict_ids [] dv i = absurd i
In-verdict_ids (x ∷ xs) dv (inl e) = inl (ap (λ (y : DetectionVerdict). y.detection_id) e)
In-verdict_ids (x ∷ xs) dv (inr i) = inr (In-verdict_ids xs dv i)

nil-verdict_ids : (dvs : List DetectionVerdict) → verdict_ids dvs ≡ [] → dvs ≡ []
nil-verdict_ids [] e = refl
nil-verdict_ids (x ∷ xs) e = cc

-- A verdict that comments on each detection once passes its own validator.
pub verdict_well_formed :
    (q : VerdictRequest) (v : OperatorVerdict)
    → IsDistinct (detection_ids q.detection.detections)
    → (v.overall_risk ≡ clear) ↔ (q.detection.detections ≡ [])
    → verdict_ids v.per_detection ≡ detection_ids q.detection.detections
    → risk_payload_consistency v ≡ ok tt
verdict_well_formed q v d risk same =
    (risk_payload_consistency_iff v).1
      (record { clear_empty = λ e. empty (risk.0 e); distinct = rw same d })
  where
    empty : q.detection.detections ≡ [] → v.per_detection ≡ []
    empty e = nil-verdict_ids v.per_detection (same ∙ ap detection_ids e)

promise :
    (q : VerdictRequest) (calls : ℕ) (v : OperatorVerdict) (calls' : ℕ)
    → IsDistinct (detection_ids q.detection.detections)
    → v.scan_id ≡ q.scan_id
    → (v.overall_risk ≡ clear) ↔ (q.detection.detections ≡ [])
    → length v.summary_uz ≤ 4000
    → AreFor q.detection.detections calls (v.per_detection, calls')
    → IsVerdictFor q calls v calls'
promise q calls v calls' d scan risk short w = record {
  stays_within = (validate_iff q v).1 (record {
    same_scan = scan;
    known = rw (← w.same_ids) (All-In _ v.per_detection (In-verdict_ids v.per_detection));
  });
  well_formed = verdict_well_formed q v d risk w.same_ids;
  complete = w.same_ids;
  bounded = w.bounded;
  short = short;
  clear_iff = risk;
  few = w.few;
}

abbrev Promised : VerdictRequest → ℕ → OperatorVerdict × ℕ → Type 0
Promised q calls (v, calls') = IsVerdictFor q calls v calls'

generate_clear-Promised :
    (g : Generator) (verdict_id : Uuid) (q : VerdictRequest) (calls : ℕ) (out : OperatorVerdict × ℕ)
    → q.detection.detections ≡ []
    → generate_clear g verdict_id q calls ≡ ok out
    → Promised q calls out
unfolding generate_clear clear_verdict
generate_clear-Promised g verdict_id q calls out e h =
    let (v, built, h') = >>=-eq-ok (build_verdict (clear_verdict g verdict_id q)) _ h in
    let (same, short) = build_verdict-eq-ok (clear_verdict g verdict_id q) v built in
    subst (Promised q calls) (ok_inj h') (
      rw same (
        promise q calls (clear_verdict g verdict_id q) calls (rw e tt) refl (λ h. e, λ h. refl)
          short (record { same_ids = rw e refl; bounded = tt; few = omega arith })))

generate_found-Promised :
    (g : Generator) (verdict_id : Uuid) (q : VerdictRequest) (calls : ℕ) (out : OperatorVerdict × ℕ)
    → IsDistinct (detection_ids q.detection.detections)
    → generate_found g verdict_id q calls ≡ ok out
    → Promised q calls out
unfolding generate_found
generate_found-Promised g verdict_id q calls out d h =
    let ((dvs, calls'), run, h') =
      >>=-eq-ok (process_detections g q.detection q.detection.detections calls) _ h in
    let (v, built, h'') = >>=-eq-ok (build_verdict (found_verdict g verdict_id q dvs)) _ h' in
    let (same, short) = build_verdict-eq-ok (found_verdict g verdict_id q dvs) v built in
    let w =
      process_detections-AreFor g q.detection q.detection.detections calls (dvs, calls') run in
    subst (Promised q calls) (ok_inj h'') (rw same (found dvs calls' short w))
  where
    found :
        (dvs : List DetectionVerdict) (calls' : ℕ)
        → length (found_verdict g verdict_id q dvs).summary_uz ≤ 4000
        → AreFor q.detection.detections calls (dvs, calls')
        → IsVerdictFor q calls (found_verdict g verdict_id q dvs) calls'
    found dvs calls' short w =
        unfold found_verdict in
        promise q calls (found_verdict g verdict_id q dvs) calls' d refl
          (risk-clear_iff q.detection) short w

-- A verdict that the generator returns for a consistent request passes the two guards that the
-- service puts it through, comments on every detection once and in order, stays within the
-- contract's bounds on texts, is clear exactly when the detector found nothing, and took at most two
-- calls of the model for each detection.
pub generate-IsVerdictFor :
    (g : Generator) (verdict_id : Uuid) (q : VerdictRequest) (calls : ℕ) (out : OperatorVerdict × ℕ)
    → IsConsistent q.detection
    → generate g verdict_id q calls ≡ ok out
    → IsVerdictFor q calls out.0 out.1
unfolding generate has_findings
generate-IsVerdictFor g verdict_id q calls out w h =
    elim (Bool-cases (is_empty q.detection.detections)) [
      | inl e ↦
          generate_clear-Promised g verdict_id q calls out (nothing q.detection.detections e)
            (rw e at h)
      | inr e ↦ generate_found-Promised g verdict_id q calls out w.detections_distinct (rw e at h)
    ]
  where
    nothing : (ds : List Detection) → is_empty ds ≡ true → ds ≡ []
    nothing [] e = refl
    nothing (d ∷ ds) e = cc
