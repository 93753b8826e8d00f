-- ===== src/Vlm/Generator/Length.antt =====
-- vlm/generator.py: the generator fails only on a summary that is too long for the contract, which
-- many detections always make.
use loyiha.Base.{
  ℕ, suc, ◌+◌, ◌*◌, ◌^◌, ◌≤◌, ◌<◌, ◌≡◌, ◌≢◌, refl, ap, ◌⊎◌, inl, inr, Bool, true, false, ltb,
  Option, List, [], ◌∷◌, ◌++◌, arith, Bool-cases, In, IsDistinct, map, All, length, length-append,
  is_empty, Result, ok, raised,
}
use loyiha.Contracts.Common.{Text, codes, Uuid, RiskBand, ImageFrame}
use loyiha.Contracts.Detection.{
  Detection, DetectionResult, detection_ids, frame_by_id, has_findings,
}
use loyiha.Contracts.Detection.Consistency.{IsConsistent}
use loyiha.Contracts.Detection.Frames.{IsPlaced}
use loyiha.Contracts.Verdict.{
  VerdictRequest, OperatorVerdict, DetectionVerdict, risk_payload_consistency,
}
use loyiha.Contracts.Verdict.Integrity.{risk_payload_consistency_iff}
use loyiha.Vlm.Generator.Rationale.{append_text_disclaimer-fits}
use loyiha.Vlm.Generator.Verdict.{process_detections-AreFor, risk-clear_iff, verdict_well_formed}
use loyiha.Vlm.Prompts.{build_summary, blocks, decimal, risk_label_uz, newline, disclaimer}
use loyiha.Vlm.Generator.{
  Generator, GeneratorError, summary_too_long, append_text_disclaimer, note_of, rationale_of,
  slots_of, frame_of, first_or, process_detection, process_detections, build_verdict, generate,
  generate_clear, generate_found, clear_verdict, found_verdict,
}

length-note_of : (b : Bool) → 70 ≤ length (note_of b)
length-note_of true = omega arith
length-note_of false = omega arith

rationale_of-long : (body : Text) (b : Bool) → 70 ≤ length (append_text_disclaimer body b)
unfolding append_text_disclaimer
rationale_of-long body b = rw (length-append _ (note_of b)) (omega (arith, length-note_of b))

within : {n : ℕ} → n ≤ 2000 → ltb 2000 n ≡ false
within h = ground (arith, h)

frame_found :
    (r : DetectionResult) (d : Detection)
    → r.frames ≢ []
    → (frame : ImageFrame) × (frame_of r d ≡ ok frame)
unfolding frame_of
frame_found r d n = go r.frames (frame_by_id r.frames d.frame_id) n
  where
    go :
        (fs : List ImageFrame) (o : Option ImageFrame)
        → fs ≢ []
        → (frame : ImageFrame) × (first_or fs o ≡ ok frame)
    go [] o m = absurd (m refl)
    go (f ∷ fs) o m = (_, refl)

-- a text is as long as its parts
before : (a b : Text) {n : ℕ} → n ≤ length a → n ≤ length (a ++ b)
before a b h = rw (length-append a b) (omega arith)

both : (a b : Text) {m n : ℕ} → m ≤ length a → n ≤ length b → m + n ≤ length (a ++ b)
both a b h k = rw (length-append a b) (omega arith)

blocks-long :
    (i : ℕ) (rs : List Text) → All (λ r. 70 ≤ length r) rs → 80 * length rs ≤ length (blocks i rs)
unfolding blocks
blocks-long i [] h = omega arith
blocks-long i (r ∷ rs) (h, hs) =
    let number = codes "[ " ++ decimal i in
    let title = number ++ codes "-predmet ]" ++ newline in
    let titled : 10 ≤ length title =
      before (number ++ codes "-predmet ]") newline
        (both number (codes "-predmet ]") {m = 0} {n = 10} (omega arith) (omega arith)) in
    let block = title ++ r ++ newline in
    let long = before block newline (before (title ++ r) newline (both title r titled h)) in
    omega (arith, both (block ++ newline) (blocks (i + 1) rs) long (blocks-long (i + 1) rs hs))

build_summary-long :
    (risk : RiskBand) (rs : List Text)
    → All (λ r. 70 ≤ length r) rs
    → 50 ≤ length rs
    → 4000 < length (build_summary risk rs)
unfolding build_summary
build_summary-long risk rs h n =
    let head =
      codes "Xavf darajasi: "
      ++ risk_label_uz risk
      ++ newline
      ++ codes "Aniqlangan shubhali predmetlar soni: "
      ++ decimal (length rs)
      ++ newline
      ++ newline in
    omega (
      arith,
      both (head ++ blocks 1 rs) disclaimer {n = 10}
          (both head (blocks 1 rs) {m = 0} (omega arith) (blocks-long 1 rs h)) (omega arith),
    )

-- every comment of the detections carries a long note
process_detections-long :
    (g : Generator) (r : DetectionResult) (ds : List Detection) (calls : ℕ)
    → r.frames ≢ []
    → (out : List DetectionVerdict × ℕ) × (process_detections g r ds calls ≡ ok out)
      × All (λ t. 70 ≤ length t) (map (λ dv. dv.rationale_uz) out.0)
      × (length (map (λ dv. dv.rationale_uz) out.0) ≡ length ds)
unfolding process_detections process_detection rationale_of
process_detections-long g r [] calls n = (([], calls), refl, tt, refl)
process_detections-long g r (d ∷ ds) calls n =
    let (frame, found) = frame_found r d n in
    let (out, run, long, same) = process_detections-long g r ds (slots_of g d frame calls).1 n in
    let dv : DetectionVerdict = record {
      detection_id = d.detection_id;
      category = d.category;
      rationale_uz = rationale_of g d (slots_of g d frame calls).0;
      confidence = 18014398509481984 * 2 ^ 1019;
    } in
    let short : ltb 2000 (length (rationale_of g d (slots_of g d frame calls).0)) ≡ false =
      within (append_text_disclaimer-fits _ _).0 in
    ((dv ∷ out.0, out.1), rw (found, short, run) refl, (rationale_of-long _ _, long), ap suc same)

build_verdict-ends :
    (v : OperatorVerdict)
    → risk_payload_consistency v ≡ ok tt
    → (build_verdict v ≡ ok v) ⊎ (build_verdict v ≡ raised summary_too_long)
unfolding build_verdict
build_verdict-ends v formed = elim (Bool-cases (ltb 4000 (length v.summary_uz))) [
  | inl long ↦ inr (rw long)
  | inr short ↦ inl (rw (short, formed) refl)
]

-- The two ways in which a run of the generator ends.
abbrev Ends : Result GeneratorError (OperatorVerdict × ℕ) → Type 0
Ends run = ((out : OperatorVerdict × ℕ) × (run ≡ ok out)) ⊎ (run ≡ raised summary_too_long)

generate_found-Ends :
    (g : Generator) (verdict_id : Uuid) (q : VerdictRequest) (calls : ℕ)
    → q.detection.frames ≢ []
    → IsDistinct (detection_ids q.detection.detections)
    → Ends (generate_found g verdict_id q calls)
unfolding generate_found found_verdict
generate_found-Ends g verdict_id q calls n d =
    let (out, run, long, same) =
      process_detections-long g q.detection q.detection.detections calls n in
    let w = process_detections-AreFor g q.detection q.detection.detections calls out run in
    let formed =
      verdict_well_formed q (found_verdict g verdict_id q out.0) d (risk-clear_iff q.detection)
        w.same_ids in
    elim (build_verdict-ends (found_verdict g verdict_id q out.0) formed) [
      | inl e ↦ inl ((found_verdict g verdict_id q out.0, out.1), rw (run, e) refl)
      | inr e ↦ inr (rw (run, e) refl)
    ]

clear-formed :
    (g : Generator) (verdict_id : Uuid) (q : VerdictRequest)
    → risk_payload_consistency (clear_verdict g verdict_id q) ≡ ok tt
unfolding clear_verdict
clear-formed g verdict_id q =
    (risk_payload_consistency_iff (clear_verdict g verdict_id q)).1
      (record { clear_empty = λ e. refl; distinct = tt })

some_frame : (fs : List ImageFrame) (f : ImageFrame) → In f fs → fs ≢ []
some_frame [] f i = absurd i
some_frame (g ∷ gs) f i = λ e. cc

generate-clear :
    (g : Generator) (verdict_id : Uuid) (q : VerdictRequest) (calls : ℕ)
    → is_empty q.detection.detections ≡ true
    → generate g verdict_id q calls ≡ generate_clear g verdict_id q calls
unfolding generate has_findings
generate-clear g verdict_id q calls h = rw h

generate-found :
    (g : Generator) (verdict_id : Uuid) (q : VerdictRequest) (calls : ℕ)
    → is_empty q.detection.detections ≡ false
    → generate g verdict_id q calls ≡ generate_found g verdict_id q calls
unfolding generate has_findings
generate-found g verdict_id q calls h = rw h

-- On a consistent request the generator returns a verdict, or it raises since the summary is longer
-- than the 4000 characters of the contract: no rationale is beyond its 2000 characters, the verdict
-- passes its own validator, and a frame is there for each detection.
pub generate-Ends :
    (g : Generator) (verdict_id : Uuid) (q : VerdictRequest) (calls : ℕ)
    → IsConsistent q.detection
    → Ends (generate g verdict_id q calls)
unfolding generate_clear
generate-Ends g verdict_id q calls w = elim (Bool-cases (is_empty q.detection.detections)) [
  | inl e ↦
      rw (generate-clear g verdict_id q calls e)
        (elim (build_verdict-ends (clear_verdict g verdict_id q) (clear-formed g verdict_id q)) [
          | inl b ↦ inl ((clear_verdict g verdict_id q, calls), rw b refl)
          | inr b ↦ inr (rw b refl)
        ])
  | inr e ↦ rw (generate-found g verdict_id q calls e) (
      generate_found-Ends g verdict_id q calls (framed q.detection.detections e w.placed)
        w.detections_distinct)
]
  where
    framed :
        (ds : List Detection)
        → is_empty ds ≡ false
        → All (λ d. IsPlaced q.detection.frames d.frame_id d.box) ds
        → q.detection.frames ≢ []
    framed [] e p = cc
    framed (d ∷ ds) e p = some_frame q.detection.frames p.0.frame p.0.listed

too_long :
    (g : Generator) (verdict_id : Uuid) (q : VerdictRequest) (dvs : List DetectionVerdict)
    → All (λ t. 70 ≤ length t) (map (λ dv. dv.rationale_uz) dvs)
    → 50 ≤ length (map (λ dv. dv.rationale_uz) dvs)
    → ltb 4000 (length (found_verdict g verdict_id q dvs).summary_uz) ≡ true
unfolding found_verdict
too_long g verdict_id q dvs long many = beyond _ (build_summary-long _ _ long many)
  where
    beyond : (n : ℕ) → 4000 < n → ltb 4000 n ≡ true
    beyond n h = ground arith

-- A request with fifty detections or more never gets a verdict: the note under each rationale alone
-- makes the summary longer than the contract allows, so building the message raises.
pub generate-too_many :
    (g : Generator) (verdict_id : Uuid) (q : VerdictRequest) (calls : ℕ)
    → q.detection.frames ≢ []
    → 50 ≤ length q.detection.detections
    → generate g verdict_id q calls ≡ raised summary_too_long
unfolding generate_found build_verdict
generate-too_many g verdict_id q calls n many =
    let (out, run, long, same) =
      process_detections-long g q.detection q.detection.detections calls n in
    let e : ltb 4000 (length (found_verdict g verdict_id q out.0).summary_uz) ≡ true =
      too_long g verdict_id q out.0 long (omega (arith, same, many)) in
    rw (generate-found g verdict_id q calls (found q.detection.detections many), run, e) refl
  where
    found : (ds : List Detection) → 50 ≤ length ds → is_empty ds ≡ false
    found [] m = absurd (omega arith)
    found (d ∷ ds) m = refl
