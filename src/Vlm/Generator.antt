-- ===== src/Vlm/Generator.antt =====
-- vlm/generator.py: the verdict on a scan, with the model's text where the guard lets it through.
-- What lies outside is the record `Services`: the store's bytes, the files, the model's answer to
-- its n-th call. Bytes stay out of reach, so an image is only there or not. The static system
-- message and the times are left out; the random ids are an argument.
pub mod Rationale
pub mod Slots
pub mod Verdict
pub mod Length
use loyiha.Base.{
  ℕ, zero, suc, ◌+◌, ◌-◌, ◌*◌, ◌^◌, Bool, true, false, not, ◌&&◌, ◌||◌, leb, ltb, Option, none,
  some, List, [], ◌∷◌, ◌++◌, if◌then◌else◌, length, is_empty, any, map, take, Result, ok, raised,
  raise_if, ◌>>=◌, ◌>>◌,
}
use loyiha.Contracts.Common.{
  Text, codes, Uuid, Score, StorageRef, ImageFrame, ModelProvenance, clear,
}
use loyiha.Contracts.Detection.{Check, Detection, DetectionResult, frame_by_id, has_findings}
use loyiha.Contracts.Verdict.{
  VerdictRequest, DetectionVerdict, OperatorVerdict, risk_payload_consistency,
}
use loyiha.Datalayer.Labels.{or_else}
use loyiha.Vlm.Text.{Unicode, strip_right}
use loyiha.Vlm.Guard.{GuardResult, check}
use loyiha.Vlm.Prompts.{
  Floats, FilledSlots, newline, fallback_tavsif, fallback_sabab, extract_slots, assemble_rationale,
  clear_summary, build_summary, compute_risk_band,
}
use loyiha.Vlm.Prompts.Facts.{deterministic_slots}
use loyiha.Vlm.Prompts.Request.{build_slot_prompt}

-- `_store.get`, `open` of a frame's file, and `_backend.generate`, which gives nothing when it raises
pub record Services : Type 0 where
  pub has_crop : StorageRef → Bool
  pub has_file : ImageFrame → Bool
  pub generate : ℕ → Text → Option Text

pub record Generator : Type 0 where
  pub unicode : Unicode
  pub floats : Floats
  pub services : Services
  pub provenance : ModelProvenance
  pub describe : Bool

pub data GeneratorError : Type 0 where
  index_error rationale_too_long summary_too_long inconsistent_risk : GeneratorError

abbrev disclaimer_model : Text
disclaimer_model =
    codes
      "Eslatma: tavsif matni model tomonidan yozilgan, tasdiqlanmagan — qaror detektorning kalibrlangan ballariga asoslanadi."

abbrev disclaimer_fallback : Text
disclaimer_fallback =
    codes "Eslatma: model matni ishlatilmadi; tavsif detektor faktlaridan tuzildi."

abbrev pub note_of : Bool → Text
note_of is_fallback = newline ++ (if is_fallback then disclaimer_fallback else disclaimer_model)

-- `_append_text_disclaimer`, with 8230 for the ellipsis
unfoldable pub append_text_disclaimer : Text → Bool → Text
append_text_disclaimer rationale is_fallback =
    let tail = note_of is_fallback in
    let budget = 2000 - length tail in
    (if ltb budget (length rationale)
      then strip_right (take (budget - 1) rationale) ++ (8230 ∷ [])
      else rationale)
    ++ tail

abbrev pub fallback_slots : FilledSlots
fallback_slots = record { tavsif = fallback_tavsif; sabab = fallback_sabab; fallback = true }

unfoldable pub any_non_retryable : GuardResult → Bool
any_non_retryable r = any (λ v. not v.retryable) r.violations

-- the detector's facts, unless the model was asked and its slots are whole and passed
abbrev pub choose : Bool → FilledSlots → FilledSlots × Bool × ℕ → ℕ → FilledSlots × ℕ
choose false facts filled calls = (facts, calls)
choose true facts (slots, used_fallback, calls') calls =
    (if used_fallback || slots.fallback then facts else slots, calls')

abbrev pub payload_of : Check → Result GeneratorError (Unit {0})
payload_of (ok passed) = ok tt
payload_of (raised e) = raised inconsistent_risk

-- what pydantic asks of the message when it is built: the bound on `summary_uz`, then the validator
unfoldable pub build_verdict : OperatorVerdict → Result GeneratorError OperatorVerdict
build_verdict v = do
  raise_if (ltb 4000 (length v.summary_uz)) summary_too_long
  payload_of (risk_payload_consistency v)
  ok v

abbrev pub first_or : List ImageFrame → Option ImageFrame → Result GeneratorError ImageFrame
first_or [] found = raised index_error
first_or (f ∷ fs) found = ok (or_else found f)

-- `next((f for f in frames if ...), frames[0])`; the default is computed in any case
unfoldable pub frame_of : DetectionResult → Detection → Result GeneratorError ImageFrame
frame_of r d = first_or r.frames (frame_by_id r.frames d.frame_id)

module _ (g : Generator) where
  unfoldable pub load_crop : Detection → Bool
  load_crop d = crop_of d.crop
    where
      crop_of : Option StorageRef → Bool
      crop_of none = false
      crop_of (some ref) = g.services.has_crop ref

  -- The loop of `_fill_slots` with so many attempts left: the slots, whether they are the
  -- template's, and the number of calls of the model so far.
  unfoldable pub attempts : ℕ → Text → ℕ → FilledSlots × Bool × ℕ
  attempts zero prompt calls = (fallback_slots, true, calls)
  attempts (suc left) prompt calls =
      judge (g.services.generate calls prompt) (attempts left prompt (calls + 1))
    where
      judge : Option Text → FilledSlots × Bool × ℕ → FilledSlots × Bool × ℕ
      judge none again = (fallback_slots, true, calls + 1)
      judge (some raw) again =
          let slots = extract_slots g.unicode raw in
          let tavsif_result = check g.unicode slots.tavsif in
          let sabab_result = check g.unicode slots.sabab in
          if tavsif_result.passed && sabab_result.passed
          then (slots, false, calls + 1)
          else if any_non_retryable tavsif_result || any_non_retryable sabab_result
          then (fallback_slots, true, calls + 1)
          else again

  -- `_MAX_RETRIES + 1`
  abbrev pub max_attempts : ℕ
  max_attempts = 2

  unfoldable pub fill_slots : Detection → ImageFrame → Bool → Bool → ℕ → FilledSlots × Bool × ℕ
  fill_slots d frame has_image full_frame calls =
      attempts max_attempts
        (build_slot_prompt g.floats d frame.width_px frame.height_px has_image full_frame) calls

  -- the slots of `_process_detection`
  unfoldable pub slots_of : Detection → ImageFrame → ℕ → FilledSlots × ℕ
  slots_of d frame calls =
      let facts = deterministic_slots g.floats d frame.width_px frame.height_px in
      let has_image = load_crop d || g.services.has_file frame in
      let full_frame = not (load_crop d) && g.services.has_file frame in
      choose g.describe facts (fill_slots d frame has_image full_frame calls) calls

  unfoldable pub rationale_of : Detection → FilledSlots → Text
  rationale_of d slots = append_text_disclaimer (assemble_rationale g.floats d slots) slots.fallback

  -- `_process_detection`, with pydantic's bound on `rationale_uz`; 0.50 is the confidence that stands for none
  unfoldable pub process_detection :
      DetectionResult → Detection → ℕ → Result GeneratorError (DetectionVerdict × ℕ)
  process_detection r d calls = do
    frame ← frame_of r d
    let (slots, calls') = slots_of d frame calls
    raise_if (ltb 2000 (length (rationale_of d slots))) rationale_too_long
    ok (
      record {
        detection_id = d.detection_id;
        category = d.category;
        rationale_uz = rationale_of d slots;
        confidence = 18014398509481984 * 2 ^ 1019;
      },
      calls',
    )

  unfoldable pub process_detections :
      DetectionResult → List Detection → ℕ → Result GeneratorError (List DetectionVerdict × ℕ)
  process_detections r [] calls = ok ([], calls)
  process_detections r (d ∷ ds) calls = do
    (dv, calls') ← process_detection r d calls
    (dvs, calls'') ← process_detections r ds calls'
    ok (dv ∷ dvs, calls'')

  -- the message of `_clear_verdict`
  unfoldable pub clear_verdict : Uuid → VerdictRequest → OperatorVerdict
  clear_verdict verdict_id q = record {
    verdict_id = verdict_id;
    scan_id = q.scan_id;
    locale = q.locale;
    overall_risk = clear;
    summary_uz = clear_summary (length q.detection.frames);
    per_detection = [];
    model = g.provenance;
  }

  -- the message at the end of `generate`
  unfoldable pub found_verdict : Uuid → VerdictRequest → List DetectionVerdict → OperatorVerdict
  found_verdict verdict_id q dvs =
      let risk = compute_risk_band q.detection in
      record {
        verdict_id = verdict_id;
        scan_id = q.scan_id;
        locale = q.locale;
        overall_risk = risk;
        summary_uz = build_summary risk (map (λ dv. dv.rationale_uz) dvs);
        per_detection = dvs;
        model = g.provenance;
      }

  unfoldable pub generate_clear :
      Uuid → VerdictRequest → ℕ → Result GeneratorError (OperatorVerdict × ℕ)
  generate_clear verdict_id q calls = do
    v ← build_verdict (clear_verdict verdict_id q)
    ok (v, calls)

  unfoldable pub generate_found :
      Uuid → VerdictRequest → ℕ → Result GeneratorError (OperatorVerdict × ℕ)
  generate_found verdict_id q calls = do
    (dvs, calls') ← process_detections q.detection q.detection.detections calls
    v ← build_verdict (found_verdict verdict_id q dvs)
    ok (v, calls')

  -- `generate`, with the number of calls of the model
  unfoldable pub generate : Uuid → VerdictRequest → ℕ → Result GeneratorError (OperatorVerdict × ℕ)
  generate verdict_id q calls =
      if not (has_findings q.detection)
      then generate_clear verdict_id q calls
      else generate_found verdict_id q calls
