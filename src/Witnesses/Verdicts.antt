-- ===== src/Witnesses/Verdicts.antt =====
-- Verdicts on the knife, and on fifty knives.
use loyiha.Base.{ℕ, zero, suc, ◌≤◌, ◌≡◌, refl, ◌⊎◌, false, List, [], ◌∷◌, ok, raised}
use loyiha.Contracts.Detection.{Detection, has_findings, frame_by_id}
use loyiha.Contracts.Verdict.{risk_payload_consistency, VerdictRequest, OperatorVerdict}
use loyiha.Datalayer.Quality.{is_space}
use loyiha.Vlm.Text.{strip, lines, runs}
use loyiha.Vlm.Pattern.{search, match_then}
use loyiha.Vlm.Guard.{
  check, tests_of, has_cyrillic, has_latin, has_mixed_script, russian_found, english_matches,
  forbidden_found, is_stopword,
}
use loyiha.Vlm.Guard.Phrases.{forbidden_phrases}
use loyiha.Vlm.Prompts.Facts.{deterministic_slots}
use loyiha.Vlm.Prompts.{
  build_summary, risk_label_uz, compute_risk_band, max_score, decimal, blocks, extract_slots,
  assemble_rationale, category_uz,
}
use loyiha.Vlm.Generator.{
  rationale_of, append_text_disclaimer, generate, generate_found, process_detections,
  process_detection, frame_of, build_verdict, found_verdict, slots_of, fill_slots, attempts,
  summary_too_long,
}
use loyiha.Vlm.Generator.Slots.{AreClean, slots_of_lem}
use loyiha.Vlm.Generator.Verdict.{IsVerdictFor, generate-IsVerdictFor}
use loyiha.Vlm.Generator.Length.{generate-Ends}
use loyiha.Witnesses.Data.{knife, knife_frame, knife_request, knife_result}
use loyiha.Witnesses.Contracts.{knife-IsConsistent}
use loyiha.Witnesses.Unicode.{describer}

knife_run : (out : OperatorVerdict × ℕ) × (generate describer 2 knife_request 0 ≡ ok out)
unfolding generate generate_found has_findings process_detections process_detection frame_of
    frame_by_id build_verdict risk_payload_consistency found_verdict slots_of fill_slots attempts
    check tests_of has_cyrillic has_latin has_mixed_script russian_found english_matches
    forbidden_found is_stopword forbidden_phrases search match_then strip lines runs build_summary
    risk_label_uz compute_risk_band max_score decimal blocks rationale_of append_text_disclaimer
    extract_slots assemble_rationale category_uz is_space
knife_run = (_, refl)

slots_of_lem_example :
    (((slots_of describer knife knife_frame 3).0
        ≡ deterministic_slots describer.floats knife 640 480)
      ⊎ AreClean describer (slots_of describer knife knife_frame 3).0)
    × ((slots_of describer knife knife_frame 3).1 ≤ 5)
    × (describer.describe ≡ false → (slots_of describer knife knife_frame 3).1 ≡ 3)
slots_of_lem_example = slots_of_lem describer knife knife_frame 3

generate-IsVerdictFor_example : IsVerdictFor knife_request 0 knife_run.0.0 knife_run.0.1
generate-IsVerdictFor_example =
    generate-IsVerdictFor describer 2 knife_request 0 knife_run.0 knife-IsConsistent knife_run.1

generate-Ends_example :
    ((out : OperatorVerdict × ℕ) × (generate describer 2 knife_request 0 ≡ ok out))
    ⊎ (generate describer 2 knife_request 0 ≡ raised summary_too_long)
generate-Ends_example = generate-Ends describer 2 knife_request 0 knife-IsConsistent

abbrev knives : ℕ → List Detection
knives zero = []
knives (suc n) = record knife { detection_id = n } ∷ knives n

abbrev fifty : VerdictRequest
fifty = record knife_request { detection = record knife_result { detections = knives 50 } }
