-- ===== src/Witnesses/Evaluation.antt =====
-- Thirty images of one pistol each, which the baseline finds and the candidate finds as well.
use loyiha.Base.{
  ◌-◌, length, ℕ, zero, suc, ◌+◌, ◌≤◌, ◌≡◌, refl, true, false, inl, none, List, [], ◌∷◌,
  if◌then◌else◌, ◌==◌, ok, arith,
}
use loyiha.Contracts.Common.{Score, one}
use loyiha.Detector.Adapter.{default_thresholds}
use loyiha.Detector.Evaluation.{
  Image, GroundTruth, Prediction, new_eval, add_images, add_image, match_label, match_all,
  best_slot, claim, insert_pred, sort_preds, point_at,
}
use loyiha.Detector.Evaluation.Counts.{total_gts}
use loyiha.Detector.Evaluation.Points.{recalled_gts, point_at_complete}
use loyiha.Detector.Evaluation.Gate.{
  DeltaReport, compare, class_delta, all_pass, eval_of, labels_of, is_primary, deploy_threshold,
  Ieee, Hashing, gt_fingerprint, sort_keys, insert_key, keys_of, recall_ok, d_recall,
}
use loyiha.Detector.Evaluation.Gate.Ship.{IsRounded, compare-IsSafe}

-- boxes are places, which overlap only when they are equal
abbrev overlap : ℕ → ℕ → Score
overlap a b = if a == b then 2 else 0

abbrev pistol : GroundTruth ℕ
pistol = record { label = "firearm"; box_xywh = 7; occlusion = none }

abbrev hit : Prediction ℕ
hit = record { label = "firearm"; box_xywh = 7; score = 2 }

abbrev miss : Prediction ℕ
miss = record { label = "firearm"; box_xywh = 8; score = 3 }

abbrev crowded : List (Image ℕ)
crowded = record { image_id = "crowd"; gts = pistol ∷ pistol ∷ []; preds = hit ∷ miss ∷ [] } ∷ []

point_at_complete_example :
    ((point_at (add_images overlap 1 crowded new_eval) "firearm" 1).tp
      ≡ recalled_gts (add_images overlap 1 crowded new_eval) "firearm" 1)
    × ((point_at (add_images overlap 1 crowded new_eval) "firearm" 1).tp
          + (point_at (add_images overlap 1 crowded new_eval) "firearm" 1).fn
        ≡ 2)
    × ((point_at (add_images overlap 1 crowded new_eval) "firearm" 1).tp
          + (point_at (add_images overlap 1 crowded new_eval) "firearm" 1).fp
        ≡ 2)
point_at_complete_example = point_at_complete overlap 1 crowded "firearm" 1

one_hit : (point_at (add_images overlap 1 crowded new_eval) "firearm" 1).tp ≡ 1
unfolding point_at add_images add_image match_label match_all best_slot claim sort_preds insert_pred
one_hit = refl

abbrev repeated : ℕ → GroundTruth ℕ → List (GroundTruth ℕ)
repeated zero g = []
repeated (suc n) g = g ∷ repeated n g

abbrev bundle : List (Image ℕ)
bundle =
    record { image_id = "scan"; gts = repeated 30 pistol; preds = record hit { score = one } ∷ [] }
    ∷ []

-- fractions of one denominator, and their distance
abbrev scaled : Ieee
scaled = record { div = λ a n. a; sub = λ x y. x - y }

scaled-IsRounded : IsRounded scaled
scaled-IsRounded = record {
  div_distinct = λ a b n l m few. l;
  sub_positive = λ x y l. omega (arith, l);
}

-- a digest that only counts, on tuples that keep their order
abbrev counting : Hashing ℕ
counting = record {
  round_box = λ b. b;
  before = λ a b. true;
  digest = λ ks. if length ks == 30 then "30" else "";
}

gate_report :
    (r : DeltaReport) × (compare scaled 0 overlap 1 counting bundle bundle ≡ ok r)
    × (r.overall_pass ≡ true)
unfolding compare class_delta all_pass eval_of labels_of is_primary deploy_threshold point_at
    add_images add_image match_label match_all best_slot claim sort_preds insert_pred
    default_thresholds one gt_fingerprint sort_keys insert_key keys_of recall_ok d_recall
gate_report = (_, refl, refl)

compare-IsSafe_example :
    (30 ≤ total_gts "firearm" bundle)
    × ((point_at (eval_of overlap 1 bundle) "firearm" (deploy_threshold "firearm")).fn
        ≤ (point_at (eval_of overlap 1 bundle) "firearm" (deploy_threshold "firearm")).fn)
unfolding is_primary labels_of
compare-IsSafe_example =
    compare-IsSafe scaled overlap 1 counting bundle bundle gate_report.0 "firearm" scaled-IsRounded
      (λ e. refl) (omega arith) gate_report.1 gate_report.2 refl (inl refl)

-- A candidate that finds fewer pistols does not pass.
abbrev blind_bundle : List (Image ℕ)
blind_bundle = record { image_id = "scan"; gts = repeated 30 pistol; preds = [] } ∷ []

worse_fails :
    (r : DeltaReport) × (compare scaled 0 overlap 1 counting bundle blind_bundle ≡ ok r)
    × (r.overall_pass ≡ false)
unfolding compare class_delta all_pass eval_of labels_of is_primary deploy_threshold point_at
    add_images add_image match_label match_all best_slot claim sort_preds insert_pred
    default_thresholds one gt_fingerprint sort_keys insert_key keys_of recall_ok d_recall
worse_fails = (_, refl, refl)
