-- ===== src/Detector/Evaluation.antt =====
-- detector/eval/recall_eval.py, `DetectionEval`: greedy matching of predictions to ground truth, and
-- the counts at a threshold. The overlap of two boxes is a parameter, since it is floating-point
-- arithmetic, with values in [0, 1]; a ratio is kept as its two numbers, and one by zero, which the
-- code makes NaN, is `none`. An image's id stands once, with its
-- objects. The dictionaries by label are functions of the label.
pub mod Counts
pub mod Points
pub mod Gate
use loyiha.Base.{
  ℕ, zero, suc, ◌+◌, ◌-◌, Bool, true, false, not, ◌&&◌, Option, none, some, List, [], ◌∷◌, ◌++◌,
  String, str_eq, if◌then◌else◌, leb, ltb, ◌==◌, length, keep, count_if,
}
use loyiha.Contracts.Common.{Score}

pub record GroundTruth (B : Type 0) : Type 0 where
  pub label : String
  pub box_xywh : B
  pub occlusion : Option String

pub record Prediction (B : Type 0) : Type 0 where
  pub label : String
  pub box_xywh : B
  pub score : Score

-- a ground truth of `_match_label`, with the score of the prediction that has claimed it
pub record Slot (B : Type 0) : Type 0 where
  pub gt : GroundTruth B
  pub matched : Option Score

-- (matched?, its score, occlusion)
pub record GtRecord : Type 0 where
  pub matched : Option Score
  pub occlusion : Option String

pub record Image (B : Type 0) : Type 0 where
  pub image_id : String
  pub gts : List (GroundTruth B)
  pub preds : List (Prediction B)

pub record DetectionEval : Type 0 where
  pub pred_records : String → List (Score × Bool)
  pub n_gt : String → ℕ
  pub gt_records : String → List GtRecord
  pub n_images : ℕ

abbrev pub new_eval : DetectionEval
new_eval = record { pred_records = λ l. []; n_gt = λ l. 0; gt_records = λ l. []; n_images = 0 }

abbrev pub is_free : Option Score → Bool
is_free none = true
is_free (some s) = false

abbrev pub is_some : Option ℕ → Bool
is_some none = false
is_some (some j) = true

-- `gt_matched[j] = True; gt_match_score[j] = score`
unfoldable pub claim : {B : Type 0} → ℕ → Score → List (Slot B) → List (Slot B)
claim j score [] = []
claim zero score (s ∷ slots) = record s { matched = some score } ∷ slots
claim (suc j) score (s ∷ slots) = s ∷ claim j score slots

abbrev pub claimed : {B : Type 0} → Option ℕ → Score → List (Slot B) → List (Slot B)
claimed none score slots = slots
claimed (some j) score slots = claim j score slots

module _ {B : Type 0} (iou : B → B → Score) (iou_thresh : Score) where
  -- the inner loop: the best overlap so far and where it is, from the j-th ground truth on
  unfoldable pub best_slot : Prediction B → Score → Option ℕ → ℕ → List (Slot B) → Option ℕ
  best_slot p best_iou best_j j [] = best_j
  best_slot p best_iou best_j j (s ∷ slots) =
      let v = iou p.box_xywh s.gt.box_xywh in
      let better = is_free s.matched && (leb iou_thresh v && ltb best_iou v) in
      best_slot p (if better then v else best_iou) (if better then some j else best_j) (j + 1) slots

  -- the loop over the predictions, the highest score first
  unfoldable pub match_all :
      List (Prediction B) → List (Slot B) → List (Score × Bool) × List (Slot B)
  match_all [] slots = ([], slots)
  match_all (p ∷ ps) slots =
      let best_j = best_slot p 0 none 0 slots in
      let (records, end) = match_all ps (claimed best_j p.score slots) in
      ((p.score, is_some best_j) ∷ records, end)

-- `sorted(preds, key=score, reverse=True)`, which keeps the order of equal scores
unfoldable pub insert_pred : {B : Type 0} → Prediction B → List (Prediction B) → List (Prediction B)
insert_pred p [] = p ∷ []
insert_pred p (q ∷ qs) =
    let later = q ∷ insert_pred p qs in if leb q.score p.score then p ∷ q ∷ qs else later

unfoldable pub sort_preds : {B : Type 0} → List (Prediction B) → List (Prediction B)
sort_preds [] = []
sort_preds (p ∷ ps) = insert_pred p (sort_preds ps)

abbrev pub slots_of : {B : Type 0} → List (GroundTruth B) → List (Slot B)
slots_of [] = []
slots_of (g ∷ gs) = record { gt = g; matched = none } ∷ slots_of gs

abbrev pub records_of : {B : Type 0} → List (Slot B) → List GtRecord
records_of [] = []
records_of (s ∷ ss) = record { matched = s.matched; occlusion = s.gt.occlusion } ∷ records_of ss

abbrev pub gts_of : {B : Type 0} → String → Image B → List (GroundTruth B)
gts_of label image = keep (λ g. str_eq g.label label) image.gts

abbrev pub preds_of : {B : Type 0} → String → Image B → List (Prediction B)
preds_of label image = keep (λ p. str_eq p.label label) image.preds

-- `_match_label`
unfoldable pub match_label :
    {B : Type 0}
    → (B → B → Score)
    → Score
    → List (GroundTruth B)
    → List (Prediction B)
    → List (Score × Bool) × List GtRecord
match_label iou iou_thresh gts preds =
    let (records, end) = match_all iou iou_thresh (sort_preds preds) (slots_of gts) in
    (records, records_of end)

-- `add_image`: a label that the image does not have adds nothing
unfoldable pub add_image :
    {B : Type 0} → (B → B → Score) → Score → Image B → DetectionEval → DetectionEval
add_image iou iou_thresh image e = record {
  pred_records =
      λ l. e.pred_records l ++ (match_label iou iou_thresh (gts_of l image) (preds_of l image)).0;
  n_gt = λ l. e.n_gt l + length (gts_of l image);
  gt_records =
      λ l. e.gt_records l ++ (match_label iou iou_thresh (gts_of l image) (preds_of l image)).1;
  n_images = e.n_images + 1;
}

unfoldable pub add_images :
    {B : Type 0} → (B → B → Score) → Score → List (Image B) → DetectionEval → DetectionEval
add_images iou iou_thresh [] e = e
add_images iou iou_thresh (image ∷ images) e =
    add_images iou iou_thresh images (add_image iou iou_thresh image e)

pub record ClassPrPoint : Type 0 where
  pub threshold : Score
  pub tp : ℕ
  pub fp : ℕ
  pub fn : ℕ
  pub recall : Option (ℕ × ℕ)
  pub precision : Option (ℕ × ℕ)
  pub fp_per_image : Option (ℕ × ℕ)

abbrev pub ratio : ℕ → ℕ → Option (ℕ × ℕ)
ratio a b = if b == 0 then none else some (a, b)

abbrev pub is_hit : Score → Score × Bool → Bool
is_hit threshold (s, is_tp) = leb threshold s && is_tp

abbrev pub is_false_alarm : Score → Score × Bool → Bool
is_false_alarm threshold (s, is_tp) = leb threshold s && not is_tp

-- `point_at`, without the Wilson interval
unfoldable pub point_at : DetectionEval → String → Score → ClassPrPoint
point_at e label threshold =
    let tp = count_if (is_hit threshold) (e.pred_records label) in
    let fp = count_if (is_false_alarm threshold) (e.pred_records label) in
    record {
      threshold = threshold;
      tp = tp;
      fp = fp;
      fn = e.n_gt label - tp;
      recall = ratio tp (e.n_gt label);
      precision = ratio tp (tp + fp);
      fp_per_image = ratio fp e.n_images;
    }

-- A ground truth is recalled at a threshold.
abbrev pub is_recalled : Score → Option Score → Bool
is_recalled threshold none = false
is_recalled threshold (some s) = leb threshold s

abbrev pub or_all : Option String → String
or_all none = "all"
or_all (some o) = if str_eq o "" then "all" else o

-- one bucket of `recall_by_occlusion`: recalled, and in all
unfoldable pub recall_in : DetectionEval → String → Score → String → ℕ × ℕ
recall_in e label threshold bucket =
    let mine = keep (λ r. str_eq (or_all r.occlusion) bucket) (e.gt_records label) in
    (count_if (λ r. is_recalled threshold r.matched) mine, length mine)
