-- ===== src/Detector/Evaluation/Points.antt =====
-- detector/eval/recall_eval.py: a point counts each ground truth and each prediction once.
use loyiha.Base.{
  ℕ, ◌+◌, ◌≤◌, ◌≡◌, refl, ap, Bool, List, [], ◌∷◌, String, leb, length, count_if, length-append,
  count_if-append, arith,
}
use loyiha.Contracts.Common.{Score}
use loyiha.Detector.Evaluation.{
  GtRecord, Image, DetectionEval, new_eval, match_all, sort_preds, slots_of, records_of, gts_of,
  preds_of, match_label, add_image, add_images, point_at, ratio, is_hit, is_false_alarm,
  is_recalled,
}
use loyiha.Detector.Evaluation.Counts.{
  match_all-IsMatched, count_if-sort_preds, slots_of-unclaimed, records_of-slots, total_gts,
  total_preds,
}

abbrev hits : DetectionEval → String → Score → ℕ
hits e label t = count_if (is_hit t) (e.pred_records label)

abbrev false_alarms : DetectionEval → String → Score → ℕ
false_alarms e label t = count_if (is_false_alarm t) (e.pred_records label)

abbrev pub recalled_gts : DetectionEval → String → Score → ℕ
recalled_gts e label t = count_if (λ r. is_recalled t r.matched) (e.gt_records label)

-- What some images, with `gts` ground truths and `preds` predictions from the threshold on, add.
record IsAdded (label : String) (t : Score) (gts preds : ℕ) (e e' : DetectionEval) : Type 0 where
  recalled : hits e' label t + recalled_gts e label t ≡ recalled_gts e' label t + hits e label t
  reported :
      hits e' label t + false_alarms e' label t ≡ hits e label t + false_alarms e label t + preds
  known : e'.n_gt label ≡ e.n_gt label + gts
  listed : length (e'.gt_records label) ≡ length (e.gt_records label) + gts

add_image-IsAdded :
    {B : Type 0} (iou : B → B → Score) (iou_thresh : Score) (image : Image B) (e : DetectionEval)
    (label : String) (t : Score)
    → IsAdded label t
        (length (gts_of label image))
        (count_if (λ p. leb t p.score) (preds_of label image))
        e
        (add_image iou iou_thresh image e)
unfolding add_image match_label
add_image-IsAdded iou iou_thresh image e label t =
    let gts = gts_of label image in
    let preds = preds_of label image in
    let out = match_all iou iou_thresh (sort_preds preds) (slots_of gts) in
    let m = match_all-IsMatched iou iou_thresh t (sort_preds preds) (slots_of gts) in
    let (unclaimed, size) = slots_of-unclaimed t gts in
    let (same, long) = records_of-slots t out.1 in
    let sorted = count_if-sort_preds (λ p. leb t p.score) preds in
    let h = count_if-append (is_hit t) (e.pred_records label) out.0 in
    let f = count_if-append (is_false_alarm t) (e.pred_records label) out.0 in
    let r =
      count_if-append (λ (x : GtRecord). is_recalled t x.matched) (e.gt_records label)
        (records_of out.1) in
    let l = length-append (e.gt_records label) (records_of out.1) in
    record {
      recalled = omega (arith, h, r, same, m.recalled, unclaimed);
      reported = omega (arith, h, f, m.reported, sorted);
      known = refl;
      listed = omega (arith, l, long, m.kept, size);
    }

add_images-IsAdded :
    {B : Type 0} (iou : B → B → Score) (iou_thresh : Score) (images : List (Image B))
    (e : DetectionEval) (label : String) (t : Score)
    → IsAdded label t
        (total_gts label images)
        (total_preds label t images)
        e
        (add_images iou iou_thresh images e)
unfolding add_images
add_images-IsAdded iou iou_thresh [] e label t = record {
  recalled = omega arith;
  reported = omega arith;
  known = omega arith;
  listed = omega arith;
}
add_images-IsAdded iou iou_thresh (image ∷ images) e label t =
    let a = add_image-IsAdded iou iou_thresh image e label t in
    let b = add_images-IsAdded iou iou_thresh images (add_image iou iou_thresh image e) label t in
    record {
      recalled = omega (arith, a.recalled, b.recalled);
      reported = omega (arith, a.reported, b.reported);
      known = omega (arith, a.known, b.known);
      listed = omega (arith, a.listed, b.listed);
    }

count_if-le : {A : Type 0} (p : A → Bool) (xs : List A) → count_if p xs ≤ length xs
count_if-le p [] = omega arith
count_if-le p (x ∷ xs) = ground (arith, count_if-le p xs)

-- At every threshold the hits are the ground truths that are recalled there; with the misses they
-- are all ground truths of the class, and with the false alarms all its predictions from the
-- threshold on: no object is counted twice, and none is lost.
pub point_at_complete :
    {B : Type 0} (iou : B → B → Score) (iou_thresh : Score) (images : List (Image B))
    (label : String) (t : Score)
    → ((point_at (add_images iou iou_thresh images new_eval) label t).tp
        ≡ recalled_gts (add_images iou iou_thresh images new_eval) label t)
      × ((point_at (add_images iou iou_thresh images new_eval) label t).tp
            + (point_at (add_images iou iou_thresh images new_eval) label t).fn
          ≡ total_gts label images)
      × ((point_at (add_images iou iou_thresh images new_eval) label t).tp
            + (point_at (add_images iou iou_thresh images new_eval) label t).fp
          ≡ total_preds label t images)
unfolding point_at
point_at_complete iou iou_thresh images label t =
    let e = add_images iou iou_thresh images new_eval in
    let a = add_images-IsAdded iou iou_thresh images new_eval label t in
    let few = count_if-le (λ (r : GtRecord). is_recalled t r.matched) (e.gt_records label) in
    (
      omega (arith, a.recalled),
      omega (arith, a.recalled, a.known, a.listed, few),
      omega (arith, a.reported),
    )

-- The recall is over all ground truths of the class.
pub point_at-recall :
    {B : Type 0} (iou : B → B → Score) (iou_thresh : Score) (images : List (Image B))
    (label : String) (t : Score)
    → (point_at (add_images iou iou_thresh images new_eval) label t).recall
      ≡ ratio
          (point_at (add_images iou iou_thresh images new_eval) label t).tp
          (total_gts label images)
unfolding point_at
point_at-recall iou iou_thresh images label t =
    let e = add_images iou iou_thresh images new_eval in
    let known : e.n_gt label ≡ total_gts label images =
      omega (arith, (add_images-IsAdded iou iou_thresh images new_eval label t).known) in
    ap (λ n. ratio (hits e label t) n) known
