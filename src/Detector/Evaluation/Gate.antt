-- ===== src/Detector/Evaluation/Gate.antt =====
-- detector/eval/accuracy_delta.py: the gate that lets a candidate model replace the one in use. A bundle
-- is its images, grouped as `_eval_of` groups them. Division, subtraction and rounding of floats, the
-- order of tuples, and JSON with SHA-256 are parameters; latency, notes, the order of the classes and
-- the figures that are only shown are left out.
pub mod Fingerprint
pub mod Ship
use loyiha.Base.{
  ℕ, ◌+◌, ◌*◌, ◌^◌, Bool, true, false, not, ◌&&◌, ◌||◌, Option, none, some, List, [], ◌∷◌, ◌++◌,
  String, str_eq, if◌then◌else◌, leb, map, dedup, String_eq, Result, ok, raised,
}
use loyiha.Contracts.Common.{
  Score, ThreatCategory, firearm, bladed_weapon, metallic_anomaly, unknown,
}
use loyiha.Detector.Adapter.{default_thresholds}
use loyiha.Detector.Evaluation.{
  GroundTruth, or_all, Image, DetectionEval, new_eval, add_images, point_at, ClassPrPoint,
}

-- `_MIN_PRIMARY_GT`
abbrev pub min_primary_gt : ℕ
min_primary_gt = 30

-- `label in PRIMARY_LABELS`
unfoldable pub is_primary : String → Bool
is_primary label = str_eq label "firearm" || str_eq label "bladed_weapon"

unfoldable pub deploy_threshold : String → Score
deploy_threshold label =
    if str_eq label "firearm"
    then default_thresholds firearm
    else if str_eq label "bladed_weapon"
    then default_thresholds bladed_weapon
    else if str_eq label "metallic_anomaly"
    then default_thresholds metallic_anomaly
    else if str_eq label "unknown"
    then default_thresholds unknown
    else 10808639105689190 * 2 ^ 1019

-- the labels of `DetectionEval.classes`
unfoldable pub labels_of : {B : Type 0} → List (Image B) → List String
labels_of [] = []
labels_of (image ∷ images) =
    map (λ g. g.label) image.gts ++ (map (λ p. p.label) image.preds ++ labels_of images)

pub record ClassDelta : Type 0 where
  pub label : String
  pub n_gt : ℕ
  pub is_primary_class : Bool
  pub base : ClassPrPoint
  pub cand : ClassPrPoint
  pub sufficient_n : Bool
  pub gate_pass : Bool

pub record DeltaReport : Type 0 where
  pub classes : List ClassDelta
  pub overall_pass : Bool

-- the `ValueError` of two bundles over different ground truths
pub data GateError : Type 0 where
  fingerprints_differ : GateError

-- `tp / n_gt`, and the rounded difference of two floats of which the first is not the smaller
pub record Ieee : Type 0 where
  pub div : ℕ → ℕ → Score
  pub sub : Score → Score → Score

-- a float with its sign
pub data Signed : Type 0 where
  plus minus : Score → Signed

-- a tuple of `gt_fingerprint`
pub record GtKey (B : Type 0) : Type 0 where
  pub image_id : String
  pub label : String
  pub box : B
  pub occlusion : String

-- `round(v, 1)` on a box, the order of tuples, and the SHA-256 of the JSON text
pub record Hashing (B : Type 0) : Type 0 where
  pub round_box : B → B
  pub before : GtKey B → GtKey B → Bool
  pub digest : List (GtKey B) → String

unfoldable pub insert_key : {B : Type 0} → Hashing B → GtKey B → List (GtKey B) → List (GtKey B)
insert_key h k [] = k ∷ []
insert_key h k (x ∷ xs) =
    let later = x ∷ insert_key h k xs in if h.before k x then k ∷ x ∷ xs else later

unfoldable pub sort_keys : {B : Type 0} → Hashing B → List (GtKey B) → List (GtKey B)
sort_keys h [] = []
sort_keys h (k ∷ ks) = insert_key h k (sort_keys h ks)

abbrev pub key_of_gt : {B : Type 0} → Hashing B → String → GroundTruth B → GtKey B
key_of_gt h image_id g = record {
  image_id = image_id;
  label = g.label;
  box = h.round_box g.box_xywh;
  occlusion = or_all g.occlusion;
}

unfoldable pub keys_of : {B : Type 0} → Hashing B → List (Image B) → List (GtKey B)
keys_of h [] = []
keys_of h (image ∷ images) = map (key_of_gt h image.image_id) image.gts ++ keys_of h images

-- `canon`
abbrev pub canon : {B : Type 0} → Hashing B → List (Image B) → List (GtKey B)
canon h images = sort_keys h (keys_of h images)

-- `gt_fingerprint`
unfoldable pub gt_fingerprint : {B : Type 0} → Hashing B → List (Image B) → String
gt_fingerprint h images = h.digest (canon h images)

-- `_nan_safe` on a recall
abbrev pub nan_safe : Ieee → Option (ℕ × ℕ) → Score
nan_safe f none = 0
nan_safe f (some (tp, n_gt)) = f.div tp n_gt

-- `d_recall`
unfoldable pub d_recall : Ieee → Option (ℕ × ℕ) → Option (ℕ × ℕ) → Signed
d_recall f base cand =
    let b = nan_safe f base in
    let c = nan_safe f cand in if leb b c then plus (f.sub c b) else minus (f.sub b c)

-- `d_recall >= -recall_tolerance`
unfoldable pub recall_ok : Score → Signed → Bool
recall_ok recall_tolerance (plus d) = true
recall_ok recall_tolerance (minus d) = leb d recall_tolerance

unfoldable pub all_pass : List ClassDelta → Bool
all_pass [] = true
all_pass (d ∷ ds) = not (d.is_primary_class && not d.gate_pass) && all_pass ds

module _ {B : Type 0} (iou : B → B → Score) (iou_thresh : Score) where
  -- `_eval_of`
  unfoldable pub eval_of : List (Image B) → DetectionEval
  eval_of images = add_images iou iou_thresh images new_eval

module _ (f : Ieee) (recall_tolerance : Score) where
  -- one round of the loop over the classes
  unfoldable pub class_delta : DetectionEval → DetectionEval → String → ClassDelta
  class_delta base_eval cand_eval label =
      let b = point_at base_eval label (deploy_threshold label) in
      let c = point_at cand_eval label (deploy_threshold label) in
      let n_gt = b.tp + b.fn in
      let sufficient = not (is_primary label) || leb min_primary_gt n_gt in
      record {
        label = label;
        n_gt = n_gt;
        is_primary_class = is_primary label;
        base = b;
        cand = c;
        sufficient_n = sufficient;
        gate_pass =
            not (is_primary label)
            || (recall_ok recall_tolerance (d_recall f b.recall c.recall) && sufficient);
      }

  -- `compare`, with its parameter `iou` as a measure and a threshold
  unfoldable pub compare :
      {B : Type 0}
      → (B → B → Score)
      → Score
      → Hashing B
      → List (Image B)
      → List (Image B)
      → Result GateError DeltaReport
  compare iou iou_thresh h baseline candidate =
      if not (str_eq (gt_fingerprint h baseline) (gt_fingerprint h candidate))
      then raised fingerprints_differ
      else let labels = dedup (labels_of baseline ++ labels_of candidate) in
        let deltas =
          map (class_delta (eval_of iou iou_thresh baseline) (eval_of iou iou_thresh candidate))
            labels in
        ok (record { classes = deltas; overall_pass = all_pass deltas })
