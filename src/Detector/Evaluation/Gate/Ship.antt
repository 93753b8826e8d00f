-- ===== src/Detector/Evaluation/Gate/Ship.antt =====
-- detector/eval/accuracy_delta.py: what a candidate that passes the gate has shown.
use loyiha.Base.{
  ℕ, ◌+◌, ◌≤◌, ◌<◌, count_if, ◌≡◌, refl, sym, ap, subst, ◌∙◌, inl, inr, Bool, true, false, not,
  ◌&&◌, ◌||◌, Option, some, List, [], ◌∷◌, ◌++◌, String, str_eq, eq_iff, leb, map, dedup, String_eq,
  In-dedup, In, ok, ok_inj, Bool-cases, and_iff, arith,
}
use loyiha.Contracts.Common.{Score}
use loyiha.Detector.Evaluation.{Image, DetectionEval, new_eval, add_images, point_at, ratio}
use loyiha.Detector.Evaluation.Counts.{total_gts}
use loyiha.Detector.Evaluation.Points.{point_at_complete, point_at-recall}
use loyiha.Detector.Evaluation.Gate.{
  is_primary, deploy_threshold, labels_of, DeltaReport, eval_of, class_delta, all_pass, compare,
  Ieee, d_recall, recall_ok, Hashing, GtKey, canon, gt_fingerprint,
}
use loyiha.Detector.Evaluation.Gate.Fingerprint.{canon-total}

-- What the gate relies on of floating-point numbers: of two fractions with one denominator of at most
-- 2^52 and at most 1, the smaller is rounded to a smaller number; and the difference of two different
-- numbers is not rounded to 0.
pub record IsRounded (f : Ieee) : Type 0 where
  pub div_distinct : (a b n : ℕ) → a < b → b ≤ n → n ≤ 4503599627370496 → f.div a n < f.div b n
  pub sub_positive : (x y : Score) → y < x → 0 < f.sub x y

-- With the tolerance 0 the comparison accepts only a recall that is not lower.
recall_ok-lower :
    (f : Ieee) (b c n : ℕ)
    → IsRounded f
    → b ≤ n
    → n ≤ 4503599627370496
    → recall_ok 0 (d_recall f (some (b, n)) (some (c, n))) ≡ true
    → b ≤ c
unfolding recall_ok d_recall
recall_ok-lower f b c n r small few h = elim (Bool-cases (leb b c)) [
  | inl e ↦ ground (arith, e)
  | inr e ↦
      let less : c < b = ground (arith, e) in
      let lower = r.div_distinct c b n less small few in
      let far = r.sub_positive (f.div b n) (f.div c n) lower in
      let below : leb (f.div b n) (f.div c n) ≡ false = above _ _ lower in
      absurd (ground (arith, far, rw below at h))
]
  where
    above : (x y : Score) → y < x → leb x y ≡ false
    above x y l = ground (arith, l)

module _ (f : Ieee) (tolerance : Score) where
  passed :
      (base_eval cand_eval : DetectionEval) (label : String) (labels : List String)
      → In label labels
      → all_pass (map (class_delta f tolerance base_eval cand_eval) labels) ≡ true
      → is_primary label ≡ true
      → (class_delta f tolerance base_eval cand_eval label).gate_pass ≡ true
  unfolding all_pass class_delta
  passed base_eval cand_eval label [] i h p = absurd i
  passed base_eval cand_eval label (x ∷ xs) (inl e) h p =
      subst (λ l. (class_delta f tolerance base_eval cand_eval l).gate_pass ≡ true) (sym e)
        (gated _ _ ((and_iff _ _).0 h).0 (subst (λ l. is_primary l ≡ true) e p))
    where
      gated : (a g : Bool) → not (a && not g) ≡ true → a ≡ true → g ≡ true
      gated true true n t = refl
      gated true false n t = cc
      gated false g n t = cc
  passed base_eval cand_eval label (x ∷ xs) (inr i) h p =
      passed base_eval cand_eval label xs i ((and_iff _ _).0 h).1 p

  -- What the gate asks of a primary class.
  gate_facts :
      (base_eval cand_eval : DetectionEval) (label : String)
      → is_primary label ≡ true
      → (class_delta f tolerance base_eval cand_eval label).gate_pass ≡ true
      → (recall_ok tolerance (
            d_recall f
              (point_at base_eval label (deploy_threshold label)).recall
              (point_at cand_eval label (deploy_threshold label)).recall)
          ≡ true)
        × (30
            ≤ (point_at base_eval label (deploy_threshold label)).tp
              + (point_at base_eval label (deploy_threshold label)).fn)
  unfolding class_delta
  gate_facts base_eval cand_eval label primary gate = split (is_primary label) _ _ primary gate
    where
      split :
          (p r : Bool) (n : ℕ)
          → p ≡ true
          → not p || (r && (not p || leb 30 n)) ≡ true
          → (r ≡ true) × (30 ≤ n)
      split true true n e g = (refl, ground (arith, g))
      split true false n e g = cc
      split false r n e g = cc

  opened :
      {B : Type 0} (iou : B → B → Score) (iou_thresh : Score) (h : Hashing B)
      (baseline candidate : List (Image B)) (report : DeltaReport)
      → compare f tolerance iou iou_thresh h baseline candidate ≡ ok report
      → (gt_fingerprint h baseline ≡ gt_fingerprint h candidate)
        × (report.overall_pass
            ≡ all_pass (
                map
                  (class_delta f tolerance
                    (eval_of iou iou_thresh baseline)
                    (eval_of iou iou_thresh candidate))
                  (dedup (labels_of baseline ++ labels_of candidate))))
  unfolding compare
  opened iou iou_thresh h baseline candidate report r =
      elim (Bool-cases (str_eq (gt_fingerprint h baseline) (gt_fingerprint h candidate))) [
        | inr e ↦ cc (rw e at r)
        | inl e ↦
            ((eq_iff _ _).0 e, sym (ap (λ (x : DeltaReport). x.overall_pass) (ok_inj (rw e at r))))
      ]

-- Equal fingerprints, of tuples that do not collide, are of equally many objects.
same_total :
    {B : Type 0} (h : Hashing B) (baseline candidate : List (Image B)) (label : String)
    → (h.digest (canon h baseline) ≡ h.digest (canon h candidate)
        → canon h baseline ≡ canon h candidate)
    → gt_fingerprint h baseline ≡ gt_fingerprint h candidate
    → total_gts label baseline ≡ total_gts label candidate
unfolding gt_fingerprint
same_total h baseline candidate label single prints =
    sym (canon-total h label baseline)
    ∙ ap (count_if (λ (k : GtKey _). str_eq k.label label)) (single prints)
    ∙ canon-total h label candidate

-- With the tolerance 0, a candidate that passes the gate misses no more objects of a primary class than
-- the baseline at the threshold that is deployed, out of thirty or more, for each primary class that
-- one of the bundles has. The two ground truths do not have one digest unless they are the same tuples;
-- there are at most 2^52 objects; and floats are rounded as IEEE 754 says.
pub compare-IsSafe :
    {B : Type 0} (f : Ieee) (iou : B → B → Score) (iou_thresh : Score) (h : Hashing B)
    (baseline candidate : List (Image B)) (report : DeltaReport) (label : String)
    → IsRounded f
    → (h.digest (canon h baseline) ≡ h.digest (canon h candidate)
        → canon h baseline ≡ canon h candidate)
    → total_gts label baseline ≤ 4503599627370496
    → compare f 0 iou iou_thresh h baseline candidate ≡ ok report
    → report.overall_pass ≡ true
    → is_primary label ≡ true
    → In label (labels_of baseline ++ labels_of candidate)
    → (30 ≤ total_gts label baseline)
      × ((point_at (eval_of iou iou_thresh candidate) label (deploy_threshold label)).fn
          ≤ (point_at (eval_of iou iou_thresh baseline) label (deploy_threshold label)).fn)
unfolding eval_of
compare-IsSafe f iou iou_thresh h baseline candidate report label rounded single size ran pass
      primary i =
    let (prints, overall) = opened f 0 iou iou_thresh h baseline candidate report ran in
    let same = same_total h baseline candidate label single prints in
    let t = deploy_threshold label in
    let gate =
      passed f 0 (eval_of iou iou_thresh baseline) (eval_of iou iou_thresh candidate) label _
        ((In-dedup _ label).1 i) (sym overall ∙ pass) primary in
    let (hit_b, all_b, seen_b) = point_at_complete iou iou_thresh baseline label t in
    let (hit_c, all_c, seen_c) = point_at_complete iou iou_thresh candidate label t in
    let (better, enough) =
      gate_facts f 0 (eval_of iou iou_thresh baseline) (eval_of iou iou_thresh candidate) label
        primary gate in
    let n = total_gts label baseline in
    let many : 30 ≤ n = omega (arith, enough, all_b) in
    let recall_b = point_at-recall iou iou_thresh baseline label t ∙ some_ratio _ n many in
    let recall_c =
      point_at-recall iou iou_thresh candidate label t
      ∙ ap (λ k. ratio (point_at (add_images iou iou_thresh candidate new_eval) label t).tp k)
          (sym same)
      ∙ some_ratio _ n many in
    let fewer =
      recall_ok-lower f _ _ n rounded (omega (arith, all_b)) size
        (sym (both recall_b recall_c) ∙ better) in
    (many, omega (arith, fewer, all_b, all_c, same))
  where
    some_ratio : (a n : ℕ) → 30 ≤ n → ratio a n ≡ some (a, n)
    some_ratio a n le = ground (arith, le)

    both :
        {x x' y y' : Option (ℕ × ℕ)}
        → x ≡ x'
        → y ≡ y'
        → recall_ok 0 (d_recall f x y) ≡ recall_ok 0 (d_recall f x' y')
    both p q = cc
