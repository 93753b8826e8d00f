-- ===== src/Detector/Evaluation/Counts.antt =====
-- detector/eval/recall_eval.py: what the counts at a threshold count.
use loyiha.Base.{
  ℕ, zero, suc, ◌+◌, ◌≡◌, refl, ap, subst, ◌∙◌, ◌⊎◌, inl, inr, Bool, true, false, not, ◌&&◌, Option,
  none, some, List, [], ◌∷◌, String, if◌then◌else◌, leb, ltb, length, count_if, arith, Bool-cases,
  and_iff,
}
use loyiha.Contracts.Common.{Score}
use loyiha.Detector.Evaluation.{
  GroundTruth, Prediction, Slot, Image, is_free, best_slot, claim, claimed, is_some, match_all,
  insert_pred, sort_preds, slots_of, records_of, gts_of, preds_of, is_hit, is_false_alarm,
  is_recalled,
}

abbrev pub slots_recalled : {B : Type 0} → Score → List (Slot B) → ℕ
slots_recalled t slots = count_if (λ s. is_recalled t s.matched) slots

-- The i-th ground truth is there, and nobody has claimed it.
abbrev IsFree : {B : Type 0} → ℕ → List (Slot B) → Type 0
IsFree i [] = ⊥
IsFree zero (s ∷ slots) = s.matched ≡ none
IsFree (suc i) (s ∷ slots) = IsFree i slots

claim-recalled :
    {B : Type 0} (t : Score) (i : ℕ) (score : Score) (slots : List (Slot B))
    → IsFree i slots
    → slots_recalled t (claim i score slots)
      ≡ slots_recalled t slots + (if leb t score then 1 else 0)
unfolding claim
claim-recalled t i score [] f = absurd f
claim-recalled t zero score (s ∷ slots) f = ground (arith, f)
claim-recalled t (suc i) score (s ∷ slots) f = omega (arith, claim-recalled t i score slots f)

length-claim :
    {B : Type 0} (i : ℕ) (score : Score) (slots : List (Slot B))
    → length (claim i score slots) ≡ length slots
unfolding claim
length-claim i score [] = refl
length-claim zero score (s ∷ slots) = refl
length-claim (suc i) score (s ∷ slots) = omega (arith, length-claim i score slots)

-- A place that the inner loop finds is a free one of the list, or the one it started with.
best_slot-IsFree :
    {B : Type 0} (iou : B → B → Score) (iou_thresh : Score) (p : Prediction B) (best : Score)
    (best_j : Option ℕ) (j : ℕ) (slots : List (Slot B)) (k : ℕ)
    → best_slot iou iou_thresh p best best_j j slots ≡ some k
    → (best_j ≡ some k) ⊎ ((i : ℕ) × (k ≡ j + i) × IsFree i slots)
unfolding best_slot
best_slot-IsFree iou iou_thresh p best best_j j [] k h = inl h
best_slot-IsFree iou iou_thresh p best best_j j (s ∷ slots) k h =
    let v = iou p.box_xywh s.gt.box_xywh in
    elim (Bool-cases (is_free s.matched && (leb iou_thresh v && ltb best v))) [
      | inl e ↦ elim (best_slot-IsFree iou iou_thresh p v (some j) (j + 1) slots k (rw e at h)) [
        | inl q ↦ inr (0, ground (arith, q), free s.matched ((and_iff _ _).0 e).0)
        | inr (i, q, f) ↦ inr (suc i, omega (arith, q), f)
      ]
      | inr e ↦ elim (best_slot-IsFree iou iou_thresh p best best_j (j + 1) slots k (rw e at h)) [
        | inl q ↦ inl q
        | inr (i, q, f) ↦ inr (suc i, omega (arith, q), f)
      ]
    ]
  where
    free : (m : Option Score) → is_free m ≡ true → m ≡ none
    free none q = refl
    free (some s) q = cc

-- One round of the outer loop recalls one ground truth more when it is a hit.
claimed-recalled :
    {B : Type 0} (iou : B → B → Score) (iou_thresh t : Score) (p : Prediction B)
    (slots : List (Slot B)) (best_j : Option ℕ)
    → best_slot iou iou_thresh p 0 none 0 slots ≡ best_j
    → slots_recalled t (claimed best_j p.score slots)
      ≡ slots_recalled t slots + (if is_hit t (p.score, is_some best_j) then 1 else 0)
claimed-recalled iou iou_thresh t p slots none e = ground arith
claimed-recalled iou iou_thresh t p slots (some k) e =
    elim (best_slot-IsFree iou iou_thresh p 0 none 0 slots k e) [
      | inl q ↦ cc
      | inr (i, q, f) ↦ ground (
        arith,
        claim-recalled t k p.score slots (subst (λ n. IsFree n slots) (omega (arith, q)) f),
      )
    ]

length-claimed :
    {B : Type 0} (best_j : Option ℕ) (score : Score) (slots : List (Slot B))
    → length (claimed best_j score slots) ≡ length slots
length-claimed none score slots = refl
length-claimed (some j) score slots = length-claim j score slots

-- The records of one class in one image, with the slots as they were and as they end.
pub record IsMatched {B : Type 0} (t : Score) (ps : List (Prediction B)) (slots : List (Slot B))
    (out : List (Score × Bool) × List (Slot B)) : Type 0 where
  pub recalled : count_if (is_hit t) out.0 + slots_recalled t slots ≡ slots_recalled t out.1
  pub reported :
      count_if (is_hit t) out.0 + count_if (is_false_alarm t) out.0
      ≡ count_if (λ p. leb t p.score) ps
  pub kept : length out.1 ≡ length slots

pub match_all-IsMatched :
    {B : Type 0} (iou : B → B → Score) (iou_thresh t : Score) (ps : List (Prediction B))
    (slots : List (Slot B))
    → IsMatched t ps slots (match_all iou iou_thresh ps slots)
unfolding match_all
match_all-IsMatched iou iou_thresh t [] slots = record {
  recalled = omega arith;
  reported = omega arith;
  kept = refl;
}
match_all-IsMatched iou iou_thresh t (p ∷ ps) slots =
    let j = best_slot iou iou_thresh p 0 none 0 slots in
    let ih = match_all-IsMatched iou iou_thresh t ps (claimed j p.score slots) in
    let one = claimed-recalled iou iou_thresh t p slots j refl in
    record {
      recalled = omega (arith, ih.recalled, one);
      reported = omega (arith, ih.reported, split (leb t p.score) (is_some j));
      kept = ih.kept ∙ length-claimed j p.score slots;
    }
  where
    split :
        (a b : Bool)
        → (if a && b then 1 else 0) + (if a && not b then 1 else 0) ≡ (if a then 1 else 0)
    split true true = omega arith
    split true false = omega arith
    split false b = omega arith

count_if-insert_pred :
    {B : Type 0} (q : Prediction B → Bool) (p : Prediction B) (ps : List (Prediction B))
    → count_if q (insert_pred p ps) ≡ (if q p then 1 else 0) + count_if q ps
unfolding insert_pred
count_if-insert_pred q p [] = refl
count_if-insert_pred q p (x ∷ ps) = elim (Bool-cases (leb x.score p.score)) [
  | inl e ↦ rw e refl
  | inr e ↦ rw e (omega (arith, count_if-insert_pred q p ps))
]

pub count_if-sort_preds :
    {B : Type 0} (q : Prediction B → Bool) (ps : List (Prediction B))
    → count_if q (sort_preds ps) ≡ count_if q ps
unfolding sort_preds
count_if-sort_preds q [] = refl
count_if-sort_preds q (p ∷ ps) =
    count_if-insert_pred q p (sort_preds ps)
    ∙ ap (λ n. (if q p then 1 else 0) + n) (count_if-sort_preds q ps)

pub slots_of-unclaimed :
    {B : Type 0} (t : Score) (gs : List (GroundTruth B))
    → (slots_recalled t (slots_of gs) ≡ 0) × (length (slots_of gs) ≡ length gs)
slots_of-unclaimed t [] = (refl, refl)
slots_of-unclaimed t (g ∷ gs) =
    let (a, b) = slots_of-unclaimed t gs in (omega (arith, a), omega (arith, b))

pub records_of-slots :
    {B : Type 0} (t : Score) (ss : List (Slot B))
    → (count_if (λ r. is_recalled t r.matched) (records_of ss) ≡ slots_recalled t ss)
      × (length (records_of ss) ≡ length ss)
records_of-slots t [] = (refl, refl)
records_of-slots t (s ∷ ss) =
    let (a, b) = records_of-slots t ss in (omega (arith, a), omega (arith, b))

-- The ground truths of a class in the images, and its predictions from a score on.
abbrev pub total_gts : {B : Type 0} → String → List (Image B) → ℕ
total_gts label [] = 0
total_gts label (image ∷ images) = length (gts_of label image) + total_gts label images

abbrev pub total_preds : {B : Type 0} → String → Score → List (Image B) → ℕ
total_preds label t [] = 0
total_preds label t (image ∷ images) =
    count_if (λ p. leb t p.score) (preds_of label image) + total_preds label t images
