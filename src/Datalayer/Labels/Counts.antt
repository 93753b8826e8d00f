-- ===== src/Datalayer/Labels/Counts.antt =====
-- How many label candidates an operator's feedback yields (datalayer/labelstore.py), compared
-- with what the message says of itself (contracts/v1/feedback.py).
use loyiha.Base.{
  ℕ, ◌+◌, ◌≡◌, Bool, true, false, List, [], ◌∷◌, ◌++◌, arith, ok, length, count_if, count_if-append,
  if◌then◌else◌,
}
use loyiha.Contracts.Common.{Uuid, ImageFrame}
use loyiha.Contracts.Feedback.{
  OperatorFeedback, DetectionJudgement, DetectionReview, OperatorAnnotation, is_positive,
  is_rejected, n_gold_labels, n_hard_negatives,
}
use loyiha.Datalayer.Labels.{
  LabelSource, operator_confirmed, operator_reclassified, operator_missed, hard_negative,
  true_negative_scan, LabelEntry, entry, region_entry, review_entries, add_reviews, missed_entry,
  add_missed, is_true_negative, true_negative_entry, add_true_negative, extract_label_entries,
}

abbrev pub is_gold : LabelSource → Bool
is_gold operator_confirmed = true
is_gold operator_reclassified = true
is_gold operator_missed = true
is_gold _ = false

abbrev pub is_hard : LabelSource → Bool
is_hard hard_negative = true
is_hard _ = false

abbrev pub count : (LabelSource → Bool) → List LabelEntry → ℕ
count p = count_if (λ e. p e.source)

module _ (uuid4 : ℕ → Uuid) (now : ℕ → ℕ) (f : OperatorFeedback) where
  -- A loop over the reviews adds one entry of the sources `p` for each judgement of `w`.
  count-add_reviews :
      (p : LabelSource → Bool) (w : DetectionJudgement → Bool)
      → ((n : ℕ) (r : DetectionReview)
          → count p (review_entries uuid4 now f n r) ≡ (if w r.judgement then 1 else 0))
      → (es : List LabelEntry) (rs : List DetectionReview)
      → count p (add_reviews uuid4 now f es rs) ≡ count p es + count_if (λ r. w r.judgement) rs
  unfolding add_reviews
  count-add_reviews p w one es [] = omega arith
  count-add_reviews p w one es (r ∷ rs) =
      let new = review_entries uuid4 now f (length es) r in
      let rest = count-add_reviews p w one (es ++ new) rs in
      let here = one (length es) r in
      let split = count_if-append (λ (e : LabelEntry). p e.source) es new in
      omega (arith, rest, here, split)

  count-add_missed :
      (p : LabelSource → Bool) (es : List LabelEntry) (ms : List OperatorAnnotation)
      → count p (add_missed uuid4 now f es ms)
        ≡ count p es + (if p operator_missed then length ms else 0)
  unfolding add_missed missed_entry entry
  count-add_missed p es [] = ground arith
  count-add_missed p es (m ∷ ms) =
      let new = missed_entry uuid4 now f (length es) m ∷ [] in
      let rest = count-add_missed p (es ++ new) ms in
      let split = count_if-append (λ (e : LabelEntry). p e.source) es new in
      ground (arith, rest, split)

  count-add_true_negative :
      (p : LabelSource → Bool) (es : List LabelEntry) (frames : List ImageFrame)
      (out : List LabelEntry)
      → add_true_negative uuid4 now f es frames ≡ ok out
      → count p out
        ≡ count p es + (if p true_negative_scan then (if is_true_negative f then 1 else 0) else 0)
  unfolding add_true_negative true_negative_entry entry
  count-add_true_negative p es [] out h = ground (arith, h)
  count-add_true_negative p es (g ∷ gs) out h =
      let new = true_negative_entry uuid4 now f (length es) g ∷ [] in
      let split = count_if-append (λ (e : LabelEntry). p e.source) es new in
      ground (arith, h, split)

  count-extract :
      (p : LabelSource → Bool) (w : DetectionJudgement → Bool)
      → ((n : ℕ) (r : DetectionReview)
          → count p (review_entries uuid4 now f n r) ≡ (if w r.judgement then 1 else 0))
      → (es : List LabelEntry) → extract_label_entries uuid4 now f ≡ ok es
      → count p es
        ≡ count_if (λ r. w r.judgement) f.reviews
          + (if p operator_missed then length f.missed else 0)
          + (if p true_negative_scan then (if is_true_negative f then 1 else 0) else 0)
  unfolding extract_label_entries
  count-extract p w one es h =
      let a = count-add_reviews p w one [] f.reviews in
      let b = count-add_missed p (add_reviews uuid4 now f [] f.reviews) f.missed in
      let c = count-add_true_negative p _ f.detection.frames es h in omega (arith, a, b, c)

  gold_review :
      (n : ℕ) (r : DetectionReview)
      → count is_gold (review_entries uuid4 now f n r) ≡ (if is_positive r.judgement then 1 else 0)
  unfolding review_entries region_entry entry
  gold_review n r = ground arith

  hard_review :
      (n : ℕ) (r : DetectionReview)
      → count is_hard (review_entries uuid4 now f n r) ≡ (if is_rejected r.judgement then 1 else 0)
  unfolding review_entries region_entry entry
  hard_review n r = ground arith

  -- The extracted label candidates are as many gold labels as `n_gold_labels` says and as many
  -- hard negatives as `n_hard_negatives` says.
  pub extract_counts :
      (es : List LabelEntry)
      → extract_label_entries uuid4 now f ≡ ok es
      → (count is_gold es ≡ n_gold_labels f) × (count is_hard es ≡ n_hard_negatives f)
  unfolding n_gold_labels n_hard_negatives
  extract_counts es h = (
    omega (arith, count-extract is_gold is_positive gold_review es h),
    omega (arith, count-extract is_hard is_rejected hard_review es h),
  )
