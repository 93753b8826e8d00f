-- ===== src/Detector/Evaluation/Gate/Fingerprint.antt =====
-- detector/eval/accuracy_delta.py: what the fingerprint of a ground truth says of its objects.
use loyiha.Base.{
  ◌+◌, ◌≡◌, refl, ap, ◌∙◌, inl, inr, Bool, List, [], ◌∷◌, String, str_eq, if◌then◌else◌, map, keep,
  length, count_if, count_if-append, Bool-cases, arith,
}
use loyiha.Detector.Evaluation.{GroundTruth, Image}
use loyiha.Detector.Evaluation.Counts.{total_gts}
use loyiha.Detector.Evaluation.Gate.{
  GtKey, Hashing, insert_key, sort_keys, key_of_gt, keys_of, canon,
}

module _ {B : Type 0} (h : Hashing B) where
  count_if-insert_key :
      (p : GtKey B → Bool) (k : GtKey B) (ks : List (GtKey B))
      → count_if p (insert_key h k ks) ≡ (if p k then 1 else 0) + count_if p ks
  unfolding insert_key
  count_if-insert_key p k [] = refl
  count_if-insert_key p k (x ∷ ks) = elim (Bool-cases (h.before k x)) [
    | inl e ↦ rw e refl
    | inr e ↦ rw e (omega (arith, count_if-insert_key p k ks))
  ]

  count_if-sort_keys :
      (p : GtKey B → Bool) (ks : List (GtKey B)) → count_if p (sort_keys h ks) ≡ count_if p ks
  unfolding sort_keys
  count_if-sort_keys p [] = refl
  count_if-sort_keys p (k ∷ ks) =
      count_if-insert_key p k (sort_keys h ks)
      ∙ ap (λ n. (if p k then 1 else 0) + n) (count_if-sort_keys p ks)

  counted :
      (label image_id : String) (gts : List (GroundTruth B))
      → count_if (λ k. str_eq k.label label) (map (key_of_gt h image_id) gts)
        ≡ length (keep (λ g. str_eq g.label label) gts)
  counted label image_id [] = refl
  counted label image_id (g ∷ gs) = elim (Bool-cases (str_eq g.label label)) [
    | inl e ↦ rw e (omega (arith, counted label image_id gs))
    | inr e ↦ rw e (omega (arith, counted label image_id gs))
  ]

  keys_of-total :
      (label : String) (images : List (Image B))
      → count_if (λ k. str_eq k.label label) (keys_of h images) ≡ total_gts label images
  unfolding keys_of
  keys_of-total label [] = refl
  keys_of-total label (image ∷ images) =
      let whole =
        count_if-append (λ (k : GtKey B). str_eq k.label label)
          (map (key_of_gt h image.image_id) image.gts) (keys_of h images) in
      omega (arith, whole, counted label image.image_id image.gts, keys_of-total label images)

  -- The sorted tuples have each object of a class once.
  pub canon-total :
      (label : String) (images : List (Image B))
      → count_if (λ k. str_eq k.label label) (canon h images) ≡ total_gts label images
  canon-total label images = count_if-sort_keys _ (keys_of h images) ∙ keys_of-total label images
