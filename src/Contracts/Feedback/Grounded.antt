-- ===== src/Contracts/Feedback/Grounded.antt =====
-- The validators of contracts/v1/feedback.py accept exactly the feedback that is grounded in the
-- detection result that it embeds.
use loyiha.Base.{
  ◌≡◌, refl, sym, ◌↔◌, inl, inr, false, not, List, [], ◌∷◌, arith, All, In, IsDistinct, IsFresh,
  IsFresh-cons, IsFresh-nil, ◌∙◌, ok, >>_iff, raise_if_iff, contains-false, false-contains, ℕ_eq,
  dedup, ◌==◌, map, String, str_eq, eq_iff, Bool-cases, Option-cases,
}
use loyiha.Contracts.Common.{Uuid, ImageFrame}
use loyiha.Contracts.Detection.{
  detection_ids, frame_ids, frame_by_id, frame_check, unknown_missed_frame, missed_exceeds_frame,
}
use loyiha.Contracts.Detection.Frames.{IsPlaced, frame_check_iff, frame_by_id-In, In-frame_ids}
use loyiha.Contracts.Verdict.Integrity.{known_test}
use loyiha.Contracts.Detection.Consistency.{IsConsistent}
use loyiha.Contracts.Feedback.{
  DetectionReview, reclassified, OperatorAnnotation, OperatorFeedback, category_matches_judgement,
  frames_by_id, check_reviews, check_missed, check_feedback, is_none,
}

abbrev pub review_ids : List DetectionReview → List Uuid
review_ids = map (λ r. r.detection_id)

-- What a consumer may rely on after the validator has run.
pub record IsGrounded (f : OperatorFeedback) : Type 0 where
  pub same_scan : f.detection.scan_id ≡ f.scan_id
  pub known : All (λ r. In r.detection_id (detection_ids f.detection.detections)) f.reviews
  pub once : IsDistinct (review_ids f.reviews)
  pub placed : All (λ m. IsPlaced f.detection.frames m.frame_id m.box) f.missed

-- A review carries a corrected category exactly when it is a reclassification.
pub category_matches_judgement_iff :
    (r : DetectionReview)
    → (category_matches_judgement r ≡ ok tt)
      ↔ ((r.judgement ≡ reclassified) ↔ (is_none r.corrected_category ≡ false))
unfolding category_matches_judgement
category_matches_judgement_iff r = (λ h. ground (arith, h), λ h. ground (arith, h))

-- With distinct frame ids the dict of frames and the search for the first frame agree.
frames_by_id-frame_by_id :
    (frames : List ImageFrame) (i : String)
    → IsDistinct (frame_ids frames)
    → frames_by_id frames i ≡ frame_by_id frames i
unfolding frames_by_id frame_by_id
frames_by_id-frame_by_id [] i d = refl
frames_by_id-frame_by_id (f ∷ fs) i d = elim (Bool-cases (str_eq f.frame_id i)) [
  | inl p ↦ elim (Option-cases (frames_by_id fs i)) [
    | inl q ↦ ground (arith, p, q)
    | inr (g, q) ↦
        let (listed, named) = frame_by_id-In fs i (sym (frames_by_id-frame_by_id fs i d.1) ∙ q) in
        absurd (d.0 (rw ((eq_iff f.frame_id i).0 p ∙ sym named) (In-frame_ids fs g listed)))
  ]
  | inr p ↦ rw p (ground (arith, frames_by_id-frame_by_id fs i d.1))
]

record Loop (ids seen : List Uuid) (rs : List DetectionReview) : Type 0 where
  known : All (λ r. In r.detection_id ids) rs
  fresh : IsFresh seen (review_ids rs)
  distinct : IsDistinct (review_ids rs)

check_reviews_iff :
    (ids seen : List Uuid) (rs : List DetectionReview)
    → (check_reviews (dedup ids) seen rs ≡ ok tt) ↔ Loop ids seen rs
unfolding check_reviews
check_reviews_iff ids seen [] = (λ h. record { known = tt; fresh = tt; distinct = tt }, λ h. refl)
check_reviews_iff ids seen (r ∷ rs) =
    let ih = check_reviews_iff ids (r.detection_id ∷ seen) rs in
    let split = IsFresh-cons r.detection_id seen (review_ids rs) in
    (
      λ h.
          let (a, h₁) = (>>_iff _ _ tt).0 h in
          let (b, c) = (>>_iff _ _ tt).0 h₁ in
          let w = ih.0 c in
          record {
            known = ((known_test ids r.detection_id).0 ((raise_if_iff _ _).0 a), w.known);
            fresh =
                (contains-false seen r.detection_id ((raise_if_iff _ _).0 b), (split.0 w.fresh).0);
            distinct = ((split.0 w.fresh).1, w.distinct);
          },
      λ w. (>>_iff _ _ tt).1 (
        (raise_if_iff _ _).1 ((known_test ids r.detection_id).1 w.known.0),
        (>>_iff _ _ tt).1 (
          (raise_if_iff _ _).1 (false-contains seen r.detection_id w.fresh.0),
          ih.1 (record {
            known = w.known.1;
            fresh = split.1 (w.fresh.1, w.distinct.0);
            distinct = w.distinct.1;
          }),
        ),
      ),
    )

check_missed_iff :
    (frames : List ImageFrame) (ms : List OperatorAnnotation)
    → IsDistinct (frame_ids frames)
    → (check_missed frames ms ≡ ok tt) ↔ All (λ m. IsPlaced frames m.frame_id m.box) ms
unfolding check_missed
check_missed_iff frames [] u = (λ h. tt, λ h. refl)
check_missed_iff frames (m ∷ ms) u =
    let one = frame_check_iff frames m.frame_id m.box unknown_missed_frame missed_exceeds_frame u in
    let found =
      frame_check (frames_by_id frames m.frame_id) m.box unknown_missed_frame
        missed_exceeds_frame in
    let lookup = frames_by_id-frame_by_id frames m.frame_id u in
    let ih = check_missed_iff frames ms u in
    (
      λ h.
          let (a, b) = (>>_iff found (check_missed frames ms) tt).0 h in
          (one.0 (rw lookup at a), ih.0 b),
      λ w. (>>_iff _ _ tt).1 (rw lookup (one.1 w.0), ih.1 w.1),
    )

-- Given a consistent embedded result, `_check_consistency` accepts the feedback exactly when the
-- result is about the same scan, each review is of one of its detections, no detection is reviewed
-- twice, and every missed region lies inside one of its frames.
pub check_feedback_iff :
    (f : OperatorFeedback) → IsConsistent f.detection → (check_feedback f ≡ ok tt) ↔ IsGrounded f
unfolding check_feedback
check_feedback_iff f c = (
  λ h.
      let (a, h₁) = (>>_iff _ _ tt).0 h in
      let (b, d) = (>>_iff _ _ tt).0 h₁ in
      let w = (check_reviews_iff (detection_ids f.detection.detections) [] f.reviews).0 b in
      record {
        same_scan = same_scan_iff.0 ((raise_if_iff _ _).0 a);
        known = w.known;
        once = w.distinct;
        placed = (check_missed_iff f.detection.frames f.missed c.frames_distinct).0 d;
      },
  λ w. (>>_iff _ _ tt).1 (
    (raise_if_iff _ _).1 (same_scan_iff.1 w.same_scan),
    (>>_iff _ _ tt).1 (
      (check_reviews_iff (detection_ids f.detection.detections) [] f.reviews).1 (record {
        known = w.known;
        fresh = IsFresh-nil (review_ids f.reviews);
        distinct = w.once;
      }),
      (check_missed_iff f.detection.frames f.missed c.frames_distinct).1 w.placed,
    ),
  ),
)
  where
    same_scan_iff :
        (not (f.detection.scan_id == f.scan_id) ≡ false) ↔ (f.detection.scan_id ≡ f.scan_id)
    same_scan_iff = (λ h. ground (arith, h), λ h. ground (arith, h))
