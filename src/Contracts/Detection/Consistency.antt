-- ===== src/Contracts/Detection/Consistency.antt =====
-- DetectionResult._check_consistency (contracts/v1/detection.py) accepts the consistent results.
use loyiha.Base.{
  ◌≡◌, refl, ap, suc, ◌↔◌, false, not, ◌&&◌, List, [], ◌∷◌, arith, All, IsDistinct, IsFresh,
  IsFresh-nil, IsFresh-cons, ok, ◌>>◌, false-contains, contains-false, ℕ_eq, String_eq, dedup,
  dedup_iff, length, ◌==◌, is_empty, >>_iff, raise_if_iff,
}
use loyiha.Contracts.Common.{Uuid, ImageFrame}
use loyiha.Contracts.Detection.{
  completed_no_findings, failed, Detection, DetectionResult, frame_by_id, frame_check, frame_ids,
  detection_ids, check_detections, check_consistency, is_failed, is_no_findings, is_falsy,
  unknown_frame_id, box_exceeds_frame,
}
use loyiha.Contracts.Detection.Frames.{IsPlaced, frame_check_iff}

-- What a reader may rely on after the validator has run.
pub record IsConsistent (r : DetectionResult) : Type 0 where
  pub frames_distinct : IsDistinct (frame_ids r.frames)
  pub detections_distinct : IsDistinct (detection_ids r.detections)
  pub placed : All (λ d. IsPlaced r.frames d.frame_id d.box) r.detections
  pub failed_empty : r.status ≡ failed → r.detections ≡ []
  pub no_findings_empty : r.status ≡ completed_no_findings → r.detections ≡ []
  pub failed_explained : r.status ≡ failed → is_falsy r.error ≡ false

record Loop (frames : List ImageFrame) (seen : List Uuid) (ds : List Detection) : Type 0 where
  fresh : IsFresh seen (detection_ids ds)
  distinct : IsDistinct (detection_ids ds)
  placed : All (λ d. IsPlaced frames d.frame_id d.box) ds

check_detections_iff :
    (frames : List ImageFrame) (seen : List Uuid) (ds : List Detection)
    → IsDistinct (frame_ids frames)
    → (check_detections frames seen ds ≡ ok tt) ↔ Loop frames seen ds
unfolding check_detections
check_detections_iff frames seen [] u =
    (λ h. record { fresh = tt; distinct = tt; placed = tt }, λ h. refl)
check_detections_iff frames seen (d ∷ ds) u =
    let rest = check_detections frames (d.detection_id ∷ seen) ds in
    let one =
      frame_check (frame_by_id frames d.frame_id) d.box unknown_frame_id box_exceeds_frame in
    let placed_iff = frame_check_iff frames d.frame_id d.box unknown_frame_id box_exceeds_frame u in
    let ih = check_detections_iff frames (d.detection_id ∷ seen) ds u in
    let split = IsFresh-cons d.detection_id seen (detection_ids ds) in
    (
      λ h.
          let (a, h') = (>>_iff _ (one >> rest) tt).0 h in
          let (b, c) = (>>_iff one rest tt).0 h' in
          let w = ih.0 c in
          record {
            fresh =
                (contains-false seen d.detection_id ((raise_if_iff _ _).0 a), (split.0 w.fresh).0);
            distinct = ((split.0 w.fresh).1, w.distinct);
            placed = (placed_iff.0 b, w.placed);
          },
      λ w. (>>_iff _ (one >> rest) tt).1 (
        (raise_if_iff _ _).1 (false-contains seen d.detection_id w.fresh.0),
        (>>_iff one rest tt).1 (
          placed_iff.1 w.placed.0,
          ih.1 (record {
            fresh = split.1 (w.fresh.1, w.distinct.0);
            distinct = w.distinct.1;
            placed = w.placed.1;
          }),
        ),
      ),
    )

length-frame_ids : (frames : List ImageFrame) → length (frame_ids frames) ≡ length frames
length-frame_ids [] = refl
length-frame_ids (f ∷ fs) = ap suc (length-frame_ids fs)

frames_test_iff :
    (frames : List ImageFrame)
    → (not (length (dedup (frame_ids frames)) == length frames) ≡ false)
      ↔ IsDistinct (frame_ids frames)
frames_test_iff frames = (
  λ h. (dedup_iff (frame_ids frames)).0 (ground (arith, h, length-frame_ids frames)),
  λ d. ground (arith, (dedup_iff (frame_ids frames)).1 d, length-frame_ids frames),
)

-- the three tests of status against payload
status_iff :
    (r : DetectionResult)
    → ((is_failed r.status && not (is_empty r.detections) ≡ false)
        × (is_no_findings r.status && not (is_empty r.detections) ≡ false)
        × (is_failed r.status && is_falsy r.error ≡ false))
      ↔ ((r.status ≡ failed → r.detections ≡ [])
          × (r.status ≡ completed_no_findings → r.detections ≡ [])
          × (r.status ≡ failed → is_falsy r.error ≡ false))
status_iff r = (λ h. ground (arith, h), λ h. ground (arith, h))

-- `_check_consistency` returns the result, and raises no error, exactly when the result is
-- consistent: frame ids and detection ids do not repeat, every detection lies inside a frame of
-- the message, and status, findings and error text agree.
pub check_consistency_iff : (r : DetectionResult) → (check_consistency r ≡ ok tt) ↔ IsConsistent r
unfolding check_consistency
check_consistency_iff r = (
  λ h.
      let (a, h₁) = (>>_iff _ _ tt).0 h in
      let (b, h₂) = (>>_iff _ _ tt).0 h₁ in
      let (c, h₃) = (>>_iff _ _ tt).0 h₂ in
      let (d, e) = (>>_iff _ _ tt).0 h₃ in
      let u = (frames_test_iff r.frames).0 ((raise_if_iff _ _).0 a) in
      let w = (check_detections_iff r.frames [] r.detections u).0 b in
      let t =
        (status_iff r).0 ((raise_if_iff _ _).0 c, (raise_if_iff _ _).0 d, (raise_if_iff _ _).0 e) in
      record {
        frames_distinct = u;
        detections_distinct = w.distinct;
        placed = w.placed;
        failed_empty = t.0;
        no_findings_empty = t.1;
        failed_explained = t.2;
      },
  λ w.
      let t = (status_iff r).1 (w.failed_empty, w.no_findings_empty, w.failed_explained) in
      (>>_iff _ _ tt).1 (
        (raise_if_iff _ _).1 ((frames_test_iff r.frames).1 w.frames_distinct),
        (>>_iff _ _ tt).1 (
          (check_detections_iff r.frames [] r.detections w.frames_distinct).1 (record {
            fresh = IsFresh-nil (detection_ids r.detections);
            distinct = w.detections_distinct;
            placed = w.placed;
          }),
          (>>_iff _ _ tt).1 (
            (raise_if_iff _ _).1 t.0,
            (>>_iff _ _ tt).1 ((raise_if_iff _ _).1 t.1, (raise_if_iff _ _).1 t.2),
          ),
        ),
      ),
)
