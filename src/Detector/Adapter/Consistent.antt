-- ===== src/Detector/Adapter/Consistent.antt =====
-- detector/serving/adapter.py: whatever the model says, the result is one that the contract accepts.
use loyiha.Base.{
  ℕ, suc, ◌+◌, ◌<◌, if◌then◌else◌, str_eq, ◌≡◌, refl, sym, ap, ◌∙◌, subst, inl, inr, false, Option,
  none, some, List, [], ◌∷◌, ◌++◌, arith, All, In, IsDistinct, length, is_empty, Result, ok, raised,
  >>=-eq-ok, ok_inj, Bool-cases, Option-cases,
}
use loyiha.Contracts.Common.{ImageFrame, PixelBox, ThreatCategory, codes}
use loyiha.Detector.Taxonomy.{to_category}
use loyiha.Contracts.Acquisition.{AcquisitionResult, acquired_frame_ids}
use loyiha.Contracts.Detection.{Detection, completed, completed_no_findings, failed, detection_ids}
use loyiha.Contracts.Detection.Frames.{IsPlaced, Fits}
use loyiha.Contracts.Detection.Consistency.{IsConsistent}
use loyiha.Detector.Adapter.{
  Failure, RawDetection, WeaponsDetector, ℤ, to_detection, detection_of, first_chars, of_key,
  is_below, detect_frame, detect_sync, detect, result_of, legal_box,
}
use loyiha.Detector.Adapter.Box.{legal_box-Fits}

module _ {F : Type 0} (w : WeaponsDetector F) where
  -- the ids are those of consecutive calls of `uuid4`
  abbrev AreNumbered : ℕ → List Detection → Type 0
  AreNumbered n [] = Unit
  AreNumbered n (d ∷ ds) = (d.detection_id ≡ w.uuid4 n) × AreNumbered (suc n) ds

  abbrev ArePlaced : List ImageFrame → List Detection → Type 0
  ArePlaced frames ds = All (λ d. IsPlaced frames d.frame_id d.box) ds

  -- what holds of a detection that is the n-th of a run, on this frame
  abbrev IsOn : ImageFrame → ℕ → Detection → Type 0
  IsOn frame n d = (d.detection_id ≡ w.uuid4 n) × (d.frame_id ≡ frame.frame_id) × Fits d.box frame

  detection_of-IsOn :
      (raw : RawDetection F) (frame : ImageFrame) (category : ThreatCategory) (score : Option ℤ)
      (n : ℕ) (found : Option PixelBox) (d : Detection)
      → ((b : PixelBox) → found ≡ some b → Fits b frame)
      → detection_of w raw frame category score n found ≡ ok (some d)
      → IsOn frame n d
  detection_of-IsOn raw frame category score n none d fits h = cc
  detection_of-IsOn raw frame category none n (some box) d fits h = cc
  detection_of-IsOn raw frame category (some score) n (some box) d fits h =
      elim (Bool-cases (is_empty (codes (w.trimmed (first_chars 128 raw.native_label))))) [
        | inl e ↦ cc (rw e at h)
        | inr e ↦ subst (IsOn frame n) (some_inj (ok_inj (rw e at h))) (refl, refl, fits box refl)
      ]
    where
      some_inj : {x y : Detection} → some x ≡ some y → x ≡ y
      some_inj p = cc

  to_detection-IsOn :
      (raw : RawDetection F) (frame : ImageFrame) (n : ℕ) (d : Detection)
      → to_detection w raw frame n ≡ ok (some d)
      → IsOn frame n d
  unfolding to_detection
  to_detection-IsOn raw frame n d h =
      let (category, e1, h1) =
        >>=-eq-ok (of_key (to_category w.unicode (codes raw.native_label))) _ h in
      let (score, e2, h2) = >>=-eq-ok (w.calibrate raw.native_label raw.score) _ h1 in
      elim (Bool-cases (is_below score (w.thresholds category))) [
        | inl e ↦ cc (rw e at h2)
        | inr e ↦
            let (found, boxed, h3) = >>=-eq-ok (legal_box w raw frame) _ (rw e at h2) in
            detection_of-IsOn raw frame category score n found d
              (λ b p. (legal_box-Fits w raw frame b (boxed ∙ ap ok p)).0) h3
      ]

  AreNumbered-append :
      (n : ℕ) (xs ys : List Detection)
      → AreNumbered n xs
      → AreNumbered (n + length xs) ys
      → AreNumbered n (xs ++ ys)
  AreNumbered-append n [] ys h k = subst (λ m. AreNumbered m ys) (omega arith) k
  AreNumbered-append n (x ∷ xs) ys (h, hs) k =
      (h, AreNumbered-append (suc n) xs ys hs (subst (λ m. AreNumbered m ys) (omega arith) k))

  In-AreNumbered :
      (ds : List Detection) (n m : ℕ)
      → ((i j : ℕ) → w.uuid4 i ≡ w.uuid4 j → i ≡ j)
      → n < m
      → AreNumbered m ds
      → ¬ In (w.uuid4 n) (detection_ids ds)
  In-AreNumbered [] n m inj lt h i = i
  In-AreNumbered (d ∷ ds) n m inj lt (h, hs) (inl e) = omega (arith, inj n m (e ∙ h), lt)
  In-AreNumbered (d ∷ ds) n m inj lt (h, hs) (inr i) =
      In-AreNumbered ds n (suc m) inj (omega (arith, lt)) hs i

  AreNumbered-IsDistinct :
      (ds : List Detection) (n : ℕ)
      → ((i j : ℕ) → w.uuid4 i ≡ w.uuid4 j → i ≡ j)
      → AreNumbered n ds
      → IsDistinct (detection_ids ds)
  AreNumbered-IsDistinct [] n inj h = tt
  AreNumbered-IsDistinct (d ∷ ds) n inj (h, hs) = (
    λ i.
        In-AreNumbered ds n (suc n) inj (omega arith) hs (subst (λ k. In k (detection_ids ds)) h i),
    AreNumbered-IsDistinct ds (suc n) inj hs,
  )

  record IsRun (frames : List ImageFrame) (n : ℕ) (ds : List Detection) : Type 0 where
    numbered : AreNumbered n ds
    placed : ArePlaced frames ds

  detect_frame-IsRun :
      (frames : List ImageFrame) (frame : ImageFrame)
      → In frame frames
      → (raws : List (RawDetection F)) (n : ℕ) (ds : List Detection)
      → detect_frame w frame raws n ≡ ok ds
      → IsRun frames n ds
  unfolding detect_frame
  detect_frame-IsRun frames frame i [] n ds h =
      subst (IsRun frames n) (ok_inj h) (record { numbered = tt; placed = tt })
  detect_frame-IsRun frames frame i (raw ∷ raws) n ds h =
      let (found, p, h1) = >>=-eq-ok (to_detection w raw frame n) _ h in
      elim (Option-cases found) [
        | inl q ↦ detect_frame-IsRun frames frame i raws n ds (rw q at h1)
        | inr (d, q) ↦
            let (rest, run, h2) = >>=-eq-ok (detect_frame w frame raws (n + 1)) _ (rw q at h1) in
            let (id, on, fits) = to_detection-IsOn raw frame n d (p ∙ ap ok q) in
            let ih = detect_frame-IsRun frames frame i raws (n + 1) rest run in
            subst (IsRun frames n) (ok_inj h2) (record {
              numbered = (id, subst (λ m. AreNumbered m rest) (omega arith) ih.numbered);
              placed =
                  (record { frame = frame; listed = i; named = sym on; fits = fits }, ih.placed);
            })
      ]

  All-append :
      (P : Detection → Type 0) (xs ys : List Detection) → All P xs → All P ys → All P (xs ++ ys)
  All-append P [] ys h k = k
  All-append P (x ∷ xs) ys (h, hs) k = (h, All-append P xs ys hs k)

  detect_sync-IsRun :
      (all frames : List ImageFrame)
      → ((f : ImageFrame) → In f frames → In f all)
      → (n : ℕ) (ds : List Detection) → detect_sync w frames n ≡ ok ds
      → IsRun all n ds
  unfolding detect_sync
  detect_sync-IsRun all [] sub n ds h =
      subst (IsRun all n) (ok_inj h) (record { numbered = tt; placed = tt })
  detect_sync-IsRun all (frame ∷ frames) sub n ds h =
      let (raws, e1, h1) = >>=-eq-ok (w.predict_frame frame.image) _ h in
      let (here, e2, h2) = >>=-eq-ok (detect_frame w frame raws n) _ h1 in
      let (rest, e3, h3) = >>=-eq-ok (detect_sync w frames (n + length here)) _ h2 in
      let a = detect_frame-IsRun all frame (sub frame (inl refl)) raws n here e2 in
      let b = detect_sync-IsRun all frames (λ f i. sub f (inr i)) (n + length here) rest e3 in
      subst (IsRun all n) (ok_inj h3) (record {
        numbered = AreNumbered-append n here rest a.numbered b.numbered;
        placed = All-append _ here rest a.placed b.placed;
      })

  -- Whatever the model, the loader and the calibrator do, the result of a scan whose frames have
  -- different ids keeps the scan's id and frames and is consistent in the contract's sense, if
  -- `uuid4` gives different ids: no id repeats, each box lies in its frame, and a failure comes with
  -- no detection and with a text, given that the text of the exception is not empty.
  pub detect-IsConsistent :
      (a : AcquisitionResult)
      → IsDistinct (acquired_frame_ids a)
      → ((i j : ℕ) → w.uuid4 i ≡ w.uuid4 j → i ≡ j)
      → str_eq w.error "" ≡ false
      → ((detect w a).scan_id ≡ a.scan_id)
        × ((detect w a).frames ≡ a.frames)
        × IsConsistent (detect w a)
  unfolding detect acquired_frame_ids
  detect-IsConsistent a distinct inj text = go (detect_sync w a.frames 0) refl
    where
      go :
          (r : Result Failure (List Detection))
          → detect_sync w a.frames 0 ≡ r
          → ((result_of w a r).scan_id ≡ a.scan_id)
            × ((result_of w a r).frames ≡ a.frames)
            × IsConsistent (result_of w a r)
      go (raised e) p = (
        refl,
        refl,
        record {
          frames_distinct = distinct;
          detections_distinct = tt;
          placed = tt;
          failed_empty = λ q. refl;
          no_findings_empty = λ q. refl;
          failed_explained = λ q. text;
        },
      )
      go (ok ds) p =
          let run = detect_sync-IsRun a.frames a.frames (λ f i. i) 0 ds p in
          (
            refl,
            refl,
            record {
              frames_distinct = distinct;
              detections_distinct = AreNumbered-IsDistinct ds 0 inj run.numbered;
              placed = run.placed;
              failed_empty = never_failed ds;
              no_findings_empty = none_found ds;
              failed_explained = λ q. absurd (not_failed ds q);
            },
          )
        where
          not_failed :
              (ds : List Detection)
              → ¬ ((if is_empty ds then completed_no_findings else completed) ≡ failed)
          not_failed [] q = cc
          not_failed (d ∷ ds) q = cc

          never_failed :
              (ds : List Detection)
              → (if is_empty ds then completed_no_findings else completed) ≡ failed
              → ds ≡ []
          never_failed ds q = absurd (not_failed ds q)

          none_found :
              (ds : List Detection)
              → (if is_empty ds then completed_no_findings else completed) ≡ completed_no_findings
              → ds ≡ []
          none_found [] q = refl
          none_found (d ∷ ds) q = cc
