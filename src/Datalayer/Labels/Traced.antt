-- ===== src/Datalayer/Labels/Traced.antt =====
-- Where the label candidates come from: the custody chain that datalayer/labelstore.py promises.
use loyiha.Base.{
  ℕ, ◌≡◌, refl, sym, ◌≢◌, ◌⊎◌, inl, inr, Option, some, List, [], ◌∷◌, ◌++◌, ◌==◌, arith, ok, length,
  Bool-cases, Option-cases, All, In, In-All,
}
use loyiha.Contracts.Common.{Uuid, ImageFrame, PixelBox, ThreatCategory, unknown}
use loyiha.Contracts.Detection.{Detection, detection_ids}
use loyiha.Contracts.Detection.Frames.{Fits, IsPlaced, frame_by_id-found}
use loyiha.Contracts.Detection.Consistency.{IsConsistent}
use loyiha.Contracts.Feedback.{
  OperatorFeedback, DetectionReview, OperatorAnnotation, DetectionJudgement,
  category_matches_judgement,
}
use loyiha.Contracts.Feedback.Grounded.{IsGrounded, category_matches_judgement_iff}
use loyiha.Datalayer.Labels.{
  LabelEntry, LabelSource, true_negative_scan, detection_by_id, frame_sha256, detection_frame_id,
  detection_box, entry, region_entry, review_entries, add_reviews, missed_entry, add_missed,
  is_true_negative, true_negative_entry, add_true_negative, extract_label_entries,
}

-- the four columns of the box, of an entry that has one
pub record HasBox (e : LabelEntry) (b : PixelBox) : Type 0 where
  pub x : e.box_x ≡ some b.x
  pub y : e.box_y ≡ some b.y
  pub w : e.box_w ≡ some b.width
  pub h : e.box_h ≡ some b.height

-- The entry has a category, names a frame of the embedded result and the hash of the frame's stored bytes, the
-- feedback that it came from, and, unless it is of a true-negative scan, a box inside the frame.
pub record IsTraced (f : OperatorFeedback) (e : LabelEntry) : Type 0 where
  pub frame : ImageFrame
  pub listed : In frame f.detection.frames
  pub categorised : (c : ThreatCategory) × (e.category ≡ some c)
  pub named : e.frame_id ≡ frame.frame_id
  pub stored : e.scan_sha256 ≡ frame.image.sha256
  pub attributed :
      (e.scan_id ≡ f.scan_id)
      × (e.operator_id ≡ f.operator_id)
      × (e.feedback_id ≡ some f.feedback_id)
  pub region : (e.source ≡ true_negative_scan) ⊎ ((b : PixelBox) × HasBox e b × Fits b frame)

All-append : {A : Type 0} (P : A → Type 0) (xs ys : List A) → All P xs → All P ys → All P (xs ++ ys)
All-append P [] ys h k = k
All-append P (x ∷ xs) ys h k = (h.0, All-append P xs ys h.1 k)

-- The search finds a detection whose id is listed.
detection_by_id-In :
    (ds : List Detection) (i : Uuid)
    → In i (detection_ids ds)
    → (d : Detection) × (detection_by_id ds i ≡ some d) × In d ds
unfolding detection_by_id
detection_by_id-In [] i h = absurd h
detection_by_id-In (d ∷ ds) i h = elim (Bool-cases (d.detection_id == i)) [
  | inl p ↦ (d, ground (arith, p), inl refl)
  | inr p ↦ elim h [
    | inl e ↦ absurd (ground (arith, p, e))
    | inr k ↦ let (g, q, l) = detection_by_id-In ds i k in (g, ground (arith, p, q), inr l)
  ]
]

-- A valid reclassification has its corrected category.
corrected :
    (r : DetectionReview)
    → category_matches_judgement r ≡ ok tt
    → r.judgement ≡ DetectionJudgement.reclassified
    → (c : ThreatCategory) × (r.corrected_category ≡ some c)
corrected r valid e = elim (Option-cases r.corrected_category) [
  | inl p ↦ absurd (ground (arith, p, ((category_matches_judgement_iff r).0 valid).0 e))
  | inr found ↦ found
]

module _ (uuid4 : ℕ → Uuid) (now : ℕ → ℕ) (f : OperatorFeedback)
    (c : IsConsistent f.detection) where
  -- a review of a known detection whose validator passed
  record IsReadable (r : DetectionReview) : Type 0 where
    known : In r.detection_id (detection_ids f.detection.detections)
    valid : category_matches_judgement r ≡ ok tt

  readable :
      (rs : List DetectionReview)
      → All (λ r. In r.detection_id (detection_ids f.detection.detections)) rs
      → All (λ r. category_matches_judgement r ≡ ok tt) rs
      → All IsReadable rs
  readable [] h k = tt
  readable (r ∷ rs) h k = (record { known = h.0; valid = k.0 }, readable rs h.1 k.1)

  frame_sha256-found :
      (g : ImageFrame) → In g f.detection.frames → frame_sha256 f g.frame_id ≡ g.image.sha256
  unfolding frame_sha256
  frame_sha256-found g l = rw (frame_by_id-found f.detection.frames g c.frames_distinct l) refl

  -- the entry of a review of a known detection
  region_entry-IsTraced :
      (n : ℕ) (r : DetectionReview) (s : LabelSource) (cat from : Option ThreatCategory)
      → ((c : ThreatCategory) × (cat ≡ some c))
      → In r.detection_id (detection_ids f.detection.detections)
      → IsTraced f (region_entry uuid4 now f n r s cat from)
  unfolding region_entry entry detection_frame_id detection_box
  region_entry-IsTraced n r s cat from cat_some k =
      let (d, found, listed) = detection_by_id-In f.detection.detections r.detection_id k in
      let place = In-All _ f.detection.detections c.placed d listed in
      rw found (record {
        frame = place.frame;
        listed = place.listed;
        categorised = cat_some;
        named = sym place.named;
        stored = rw (sym place.named) (frame_sha256-found place.frame place.listed);
        attributed = (refl, refl, refl);
        region = inr (d.box, record { x = refl; y = refl; w = refl; h = refl }, place.fits);
      })

  review_entries-IsTraced :
      (n : ℕ) (r : DetectionReview)
      → IsReadable r
      → All (IsTraced f) (review_entries uuid4 now f n r)
  unfolding review_entries region_entry
  review_entries-IsTraced n r k = go r.judgement refl
    where
      go :
          (j : DetectionJudgement)
          → r.judgement ≡ j
          → All (IsTraced f) (review_entries uuid4 now f n r)
      go DetectionJudgement.confirmed e =
          rw e (region_entry-IsTraced n r _ _ _ (_, refl) k.known, tt)
      go DetectionJudgement.rejected e =
          rw e (region_entry-IsTraced n r _ _ _ (_, refl) k.known, tt)
      go DetectionJudgement.reclassified e =
          let cat = corrected r k.valid e in rw e (region_entry-IsTraced n r _ _ _ cat k.known, tt)
      go DetectionJudgement.unreviewed e = rw e tt

  add_reviews-IsTraced :
      (es : List LabelEntry) (rs : List DetectionReview)
      → All (IsTraced f) es
      → All IsReadable rs
      → All (IsTraced f) (add_reviews uuid4 now f es rs)
  unfolding add_reviews
  add_reviews-IsTraced es [] h k = h
  add_reviews-IsTraced es (r ∷ rs) h k =
      add_reviews-IsTraced (es ++ review_entries uuid4 now f (length es) r) rs
        (All-append (IsTraced f) es _ h (review_entries-IsTraced (length es) r k.0)) k.1

  missed_entry-IsTraced :
      (n : ℕ) (m : OperatorAnnotation)
      → IsPlaced f.detection.frames m.frame_id m.box
      → IsTraced f (missed_entry uuid4 now f n m)
  unfolding missed_entry entry
  missed_entry-IsTraced n m place = record {
    frame = place.frame;
    listed = place.listed;
    categorised = (m.category, refl);
    named = sym place.named;
    stored = rw (sym place.named) (frame_sha256-found place.frame place.listed);
    attributed = (refl, refl, refl);
    region = inr (m.box, record { x = refl; y = refl; w = refl; h = refl }, place.fits);
  }

  add_missed-IsTraced :
      (es : List LabelEntry) (ms : List OperatorAnnotation)
      → All (IsTraced f) es
      → All (λ m. IsPlaced f.detection.frames m.frame_id m.box) ms
      → All (IsTraced f) (add_missed uuid4 now f es ms)
  unfolding add_missed
  add_missed-IsTraced es [] h k = h
  add_missed-IsTraced es (m ∷ ms) h k =
      add_missed-IsTraced (es ++ (missed_entry uuid4 now f (length es) m ∷ [])) ms
        (All-append (IsTraced f) es _ h (missed_entry-IsTraced (length es) m k.0, tt)) k.1

  add_true_negative-IsTraced :
      (es : List LabelEntry) (frames : List ImageFrame)
      → frames ≢ []
      → ((g : ImageFrame) → In g frames → In g f.detection.frames)
      → All (IsTraced f) es
      → (out : List LabelEntry) × (add_true_negative uuid4 now f es frames ≡ ok out)
        × All (IsTraced f) out
  unfolding add_true_negative true_negative_entry entry
  add_true_negative-IsTraced es [] full sub h = absurd (full refl)
  add_true_negative-IsTraced es (g ∷ gs) full sub h = elim (Bool-cases (is_true_negative f)) [
    | inl p ↦ rw p (_, refl, All-append (IsTraced f) es _ h (last, tt))
    | inr p ↦ rw p (es, refl, h)
  ]
    where
      last : IsTraced f (true_negative_entry uuid4 now f (length es) g)
      last = record {
        frame = g;
        listed = sub g (inl refl);
        categorised = (unknown, refl);
        named = refl;
        stored = refl;
        attributed = (refl, refl, refl);
        region = inl refl;
      }

  -- Of a consistent embedded result with a frame, and grounded feedback whose reviews are valid,
  -- the extraction returns entries, and every one has a category and is traced to a frame, its
  -- hash, the operator and the feedback, with a box inside the frame unless it is of a
  -- true-negative scan.
  pub extract-IsTraced :
      IsGrounded f
      → All (λ r. category_matches_judgement r ≡ ok tt) f.reviews
      → f.detection.frames ≢ []
      → (es : List LabelEntry) × (extract_label_entries uuid4 now f ≡ ok es) × All (IsTraced f) es
  unfolding extract_label_entries
  extract-IsTraced g valid full =
      add_true_negative-IsTraced _ f.detection.frames full (λ x i. i)
        (add_missed-IsTraced _ f.missed
          (add_reviews-IsTraced [] f.reviews tt (readable f.reviews g.known valid)) g.placed)
