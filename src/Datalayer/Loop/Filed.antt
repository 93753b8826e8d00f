-- ===== src/Datalayer/Loop/Filed.antt =====
-- What a processed feedback leaves in the queue (datalayer/active_learning.py).
use loyiha.Base.{
  ℕ, ◌≤◌, ◌≡◌, ◌≢◌, refl, sym, ap, inl, inr, Bool, Option, some, List, [], ◌∷◌, ◌++◌, String, ok,
  arith, All, In, Bool-cases,
}
use loyiha.Contracts.Common.{Uuid, ThreatCategory}
use loyiha.Contracts.Detection.Consistency.{IsConsistent}
use loyiha.Contracts.Feedback.{
  OperatorFeedback, category_matches_judgement, n_gold_labels, n_hard_negatives,
}
use loyiha.Contracts.Feedback.Grounded.{IsGrounded}
use loyiha.Datalayer.Labels.{LabelEntry, LabelSource, extract_label_entries}
use loyiha.Datalayer.Labels.Counts.{count, is_gold, is_hard, extract_counts}
use loyiha.Datalayer.Labels.Traced.{IsTraced, extract-IsTraced}
use loyiha.Datalayer.Quality.{QualityReport, filter_passing}
use loyiha.Datalayer.Quality.Usable.{IsUsable, quality_gate_iff}
use loyiha.Datalayer.Retrain.{RetrainThresholds}
use loyiha.Datalayer.Loop.{
  ProcessingResult, ActiveLearning, enqueue_many, receipt_of, file_entries, process_feedback,
}

-- The second list has the usable elements of the first and no others, in order, each as often.
pub data Picked : List LabelEntry → List LabelEntry → Type 0 where
  nothing : Picked [] []
  taken :
      (e : LabelEntry) (es ps : List LabelEntry)
      → IsUsable e
      → Picked es ps
      → Picked (e ∷ es) (e ∷ ps)
  left_out :
      (e : LabelEntry) (es ps : List LabelEntry) → ¬ IsUsable e → Picked es ps → Picked (e ∷ es) ps

-- the gate on a list: what passes is usable, keeps any property of the list, and is no more of it
record IsFiltered (P : LabelEntry → Type 0) (es passing : List LabelEntry) : Type 0 where
  fit : All IsUsable passing
  kept : All P passing
  fewer : (p : LabelSource → Bool) → count p passing ≤ count p es
  all_fit : (e : LabelEntry) → In e es → IsUsable e → In e passing
  picked : Picked es passing

filter_passing-IsFiltered :
    (P : LabelEntry → Type 0) (es : List LabelEntry)
    → ((e : LabelEntry) → P e → (c : ThreatCategory) × (e.category ≡ some c))
    → All P es
    → (found : List LabelEntry × List QualityReport) × (filter_passing es ≡ ok found)
      × IsFiltered P es found.0
unfolding filter_passing
filter_passing-IsFiltered P [] cat h = (
  _,
  refl,
  record {
    fit = tt;
    kept = tt;
    fewer = λ p. omega arith;
    all_fit = λ e i. absurd i;
    picked = nothing;
  },
)
filter_passing-IsFiltered P (e ∷ es) cat h =
    let (c, known) = cat e h.0 in
    let (report, gated, test) = quality_gate_iff e c known in
    let (found, rest, ih) = filter_passing-IsFiltered P es cat h.1 in
    elim (Bool-cases report.passed) [
      | inl p ↦
          rw (gated, rest, p)
            (
              _,
              refl,
              record {
                fit = (test.0 p, ih.fit);
                kept = (h.0, ih.kept);
                fewer = λ s. ground (arith, ih.fewer s);
                all_fit = λ a i u. elim i [ inl q ↦ inl q | inr j ↦ inr (ih.all_fit a j u) ];
                picked = taken e es found.0 (test.0 p) ih.picked;
              },
            )
      | inr p ↦
          rw (gated, rest, p)
            (
              _,
              refl,
              record {
                fit = ih.fit;
                kept = ih.kept;
                fewer = λ s. ground (arith, ih.fewer s);
                all_fit = λ a i u. elim i [
                  | inl q ↦ absurd (ground (arith, p, test.1 (rw (sym q) u)))
                  | inr j ↦ ih.all_fit a j u
                ];
                picked = left_out e es found.0 (λ u. ground (arith, p, test.1 u)) ih.picked;
              },
            )
    ]

-- What is appended to the queue is the usable candidates, traced, and the receipt counts
-- it, no more than the message says of itself.
pub record IsFiled {W : Type 0} (f : OperatorFeedback) (s s' : ActiveLearning W)
    (candidates : List LabelEntry) (r : ProcessingResult W) : Type 0 where
  pub passing : List LabelEntry
  pub appended : s'.queue ≡ s.queue ++ passing
  pub fit : All IsUsable passing
  pub traced : All (IsTraced f) passing
  pub all_fit : (e : LabelEntry) → In e candidates → IsUsable e → In e passing
  pub picked : Picked candidates passing
  pub gold : r.receipt.labels_queued ≡ count is_gold passing
  pub gold_bound : r.receipt.labels_queued ≤ n_gold_labels f
  pub hard : r.receipt.hard_negatives_queued ≡ count is_hard passing
  pub hard_bound : r.receipt.hard_negatives_queued ≤ n_hard_negatives f

enqueue_many-eq : (queue es : List LabelEntry) → (enqueue_many queue es).0 ≡ queue ++ es
unfolding enqueue_many
enqueue_many-eq queue [] = go queue
  where
    go : (es : List LabelEntry) → es ≡ es ++ []
    go [] = refl
    go (e ∷ es) = ap (λ xs. e ∷ xs) (go es)
enqueue_many-eq queue (e ∷ es) = refl

module _ {W : Type 0} (quotient : ℕ → ℕ → W) (uuid4 : ℕ → Uuid) (now : ℕ → ℕ) (clock : ℕ → ℕ)
    (spec_id : Uuid) (checkpoint : Option String) (t : RetrainThresholds)
    (dataset_target : String) where
  -- Feedback that its validators accept, on a consistent result with a frame, is processed without
  -- an error: exactly the usable candidates are appended to the queue, in order and each as often as it
  -- was extracted, each traced to its frame,
  -- operator and feedback, and the receipt counts them, within what the message says of itself.
  pub process_feedback-IsFiled :
      (f : OperatorFeedback) (s : ActiveLearning W)
      → IsConsistent f.detection
      → IsGrounded f
      → All (λ r. category_matches_judgement r ≡ ok tt) f.reviews
      → f.detection.frames ≢ []
      → (candidates : List LabelEntry) × (r : ProcessingResult W) × (s' : ActiveLearning W)
        × (extract_label_entries uuid4 now f ≡ ok candidates)
        × (process_feedback quotient uuid4 now clock spec_id checkpoint t dataset_target f s
            ≡ ok (r, s'))
        × IsFiled f s s' candidates r
  unfolding process_feedback file_entries receipt_of
  process_feedback-IsFiled f s c g valid full =
      let (candidates, extracted, traced) = extract-IsTraced uuid4 now f c g valid full in
      let (found, gated, w) =
        filter_passing-IsFiltered (IsTraced f) candidates (λ e k. k.categorised) traced in
      let (golds, hards) = extract_counts uuid4 now f candidates extracted in
      (
        candidates,
        (file_entries quotient uuid4 now clock spec_id checkpoint t dataset_target f s candidates
            found).0,
        (file_entries quotient uuid4 now clock spec_id checkpoint t dataset_target f s candidates
            found).1,
        extracted,
        rw (extracted, gated) refl,
        record {
          passing = found.0;
          appended = enqueue_many-eq s.queue found.0;
          fit = w.fit;
          traced = w.kept;
          all_fit = w.all_fit;
          picked = w.picked;
          gold = refl;
          gold_bound = omega (arith, w.fewer is_gold, golds);
          hard = refl;
          hard_bound = omega (arith, w.fewer is_hard, hards);
        },
      )
