-- ===== src/Witnesses/Datalayer.antt =====
-- The labels of one feedback, and retraining on counts that reach the thresholds.
use loyiha.Base.{ℕ, ◌+◌, ◌≡◌, ◌≢◌, refl, false, none, some, List, [], ◌∷◌, All, ok}
use loyiha.Contracts.Common.{bladed_weapon, currency}
use loyiha.Contracts.Feedback.{category_matches_judgement, seized}
use loyiha.Datalayer.Labels.{LabelEntry, LabelStatus, operator_confirmed, extract_label_entries}
use loyiha.Datalayer.Labels.Traced.{IsTraced, extract-IsTraced}
use loyiha.Datalayer.Balance.{
  Counts, compute_balance_report, class_stats, total_count, get_count, min_labels_per_class,
  trainable_classes,
}
use loyiha.Datalayer.Retrain.{
  RetrainThresholds, RetrainJobSpec, Scheduler, evaluate_triggers, check_and_emit, emit,
  in_cooldown, newly_trainable, previously_untrainable, spec_of,
}
use loyiha.Datalayer.Loop.{ProcessingResult, ActiveLearning, process_feedback}
use loyiha.Datalayer.Loop.Filed.{IsFiled, process_feedback-IsFiled}
use loyiha.Witnesses.Data.{sha, knife_feedback}
use loyiha.Witnesses.Contracts.{knife-IsConsistent, feedback-IsGrounded}

abbrev ids : ℕ → ℕ
ids n = 1000 + n

abbrev clock : ℕ → ℕ
clock n = 5000 + n

review_valid : All (λ r. category_matches_judgement r ≡ ok tt) knife_feedback.reviews
unfolding category_matches_judgement
review_valid = (refl, tt)

has_frame : knife_feedback.detection.frames ≢ []
has_frame h = cc

extract-IsTraced_example :
    (es : List LabelEntry) × (extract_label_entries ids clock knife_feedback ≡ ok es)
    × All (IsTraced knife_feedback) es
extract-IsTraced_example =
    extract-IsTraced ids clock knife_feedback knife-IsConsistent feedback-IsGrounded review_valid
      has_frame

extracted :
    (es : List LabelEntry) × (extract_label_entries ids clock knife_feedback ≡ ok es)
    × All (IsTraced knife_feedback) es
extracted =
    extract-IsTraced ids clock knife_feedback knife-IsConsistent feedback-IsGrounded review_valid
      has_frame

abbrev knife_entry : LabelEntry
knife_entry = record {
  label_id = 1000;
  scan_id = 1;
  scan_sha256 = sha;
  frame_id = "f1";
  source = operator_confirmed;
  category = some bladed_weapon;
  operator_id = "op-1";
  operator_outcome = seized;
  box_x = some 10;
  box_y = some 20;
  box_w = some 100;
  box_h = some 50;
  status = LabelStatus.pending;
  original_model_score = some 5;
  corrected_from = none;
  operator_note = none;
  feedback_id = some 3;
  queued_at = 5000;
  reviewed_at = none;
  consumed_at = none;
}

-- the quotient, kept as the pair of its terms
abbrev pair : ℕ → ℕ → ℕ × ℕ
pair a b = (a, b)

abbrev thresholds : RetrainThresholds
thresholds = record { min_new_labels_since_last = 200; min_cooldown = 24; min_total_labels = 500 }

abbrev idle : Scheduler (ℕ × ℕ)
idle = record { last_retrain_at = some 10; labels_at_last_retrain = 300; jobs = [] }

abbrev banked : Counts
banked = (some currency, 550) ∷ (some bladed_weapon, 40) ∷ []

emitting :
    (spec : RetrainJobSpec (ℕ × ℕ)) × (s' : Scheduler (ℕ × ℕ)) × (check_and_emit pair 77 clock none
        thresholds banked none false idle
      ≡ (some spec, s'))
unfolding check_and_emit emit evaluate_triggers in_cooldown newly_trainable previously_untrainable
    trainable_classes compute_balance_report class_stats total_count get_count min_labels_per_class
    spec_of
emitting = (_, _, refl)

abbrev learning : ActiveLearning (ℕ × ℕ)
learning = record { queue = []; scheduler = idle }

process_feedback-IsFiled_example :
    (candidates : List LabelEntry) × (r : ProcessingResult (ℕ × ℕ)) × (s' : ActiveLearning (ℕ × ℕ))
    × (extract_label_entries ids clock knife_feedback ≡ ok candidates)
    × (process_feedback pair ids clock clock 77 none thresholds "active-learning/pending"
          knife_feedback learning
        ≡ ok (r, s'))
    × IsFiled knife_feedback learning s' candidates r
process_feedback-IsFiled_example =
    process_feedback-IsFiled pair ids clock clock 77 none thresholds "active-learning/pending"
      knife_feedback learning knife-IsConsistent feedback-IsGrounded review_valid has_frame
