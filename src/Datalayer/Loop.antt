-- ===== src/Datalayer/Loop.antt =====
-- datalayer/active_learning.py: one operator feedback through extraction, gate, queue and
-- scheduler. The queue is the list of the lines of its file; writing a line or a job file succeeds.
pub mod Filed
use loyiha.Base.{
  ℕ, ◌-◌, ◌==◌, Bool, true, false, Option, none, some, List, [], ◌∷◌, ◌++◌, String, length,
  count_if, Result, ok, raised, ◌>>=◌, is_empty,
}
use loyiha.Contracts.Common.{Uuid}
use loyiha.Contracts.Feedback.{OperatorFeedback, FeedbackReceipt}
use loyiha.Datalayer.Labels.{
  LabelEntry, LabelStatus, LabelSource, operator_confirmed, operator_reclassified, operator_missed,
  hard_negative, true_negative_scan, IndexError, index_error, extract_label_entries,
}
use loyiha.Datalayer.Labels.Counts.{count, is_gold, is_hard}
use loyiha.Datalayer.Quality.{QualityReport, AttributeError, attribute_error, filter_passing}
use loyiha.Datalayer.Balance.{count_by_category}
use loyiha.Datalayer.Retrain.{RetrainThresholds, RetrainJobSpec, Scheduler, check_and_emit}

pub data LoopError : Type 0 where
  index attribute : LoopError

abbrev pub from_index : {A : Type 0} → Result IndexError A → Result LoopError A
from_index (ok a) = ok a
from_index (raised e) = raised index

abbrev pub from_attribute : {A : Type 0} → Result AttributeError A → Result LoopError A
from_attribute (ok a) = ok a
from_attribute (raised e) = raised attribute

pub record ProcessingResult (W : Type 0) : Type 0 where
  pub feedback_id : Uuid
  pub total_candidates : ℕ
  pub passing_count : ℕ
  pub rejected_count : ℕ
  pub quality_reports : List QualityReport
  pub retrain_spec : Option (RetrainJobSpec W)
  pub receipt : FeedbackReceipt

pub record ActiveLearning (W : Type 0) : Type 0 where
  pub queue : List LabelEntry
  pub scheduler : Scheduler W

-- `LabelQueue.enqueue_many`: the new file and the number of lines
unfoldable pub enqueue_many : List LabelEntry → List LabelEntry → List LabelEntry × ℕ
enqueue_many queue [] = (queue, 0)
enqueue_many queue (e ∷ es) = (queue ++ (e ∷ es), length (e ∷ es))

module _ {W : Type 0} (quotient : ℕ → ℕ → W) (uuid4 : ℕ → Uuid) (now : ℕ → ℕ) (clock : ℕ → ℕ)
    (spec_id : Uuid) (checkpoint : Option String) (t : RetrainThresholds)
    (dataset_target : String) where
  unfoldable pub receipt_of : OperatorFeedback → List LabelEntry → FeedbackReceipt
  receipt_of f passing = record {
    feedback_id = f.feedback_id;
    scan_id = f.scan_id;
    labels_queued = count is_gold passing;
    hard_negatives_queued = count is_hard passing;
    dataset_target = some dataset_target;
  }

  -- the steps after the gate, on its two lists
  unfoldable pub file_entries :
      OperatorFeedback
      → ActiveLearning W
      → List LabelEntry
      → List LabelEntry × List QualityReport
      → ProcessingResult W × ActiveLearning W
  file_entries f s candidates (passing, reports) =
      let queue = (enqueue_many s.queue passing).0 in
      let (spec, scheduler) =
        check_and_emit quotient spec_id clock checkpoint t
          (count_by_category LabelStatus.reviewed queue) none false s.scheduler in
      (
        record {
          feedback_id = f.feedback_id;
          total_candidates = length candidates;
          passing_count = length passing;
          rejected_count = length candidates - length passing;
          quality_reports = reports;
          retrain_spec = spec;
          receipt = receipt_of f passing;
        },
        record { queue = queue; scheduler = scheduler },
      )

  unfoldable pub process_feedback :
      OperatorFeedback → ActiveLearning W → Result LoopError (ProcessingResult W × ActiveLearning W)
  process_feedback f s = do
    candidates ← from_index (extract_label_entries uuid4 now f)
    gated ← from_attribute (filter_passing candidates)
    ok (file_entries f s candidates gated)
