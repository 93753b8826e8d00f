-- ===== src/Api/Hops/Banked.antt =====
-- app/api/v1/feedback.py over the sink of app/datalayer_wiring.py: labels of a failed request.
use loyiha.Base.{ℕ, ◌≡◌, some, [], ◌∷◌, arith, Result, ok, raised}
use loyiha.Contracts.Feedback.{OperatorFeedback, FeedbackReceipt}
use loyiha.State.Machine.{verdicted}
use loyiha.State.Session.{Scan, Session}
use loyiha.State.Store.Swap.{seen}
use loyiha.State.Store.Effects.{record_feedback-verdicted}
use loyiha.Datalayer.Loop.{LoopError, ProcessingResult, ActiveLearning}
use loyiha.Api.Hops.{
  ServiceError, service_failed, internal, failed_with, feedback_received, bank_feedback,
  submit_feedback,
}

-- `DataLayerFeedbackSink.record`, over `process_feedback` of the active-learning loop
unfoldable pub sink_of :
    {W : Type 0}
    → (OperatorFeedback
        → ActiveLearning W
        → Result LoopError (ProcessingResult W × ActiveLearning W))
    → OperatorFeedback
    → ActiveLearning W
    → Result ServiceError (FeedbackReceipt × ActiveLearning W)
sink_of process f s = elim (process f s) [
  | ok (result, s') ↦ ok (result.receipt, s')
  | raised e ↦ raised service_failed
]

-- On a scan that nobody has opened the request fails after the labels have been queued: the feedback
-- is not stored, and its labels stay.
pub submit_feedback-verdicted :
    {W : Type 0}
    (process : OperatorFeedback
      → ActiveLearning W
      → Result LoopError (ProcessingResult W × ActiveLearning W))
    (now : ℕ) (f : OperatorFeedback) (labels : ActiveLearning W) (s : Session)
    (result : ProcessingResult W) (labels' : ActiveLearning W) (row stored : Scan)
    → process f labels ≡ ok (result, labels')
    → seen s f.scan_id ≡ some row
    → s.db.scan f.scan_id ≡ some stored
    → row.state ≡ verdicted
    → submit_feedback (sink_of process) now f labels s
      ≡ (failed_with internal (feedback_received f.scan_id ∷ []), labels')
unfolding submit_feedback sink_of bank_feedback
submit_feedback-verdicted process now f labels s result labels' row stored p here there v =
    let refused = record_feedback-verdicted now f result.receipt s row here stored there v in
    ground (arith, p, refused)
