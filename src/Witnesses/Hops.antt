-- ===== src/Witnesses/Hops.antt =====
-- Hops of the knife's scan, and two consoles.
use loyiha.Base.{ℕ, none, [], ◌∷◌, Result, ok}
use loyiha.Contracts.Verdict.{VerdictRequest, OperatorVerdict}
use loyiha.Contracts.Feedback.{OperatorFeedback}
use loyiha.State.Session.{Session}
use loyiha.Datalayer.Loop.{LoopError, ProcessingResult, ActiveLearning}
use loyiha.Api.Hops.{ServiceError}
use loyiha.Api.Hub.{Hub, Subscriber}
use loyiha.Witnesses.Data.{knife_verdict, knife_receipt}

abbrev generator : VerdictRequest → Result ServiceError OperatorVerdict
generator q = ok knife_verdict

abbrev process :
    OperatorFeedback → ActiveLearning ℕ → Result LoopError (ProcessingResult ℕ × ActiveLearning ℕ)
process f s = ok (
  record {
    feedback_id = 3;
    total_candidates = 0;
    passing_count = 0;
    rejected_count = 0;
    quality_reports = [];
    retrain_spec = none;
    receipt = knife_receipt;
  },
  s,
)

abbrev empty_loop : ActiveLearning ℕ
empty_loop = record {
  queue = [];
  scheduler = record { last_retrain_at = none; labels_at_last_retrain = 0; jobs = [] };
}

abbrev console : Subscriber
console = record { ws = 1; lane_ids = "lane-1" ∷ [] }

abbrev nobody : Hub
nobody lane = []
