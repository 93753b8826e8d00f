-- ===== src/Api/Lifecycle.antt =====
-- The life of the scans under every request that changes them, in any order and from any session.
use loyiha.Base.{ℕ, ◌≡◌, refl, sym, ◌∙◌, Bool, Option, none, some, ok}
use loyiha.Contracts.Common.{Uuid}
use loyiha.Contracts.Acquisition.{AcquisitionResult}
use loyiha.Contracts.Detection.{DetectionResult}
use loyiha.Contracts.Verdict.{OperatorVerdict}
use loyiha.Contracts.Feedback.{OperatorFeedback, FeedbackReceipt}
use loyiha.State.Machine.{decided, error}
use loyiha.State.Session.{Scan, StoredFeedback, Db, Session}
use loyiha.State.Store.{
  record_acquisition, record_detection, record_verdict, record_feedback, mark_reviewing,
}
use loyiha.State.Store.History.{decided_last, error_first, Extends, Extends-refl, Extends-trans}
use loyiha.State.Store.Growth.{
  Grows-record_acquisition, Grows-record_detection, Grows-record_verdict, Grows-record_feedback,
  Grows-mark_reviewing,
}
use loyiha.Api.Access.{TokenClaims}
use loyiha.Api.Decision.{Reply, DecisionRequest, DecisionResponse, decide_scan}
use loyiha.Api.Decision.Outcome.{decide_scan-Extends}

-- One committed request. Its session may have loaded any rows at any earlier time: nothing is
-- assumed of `s.cached`. A request that raises commits nothing, and is no step.
infix 40 ◌⇒◌ ◌⇒*◌
pub data ◌⇒◌ : Db → Db → Type 0 where
  acquired :
      (a : AcquisitionResult) (s s' : Session) → record_acquisition a s ≡ ok (tt, s') → s.db ⇒ s'.db
  detected :
      (now : ℕ) (r : DetectionResult) (s s' : Session)
      → record_detection now r s ≡ ok (tt, s')
      → s.db ⇒ s'.db
  judged :
      (now : ℕ) (v : OperatorVerdict) (k : Uuid) (s s' : Session)
      → record_verdict now v k s ≡ ok (tt, s')
      → s.db ⇒ s'.db
  answered :
      (now : ℕ) (f : OperatorFeedback) (r : FeedbackReceipt) (s s' : Session)
      → record_feedback now f r s ≡ ok (tt, s')
      → s.db ⇒ s'.db
  opened : (k : Uuid) (b : Bool) (s s' : Session) → mark_reviewing k s ≡ ok (b, s') → s.db ⇒ s'.db
  settled :
      (feedback_id : Uuid) (now : ℕ) (claims : TokenClaims) (k : Uuid) (body : DecisionRequest)
      (s : Session) (reply : Reply DecisionResponse)
      → decide_scan feedback_id now claims k body s ≡ ok reply
      → s.db ⇒ reply.session.db

pub data ◌⇒*◌ : Db → Db → Type 0 where
  done : {a : Db} → a ⇒* a
  next : {a b c : Db} → a ⇒ b → b ⇒* c → a ⇒* c

⇒-Extends : {a b : Db} → a ⇒ b → Extends a b
⇒-Extends (acquired a s s' h) = (Grows-record_acquisition a).at s tt s' h
⇒-Extends (detected now r s s' h) = (Grows-record_detection now r).at s tt s' h
⇒-Extends (judged now v k s s' h) = (Grows-record_verdict now v k).at s tt s' h
⇒-Extends (answered now f r s s' h) = (Grows-record_feedback now f r).at s tt s' h
⇒-Extends (opened k b s s' h) = (Grows-mark_reviewing k).at s b s' h
⇒-Extends (settled i now c k b s r h) = decide_scan-Extends i now c k b s r h

-- Over any requests, rows are never lost, stored detections, verdicts and feedback never change,
-- and each scan moves along accepted events only.
pub ⇒*-Extends : {a b : Db} → a ⇒* b → Extends a b
⇒*-Extends {a} done = Extends-refl a
⇒*-Extends (next h t) = Extends-trans (⇒-Extends h) (⇒*-Extends t)

-- Once a scan is DECIDED, whatever requests follow, its row is the same to the last field, and so
-- is a feedback row that is stored for it.
pub decided_forever :
    {a b : Db} (k : Uuid) (r : Scan)
    → a ⇒* b
    → a.scan k ≡ some r
    → r.state ≡ decided
    → (b.scan k ≡ some r) × ((f : StoredFeedback) → a.feedback k ≡ some f → b.feedback k ≡ some f)
decided_forever k r h p d =
    let w = ⇒*-Extends h in
    let (r', q, l) = w.scans k r p in
    let same = l.kept (decided_last l.moved d ∙ sym d) in (q ∙ (λ i. some (same i)), w.feedbacks k)

-- No request ever puts a scan into ERROR: a scan that is there afterwards in that state was there
-- before in that state.
pub never_error :
    {a b : Db} (k : Uuid) (r' : Scan)
    → a ⇒* b
    → b.scan k ≡ some r'
    → r'.state ≡ error
    → (r : Scan) × (a.scan k ≡ some r) × (r.state ≡ error)
never_error {a} {b} k r' h q e = go (a.scan k) refl
  where
    w : Extends a b
    w = ⇒*-Extends h

    go : (o : Option Scan) → a.scan k ≡ o → (r : Scan) × (a.scan k ≡ some r) × (r.state ≡ error)
    go none p = cc (error_first (w.born k r' p q) e)
    go (some r) p =
        let (r₂, q₂, l) = w.scans k r p in
        let same : r'.state ≡ r₂.state = cc (q, q₂) in (r, p, error_first l.moved (sym same ∙ e))
