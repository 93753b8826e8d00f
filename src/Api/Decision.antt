-- ===== src/Api/Decision.antt =====
-- app/api/v1/scans.py: the endpoints `mark_reviewing` and `decide_scan`, on the database and the
-- audit log. The message that `decide_scan` pushes to the open consoles at its end is left out.
pub mod Outcome
pub mod Effect
use text.Mathlib.Text.{◌==◌ as str_eq}
use loyiha.Base.{
  ℕ, ◌≡◌, Bool, true, false, not, ◌||◌, Option, none, some, List, [], ◌∷◌, String, if◌then◌else◌,
  Result, ok, raised, raise_if, ◌>>=◌, ◌>>◌,
}
use loyiha.Contracts.Common.{Uuid}
use loyiha.Contracts.Feedback.{OperatorOutcome, cleared, seized}
use loyiha.State.Machine.{
  ScanState, analyzed, verdicted, reviewing, decided, same_state, scan_opened, feedback_banked,
  StoreError, concurrent_transition, invalid_transition, scan_not_found,
}
use loyiha.State.Session.{Scan, Db, Session, M, pure as pure_m, ◌>>=◌ as bind_m}
use loyiha.State.Store.{
  get, transition, with_scan, insert_new, no_stamp, decided_at, is_decidable, mark_reviewing,
}
use loyiha.Api.Access.{
  TokenClaims, HttpError, forbidden, not_found, conflict, unprocessable, internal_error,
  check_lane_access,
}

-- The rows that an endpoint sends to the audit sink.
pub data AuditCall : Type 0 where
  opened : Uuid → String → AuditCall
  decided_by : Uuid → String → String → OperatorOutcome → Option String → AuditCall

-- What an endpoint returns, with the session that is committed and its audit rows.
pub record Reply (A : Type 0) : Type 0 where
  pub value : A
  pub session : Session
  pub audited : List AuditCall

abbrev pub Endpoint : Type 0 → Type 0
Endpoint A = Session → Result HttpError (Reply A)

pub record DecisionRequest : Type 0 where
  pub decision : String
  pub note : Option String

pub record DecisionResponse : Type 0 where
  pub scan_id : Uuid
  pub state : ScanState
  pub outcome : OperatorOutcome
  pub decided_at : ℕ

-- `_DECISION_OUTCOME`
unfoldable pub decision_outcome : String → Option OperatorOutcome
decision_outcome d =
    if str_eq d "confirmed" then some cleared else if str_eq d "rejected" then some seized else none

-- a store error that no handler of the endpoint names
abbrev pub unexpected {ℓ} : {A : Type ℓ} → Result StoreError A → Result HttpError A
unexpected (ok a) = ok a
unexpected (raised e) = raised internal_error

-- `except ConcurrentTransitionError: raise HTTPException(409)`
abbrev pub conflict_on_race {ℓ} : {A : Type ℓ} → Result StoreError A → Result HttpError A
conflict_on_race (ok a) = ok a
conflict_on_race (raised concurrent_transition) = raised conflict
conflict_on_race (raised e) = raised internal_error

abbrev pub or_404 : Option Scan → Result HttpError Scan
or_404 none = raised not_found
or_404 (some scan) = ok scan

abbrev pub or_422 : Option OperatorOutcome → Result HttpError OperatorOutcome
or_422 none = raised unprocessable
or_422 (some o) = ok o

-- the two `except` clauses round `store.mark_reviewing`: a refused event is a return with no audit
abbrev pub review_reply :
    TokenClaims
    → Uuid
    → Session
    → Result StoreError (Bool × Session)
    → Result HttpError (Reply (Unit {0}))
review_reply claims scan_id s (ok (true, s')) =
    ok (record { value = tt; session = s'; audited = opened scan_id claims.sub ∷ [] })
review_reply claims scan_id s (ok (false, s')) =
    ok (record { value = tt; session = s'; audited = [] })
review_reply claims scan_id s (raised concurrent_transition) = raised conflict
review_reply claims scan_id s (raised invalid_transition) =
    ok (record { value = tt; session = s; audited = [] })
review_reply claims scan_id s (raised e) = raised internal_error

-- `POST /{scan_id}/review`
unfoldable pub review_scan : TokenClaims → Uuid → Endpoint (Unit {0})
unfolding check_lane_access
review_scan claims scan_id s = do
  (found, s₁) ← unexpected (get scan_id s)
  scan ← or_404 found
  allowed ← raise_if (not (check_lane_access scan claims)) forbidden
  review_reply claims scan_id s₁ (mark_reviewing scan_id s₁)

-- the feedback row of a decision: `ON CONFLICT (scan_id) DO NOTHING`
abbrev pub add_decision : TokenClaims → Uuid → Uuid → OperatorOutcome → ℕ → Db → Db
add_decision claims feedback_id scan_id outcome now db = record db {
  feedback = insert_new db.feedback scan_id (record {
    feedback_id = feedback_id;
    operator_id = claims.sub;
    outcome = outcome;
    n_gold_labels = 0;
    n_hard_negatives = 0;
    reviews = [];
    missed = [];
    decided_at = now;
  });
}

-- VERDICTED goes through REVIEWING
abbrev pub open_verdicted : Uuid → ScanState → M (Unit {0})
open_verdicted scan_id state =
    if same_state state verdicted
    then bind_m (transition scan_id scan_opened no_stamp) (λ _. pure_m tt)
    else pure_m tt

-- the database part of a decision
unfoldable pub decide_store :
    TokenClaims → Uuid → Uuid → OperatorOutcome → ℕ → ScanState → M ScanState
decide_store claims feedback_id scan_id outcome now state =
    bind_m (with_scan scan_id (add_decision claims feedback_id scan_id outcome now)) λ _.
      bind_m (open_verdicted scan_id state) λ _. transition scan_id feedback_banked (decided_at now)

-- the guards between reading the scan and writing
unfoldable pub may_decide : TokenClaims → Option Scan → Result HttpError Scan
unfolding check_lane_access
may_decide claims none = raised not_found
may_decide claims (some scan) = do
  raise_if (not (check_lane_access scan claims)) forbidden
  raise_if (same_state scan.state decided) conflict
  raise_if (not (is_decidable scan.state)) conflict
  ok scan

-- `POST /{scan_id}/decision`; `uuid4()` and the clock are arguments
unfoldable pub decide_scan :
    Uuid → ℕ → TokenClaims → Uuid → DecisionRequest → Endpoint DecisionResponse
unfolding decision_outcome
decide_scan feedback_id now claims scan_id body s = do
  outcome ← or_422 (decision_outcome body.decision)
  (found, s₁) ← unexpected (get scan_id s)
  scan ← may_decide claims found
  (state, s₂) ← conflict_on_race (decide_store claims feedback_id scan_id outcome now scan.state s₁)
  ok (record {
    value = record { scan_id = scan_id; state = decided; outcome = outcome; decided_at = now };
    session = s₂;
    audited = decided_by scan_id claims.sub body.decision outcome body.note ∷ [];
  })
