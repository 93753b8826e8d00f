-- ===== src/Witnesses/Api.antt =====
-- Callers, and a database in which one scan is decided, one is in error and the others wait.
use loyiha.Base.{◌≡◌, ◌≢◌, refl, true, ◌==◌, none, some, [], ◌∷◌, str_eq, if◌then◌else◌, ok, raised}
use loyiha.Contracts.Feedback.{cleared}
use loyiha.State.Machine.{analyzed, verdicted, decided, error, allowed_transition}
use loyiha.State.Session.{Scan, Db, Session, StoredFeedback}
use loyiha.State.Store.{mark_reviewing, get, get_state, transition, swap_state, compare_and_swap}
use loyiha.State.Store.Effects.{fresh}
use loyiha.State.Store.History.{Extends}
use loyiha.Api.Access.{operator, TokenClaims, check_lane_access, Decoder, conflict}
use loyiha.Api.Decision.{
  DecisionRequest, DecisionResponse, Reply, decision_outcome, may_decide, decide_scan, decide_store,
}
use loyiha.Api.Decision.Outcome.{decide_scan-Extends}
use loyiha.Api.Decision.Effect.{IsDecided, decide_scan-IsDecided, decide_scan-lost}
use loyiha.Api.Lifecycle.{◌⇒*◌, opened, done, next, decided_forever, never_error}
use loyiha.Witnesses.Data.{scan_in, db_in, session_in}

abbrev pub lane_operator : TokenClaims
lane_operator = record {
  sub = "op-1";
  username = "op";
  role = operator;
  lane_ids = "lane-1" ∷ [];
  jti = "j";
  iat = 0;
  exp = 10;
}

abbrev decoder : Decoder
decoder token = if str_eq token "good" then some lane_operator else none

abbrev mixed : Db
mixed = record (db_in verdicted) {
  scan = λ k.
      some
        (if k == 1 then scan_in decided else if k == 3 then scan_in error else scan_in verdicted);
}

opening :
    (s' : Session) × (mark_reviewing 2 (fresh mixed) ≡ ok (true, s'))
    × (s'.db.scan 3 ≡ some (scan_in error))
unfolding mark_reviewing get get_state transition swap_state compare_and_swap allowed_transition
opening = (_, refl, refl)

abbrev run : mixed ⇒* opening.0.db
run = next (opened 2 true (fresh mixed) opening.0 opening.1) done

decided_forever_example :
    (opening.0.db.scan 1 ≡ some (scan_in decided))
    × ((f : StoredFeedback) → mixed.feedback 1 ≡ some f → opening.0.db.feedback 1 ≡ some f)
decided_forever_example = decided_forever 1 (scan_in decided) run refl refl

never_error_example : (r : Scan) × (mixed.scan 3 ≡ some r) × (r.state ≡ error)
never_error_example = never_error 3 (scan_in error) run opening.2 refl

abbrev confirm : DecisionRequest
confirm = record { decision = "confirmed"; note = none }

deciding :
    (r : Reply DecisionResponse) × (decide_scan 5 9 lane_operator 1 confirm (fresh (db_in analyzed))
      ≡ ok r)
unfolding decide_scan decision_outcome may_decide check_lane_access decide_store get transition
    swap_state compare_and_swap allowed_transition get_state
deciding = (_, refl)

decide_scan-IsDecided_example :
    IsDecided 9 lane_operator 1 confirm (fresh (db_in analyzed)) deciding.0
decide_scan-IsDecided_example =
    decide_scan-IsDecided 5 9 lane_operator 1 confirm (fresh (db_in analyzed)) deciding.0 deciding.1

decide_scan-Extends_example : Extends (db_in analyzed) deciding.0.session.db
decide_scan-Extends_example =
    decide_scan-Extends 5 9 lane_operator 1 confirm (fresh (db_in analyzed)) deciding.0 deciding.1

confirmed_named : decision_outcome "confirmed" ≡ some cleared
unfolding decision_outcome
confirmed_named = refl

allowed_one : may_decide lane_operator (some (scan_in analyzed)) ≡ ok (scan_in analyzed)
unfolding may_decide check_lane_access
allowed_one = refl

moved_on : decided ≢ analyzed
moved_on h = cc

decide_scan-lost_example :
    decide_scan 5 9 lane_operator 1 confirm (session_in decided analyzed) ≡ raised conflict
decide_scan-lost_example =
    decide_scan-lost 5 9 lane_operator 1 confirm (session_in decided analyzed) (scan_in analyzed)
      (scan_in decided) cleared confirmed_named refl allowed_one refl moved_on
