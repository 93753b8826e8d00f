-- ===== src/Witnesses/State.antt =====
-- Transitions and thresholds on concrete scans and scores.
use loyiha.Base.{ℕ, ◌≡◌, ◌≢◌, refl, some, List, [], ◌∷◌, ok, raised, arith}
use loyiha.Contracts.Detection.{Detection}
use loyiha.Contracts.Common.{narcotics}
use loyiha.State.Machine.{
  pending, analyzing, analyzed, decided, detect_received, feedback_banked, allowed_transition,
  concurrent_transition,
}
use loyiha.State.Session.{Scan, Session}
use loyiha.State.Store.{no_stamp, decided_at, stamp, transition}
use loyiha.State.Store.Swap.{
  transition_won, transition_lost, transition-Swapped, Swapped, swapped_db,
}
use loyiha.State.Thresholds.{CategoryThreshold, Rows}
use loyiha.Witnesses.Data.{knife, scan_in, session_in}

pending_received : allowed_transition pending detect_received ≡ ok analyzing
unfolding allowed_transition
pending_received = refl

analyzed_banked : allowed_transition analyzed feedback_banked ≡ ok decided
unfolding allowed_transition
analyzed_banked = refl

moved_on : decided ≢ analyzed
moved_on h = cc

abbrev pending_session : Session
pending_session = session_in pending pending

transition_won_example :
    (s' : Session) × (transition 1 detect_received no_stamp pending_session ≡ ok (analyzing, s'))
    × (s'.db ≡ swapped_db pending_session.db 1 (scan_in pending) analyzing no_stamp)
    × (s'.cached 1 ≡ some (stamp no_stamp (record (scan_in pending) { state = analyzing })))
transition_won_example =
    transition_won 1 detect_received no_stamp pending_session (scan_in pending) (scan_in pending)
      analyzing refl pending_received refl refl

-- the scan was decided after this session had loaded it
abbrev late_session : Session
late_session = session_in decided analyzed

late_current : (current : Scan) → late_session.db.scan 1 ≡ some current → current.state ≢ analyzed
late_current current h e =
    let d : decided ≡ current.state = ground (arith, h) in moved_on (cc (d, e))

transition_lost_example :
    transition 1 feedback_banked (decided_at 9) late_session ≡ raised concurrent_transition
transition_lost_example =
    transition_lost 1 feedback_banked (decided_at 9) late_session (scan_in analyzed) decided refl
      analyzed_banked late_current

transition-Swapped_example :
    Swapped 1 detect_received no_stamp pending_session
      (transition_won 1 detect_received no_stamp pending_session
        (scan_in pending)
        (scan_in pending)
        analyzing
        refl
        pending_received
        refl
        refl).0
      analyzing
transition-Swapped_example =
    transition-Swapped 1 detect_received no_stamp pending_session
      (transition_won 1 detect_received no_stamp pending_session (scan_in pending) (scan_in pending)
        analyzing refl pending_received refl refl).1

abbrev zones : CategoryThreshold
zones = record { alert_threshold = 60; auto_clear_threshold = 20 }

abbrev rows : Rows
rows = (narcotics, zones) ∷ []

abbrev timed : List (ℕ × Detection)
timed = (70000, knife) ∷ []
