-- ===== src/State/Store.antt =====
-- app/state/machine.py: the methods of `PostgresScanStore`.
pub mod Swap
pub mod Effects
pub mod History
pub mod Growth
pub mod Verdicts
use loyiha.Base.{
  ℕ, ◌≡◌, Bool, true, false, ◌&&◌, ◌||◌, leb, ltb, length, Option, none, some, List, [], ◌∷◌, ◌==◌,
  if◌then◌else◌, String, str_eq, ok, raised,
}
use loyiha.Contracts.Common.{Uuid, codes, ScanSubject, ImageModality, RiskBand}
use loyiha.Contracts.Acquisition.{AcquisitionResult}
use loyiha.Contracts.Detection.{Detection, DetectionResult}
use loyiha.Contracts.Verdict.{OperatorVerdict}
use loyiha.Contracts.Feedback.{OperatorFeedback, FeedbackReceipt}
use loyiha.State.Machine.{
  ScanState, pending, analyzing, analyzed, verdicted, reviewing, Event, detect_received,
  detect_completed, verdict_completed, scan_opened, feedback_banked, StoreError, scan_not_found,
  concurrent_transition, foreign_key_violation, database_error, allowed_transition, same_state,
}
use loyiha.State.Session.{
  Scan, StoredDetection, StoredVerdict, StoredFeedback, Db, Session, M, pure, raise, lift, put,
  ◌>>=◌, ◌>>◌,
}

-- `session.get(Scan, scan_id)`: the loaded row if there is one, else the database's, which is kept
unfoldable pub get : Uuid → M (Option Scan)
get scan_id s = elim (s.cached scan_id) [
  | some row ↦ ok (some row, s)
  | none ↦ elim (s.db.scan scan_id) [
    | none ↦ ok (none, s)
    | some row ↦ ok (some row, record s { cached = put s.cached scan_id row })
  ]
]

abbrev pub or_missing : Option Scan → M Scan
or_missing none = raise scan_not_found
or_missing (some row) = pure row

-- `_get_state`
unfoldable pub get_state : Uuid → M ScanState
unfolding get
get_state scan_id = do found ← get scan_id; row ← or_missing found; pure row.state

-- The `**ts_fields` of the call sites.
pub data Stamp : Type 0 where
  no_stamp : Stamp
  analyzed_at decided_at : ℕ → Stamp
  verdicted_at : ℕ → RiskBand → Stamp

abbrev pub stamp : Stamp → Scan → Scan
stamp no_stamp r = r
stamp (analyzed_at now) r = record r { analyzed_at = some now }
stamp (decided_at now) r = record r { decided_at = some now }
stamp (verdicted_at now risk) r = record r { verdicted_at = some now; overall_risk = some risk }

-- `UPDATE scans SET state = new … WHERE scan_id = :id AND state = :expected`, and its row count
unfoldable pub compare_and_swap : Uuid → ScanState → ScanState → Stamp → Db → Db × Bool
compare_and_swap scan_id expected new ts db = elim (db.scan scan_id) [
  | none ↦ (db, false)
  | some r ↦
      if same_state r.state expected
      then (record db { scan = put db.scan scan_id (stamp ts (record r { state = new })) }, true)
      else (db, false)
]

-- the rest of `_transition`, once the row is read; the update keeps the loaded row in step
unfoldable pub swap_state : Uuid → Scan → ScanState → Stamp → M ScanState
unfolding compare_and_swap
swap_state scan_id row new ts s =
    let (db', changed) = compare_and_swap scan_id row.state new ts s.db in
    if changed
    then ok (
      new,
      record { db = db'; cached = put s.cached scan_id (stamp ts (record row { state = new })) },
    )
    else raised concurrent_transition

-- `_transition`
unfoldable pub transition : Uuid → Event → Stamp → M ScanState
unfolding get swap_state allowed_transition
transition scan_id event ts = do
  found ← get scan_id
  row ← or_missing found
  new_state ← lift (allowed_transition row.state event)
  swap_state scan_id row new_state ts

abbrev pub pending_scan : AcquisitionResult → Scan
pending_scan a = record {
  scanner_id = a.scanner_id;
  lane_id = a.lane_id;
  subject = a.subject;
  modality = a.modality;
  state = pending;
  overall_risk = none;
  acquired_at = a.captured_at;
  analyzed_at = none;
  verdicted_at = none;
  decided_at = none;
}

abbrev pub add_scan : AcquisitionResult → Db → Db
add_scan a db = record db { scan = put db.scan a.scan_id (pending_scan a) }

-- `record_acquisition`: `ON CONFLICT (scan_id) DO NOTHING`
unfoldable pub record_acquisition : AcquisitionResult → M (Unit {0})
record_acquisition a s = elim (s.db.scan a.scan_id) [
  | some row ↦ ok (tt, s)
  | none ↦ ok (tt, record s { db = add_scan a s.db })
]

-- `attributes.get(key) == value`
unfoldable pub has_attribute : String → String → List (String × String) → Bool
has_attribute key value [] = false
has_attribute key value ((k, v) ∷ rest) =
    let later = has_attribute key value rest in if str_eq k key then str_eq v value else later

abbrev pub stored_detection : Uuid → Detection → StoredDetection
stored_detection scan_id det = record {
  scan_id = scan_id;
  frame_id = det.frame_id;
  category = det.category;
  native_label = det.native_label;
  score = det.score;
  box = det.box;
  calibrated = det.calibrated || has_attribute "calibrated" "true" det.attributes;
}

-- `INSERT … ON CONFLICT (key) DO NOTHING` into a table that refers to the scan
abbrev pub insert_new {ℓ} : {A : Type ℓ} → (Uuid → Option A) → Uuid → A → Uuid → Option A
insert_new m k a = elim (m k) [ some old ↦ m | none ↦ put m k a ]

abbrev pub with_scan : Uuid → (Db → Db) → M (Unit {0})
with_scan scan_id change s = elim (s.db.scan scan_id) [
  | none ↦ raised foreign_key_violation
  | some row ↦ ok (tt, record s { db = change s.db })
]

abbrev pub add_detection : Uuid → Detection → Db → Db
add_detection scan_id det db = record db {
  detection = insert_new db.detection det.detection_id (stored_detection scan_id det);
}

abbrev pub stored_verdict : OperatorVerdict → StoredVerdict
stored_verdict verdict = record {
  verdict_id = verdict.verdict_id;
  overall_risk = verdict.overall_risk;
  summary_uz = verdict.summary_uz;
  model_name = verdict.model.name;
  model_version = verdict.model.version;
  per_detection = verdict.per_detection;
}

abbrev pub add_verdict : Uuid → OperatorVerdict → Db → Db
add_verdict scan_id verdict db = record db {
  verdict = insert_new db.verdict scan_id (stored_verdict verdict);
  verdict_owner = elim (db.verdict scan_id) [
    | some old ↦ db.verdict_owner
    | none ↦ put db.verdict_owner verdict.verdict_id scan_id
  ];
}

-- `String(n)`
abbrev pub fits : ℕ → String → Bool
fits n text = leb (length (codes text)) n

-- the columns of `scan_detections` that are narrower than the contract; INTEGER has four bytes
unfoldable pub detection_fits : Detection → Bool
detection_fits det =
    fits 64 det.native_label
    && (ltb det.box.x 2147483648
        && (ltb det.box.y 2147483648
            && (ltb det.box.width 2147483648 && ltb det.box.height 2147483648)))

-- A verdict that the scan has makes the statement do nothing, before its own id is looked at.
abbrev pub is_unused : Option StoredVerdict → Option Uuid → Bool
is_unused (some old) owner = true
is_unused none none = true
is_unused none (some k) = false

-- the same of `scan_verdicts`, and the primary key
unfoldable pub verdict_fits : Uuid → OperatorVerdict → Db → Bool
verdict_fits scan_id verdict db =
    fits 64 verdict.model.name
    && (fits 32 verdict.model.version
        && is_unused (db.verdict scan_id) (db.verdict_owner verdict.verdict_id))

abbrev pub add_feedback : OperatorFeedback → FeedbackReceipt → Db → Db
add_feedback f receipt db = record db {
  feedback = insert_new db.feedback f.scan_id (record {
    feedback_id = f.feedback_id;
    operator_id = f.operator_id;
    outcome = f.outcome;
    n_gold_labels = receipt.labels_queued;
    n_hard_negatives = receipt.hard_negatives_queued;
    reviews = f.reviews;
    missed = f.missed;
    decided_at = f.decided_at;
  });
}

unfoldable pub insert_detection : Uuid → Detection → M (Unit {0})
insert_detection scan_id det =
    if detection_fits det
    then with_scan scan_id (add_detection scan_id det)
    else raise database_error

unfoldable pub insert_verdict : Uuid → OperatorVerdict → M (Unit {0})
insert_verdict scan_id verdict s =
    if verdict_fits scan_id verdict s.db
    then with_scan scan_id (add_verdict scan_id verdict) s
    else raised database_error

unfoldable pub insert_detections : Uuid → List Detection → M (Unit {0})
insert_detections scan_id [] = pure tt
insert_detections scan_id (d ∷ ds) =
    let rest = insert_detections scan_id ds in (do insert_detection scan_id d; rest)

-- PENDING goes through ANALYZING
unfoldable pub receive_pending : Uuid → ScanState → M ScanState
receive_pending scan_id state =
    if same_state state pending
    then (do done ← transition scan_id detect_received no_stamp; pure analyzing)
    else pure state

unfoldable pub complete_analyzing : Uuid → ℕ → ScanState → M (Unit {0})
complete_analyzing scan_id now state =
    if same_state state analyzing
    then (do done ← transition scan_id detect_completed (analyzed_at now); pure tt)
    else pure tt

unfoldable pub record_detection : ℕ → DetectionResult → M (Unit {0})
record_detection now result = do
  insert_detections result.scan_id result.detections
  state ← get_state result.scan_id
  state' ← receive_pending result.scan_id state
  complete_analyzing result.scan_id now state'

unfoldable pub record_verdict : ℕ → OperatorVerdict → Uuid → M (Unit {0})
record_verdict now verdict scan_id = do
  insert_verdict scan_id verdict
  state ← get_state scan_id
  if same_state state analyzed
      then (do
        done ← transition scan_id verdict_completed (verdicted_at now verdict.overall_risk)
        pure tt)
      else pure tt

abbrev pub is_decidable : ScanState → Bool
is_decidable state =
    same_state state verdicted || (same_state state reviewing || same_state state analyzed)

unfoldable pub record_feedback : ℕ → OperatorFeedback → FeedbackReceipt → M (Unit {0})
record_feedback now f receipt = do
  with_scan f.scan_id (add_feedback f receipt)
  state ← get_state f.scan_id
  if is_decidable state
      then (do done ← transition f.scan_id feedback_banked (decided_at now); pure tt)
      else pure tt

unfoldable pub mark_reviewing : Uuid → M Bool
mark_reviewing scan_id = do
  state ← get_state scan_id
  if same_state state verdicted
      then (do done ← transition scan_id scan_opened no_stamp; pure true)
      else pure false
