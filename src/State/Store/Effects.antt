-- ===== src/State/Store/Effects.antt =====
-- What the methods of `PostgresScanStore` do to the scan that they are called for.
use loyiha.Base.{
  ℕ, ◌≤◌, ◌≡◌, leb, and_iff, length, refl, ◌∙◌, ap, ◌⊎◌, inl, inr, true, All, Option, none, some,
  List, [], ◌∷◌, arith, ok, raised, if◌then◌else◌,
}
use loyiha.Contracts.Common.{Uuid, codes}
use loyiha.Contracts.Detection.{Detection, DetectionResult}
use loyiha.Contracts.Verdict.{OperatorVerdict}
use loyiha.Contracts.Feedback.{OperatorFeedback, FeedbackReceipt}
use loyiha.State.Machine.{
  pending, analyzing, analyzed, verdicted, detect_received, detect_completed, feedback_banked,
  verdict_completed, allowed_transition, invalid_transition, database_error,
}
use loyiha.State.Session.{Scan, StoredVerdict, Db, Session, raise}
use loyiha.State.Store.{
  no_stamp, analyzed_at, decided_at, verdicted_at, add_verdict, record_verdict, get_state,
  insert_detection, detection_fits, insert_verdict, verdict_fits, is_unused, with_scan,
  insert_detections, add_feedback, add_detection, receive_pending, complete_analyzing,
  record_detection, record_feedback,
}
use loyiha.State.Store.Swap.{seen, get-some, transition_won, transition_refused, swapped_db_self}

-- A request with a session of its own: no row is loaded yet.
abbrev pub fresh : Db → Session
fresh db = record { db = db; cached = λ k. none }

-- Feedback on a VERDICTED scan is refused: the method calls the transition, and the table has no
-- edge for it. The exception rolls back the feedback row as well.
pub record_feedback-verdicted :
    (now : ℕ) (f : OperatorFeedback) (receipt : FeedbackReceipt) (s : Session) (row : Scan)
    → seen s f.scan_id ≡ some row
    → (stored : Scan) → s.db.scan f.scan_id ≡ some stored
    → row.state ≡ verdicted
    → record_feedback now f receipt s ≡ raised invalid_transition
record_feedback-verdicted now f receipt s row p stored q v =
    let s₁ : Session = record s { db = add_feedback f receipt s.db } in
    let here : seen s₁ f.scan_id ≡ some row = ground (arith, p) in
    let (s₂, got, same, kept) = get-some f.scan_id s₁ row here in
    let here₂ : seen s₂ f.scan_id ≡ some row = ground (arith, kept) in
    let no_edge : allowed_transition row.state feedback_banked ≡ raised invalid_transition =
      rw v (unfold allowed_transition in refl) in
    let refused =
      transition_refused f.scan_id feedback_banked (decided_at now) s₂ row invalid_transition here₂
        no_edge in
    unfold record_feedback get_state in ground (arith, q, got, v, refused)

with_scan-found :
    (k : Uuid) (change : Db → Db) (s : Session) (row : Scan)
    → s.db.scan k ≡ some row
    → with_scan k change s ≡ ok (tt, record s { db = change s.db })
with_scan-found k change s row p = ground (arith, p)

inserted_one :
    (k : Uuid) (d : Detection) (s : Session) (row : Scan)
    → s.db.scan k ≡ some row
    → detection_fits d ≡ true
    → insert_detection k d s ≡ ok (tt, record s { db = add_detection k d s.db })
unfolding insert_detection
inserted_one k d s row p fit =
    ap (λ b. (if b then with_scan k (add_detection k d) else raise database_error) s) fit
    ∙ with_scan-found k (add_detection k d) s row p

pub inserted_verdict :
    (k : Uuid) (v : OperatorVerdict) (s : Session) (row : Scan)
    → s.db.scan k ≡ some row
    → verdict_fits k v s.db ≡ true
    → insert_verdict k v s ≡ ok (tt, record s { db = add_verdict k v s.db })
unfolding insert_verdict
inserted_verdict k v s row p fit =
    ap (λ b. if b then with_scan k (add_verdict k v) s else raised database_error) fit
    ∙ with_scan-found k (add_verdict k v) s row p

-- `insert_detections` on a stored scan succeeds, and leaves scans and loaded rows as they were.
inserted :
    (k : Uuid) (ds : List Detection) (s : Session) (row : Scan)
    → s.db.scan k ≡ some row
    → All (λ d. detection_fits d ≡ true) ds
    → (s' : Session) × (insert_detections k ds s ≡ ok (tt, s'))
      × (s'.db.scan ≡ s.db.scan)
      × (s'.cached ≡ s.cached)
      × (s'.db.verdict_owner ≡ s.db.verdict_owner)
unfolding insert_detections
inserted k [] s row p fit = (s, refl, refl, refl, refl)
inserted k (d ∷ ds) s row p (one, fit) =
    let s₁ : Session = record s { db = add_detection k d s.db } in
    let (s', e, a, b, c) = inserted k ds s₁ row p fit in
    (s', ground (arith, inserted_one k d s row p one, e), a, b, c)

-- the second half of `record_detection`, for a scan that is ANALYZING
completes :
    (k : Uuid) (now : ℕ) (s : Session) (row : Scan)
    → seen s k ≡ some row
    → s.db.scan k ≡ some row
    → row.state ≡ analyzing
    → (s' : Session) × (complete_analyzing k now analyzing s ≡ ok (tt, s'))
      × (s'.db.scan k ≡ some (record row { state = analyzed; analyzed_at = some now }))
      × (s'.db.verdict_owner ≡ s.db.verdict_owner)
completes k now s row p q a =
    let edge : allowed_transition row.state detect_completed ≡ ok analyzed =
      rw a (unfold allowed_transition in refl) in
    let (s', won, db', _) =
      transition_won k detect_completed (analyzed_at now) s row row analyzed p edge q refl in
    (
      s',
      unfold complete_analyzing in ground (arith, won),
      ap (λ (d : Db). d.scan k) db' ∙ swapped_db_self s.db k row analyzed (analyzed_at now),
      ap (λ (d : Db). d.verdict_owner) db',
    )

-- the same for a PENDING scan, which is received first
receives :
    (k : Uuid) (now : ℕ) (s : Session) (row : Scan)
    → seen s k ≡ some row
    → s.db.scan k ≡ some row
    → row.state ≡ pending
    → (s₁ s' : Session) × (receive_pending k pending s ≡ ok (analyzing, s₁))
      × (complete_analyzing k now analyzing s₁ ≡ ok (tt, s'))
      × (s'.db.scan k ≡ some (record row { state = analyzed; analyzed_at = some now }))
      × (s'.db.verdict_owner ≡ s.db.verdict_owner)
receives k now s row p q a =
    let edge : allowed_transition row.state detect_received ≡ ok analyzing =
      rw a (unfold allowed_transition in refl) in
    let (s₁, won, db', kept) =
      transition_won k detect_received no_stamp s row row analyzing p edge q refl in
    let mid : Scan = record row { state = analyzing } in
    let stored : s₁.db.scan k ≡ some mid =
      ap (λ (d : Db). d.scan k) db' ∙ swapped_db_self s.db k row analyzing no_stamp in
    let (s', done, last, owners) = completes k now s₁ mid (ground (arith, kept)) stored refl in
    (
      s₁,
      s',
      unfold receive_pending in ground (arith, won),
      done,
      last,
      owners ∙ ap (λ (d : Db). d.verdict_owner) db',
    )

-- The detector's result on a PENDING or ANALYZING scan, whose detections fit their columns, brings it to ANALYZED, with the time of the
-- call and no other field changed, whatever the status of the result: a FAILED one too. No verdict's
-- id is added.
pub record_detection-analyzed :
    (now : ℕ) (r : DetectionResult) (db : Db) (row : Scan)
    → db.scan r.scan_id ≡ some row
    → (row.state ≡ pending) ⊎ (row.state ≡ analyzing)
    → All (λ d. detection_fits d ≡ true) r.detections
    → (s' : Session) × (record_detection now r (fresh db) ≡ ok (tt, s'))
      × (s'.db.scan r.scan_id ≡ some (record row { state = analyzed; analyzed_at = some now }))
      × (s'.db.verdict_owner ≡ db.verdict_owner)
record_detection-analyzed now r db row p can fit =
    let (s₁, ins, scans, loaded, owners) = inserted r.scan_id r.detections (fresh db) row p fit in
    let stored : s₁.db.scan r.scan_id ≡ some row =
      ap (λ (m : Uuid → Option Scan). m r.scan_id) scans ∙ p in
    let here : seen s₁ r.scan_id ≡ some row =
      ground (arith, ap (λ (m : Uuid → Option Scan). m r.scan_id) loaded, stored) in
    let (s₂, got, same, kept) = get-some r.scan_id s₁ row here in
    let here₂ : seen s₂ r.scan_id ≡ some row = ground (arith, kept) in
    let stored₂ : s₂.db.scan r.scan_id ≡ some row =
      ap (λ (d : Db). d.scan r.scan_id) same ∙ stored in
    elim can [
      | inl a ↦
          let (s₃, s', rec, done, last, own) = receives r.scan_id now s₂ row here₂ stored₂ a in
          (
            s',
            unfold record_detection get_state in ground (arith, ins, got, a, rec, done),
            last,
            own ∙ ap (λ (d : Db). d.verdict_owner) same ∙ owners,
          )
      | inr a ↦
          let (s', done, last, own) = completes r.scan_id now s₂ row here₂ stored₂ a in
          (
            s',
            unfold record_detection get_state receive_pending in ground (arith, ins, got, a, done),
            last,
            own ∙ ap (λ (d : Db). d.verdict_owner) same ∙ owners,
          )
    ]

-- A verdict whose model's texts fit and whose id no verdict has fits its table.
pub unused-verdict_fits :
    (k : Uuid) (v : OperatorVerdict) (db : Db)
    → length (codes v.model.name) ≤ 64
    → length (codes v.model.version) ≤ 32
    → db.verdict_owner v.verdict_id ≡ none
    → verdict_fits k v db ≡ true
unfolding verdict_fits
unused-verdict_fits k v db name version new =
    (and_iff _ _).1 (within name, (and_iff _ _).1 (within version, free (db.verdict k) _ new))
  where
    within : {m n : ℕ} → m ≤ n → leb m n ≡ true
    within h = ground (arith, h)

    free : (o : Option StoredVerdict) (w : Option Uuid) → w ≡ none → is_unused o w ≡ true
    free (some old) w e = refl
    free none none e = refl
    free none (some j) e = cc

-- A verdict on an ANALYZED scan, which fits its columns and has a new id, brings it to VERDICTED, with the time of the call and the verdict's
-- risk, and no other field changed.
pub record_verdict-analyzed :
    (now : ℕ) (v : OperatorVerdict) (k : Uuid) (db : Db) (row : Scan)
    → db.scan k ≡ some row
    → row.state ≡ analyzed
    → verdict_fits k v db ≡ true
    → (s' : Session) × (record_verdict now v k (fresh db) ≡ ok (tt, s'))
      × (s'.db.scan k
          ≡ some (record row {
            state = verdicted;
            verdicted_at = some now;
            overall_risk = some v.overall_risk;
          }))
record_verdict-analyzed now v k db row p a fit =
    let s₁ : Session = fresh (add_verdict k v db) in
    let stored_it = inserted_verdict k v (fresh db) row p fit in
    let (s₂, got, same, kept) = get-some k s₁ row p in
    let stored : s₂.db.scan k ≡ some row = ap (λ (d : Db). d.scan k) same ∙ p in
    let edge : allowed_transition row.state verdict_completed ≡ ok verdicted =
      rw a (unfold allowed_transition in refl) in
    let here : seen s₂ k ≡ some row = ground (arith, kept) in
    let (s', won, db', _) =
      transition_won k verdict_completed (verdicted_at now v.overall_risk) s₂ row row verdicted here
        edge stored refl in
    (
      s',
      unfold record_verdict get_state in ground (arith, stored_it, got, a, won),
      ap (λ (d : Db). d.scan k) db'
          ∙ swapped_db_self s₂.db k row verdicted (verdicted_at now v.overall_risk),
    )
