-- ===== src/State/Store/Growth.antt =====
-- Every method of the store extends the database: one rule for each way to build a method.
use loyiha.Base.{
  ℕ, ◌≡◌, refl, sym, ◌∙◌, ap, inl, inr, Bool, true, false, Option, none, some, List, [], ◌∷◌, ◌==◌,
  if◌then◌else◌, arith, ok, raised, Result, ==_iff, Bool-cases, Option-cases,
}
use loyiha.Contracts.Common.{Uuid}
use loyiha.Contracts.Acquisition.{AcquisitionResult}
use loyiha.Contracts.Detection.{Detection, DetectionResult}
use loyiha.Contracts.Verdict.{OperatorVerdict}
use loyiha.Contracts.Feedback.{OperatorFeedback, FeedbackReceipt}
use loyiha.State.Machine.{
  ScanState, Event, detect_received, detect_completed, verdict_completed, scan_opened,
  feedback_banked, StoreError, database_error, allowed_transition, stage, stage-⟶,
  allowed_transition-⟶,
}
use loyiha.State.Session.{Scan, Db, Session, M, pure, raise, ◌>>=◌}
use loyiha.State.Store.{
  Stamp, stamp, get, get_state, or_missing, transition, insert_new, with_scan, add_detection,
  add_scan, pending_scan, add_verdict, add_feedback, stored_detection, insert_detection,
  detection_fits, insert_verdict, verdict_fits, insert_detections, receive_pending,
  complete_analyzing, record_acquisition, record_detection, record_verdict, record_feedback,
  mark_reviewing,
}
use loyiha.State.Store.Swap.{swapped_db, transition-Swapped}
use loyiha.State.Store.History.{
  is_failure, here, step, Later, Later-refl, Keeps, Extends, Extends-refl, Extends-trans,
}

-- `m`, where it returns, extends the database.
pub record Grows {A : Type 0} (m : M A) : Type 0 where
  pub at : (s : Session) (a : A) (s' : Session) → m s ≡ ok (a, s') → Extends s.db s'.db

pub Grows-same :
    {A : Type 0} (m : M A)
    → ((s : Session) (a : A) (s' : Session) → m s ≡ ok (a, s') → s'.db ≡ s.db)
    → Grows m
Grows-same m h = record { at = λ s a s' e. rw (h s a s' e) (Extends-refl s.db) }

pub Grows-pure : {A : Type 0} (a : A) → Grows (pure a)
Grows-pure a = Grows-same (pure a) (λ s b s' e. cc)

pub Grows-bind :
    {A B : Type 0} (m : M A) (f : A → M B) → Grows m → ((a : A) → Grows (f a)) → Grows (m >>= f)
Grows-bind {A} {B} m f km kf = record { at = λ s b s' e. go s b s' (m s) refl e }
  where
    go :
        (s : Session) (b : B) (s' : Session) (r : Result StoreError (A × Session))
        → m s ≡ r
        → (m >>= f) s ≡ ok (b, s')
        → Extends s.db s'.db
    go s b s' (ok (a, s₁)) p e =
        let e' : f a s₁ ≡ ok (b, s') = ground (arith, p, e) in
        Extends-trans (km.at s a s₁ p) ((kf a).at s₁ b s' e')
    go s b s' (raised x) p e = absurd (ground (arith, p, e))

pub Grows-if : {A : Type 0} (b : Bool) (m n : M A) → Grows m → Grows n → Grows (if b then m else n)
Grows-if true m n km kn = km
Grows-if false m n km kn = kn

pub Grows-raise : {A : Type 0} (e : StoreError) → Grows (raise {A = A} e)
Grows-raise e = record { at = λ s a s' h. cc }

pub Grows-get : (k : Uuid) → Grows (get k)
unfolding get
Grows-get k = Grows-same (get k) (λ s a s' e. ground (arith, e))

pub Grows-or_missing : (o : Option Scan) → Grows (or_missing o)
Grows-or_missing none = record { at = λ s a s' h. cc }
Grows-or_missing (some r) = Grows-pure r

pub Grows-get_state : (k : Uuid) → Grows (get_state k)
Grows-get_state k =
    unfold get_state in
    Grows-bind (get k) _ (Grows-get k) (λ found.
      Grows-bind (or_missing found) _ (Grows-or_missing found) (λ row. Grows-pure row.state))

stamp-state : (ts : Stamp) (r : Scan) → (stamp ts r).state ≡ r.state
stamp-state ts r = ground arith

-- a row that takes an accepted event has moved, and is no longer in its old state
pub Later-swapped :
    (r : Scan) (e : Event) (ts : Stamp) (new : ScanState)
    → is_failure e ≡ false
    → allowed_transition r.state e ≡ ok new
    → Later r (stamp ts (record r { state = new }))
Later-swapped r e ts new f a =
    let is_new = stamp-state ts (record r { state = new }) in
    record {
      moved = rw is_new (step e f a here);
      kept = λ h.
          let loop : new ≡ r.state = sym is_new ∙ h in
          absurd (omega (arith, stage-⟶ (allowed_transition-⟶ r.state new e a), ap stage loop));
    }

pub Extends-swapped :
    (db : Db) (k : Uuid) (r : Scan) (e : Event) (ts : Stamp) (new : ScanState)
    → is_failure e ≡ false
    → db.scan k ≡ some r
    → allowed_transition r.state e ≡ ok new
    → Extends db (swapped_db db k r new ts)
Extends-swapped db k r e ts new f p a = record {
  scans = λ j x h. elim (Bool-cases (k == j)) [
    | inl q ↦
        let same : x ≡ r = row j x h ((==_iff k j).0 q) in
        (stamp ts (record r { state = new }), rw q, rw same (Later-swapped r e ts new f a))
    | inr q ↦ (x, rw q h, Later-refl x)
  ];
  born = λ j x h h'. elim (Bool-cases (k == j)) [
    | inl q ↦ cc (h, p, (==_iff k j).0 q)
    | inr q ↦ cc (h, rw q at h')
  ];
  detections = λ j x h. h;
  verdicts = λ j x h. h;
  feedbacks = λ j x h. h;
}
  where
    row : (j : Uuid) (x : Scan) → db.scan j ≡ some x → k ≡ j → x ≡ r
    row j x h q = cc (h, p, q)

pub Grows-transition :
    (k : Uuid) (e : Event) (ts : Stamp) → is_failure e ≡ false → Grows (transition k e ts)
Grows-transition k e ts f = record {
  at = λ s n s' h.
      let w = transition-Swapped k e ts s h in
      rw w.result (Extends-swapped s.db k w.current e ts n f w.stored w.accepted);
}

pub insert_new-Keeps :
    {A : Type 0} (m : Uuid → Option A) (k : Uuid) (a : A) → Keeps m (insert_new m k a)
insert_new-Keeps m k a j x h = elim (Option-cases (m k)) [
  | inl p ↦ elim (Bool-cases (k == j)) [
    | inl q ↦ cc (h, (==_iff k j).0 q)
    | inr q ↦ ground (arith, p, q, h)
  ]
  | inr (old, p) ↦ ground (arith, p, h)
]

pub Grows-with_scan :
    (k : Uuid) (change : Db → Db)
    → ((db : Db) → Extends db (change db))
    → Grows (with_scan k change)
Grows-with_scan k change keeps = record { at = λ s a s' h. go s s' (s.db.scan k) refl a h }
  where
    go :
        (s s' : Session) (o : Option Scan)
        → s.db.scan k ≡ o
        → (a : Unit {0}) → with_scan k change s ≡ ok (a, s')
        → Extends s.db s'.db
    go s s' none p a h = absurd (ground (arith, p, h))
    go s s' (some r) p a h = let e : s'.db ≡ change s.db = ground (arith, p, h) in rw e (keeps s.db)

pub Grows-insert_detection : (k : Uuid) (d : Detection) → Grows (insert_detection k d)
unfolding insert_detection
Grows-insert_detection k d =
    Grows-if (detection_fits d) _ _
      (Grows-with_scan k (add_detection k d) (λ db. record {
        scans = (Extends-refl db).scans;
        born = (Extends-refl db).born;
        detections = insert_new-Keeps db.detection d.detection_id (stored_detection k d);
        verdicts = λ j x h. h;
        feedbacks = λ j x h. h;
      }))
      (Grows-raise database_error)

pub Grows-insert_detections : (k : Uuid) (ds : List Detection) → Grows (insert_detections k ds)
unfolding insert_detections
Grows-insert_detections k [] = Grows-pure tt
Grows-insert_detections k (d ∷ ds) =
    Grows-bind (insert_detection k d) _ (Grows-insert_detection k d)
      (λ _. Grows-insert_detections k ds)

-- a transition whose result is dropped
pub Grows-move :
    {A : Type 0} (k : Uuid) (e : Event) (ts : Stamp) (a : A)
    → is_failure e ≡ false
    → Grows (transition k e ts >>= λ _. pure a)
Grows-move k e ts a f =
    Grows-bind (transition k e ts) _ (Grows-transition k e ts f) (λ _. Grows-pure a)

Extends-add_scan :
    (a : AcquisitionResult) (db : Db) → db.scan a.scan_id ≡ none → Extends db (add_scan a db)
Extends-add_scan a db p = record {
  scans = λ j x h. elim (Bool-cases (a.scan_id == j)) [
    | inl q ↦ cc (h, (==_iff a.scan_id j).0 q)
    | inr q ↦ (x, rw q h, Later-refl x)
  ];
  born = λ j x h h'. elim (Bool-cases (a.scan_id == j)) [
    | inl q ↦ let e : pending_scan a ≡ x = ground (arith, rw q at h') in rw (← e) here
    | inr q ↦ cc (h, rw q at h')
  ];
  detections = λ j x h. h;
  verdicts = λ j x h. h;
  feedbacks = λ j x h. h;
}

pub Grows-record_acquisition : (a : AcquisitionResult) → Grows (record_acquisition a)
Grows-record_acquisition a = record { at = λ s x s' h. go s s' x (s.db.scan a.scan_id) refl h }
  where
    go :
        (s s' : Session) (x : Unit {0}) (o : Option Scan)
        → s.db.scan a.scan_id ≡ o
        → record_acquisition a s ≡ ok (x, s')
        → Extends s.db s'.db
    go s s' x (some r) p h =
        let e : s'.db ≡ s.db = unfold record_acquisition in ground (arith, p, h) in
        rw e (Extends-refl s.db)
    go s s' x none p h =
        let e : s'.db ≡ add_scan a s.db = unfold record_acquisition in ground (arith, p, h) in
        rw e (Extends-add_scan a s.db p)

pub Grows-record_detection : (now : ℕ) (r : DetectionResult) → Grows (record_detection now r)
unfolding record_detection
Grows-record_detection now r =
    Grows-bind (insert_detections r.scan_id r.detections) _
      (Grows-insert_detections r.scan_id r.detections)
      (λ _.
        Grows-bind (get_state r.scan_id) _ (Grows-get_state r.scan_id)
          (λ state. Grows-bind (receive_pending r.scan_id state) _ (received state) completed))
  where
    received : (state : ScanState) → Grows (receive_pending r.scan_id state)
    received state =
        unfold receive_pending in
        Grows-if _ _ _ (Grows-move r.scan_id detect_received _ _ refl) (Grows-pure state)

    completed : (state : ScanState) → Grows (complete_analyzing r.scan_id now state)
    completed state =
        unfold complete_analyzing in
        Grows-if _ _ _ (Grows-move r.scan_id detect_completed _ _ refl) (Grows-pure tt)

Grows-add_verdict : (k : Uuid) (v : OperatorVerdict) → Grows (with_scan k (add_verdict k v))
Grows-add_verdict k v = Grows-with_scan k (add_verdict k v) (λ db. record {
  scans = (Extends-refl db).scans;
  born = (Extends-refl db).born;
  detections = λ j x h. h;
  verdicts = insert_new-Keeps db.verdict k _;
  feedbacks = λ j x h. h;
})

Grows-insert_verdict : (k : Uuid) (v : OperatorVerdict) → Grows (insert_verdict k v)
unfolding insert_verdict
Grows-insert_verdict k v = record {
  at = λ s a s' h. elim (Bool-cases (verdict_fits k v s.db)) [
    | inl e ↦ (Grows-add_verdict k v).at s a s' (rw e at h)
    | inr e ↦ cc (rw e at h)
  ];
}

pub Grows-record_verdict :
    (now : ℕ) (v : OperatorVerdict) (k : Uuid) → Grows (record_verdict now v k)
unfolding record_verdict
Grows-record_verdict now v k = Grows-bind (insert_verdict k v) _ (Grows-insert_verdict k v) (λ _.
    Grows-bind (get_state k) _ (Grows-get_state k)
      (λ state. Grows-if _ _ _ (Grows-move k verdict_completed _ _ refl) (Grows-pure tt)))

pub Grows-record_feedback :
    (now : ℕ) (f : OperatorFeedback) (receipt : FeedbackReceipt)
    → Grows (record_feedback now f receipt)
unfolding record_feedback
Grows-record_feedback now f receipt =
    Grows-bind (with_scan f.scan_id (add_feedback f receipt)) _
      (Grows-with_scan f.scan_id (add_feedback f receipt) (λ db. record {
        scans = (Extends-refl db).scans;
        born = (Extends-refl db).born;
        detections = λ j x h. h;
        verdicts = λ j x h. h;
        feedbacks = insert_new-Keeps db.feedback f.scan_id _;
      }))
      (λ _.
        Grows-bind (get_state f.scan_id) _ (Grows-get_state f.scan_id)
          (λ state. Grows-if _ _ _ (Grows-move f.scan_id feedback_banked _ _ refl) (Grows-pure tt)))

pub Grows-mark_reviewing : (k : Uuid) → Grows (mark_reviewing k)
unfolding mark_reviewing
Grows-mark_reviewing k =
    Grows-bind (get_state k) _ (Grows-get_state k)
      (λ state. Grows-if _ _ _ (Grows-move k scan_opened _ _ refl) (Grows-pure false))
