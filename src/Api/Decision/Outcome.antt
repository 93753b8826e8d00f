-- ===== src/Api/Decision/Outcome.antt =====
-- What `decide_scan` does, where it succeeds and where it is refused.
use loyiha.Base.{ℕ, ◌≡◌, refl, Option, none, some, [], ◌∷◌, arith, ok, raised, Result}
use loyiha.Contracts.Common.{Uuid}
use loyiha.Contracts.Feedback.{OperatorOutcome}
use loyiha.State.Machine.{
  ScanState, decided, scan_opened, feedback_banked, StoreError, concurrent_transition,
}
use loyiha.State.Session.{Scan, Db, Session}
use loyiha.State.Store.{get, with_scan}
use loyiha.State.Store.History.{Extends, Extends-refl, Extends-trans}
use loyiha.State.Store.Growth.{
  Grows, Grows-get, Grows-with_scan, Grows-bind, Grows-if, Grows-move, Grows-pure, Grows-transition,
  insert_new-Keeps,
}
use loyiha.Api.Access.{TokenClaims, HttpError}
use loyiha.Api.Decision.{
  Reply, DecisionRequest, DecisionResponse, decision_outcome, decide_scan, decide_store, may_decide,
  add_decision, open_verdicted, conflict_on_race, unexpected, decided_by,
}

-- a store call that succeeded under either handler
unexpected-ok {ℓ} : {A : Type ℓ} (r : Result StoreError A) {a : A} → unexpected r ≡ ok a → r ≡ ok a
unexpected-ok (ok a) h = cc
unexpected-ok (raised e) h = cc

conflict_on_race-ok {ℓ} :
    {A : Type ℓ} (r : Result StoreError A) {a : A} → conflict_on_race r ≡ ok a → r ≡ ok a
conflict_on_race-ok (ok a) h = cc
conflict_on_race-ok (raised e) h = ground (arith, h)

Extends-add_decision :
    (claims : TokenClaims) (feedback_id scan_id : Uuid) (outcome : OperatorOutcome) (now : ℕ)
    (db : Db)
    → Extends db (add_decision claims feedback_id scan_id outcome now db)
Extends-add_decision claims feedback_id scan_id outcome now db = record {
  scans = (Extends-refl db).scans;
  born = (Extends-refl db).born;
  detections = λ j x h. h;
  verdicts = λ j x h. h;
  feedbacks = insert_new-Keeps db.feedback scan_id _;
}

Grows-decide_store :
    (claims : TokenClaims) (feedback_id scan_id : Uuid) (outcome : OperatorOutcome) (now : ℕ)
    (state : ScanState)
    → Grows (decide_store claims feedback_id scan_id outcome now state)
unfolding decide_store
Grows-decide_store claims feedback_id scan_id outcome now state =
    Grows-bind (with_scan scan_id (add_decision claims feedback_id scan_id outcome now)) _
      (Grows-with_scan scan_id _ (Extends-add_decision claims feedback_id scan_id outcome now))
      (λ _.
        Grows-bind (open_verdicted scan_id state) _
          (Grows-if _ _ _ (Grows-move scan_id scan_opened _ _ refl) (Grows-pure tt))
          (λ _. Grows-transition scan_id feedback_banked _ refl))

-- The steps of a decision that succeeded.
pub record Steps (feedback_id : Uuid) (now : ℕ) (claims : TokenClaims) (scan_id : Uuid)
    (body : DecisionRequest) (s : Session) (reply : Reply DecisionResponse) : Type 0 where
  pub outcome : OperatorOutcome
  pub found : Option Scan
  pub read : Session
  pub scan : Scan
  pub last : ScanState
  pub named : decision_outcome body.decision ≡ some outcome
  pub got : get scan_id s ≡ ok (found, read)
  pub allowed : may_decide claims found ≡ ok scan
  pub written :
      decide_store claims feedback_id scan_id outcome now scan.state read ≡ ok (last, reply.session)
  pub replied :
      reply.value
      ≡ record { scan_id = scan_id; state = decided; outcome = outcome; decided_at = now }
  pub audit : reply.audited ≡ decided_by scan_id claims.sub body.decision outcome body.note ∷ []

module _ (feedback_id : Uuid) (now : ℕ) (claims : TokenClaims) (scan_id : Uuid)
    (body : DecisionRequest) (s : Session) (reply : Reply DecisionResponse) where
  pub steps :
      decide_scan feedback_id now claims scan_id body s ≡ ok reply
      → Steps feedback_id now claims scan_id body s reply
  unfolding decide_scan
  steps h = go (decision_outcome body.decision) refl (get scan_id s) refl h
    where
      go :
          (o : Option OperatorOutcome)
          → decision_outcome body.decision ≡ o
          → (g : Result StoreError (Option Scan × Session)) → get scan_id s ≡ g
          → decide_scan feedback_id now claims scan_id body s ≡ ok reply
          → Steps feedback_id now claims scan_id body s reply
      go none p g q h = absurd (ground (arith, p, h))
      go (some o) p (raised e) q h = absurd (ground (arith, p, q, h))
      go (some o) p (ok (found, s₁)) q h = admitted (may_decide claims found) refl
        where
          admitted :
              (m : Result HttpError Scan)
              → may_decide claims found ≡ m
              → Steps feedback_id now claims scan_id body s reply
          admitted (raised e) a = absurd (ground (arith, p, q, a, h))
          admitted (ok scan) a =
              write (decide_store claims feedback_id scan_id o now scan.state s₁) refl
            where
              write :
                  (w : Result StoreError (ScanState × Session))
                  → decide_store claims feedback_id scan_id o now scan.state s₁ ≡ w
                  → Steps feedback_id now claims scan_id body s reply
              write (raised concurrent_transition) b = absurd (ground (arith, p, q, a, b, h))
              write (raised e) b = absurd (ground (arith, p, q, a, b, h))
              write (ok (last, s₂)) b = record {
                outcome = o;
                found = found;
                read = s₁;
                scan = scan;
                last = last;
                named = p;
                got = q;
                allowed = a;
                written = let e : s₂ ≡ reply.session = ground (arith, p, q, a, b, h) in rw (← e) b;
                replied = ground (arith, p, q, a, b, h);
                audit = ground (arith, p, q, a, b, h);
              }

  -- A decision, like the store's methods, only extends the database.
  pub decide_scan-Extends :
      decide_scan feedback_id now claims scan_id body s ≡ ok reply → Extends s.db reply.session.db
  decide_scan-Extends h =
      let w = steps h in
      Extends-trans ((Grows-get scan_id).at s w.found w.read w.got) (
        (Grows-decide_store claims feedback_id scan_id w.outcome now w.scan.state).at w.read w.last
          reply.session w.written)
