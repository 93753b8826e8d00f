-- ===== src/Api/Decision/Effect.antt =====
-- The effect of `decide_scan` on the database, and its race with another decision.
use loyiha.Base.{
  ℕ, ◌≡◌, ◌≢◌, refl, sym, ◌∙◌, ap, ◌⊎◌, inl, inr, true, false, Option, none, some, [], ◌∷◌, arith,
  ok, raised, Result,
}
use loyiha.Contracts.Common.{Uuid}
use loyiha.Contracts.Feedback.{OperatorOutcome}
use loyiha.State.Machine.{
  ScanState, verdicted, reviewing, decided, same_state, scan_opened, feedback_banked, StoreError,
  allowed_transition, concurrent_transition,
}
use loyiha.State.Session.{Scan, Db, Session}
use loyiha.State.Store.{stamp, get, transition, with_scan, no_stamp, decided_at, is_decidable}
use loyiha.State.Store.Swap.{seen, get-some, transition_lost, swapped_db_self, transition-Swapped}
use loyiha.Api.Access.{TokenClaims, conflict, check_lane_access}
use loyiha.Api.Decision.{
  Reply, DecisionRequest, DecisionResponse, decision_outcome, decide_scan, decide_store, may_decide,
  add_decision, open_verdicted, decided_by,
}
use loyiha.Api.Decision.Outcome.{steps}

-- The guards let a request through exactly for a scan that is there, in the caller's lanes, and
-- in a state that can be decided.
pub may_decide_iff :
    (claims : TokenClaims) (found : Option Scan) (scan : Scan)
    → (may_decide claims found ≡ ok scan)
    → ((found ≡ some scan)
        × (check_lane_access scan claims ≡ true)
        × (is_decidable scan.state ≡ true))
unfolding may_decide
may_decide_iff claims none scan h = cc
may_decide_iff claims (some x) scan h =
    let e : x ≡ scan = ground (arith, h) in
    (ap some e, rw (← e) (ground (arith, h)), rw (← e) (ground (arith, h)))

-- What a successful decision has done.
pub record IsDecided (now : ℕ) (claims : TokenClaims) (scan_id : Uuid) (body : DecisionRequest)
    (s : Session) (reply : Reply DecisionResponse) : Type 0 where
  pub scan : Scan
  pub was_seen : seen s scan_id ≡ some scan
  pub allowed : check_lane_access scan claims ≡ true
  pub decidable : is_decidable scan.state ≡ true
  pub row : Scan
  pub stored : reply.session.db.scan scan_id ≡ some row
  pub is_decided : row.state ≡ decided
  pub stamped : row.decided_at ≡ some now
  pub outcome_named : decision_outcome body.decision ≡ some reply.value.outcome
  pub audited :
      reply.audited ≡ decided_by scan_id claims.sub body.decision reply.value.outcome body.note ∷ []

banked : (t n : ScanState) → allowed_transition t feedback_banked ≡ ok n → n ≡ decided
unfolding allowed_transition
banked t n h = ground (arith, h)

-- the last transition of the database part
last_step :
    (claims : TokenClaims) (feedback_id scan_id : Uuid) (outcome : OperatorOutcome) (now : ℕ)
    (state last : ScanState) (s s' : Session)
    → decide_store claims feedback_id scan_id outcome now state s ≡ ok (last, s')
    → (s₂ : Session) × (transition scan_id feedback_banked (decided_at now) s₂ ≡ ok (last, s'))
unfolding decide_store
last_step claims feedback_id scan_id outcome now state last s s' h =
    go (with_scan scan_id (add_decision claims feedback_id scan_id outcome now) s) refl
  where
    go :
        (r : Result StoreError (Unit {0} × Session))
        → with_scan scan_id (add_decision claims feedback_id scan_id outcome now) s ≡ r
        → (s₂ : Session) × (transition scan_id feedback_banked (decided_at now) s₂ ≡ ok (last, s'))
    go (raised e) p = absurd (ground (arith, p, h))
    go (ok (_, s₁)) p = opened (open_verdicted scan_id state s₁) refl
      where
        opened :
            (r : Result StoreError (Unit {0} × Session))
            → open_verdicted scan_id state s₁ ≡ r
            → (s₂ : Session) × (transition scan_id feedback_banked (decided_at now) s₂
                ≡ ok (last, s'))
        opened (raised e) q = absurd (ground (arith, p, q, h))
        opened (ok (_, s₂)) q = (s₂, ground (arith, p, q, h))

get-seen :
    (k : Uuid) (s s' : Session) (found : Option Scan) → get k s ≡ ok (found, s') → seen s k ≡ found
unfolding get
get-seen k s s' found h = ground (arith, h)

-- A successful decision was on a scan that the caller may see and that could be decided; the scan
-- is now DECIDED, with the time of the decision, and exactly one audit row is sent.
pub decide_scan-IsDecided :
    (feedback_id : Uuid) (now : ℕ) (claims : TokenClaims) (scan_id : Uuid) (body : DecisionRequest)
    (s : Session) (reply : Reply DecisionResponse)
    → decide_scan feedback_id now claims scan_id body s ≡ ok reply
    → IsDecided now claims scan_id body s reply
decide_scan-IsDecided feedback_id now claims scan_id body s reply h =
    let w = steps feedback_id now claims scan_id body s reply h in
    let (here, access, could) = may_decide_iff claims w.found w.scan w.allowed in
    let (s₂, moved) =
      last_step claims feedback_id scan_id w.outcome now w.scan.state w.last w.read reply.session
        w.written in
    let t = transition-Swapped scan_id feedback_banked (decided_at now) s₂ moved in
    let out : reply.value.outcome ≡ w.outcome =
      ap (λ (v : DecisionResponse). v.outcome) w.replied in
    record {
      scan = w.scan;
      was_seen = get-seen scan_id s w.read w.found w.got ∙ here;
      allowed = access;
      decidable = could;
      row = stamp (decided_at now) (record t.current { state = w.last });
      stored =
          ap (λ (d : Db). d.scan scan_id) t.result
          ∙ swapped_db_self s₂.db scan_id t.current w.last (decided_at now);
      is_decided = banked t.current.state w.last t.accepted;
      stamped = refl;
      outcome_named = w.named ∙ ap some (sym out);
      audited = rw out w.audit;
    }

-- a decidable state is VERDICTED, or leads to DECIDED at once
decidable_cases :
    (t : ScanState)
    → is_decidable t ≡ true
    → (t ≡ verdicted)
      ⊎ ((same_state t verdicted ≡ false) × (allowed_transition t feedback_banked ≡ ok decided))
unfolding allowed_transition
decidable_cases t h = ground (arith, h)

decide_store-lost :
    (claims : TokenClaims) (feedback_id scan_id : Uuid) (outcome : OperatorOutcome) (now : ℕ)
    (s : Session) (row current : Scan)
    → s.cached scan_id ≡ some row
    → s.db.scan scan_id ≡ some current
    → current.state ≢ row.state
    → is_decidable row.state ≡ true
    → decide_store claims feedback_id scan_id outcome now row.state s ≡ raised concurrent_transition
unfolding decide_store
decide_store-lost claims feedback_id scan_id outcome now s row current loaded stored moved can =
    elim (decidable_cases row.state can) [
      | inl v ↦
          let opens : allowed_transition row.state scan_opened ≡ ok reviewing =
            rw v (unfold allowed_transition in refl) in
          let lost =
            transition_lost scan_id scan_opened no_stamp s₂ row reviewing here opens differ in
          ground (arith, stored, v, lost)
      | inr (v, banks) ↦
          let lost =
            transition_lost scan_id feedback_banked (decided_at now) s₂ row decided here banks
              differ in
          ground (arith, stored, v, lost)
    ]
  where
    s₂ : Session
    s₂ = record s { db = add_decision claims feedback_id scan_id outcome now s.db }

    here : seen s₂ scan_id ≡ some row
    here = ground (arith, loaded)

    differ : (c : Scan) → s₂.db.scan scan_id ≡ some c → c.state ≢ row.state
    differ c p e =
        let same : current ≡ c = cc (stored, p) in moved (ap (λ (x : Scan). x.state) same ∙ e)

-- A scan that is decided again after another request has moved it on: the caller gets 409, and the
-- exception rolls its transaction back, so the first decision stands.
pub decide_scan-lost :
    (feedback_id : Uuid) (now : ℕ) (claims : TokenClaims) (scan_id : Uuid) (body : DecisionRequest)
    (s : Session) (row current : Scan) (outcome : OperatorOutcome)
    → decision_outcome body.decision ≡ some outcome
    → s.cached scan_id ≡ some row
    → may_decide claims (some row) ≡ ok row
    → s.db.scan scan_id ≡ some current
    → current.state ≢ row.state
    → decide_scan feedback_id now claims scan_id body s ≡ raised conflict
decide_scan-lost feedback_id now claims scan_id body s row current outcome named loaded may stored
      moved =
    let (s₁, got, same, kept) = get-some scan_id s row (ground (arith, loaded)) in
    let lost =
      decide_store-lost claims feedback_id scan_id outcome now s₁ row current kept
        (ap (λ (d : Db). d.scan scan_id) same ∙ stored) moved
        (may_decide_iff claims (some row) row may).2 in
    unfold decide_scan in ground (arith, named, got, may, lost)
