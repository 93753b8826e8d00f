-- ===== src/State/Store/Verdicts.antt =====
-- What `record_verdict` of app/state/machine.py has done when it returns.
use loyiha.Base.{
  ℕ, ◌==◌, ◌≡◌, refl, sym, ap, ◌∙◌, inl, inr, true, Option, none, some, arith, Result, ok, ok_inj,
  raised, Bool-cases, if◌then◌else◌, ==_refl,
}
use loyiha.Contracts.Common.{Uuid}
use loyiha.Contracts.Verdict.{OperatorVerdict}
use loyiha.State.Machine.{
  ScanState, pending, analyzing, analyzed, verdicted, reviewing, decided, error, StoreError,
  verdict_completed, same_state, allowed_transition,
}
use loyiha.State.Session.{Scan, StoredVerdict, Db, Session, M, pure, ◌>>=◌}
use loyiha.State.Store.{
  get, get_state, or_missing, transition, verdicted_at, stored_verdict, add_verdict, verdict_fits,
  with_scan, insert_verdict, insert_new, record_verdict,
}
use loyiha.State.Store.Swap.{seen, get-some, swapped_db, swapped_db_self, transition-Swapped}

-- A chain that returns is one whose first step has returned.
ran :
    {A B : Type 0} (m : M A) (f : A → M B) (s : Session) (out : B × Session)
    → (m >>= f) s ≡ ok out
    → (mid : A × Session) × (m s ≡ ok mid) × (f mid.0 mid.1 ≡ ok out)
ran {A} {B} m f s out h = go (m s) refl
  where
    go :
        (r : Result StoreError (A × Session))
        → m s ≡ r
        → (mid : A × Session) × (m s ≡ ok mid) × (f mid.0 mid.1 ≡ ok out)
    go (ok (a, s₁)) p = ((a, s₁), p, ground (arith, p, h))
    go (raised e) p = absurd (ground (arith, p, h))

pub get-db :
    (k : Uuid) (s : Session) (out : Option Scan × Session) → get k s ≡ ok out → out.1.db ≡ s.db
unfolding get
get-db k s (found, s') h = ground (arith, h)

get_state-db :
    (k : Uuid) (s : Session) (out : ScanState × Session) → get_state k s ≡ ok out → out.1.db ≡ s.db
unfolding get_state
get_state-db k s out h =
    let ((found, s₁), got, h') =
      ran (get k) (λ found. or_missing found >>= λ row. pure row.state) s out h in
    same found s₁ h' ∙ get-db k s (found, s₁) got
  where
    same :
        (o : Option Scan) (s₁ : Session)
        → (or_missing o >>= λ row. pure row.state) s₁ ≡ ok out
        → out.1.db ≡ s₁.db
    same none s₁ e = cc
    same (some r) s₁ e = sym (ap (λ (p : ScanState × Session). p.1.db) (ok_inj e))

insert_verdict-db :
    (k : Uuid) (v : OperatorVerdict) (s : Session) (out : Unit {0} × Session)
    → insert_verdict k v s ≡ ok out
    → out.1 ≡ record s { db = add_verdict k v s.db }
unfolding insert_verdict
insert_verdict-db k v s out h = elim (Bool-cases (verdict_fits k v s.db)) [
  | inr e ↦ cc (rw e at h)
  | inl e ↦ found (s.db.scan k) refl (rw e at h)
]
  where
    found :
        (o : Option Scan)
        → s.db.scan k ≡ o
        → with_scan k (add_verdict k v) s ≡ ok out
        → out.1 ≡ record s { db = add_verdict k v s.db }
    found none p e = absurd (ground (arith, p, e))
    found (some row) p e = ground (arith, p, e)

inserted_new :
    (m : Uuid → Option StoredVerdict) (k : Uuid) (a : StoredVerdict)
    → m k ≡ none
    → insert_new m k a k ≡ some a
inserted_new m k a e = let same : (k == k) ≡ true = ==_refl k in ground (arith, e, same)

inserted_again :
    (m : Uuid → Option StoredVerdict) (k : Uuid) (a old : StoredVerdict)
    → m k ≡ some old
    → insert_new m k a k ≡ some old
inserted_again m k a old e = ground (arith, e)

-- The verdict is the scan's unless it had one, which stays; and a scan that was ANALYZED in the session
-- is VERDICTED, with the verdict's risk.
pub record IsRecorded (now : ℕ) (v : OperatorVerdict) (k : Uuid) (s : Session) (db : Db)
    : Type 0 where
  pub verdicts : db.verdict ≡ insert_new s.db.verdict k (stored_verdict v)
  pub first : s.db.verdict k ≡ none → db.verdict k ≡ some (stored_verdict v)
  pub again : (old : StoredVerdict) → s.db.verdict k ≡ some old → db.verdict k ≡ some old
  pub detections : db.detection ≡ s.db.detection
  pub moved :
      (row : Scan)
      → seen s k ≡ some row
      → row.state ≡ analyzed
      → (current : Scan) × (s.db.scan k ≡ some current)
        × (db.scan k
            ≡ some (record current {
              state = verdicted;
              verdicted_at = some now;
              overall_risk = some v.overall_risk;
            }))

completed_state : (a n : ScanState) → allowed_transition a verdict_completed ≡ ok n → n ≡ verdicted
unfolding allowed_transition
completed_state pending n h = cc
completed_state analyzing n h = cc
completed_state analyzed n h = sym (ok_inj h)
completed_state verdicted n h = cc
completed_state reviewing n h = cc
completed_state decided n h = cc
completed_state error n h = cc

read_state :
    (k : Uuid) (s : Session) (row : Scan) (out : ScanState × Session)
    → seen s k ≡ some row
    → get_state k s ≡ ok out
    → out.0 ≡ row.state
read_state k s row out here got =
    let (s', found, same, kept) = get-some k s row here in
    let read : get_state k s ≡ ok (row.state, s') = unfold get_state in ground (arith, found) in
    ap (λ (p : ScanState × Session). p.0) (ok_inj (sym got ∙ read))

abbrev advance : ℕ → OperatorVerdict → Uuid → ScanState → M (Unit {0})
advance now v k state =
    if same_state state analyzed
    then (transition k verdict_completed (verdicted_at now v.overall_risk) >>= λ done. pure tt)
    else pure tt

module _ (now : ℕ) (v : OperatorVerdict) (k : Uuid) where
  -- the last step, on whatever state was read
  advanced :
      (state : ScanState) (s : Session) (out : Unit {0} × Session)
      → advance now v k state s ≡ ok out
      → (out.1.db.verdict ≡ s.db.verdict)
        × (out.1.db.detection ≡ s.db.detection)
        × (state ≡ analyzed
            → (current : Scan) × (s.db.scan k ≡ some current)
              × (out.1.db.scan k
                  ≡ some (record current {
                    state = verdicted;
                    verdicted_at = some now;
                    overall_risk = some v.overall_risk;
                  })))
  advanced state s out h = elim (Bool-cases (same_state state analyzed)) [
    | inr e ↦
        let same = ok_inj (rw e at h) in
        (
          sym (ap (λ (p : Unit {0} × Session). p.1.db.verdict) same),
          sym (ap (λ (p : Unit {0} × Session). p.1.db.detection) same),
          λ a. cc (e, a),
        )
    | inl e ↦
        let ((n, s₁), swap, done) =
          ran (transition k verdict_completed (verdicted_at now v.overall_risk)) (λ d. pure tt) s
            out (rw e at h) in
        let w = transition-Swapped k verdict_completed (verdicted_at now v.overall_risk) s swap in
        let db : out.1.db ≡ swapped_db s.db k w.current n (verdicted_at now v.overall_risk) =
          sym (ap (λ (p : Unit {0} × Session). p.1.db) (ok_inj done)) ∙ w.result in
        let new : n ≡ verdicted = completed_state w.current.state n w.accepted in
        (
          ap (λ (d : Db). d.verdict) db,
          ap (λ (d : Db). d.detection) db,
          λ a. (
            w.current,
            w.stored,
            ap (λ (d : Db). d.scan k) db
                ∙ swapped_db_self s.db k w.current n (verdicted_at now v.overall_risk)
                ∙ ap
                    (λ m. some (record w.current {
                      state = m;
                      verdicted_at = some now;
                      overall_risk = some v.overall_risk;
                    }))
                    new,
          ),
        )
  ]

  pub record_verdict-IsRecorded :
      (s : Session) (out : Unit {0} × Session)
      → record_verdict now v k s ≡ ok out
      → IsRecorded now v k s out.1.db
  record_verdict-IsRecorded s out h =
      let ((u, s₁), put_in, h₁) =
        ran (insert_verdict k v) (λ d. get_state k >>= advance now v k) s out
          (unfold record_verdict in h) in
      let ((state, s₂), got, h₂) = ran (get_state k) (advance now v k) s₁ out h₁ in
      let db₁ = insert_verdict-db k v s (u, s₁) put_in in
      let db₂ = get_state-db k s₁ (state, s₂) got in
      let (verdicts, detections, moved) = advanced state s₂ out h₂ in
      let rows : out.1.db.verdict ≡ insert_new s.db.verdict k (stored_verdict v) =
        verdicts ∙ ap (λ (d : Db). d.verdict) db₂ ∙ ap (λ (x : Session). x.db.verdict) db₁ in
      record {
        verdicts = rows;
        first = λ e.
            ap (λ (m : Uuid → Option StoredVerdict). m k) rows ∙ inserted_new s.db.verdict k _ e;
        again = λ old e.
            ap (λ (m : Uuid → Option StoredVerdict). m k) rows
            ∙ inserted_again s.db.verdict k _ old e;
        detections =
            detections
            ∙ ap (λ (d : Db). d.detection) db₂
            ∙ ap (λ (x : Session). x.db.detection) db₁;
        moved = λ row p a.
            let here : seen s₁ k ≡ some row = ap (λ x. seen x k) db₁ ∙ ground (arith, p) in
            let (current, was, is) = moved (read_state k s₁ row (state, s₂) here got ∙ a) in
            (
              current,
              sym (ap (λ (x : Session). x.db.scan k) db₁)
                  ∙ sym (ap (λ (d : Db). d.scan k) db₂)
                  ∙ was,
              is,
            );
      }
