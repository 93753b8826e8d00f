-- ===== src/State/Store/Swap.antt =====
-- `PostgresScanStore._transition`: the compare-and-swap and its races.
use loyiha.Base.{
  ◌≡◌, ◌≢◌, refl, sym, ◌∙◌, ap, inl, inr, Option, none, some, arith, ok, raised, Result, ==_refl,
  Bool-cases, Option-cases,
}
use loyiha.Contracts.Common.{Uuid}
use loyiha.State.Machine.{
  ScanState, Event, StoreError, allowed_transition, same_state, same_state_iff,
  concurrent_transition, scan_not_found,
}
use loyiha.State.Session.{Scan, Db, Session, put}
use loyiha.State.Store.{Stamp, stamp, get, transition, swap_state, compare_and_swap}

-- The row of a scan that the session works with: the loaded one, or else the database's.
abbrev pub seen : Session → Uuid → Option Scan
seen s scan_id = elim (s.cached scan_id) [ some row ↦ some row | none ↦ s.db.scan scan_id ]

abbrev pub swapped_db : Db → Uuid → Scan → ScanState → Stamp → Db
swapped_db db scan_id current new ts = record db {
  scan = put db.scan scan_id (stamp ts (record current { state = new }));
}

pub swapped_db_self :
    (db : Db) (k : Uuid) (r : Scan) (n : ScanState) (ts : Stamp)
    → (swapped_db db k r n ts).scan k ≡ some (stamp ts (record r { state = n }))
swapped_db_self db k r n ts = rw ==_refl

abbrev swapped : Session → Uuid → Scan → Scan → ScanState → Stamp → Session
swapped s scan_id row current new ts = record {
  db = swapped_db s.db scan_id current new ts;
  cached = put s.cached scan_id (stamp ts (record row { state = new }));
}

swap_state-won :
    (scan_id : Uuid) (row current : Scan) (new : ScanState) (ts : Stamp) (s : Session)
    → s.db.scan scan_id ≡ some current
    → current.state ≡ row.state
    → swap_state scan_id row new ts s ≡ ok (new, swapped s scan_id row current new ts)
swap_state-won scan_id row current new ts s p q =
    let same = (same_state_iff current.state row.state).1 q in
    unfold swap_state compare_and_swap in ground (arith, p, same)

swap_state-lost :
    (scan_id : Uuid) (row : Scan) (new : ScanState) (ts : Stamp) (s : Session)
    → ((current : Scan) → s.db.scan scan_id ≡ some current → current.state ≢ row.state)
    → swap_state scan_id row new ts s ≡ raised concurrent_transition
unfolding swap_state compare_and_swap
swap_state-lost scan_id row new ts s n = elim (Option-cases (s.db.scan scan_id)) [
  | inl p ↦ ground (arith, p)
  | inr (current, p) ↦ elim (Bool-cases (same_state current.state row.state)) [
    | inl q ↦ absurd (n current p ((same_state_iff current.state row.state).0 q))
    | inr q ↦ ground (arith, p, q)
  ]
]

-- Reading a row changes nothing but what the session has loaded.
pub get-some :
    (scan_id : Uuid) (s : Session) (row : Scan)
    → seen s scan_id ≡ some row
    → (s' : Session) × (get scan_id s ≡ ok (some row, s'))
      × (s'.db ≡ s.db)
      × (s'.cached scan_id ≡ some row)
unfolding get
get-some scan_id s row h = elim (Option-cases (s.cached scan_id)) [
  | inl p ↦
      let q : s.db.scan scan_id ≡ some row = ground (arith, p, h) in
      (record s { cached = put s.cached scan_id row }, ground (arith, p, q), refl, rw ==_refl)
  | inr (r, p) ↦
      let q : r ≡ row = ground (arith, p, h) in (s, ground (arith, p, q), refl, p ∙ ap some q)
]

pub get-none : (scan_id : Uuid) (s : Session) → seen s scan_id ≡ none → get scan_id s ≡ ok (none, s)
unfolding get
get-none scan_id s h = ground (arith, h)

-- The update goes through when the database still holds the state that the session has seen and
-- the table allows the event: the row gets the new state and the time stamp, and nothing else in
-- the database changes.
pub transition_won :
    (scan_id : Uuid) (e : Event) (ts : Stamp) (s : Session) (row current : Scan) (new : ScanState)
    → seen s scan_id ≡ some row
    → allowed_transition row.state e ≡ ok new
    → s.db.scan scan_id ≡ some current
    → current.state ≡ row.state
    → (s' : Session) × (transition scan_id e ts s ≡ ok (new, s'))
      × (s'.db ≡ swapped_db s.db scan_id current new ts)
      × (s'.cached scan_id ≡ some (stamp ts (record row { state = new })))
transition_won scan_id e ts s row current new h a p q =
    let (s₁, got, same, loaded) = get-some scan_id s row h in
    let stored : s₁.db.scan scan_id ≡ some current = ap (λ (d : Db). d.scan scan_id) same ∙ p in
    let won = swap_state-won scan_id row current new ts s₁ stored q in
    (
      swapped s₁ scan_id row current new ts,
      unfold transition in ground (arith, got, a, won),
      ap (λ (d : Db). swapped_db d scan_id current new ts) same,
      rw ==_refl,
    )

-- A session that has seen a state which the database no longer holds loses the race: the
-- transition raises `ConcurrentTransitionError`, and the exception rolls the session back.
pub transition_lost :
    (scan_id : Uuid) (e : Event) (ts : Stamp) (s : Session) (row : Scan) (new : ScanState)
    → seen s scan_id ≡ some row
    → allowed_transition row.state e ≡ ok new
    → ((current : Scan) → s.db.scan scan_id ≡ some current → current.state ≢ row.state)
    → transition scan_id e ts s ≡ raised concurrent_transition
transition_lost scan_id e ts s row new h a n =
    let (s₁, got, same, loaded) = get-some scan_id s row h in
    let lost =
      swap_state-lost scan_id row new ts s₁
        (λ current p. n current (ap (λ (d : Db). d.scan scan_id) (sym same) ∙ p)) in
    unfold transition in ground (arith, got, a, lost)

pub transition_refused :
    (scan_id : Uuid) (e : Event) (ts : Stamp) (s : Session) (row : Scan) (x : StoreError)
    → seen s scan_id ≡ some row
    → allowed_transition row.state e ≡ raised x
    → transition scan_id e ts s ≡ raised x
transition_refused scan_id e ts s row x h a =
    let (s₁, got, same, loaded) = get-some scan_id s row h in
    unfold transition in ground (arith, got, a)

pub transition_missing :
    (scan_id : Uuid) (e : Event) (ts : Stamp) (s : Session)
    → seen s scan_id ≡ none
    → transition scan_id e ts s ≡ raised scan_not_found
transition_missing scan_id e ts s h = unfold transition in ground (arith, get-none scan_id s h)

-- Everything that a successful transition tells of the two databases.
pub record Swapped (scan_id : Uuid) (e : Event) (ts : Stamp) (s s' : Session) (new : ScanState)
    : Type 0 where
  pub current : Scan
  pub stored : s.db.scan scan_id ≡ some current
  pub accepted : allowed_transition current.state e ≡ ok new
  pub result : s'.db ≡ swapped_db s.db scan_id current new ts

module _ (scan_id : Uuid) (e : Event) (ts : Stamp) (s : Session) {n : ScanState}
    {s' : Session} where
  -- A transition succeeds only on a stored row whose state allows the event, and does no more to
  -- the database than to move that row along the edge.
  pub transition-Swapped : transition scan_id e ts s ≡ ok (n, s') → Swapped scan_id e ts s s' n
  transition-Swapped h = elim (Option-cases (seen s scan_id)) [
    | inl p ↦ cc (h, transition_missing scan_id e ts s p)
    | inr (row, p) ↦ allowed row p (allowed_transition row.state e) refl
  ]
    where
      stored :
          (row : Scan) (new : ScanState)
          → seen s scan_id ≡ some row
          → allowed_transition row.state e ≡ ok new
          → (o : Option Scan) → s.db.scan scan_id ≡ o
          → Swapped scan_id e ts s s' n
      stored row new p a none q =
          cc (h, transition_lost scan_id e ts s row new p a (λ c r. cc (q, r)))
      stored row new p a (some current) q = elim (Bool-cases (same_state current.state row.state)) [
        | inl same ↦
            let eq = (same_state_iff current.state row.state).0 same in
            let (t, won, db', _) = transition_won scan_id e ts s row current new p a q eq in
            let new-n : new ≡ n = cc (h, won) in
            let t-s' : t ≡ s' = cc (h, won) in
            record {
              current = current;
              stored = q;
              accepted = rw eq (a ∙ ap ok new-n);
              result =
                  ap (λ (x : Session). x.db) (sym t-s')
                  ∙ db'
                  ∙ ap (λ (m : ScanState). swapped_db s.db scan_id current m ts) new-n;
            }
        | inr differ ↦ cc (
          h,
          transition_lost scan_id e ts s row new p a
              (λ c r eq. cc (differ, (same_state_iff c.state row.state).1 eq, q, r)),
        )
      ]

      allowed :
          (row : Scan)
          → seen s scan_id ≡ some row
          → (o : Result StoreError ScanState) → allowed_transition row.state e ≡ o
          → Swapped scan_id e ts s s' n
      allowed row p (raised x) a = cc (h, transition_refused scan_id e ts s row x p a)
      allowed row p (ok new) a = stored row new p a (s.db.scan scan_id) refl
