-- ===== src/State/Machine.antt =====
-- app/state/machine.py: the transition table of a scan. A state column holds the value of a
-- `ScanState` (the schema's CHECK constraint says so), and an event is one of the names of the table.
use loyiha.Base.{ℕ, ◌≡◌, refl, ◌↔◌, ◌<◌, Bool, true, false, arith, Result, ok, raised}

pub data ScanState : Type 0 where
  pending analyzing analyzed verdicted reviewing decided error : ScanState

pub data Event : Type 0 where
  detect_received detect_completed detect_failed : Event
  verdict_completed verdict_failed scan_opened feedback_banked : Event

-- The exceptions of the store. `ConcurrentTransitionError` is its own case here; as a subclass of
-- `InvalidTransitionError` it is caught by the handlers of that class too. `database_error` is the
-- refusal of a value that does not fit its column, or of a primary key that is there.
pub data StoreError : Type 0 where
  scan_not_found invalid_transition concurrent_transition foreign_key_violation database_error :
      StoreError

-- `_ALLOWED`, and the exception for a key that is not in it
unfoldable pub allowed_transition : ScanState → Event → Result StoreError ScanState
allowed_transition pending detect_received = ok analyzing
allowed_transition analyzing detect_completed = ok analyzed
allowed_transition analyzing detect_failed = ok error
allowed_transition analyzed verdict_completed = ok verdicted
allowed_transition analyzed verdict_failed = ok error
allowed_transition analyzed feedback_banked = ok decided
allowed_transition verdicted scan_opened = ok reviewing
allowed_transition reviewing feedback_banked = ok decided
allowed_transition _ _ = raised invalid_transition

-- `state in _TERMINAL`
unfoldable pub is_terminal : ScanState → Bool
is_terminal decided = true
is_terminal error = true
is_terminal _ = false

-- `state == expected` on the column
abbrev pub same_state : ScanState → ScanState → Bool
same_state pending pending = true
same_state analyzing analyzing = true
same_state analyzed analyzed = true
same_state verdicted verdicted = true
same_state reviewing reviewing = true
same_state decided decided = true
same_state error error = true
same_state _ _ = false

pub same_state_iff : (s t : ScanState) → (same_state s t ≡ true) ↔ (s ≡ t)
same_state_iff s t = (λ h. ground (arith, h), λ h. ground (arith, h))

-- The diagram of the module's docstring.
infix 40 ◌⟶◌
pub data ◌⟶◌ : ScanState → ScanState → Type 0 where
  receive : pending ⟶ analyzing
  complete : analyzing ⟶ analyzed
  fail_detection : analyzing ⟶ error
  verdict : analyzed ⟶ verdicted
  fail_verdict : analyzed ⟶ error
  auto_advance : analyzed ⟶ decided
  review : verdicted ⟶ reviewing
  bank : reviewing ⟶ decided

ruleset edges =
    (receive, complete, fail_detection, verdict, fail_verdict, auto_advance, review, bank)

-- An accepted event follows an edge of the diagram.
pub allowed_transition-⟶ : (s t : ScanState) (e : Event) → allowed_transition s e ≡ ok t → s ⟶ t
unfolding allowed_transition
allowed_transition-⟶ s t e h = grind (arith, edges)

-- how far a scan has come
abbrev pub stage : ScanState → ℕ
stage pending = 0
stage analyzing = 1
stage analyzed = 2
stage verdicted = 3
stage reviewing = 4
stage decided = 5
stage error = 5

pub stage-⟶ : {s t : ScanState} → s ⟶ t → stage s < stage t
stage-⟶ receive = omega arith
stage-⟶ complete = omega arith
stage-⟶ fail_detection = omega arith
stage-⟶ verdict = omega arith
stage-⟶ fail_verdict = omega arith
stage-⟶ auto_advance = omega arith
stage-⟶ review = omega arith
stage-⟶ bank = omega arith

-- No event leaves a terminal state, and every other state has an event that is accepted.
pub terminal_iff :
    (s : ScanState)
    → (is_terminal s ≡ true) ↔ ((e : Event) → allowed_transition s e ≡ raised invalid_transition)
unfolding is_terminal allowed_transition
terminal_iff pending = (λ h. cc, λ h. cc (h detect_received))
terminal_iff analyzing = (λ h. cc, λ h. cc (h detect_completed))
terminal_iff analyzed = (λ h. cc, λ h. cc (h verdict_completed))
terminal_iff verdicted = (λ h. cc, λ h. cc (h scan_opened))
terminal_iff reviewing = (λ h. cc, λ h. cc (h feedback_banked))
terminal_iff decided = (λ h e. refl, λ h. refl)
terminal_iff error = (λ h e. refl, λ h. refl)
