-- ===== src/Audit/Chain.antt =====
-- app/audit/sink.py: appending to the audit log, and replaying it. HMAC-SHA256, the texts of ids
-- and times, and `json.dumps` are the fields of a `Codec`. The advisory lock makes appends follow
-- one another, so the log is a list in the order of `seq`.
pub mod Append
pub mod Tamper
use loyiha.Base.{
  ℕ, suc, ◌+◌, ◌≡◌, ◌≢◌, Bool, true, false, not, ◌&&◌, Option, none, some, List, [], ◌∷◌, ◌++◌,
  String, str_eq, ◌==◌, if◌then◌else◌, keep, take,
}
use loyiha.Contracts.Common.{Uuid}
use loyiha.Audit.Framing.{Bytes, join_nul, NulFree}

-- A payload is a dict of JSON values of an abstract type.
pub record Codec (V : Type 0) : Type 0 where
  pub hmac_hex : Bytes → Bytes → Bytes
  pub uuid_hex : Uuid → Bytes
  pub uuid_str : Uuid → Bytes
  pub isoformat : ℕ → Bytes
  pub canonical : List (String × V) → Bytes
  pub text_value : Bytes → V

pub record AuditEvent (V : Type 0) : Type 0 where
  pub event_id : Uuid
  pub seq : ℕ
  pub prev_event_id : Option Uuid
  pub scan_id : Option Uuid
  pub operator_id : Option Bytes
  pub event_type : Bytes
  pub payload : List (String × V)
  pub created_at : ℕ
  pub event_hmac : Bytes

-- `"0" * 64`
abbrev pub zeros : ℕ → Bytes
zeros ℕ.zero = []
zeros (suc n) = b'0' ∷ zeros n

abbrev pub genesis_hmac : Bytes
genesis_hmac = zeros 64

abbrev pub bytes_eq : Bytes → Bytes → Bool
bytes_eq [] [] = true
bytes_eq (a ∷ as') (b ∷ bs) = a == b && bytes_eq as' bs
bytes_eq _ _ = false

-- `str(x) if x else ""`
abbrev pub operator_text : Option Bytes → Bytes
operator_text none = []
operator_text (some o) = o

abbrev pub scan_text : {V : Type 0} → Codec V → Option Uuid → Bytes
scan_text k none = []
scan_text k (some u) = k.uuid_str u

module _ {V : Type 0} (k : Codec V) where
  -- the list `parts` of `_compute_hmac`
  unfoldable pub hmac_parts :
      Bytes → Uuid → Bytes → Option Uuid → Option Bytes → ℕ → Bytes → List Bytes
  hmac_parts prev_hmac event_id event_type scan_id operator_id created_at payload_canonical =
      prev_hmac
      ∷ k.uuid_hex event_id
      ∷ event_type
      ∷ scan_text k scan_id
      ∷ operator_text operator_id
      ∷ k.isoformat created_at
      ∷ payload_canonical
      ∷ []

  -- `_compute_hmac`
  unfoldable pub compute_hmac :
      Bytes → Bytes → Uuid → Bytes → Option Uuid → Option Bytes → ℕ → Bytes → Bytes
  unfolding hmac_parts
  compute_hmac key prev_hmac event_id event_type scan_id operator_id created_at payload_canonical =
      k.hmac_hex key (
        join_nul (
          hmac_parts prev_hmac event_id event_type scan_id operator_id created_at
            payload_canonical))

  -- the row before the new one: the last by `seq`
  unfoldable pub tail_event : List (AuditEvent V) → Option (AuditEvent V)
  tail_event [] = none
  tail_event (e ∷ []) = some e
  tail_event (e ∷ f ∷ es) = tail_event (f ∷ es)

  abbrev pub tail_id : Option (AuditEvent V) → Option Uuid
  tail_id none = none
  tail_id (some e) = some e.event_id

  abbrev pub tail_hmac : Option (AuditEvent V) → Bytes
  tail_hmac none = genesis_hmac
  tail_hmac (some e) = e.event_hmac

  -- a missing or empty operator is stored as NULL
  abbrev pub stored_operator : Option Bytes → Option Bytes
  stored_operator none = none
  stored_operator (some []) = none
  stored_operator (some (c ∷ cs)) = some (c ∷ cs)

  abbrev pub operator_field : Option Bytes → List (String × V)
  operator_field none = []
  operator_field (some o) = ("operator_id", k.text_value o) ∷ []

  -- the dict `payload`: the operator first, then the other fields
  unfoldable pub payload_of : Option Bytes → List (String × V) → List (String × V)
  payload_of operator_id fields =
      operator_field (stored_operator operator_id)
      ++ keep (λ (f : String × V). not (str_eq f.0 "operator_id")) fields

  -- `PostgreSQLAuditSink.record`; `uuid4()`, the clock and the sequence are arguments
  unfoldable pub record_event :
      Bytes
      → Uuid
      → ℕ
      → ℕ
      → Bytes
      → Option Uuid
      → Option Bytes
      → List (String × V)
      → List (AuditEvent V)
      → List (AuditEvent V)
  unfolding compute_hmac payload_of
  record_event key event_id now next_seq event_type scan_id operator_id fields log =
      let tail = tail_event log in
      let payload = payload_of operator_id fields in
      log
      ++ (record {
        event_id = event_id;
        seq = next_seq;
        prev_event_id = tail_id tail;
        scan_id = scan_id;
        operator_id = stored_operator operator_id;
        event_type = event_type;
        payload = payload;
        created_at = now;
        event_hmac =
            compute_hmac key (tail_hmac tail) event_id event_type scan_id operator_id now
              (k.canonical payload);
      }
          ∷ [])

  -- the value that `verify_chain` recomputes for a row
  unfoldable pub expected_hmac : Bytes → Bytes → AuditEvent V → Bytes
  unfolding compute_hmac
  expected_hmac key prev_hmac ev =
      compute_hmac key prev_hmac ev.event_id ev.event_type ev.scan_id ev.operator_id ev.created_at
        (k.canonical ev.payload)

-- The answers of `verify_chain`.
pub data Verification : Type 0 where
  intact : ℕ → Verification
  chain_broken link_broken : ℕ → Verification

-- `prev_id is not None and ev.prev_event_id != prev_id`
abbrev pub link_differs : Option Uuid → Option Uuid → Bool
link_differs none stored = false
link_differs (some p) none = true
link_differs (some p) (some q) = not (q == p)

module _ {V : Type 0} (k : Codec V) where
  -- the loop `for ev in rows`, with the number of rows that have passed
  unfoldable pub verify_rows : Bytes → Bytes → Option Uuid → ℕ → List (AuditEvent V) → Verification
  verify_rows key prev_hmac prev_id n [] = intact n
  verify_rows key prev_hmac prev_id n (ev ∷ rows) =
      let rest = verify_rows key ev.event_hmac (some ev.event_id) (suc n) rows in
      if not (bytes_eq (expected_hmac k key prev_hmac ev) ev.event_hmac)
      then chain_broken ev.seq
      else if link_differs prev_id ev.prev_event_id
      then link_broken ev.seq
      else rest

  -- `stmt.limit(limit)` where the limit is not 0
  abbrev pub limited : ℕ → List (AuditEvent V) → List (AuditEvent V)
  limited ℕ.zero rows = rows
  limited (suc n) rows = take (suc n) rows

  unfoldable pub verify_chain : Bytes → ℕ → List (AuditEvent V) → Verification
  unfolding verify_rows expected_hmac
  verify_chain key limit rows = verify_rows key genesis_hmac none 0 (limited limit rows)
