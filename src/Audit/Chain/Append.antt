-- ===== src/Audit/Chain/Append.antt =====
-- Appending with `record` keeps the chain intact (app/audit/sink.py).
use loyiha.Base.{
  ℕ, suc, ◌+◌, ◌≡◌, refl, sym, ap, ◌∙◌, ◌↔◌, true, false, Option, none, some, List, [], ◌∷◌, ◌++◌,
  String, length, arith, ==_refl,
}
use loyiha.Contracts.Common.{Uuid}
use loyiha.Audit.Framing.{Bytes, join_nul}
use loyiha.Audit.Chain.{
  Codec, AuditEvent, scan_text, genesis_hmac, bytes_eq, expected_hmac, tail_event, tail_id,
  tail_hmac, stored_operator, operator_text, payload_of, record_event, intact, link_differs,
  verify_rows, verify_chain,
}

pub bytes_eq_iff : (a b : Bytes) → (bytes_eq a b ≡ true) ↔ (a ≡ b)
bytes_eq_iff a b = (sound a b, λ e. rw e (same b))
  where
    sound : (a b : Bytes) → bytes_eq a b ≡ true → a ≡ b
    sound [] [] h = refl
    sound [] (y ∷ ys) h = cc
    sound (x ∷ xs) [] h = cc
    sound (x ∷ xs) (y ∷ ys) h = ground (arith, sound xs ys)

    same : (a : Bytes) → bytes_eq a a ≡ true
    same [] = refl
    same (x ∷ xs) = rw ==_refl (same xs)

pub link_differs_self : (p : Option Uuid) → link_differs p p ≡ false
link_differs_self none = refl
link_differs_self (some p) = rw ==_refl

module _ {V : Type 0} (k : Codec V) (key : Bytes) where
  -- The rows follow on from the given link: each has the HMAC that is recomputed for it.
  abbrev pub IsChained : Bytes → Option Uuid → List (AuditEvent V) → Type 0
  IsChained prev_hmac prev_id [] = Unit
  IsChained prev_hmac prev_id (ev ∷ rows) =
      (expected_hmac k key prev_hmac ev ≡ ev.event_hmac)
      × (link_differs prev_id ev.prev_event_id ≡ false)
      × IsChained ev.event_hmac (some ev.event_id) rows

  -- the replay answers `intact` exactly for chained rows
  pub verify_rows_iff :
      (prev_hmac : Bytes) (prev_id : Option Uuid) (n : ℕ) (rows : List (AuditEvent V))
      → (verify_rows k key prev_hmac prev_id n rows ≡ intact (n + length rows))
        ↔ IsChained prev_hmac prev_id rows
  unfolding verify_rows
  verify_rows_iff prev_hmac prev_id n [] = (λ h. tt, λ h. ground arith)
  verify_rows_iff prev_hmac prev_id n (ev ∷ rows) =
      let ih = verify_rows_iff ev.event_hmac (some ev.event_id) (suc n) rows in
      let eq = bytes_eq_iff (expected_hmac k key prev_hmac ev) ev.event_hmac in
      let shift : n + length (ev ∷ rows) ≡ suc n + length rows = omega arith in
      (
        λ h. (eq.0 (ground (arith, h)), ground (arith, h), ih.0 (ground (arith, h, shift))),
        λ w. ground (arith, eq.1 w.0, w.1, ih.1 w.2, shift),
      )

  -- what the next row has to follow on from
  last_hmac : Bytes → List (AuditEvent V) → Bytes
  last_hmac prev_hmac [] = prev_hmac
  last_hmac prev_hmac (ev ∷ rows) = last_hmac ev.event_hmac rows

  last_id : Option Uuid → List (AuditEvent V) → Option Uuid
  last_id prev_id [] = prev_id
  last_id prev_id (ev ∷ rows) = last_id (some ev.event_id) rows

  IsChained-append :
      (prev_hmac : Bytes) (prev_id : Option Uuid) (xs ys : List (AuditEvent V))
      → IsChained prev_hmac prev_id (xs ++ ys) ↔ (
          IsChained prev_hmac prev_id xs
          × IsChained (last_hmac prev_hmac xs) (last_id prev_id xs) ys)
  unfolding last_hmac last_id
  IsChained-append prev_hmac prev_id [] ys = (λ h. (tt, h), λ h. h.1)
  IsChained-append prev_hmac prev_id (x ∷ xs) ys =
      let (to, from) = IsChained-append x.event_hmac (some x.event_id) xs ys in
      (λ h. ((h.0, h.1, (to h.2).0), (to h.2).1), λ h. (h.0.0, h.0.1, from (h.0.2, h.1)))

  last_hmac-tail :
      (rows : List (AuditEvent V)) → last_hmac genesis_hmac rows ≡ tail_hmac k (tail_event k rows)
  unfolding last_hmac tail_event
  last_hmac-tail [] = refl
  last_hmac-tail (x ∷ []) = refl
  last_hmac-tail (x ∷ y ∷ ys) = last_hmac-tail (y ∷ ys)

  last_id-tail : (rows : List (AuditEvent V)) → last_id none rows ≡ tail_id k (tail_event k rows)
  unfolding last_id tail_event
  last_id-tail [] = refl
  last_id-tail (x ∷ []) = refl
  last_id-tail (x ∷ y ∷ ys) = last_id-tail (y ∷ ys)

  operator_text-stored : (o : Option Bytes) → operator_text (stored_operator k o) ≡ operator_text o
  operator_text-stored none = refl
  operator_text-stored (some []) = refl
  operator_text-stored (some (c ∷ cs)) = refl

  -- A log is intact when the replay of all its rows says so.
  abbrev pub IsIntact : List (AuditEvent V) → Type 0
  IsIntact log = verify_chain k key 0 log ≡ intact (length log)

  pub IsIntact-iff : (log : List (AuditEvent V)) → IsIntact log ↔ IsChained genesis_hmac none log
  unfolding verify_chain
  IsIntact-iff log =
      let zero_length : 0 + length log ≡ length log = omega arith in
      let same = verify_rows_iff genesis_hmac none 0 log in
      (λ h. same.0 (h ∙ ap intact (sym zero_length)), λ w. same.1 w ∙ ap intact zero_length)

  -- An event that `record` appends to an intact log leaves the log intact, whatever the event.
  pub record_event-IsIntact :
      (event_id : Uuid) (now next_seq : ℕ) (event_type : Bytes) (scan_id : Option Uuid)
      (operator_id : Option Bytes) (fields : List (String × V)) (log : List (AuditEvent V))
      → IsIntact log
      → IsIntact
          (record_event k key event_id now next_seq event_type scan_id operator_id fields log)
  unfolding record_event expected_hmac
  record_event-IsIntact event_id now next_seq event_type scan_id operator_id fields log h =
      (IsIntact-iff _).1 (
        (IsChained-append genesis_hmac none log _).1 (
          (IsIntact-iff log).0 h,
          (
            (λ i. k.hmac_hex key (
                join_nul (
                  last_hmac-tail log i
                  ∷ k.uuid_hex event_id
                  ∷ event_type
                  ∷ scan_text k scan_id
                  ∷ operator_text-stored operator_id i
                  ∷ k.isoformat now
                  ∷ k.canonical (payload_of k operator_id fields)
                  ∷ []))),
            rw last_id-tail (link_differs_self (tail_id k (tail_event k log))),
            tt,
          ),
        ))

  -- Any first part of an intact log is intact too: the replay does not notice that rows at the end
  -- have been removed.
  pub prefix-IsIntact : (xs ys : List (AuditEvent V)) → IsIntact (xs ++ ys) → IsIntact xs
  prefix-IsIntact xs ys h =
      (IsIntact-iff xs).1
        ((IsChained-append genesis_hmac none xs ys).0 ((IsIntact-iff (xs ++ ys)).0 h)).0
