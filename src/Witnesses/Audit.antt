-- ===== src/Witnesses/Audit.antt =====
-- Audit logs of one and of two rows, under a codec that is injective and has no zero byte.
use loyiha.Base.{
  ℕ, suc, ◌-◌, ◌≡◌, refl, sym, ap, ◌∙◌, none, some, List, [], ◌∷◌, ◌++◌, map, length, All, arith,
}
use loyiha.Audit.Framing.{Bytes, NulFree}
use loyiha.Audit.Chain.{Codec, AuditEvent, genesis_hmac, record_event, verify_chain, verify_rows}
use loyiha.Audit.Chain.Append.{IsIntact, record_event-IsIntact}
use loyiha.Audit.Chain.Tamper.{IsSound, IsStorable, AllSame, final_hmac, intact_logs_agree}

abbrev raised_by_one : Bytes → Bytes
raised_by_one bs = map suc bs

abbrev plain : Codec ℕ
plain = record {
  hmac_hex = λ key d. raised_by_one d;
  uuid_hex = λ u. suc u ∷ [];
  uuid_str = λ u. suc u ∷ [];
  isoformat = λ t. suc t ∷ [];
  canonical = λ p. 123 ∷ 125 ∷ [];
  text_value = λ b. length b;
}

head_or : ℕ → Bytes → ℕ
head_or n [] = n
head_or n (b ∷ bs) = b

lowered : Bytes → Bytes
lowered [] = []
lowered (b ∷ bs) = (b - 1) ∷ lowered bs

lowered-raised : (bs : Bytes) → lowered (raised_by_one bs) ≡ bs
unfolding lowered
lowered-raised [] = refl
lowered-raised (b ∷ bs) = let e : suc b - 1 ≡ b = omega arith in rw (e, lowered-raised bs) refl

raised-clean : (bs : Bytes) → NulFree (raised_by_one bs)
raised-clean [] = tt
raised-clean (b ∷ bs) = (omega arith, raised-clean bs)

single : (a b : ℕ) → (suc a ∷ []) ≡ (suc b ∷ []) → a ≡ b
unfolding head_or
single a b e = omega (arith, ap (head_or 0) e)

plain-IsSound : IsSound plain
plain-IsSound = record {
  hmac_clean = λ key a. raised-clean a;
  hex_distinct = single;
  hex_clean = λ a. (omega arith, tt);
  str_clean = λ a. (omega arith, tt);
  time_distinct = single;
  time_clean = λ a. (omega arith, tt);
  json_clean = λ p. (omega arith, (omega arith, tt));
}

abbrev key : Bytes
key = 1 ∷ 2 ∷ []

abbrev event_type : Bytes
event_type = b'd' ∷ []

-- the first row, with the number that the sequence gave it
abbrev log_one : ℕ → List (AuditEvent ℕ)
log_one seq = record_event plain key 11 100 seq event_type (some 1) (some (b'o' ∷ [])) [] []

abbrev log_two : List (AuditEvent ℕ)
log_two = record_event plain key 12 101 2 event_type none none [] (log_one 1)

empty-IsIntact : IsIntact plain key []
unfolding verify_chain verify_rows
empty-IsIntact = refl

one-IsIntact : (seq : ℕ) → IsIntact plain key (log_one seq)
one-IsIntact seq =
    record_event-IsIntact plain key 11 100 seq event_type (some 1) (some (b'o' ∷ [])) [] []
      empty-IsIntact

record_event-IsIntact_example : IsIntact plain key log_two
record_event-IsIntact_example =
    record_event-IsIntact plain key 12 101 2 event_type none none [] (log_one 1) (one-IsIntact 1)

two-IsIntact : IsIntact plain key log_two
two-IsIntact =
    record_event-IsIntact plain key 12 101 2 event_type none none [] (log_one 1) (one-IsIntact 1)

grown : (ys : List (AuditEvent ℕ)) × (log_two ≡ log_one 1 ++ ys)
unfolding record_event
grown = (_, refl)

one-IsStorable : (seq : ℕ) → All (IsStorable plain) (log_one seq)
unfolding record_event
one-IsStorable seq =
    (record { type_clean = (omega arith, tt); operator_clean = (omega arith, tt) }, tt)

same_ends : final_hmac plain genesis_hmac (log_one 1) ≡ final_hmac plain genesis_hmac (log_one 5)
unfolding record_event
same_ends = refl

same_lengths : length (log_one 1) ≡ length (log_one 5)
unfolding record_event
same_lengths = refl

intact_logs_agree_example : AllSame plain (log_one 1) (log_one 5)
intact_logs_agree_example =
    intact_logs_agree plain plain-IsSound key (log_one 1) (log_one 5) (one-IsStorable 1)
      (one-IsStorable 5) same_lengths (one-IsIntact 1) (one-IsIntact 5)
      (λ m n x y e. sym (lowered-raised m) ∙ ap lowered e ∙ lowered-raised n) same_ends
