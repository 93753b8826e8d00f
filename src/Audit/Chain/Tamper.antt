-- ===== src/Audit/Chain/Tamper.antt =====
-- What an intact log proves about its rows (app/audit/sink.py), given that the HMACs of the messages
-- in question do not collide.
use loyiha.Base.{
  ℕ, suc, ◌≡◌, sym, ap, ◌∙◌, Option, none, some, List, [], ◌∷◌, String, length, arith, All, In,
  subst, refl, inl, inr,
}
use loyiha.Contracts.Common.{Uuid}
use loyiha.Audit.Framing.{Bytes, NulFree, join_nul, join_nul-injective}
use loyiha.Audit.Chain.{
  Codec, AuditEvent, genesis_hmac, expected_hmac, hmac_parts, operator_text, scan_text,
}
use loyiha.Audit.Chain.Append.{IsChained, IsIntact, IsIntact-iff}

-- What the log relies on of the code that it calls: ids and times have distinct texts, and no text has a zero byte (hexadecimal digits, ISO 8601, JSON).
pub record IsSound {V : Type 0} (k : Codec V) : Type 0 where
  pub hmac_clean : (key a : Bytes) → NulFree (k.hmac_hex key a)
  pub hex_distinct : (a b : Uuid) → k.uuid_hex a ≡ k.uuid_hex b → a ≡ b
  pub hex_clean : (a : Uuid) → NulFree (k.uuid_hex a)
  pub str_clean : (a : Uuid) → NulFree (k.uuid_str a)
  pub time_distinct : (a b : ℕ) → k.isoformat a ≡ k.isoformat b → a ≡ b
  pub time_clean : (a : ℕ) → NulFree (k.isoformat a)
  pub json_clean : (p : List (String × V)) → NulFree (k.canonical p)

abbrev part_at : ℕ → List Bytes → Bytes
part_at n [] = []
part_at ℕ.zero (p ∷ ps) = p
part_at (suc n) (p ∷ ps) = part_at n ps

genesis_clean : NulFree genesis_hmac
genesis_clean = omega arith

module _ {V : Type 0} (k : Codec V) where
  -- PostgreSQL's text columns hold no zero byte.
  pub record IsStorable (ev : AuditEvent V) : Type 0 where
    pub type_clean : NulFree ev.event_type
    pub operator_clean : NulFree (operator_text ev.operator_id)

  -- The two rows say the same in everything that the HMAC covers.
  pub record SaysSame (a b : AuditEvent V) : Type 0 where
    pub event_id : a.event_id ≡ b.event_id
    pub event_type : a.event_type ≡ b.event_type
    pub scan : scan_text k a.scan_id ≡ scan_text k b.scan_id
    pub operator : operator_text a.operator_id ≡ operator_text b.operator_id
    pub created_at : a.created_at ≡ b.created_at
    pub payload : k.canonical a.payload ≡ k.canonical b.payload
    pub event_hmac : a.event_hmac ≡ b.event_hmac

  abbrev pub AllSame : List (AuditEvent V) → List (AuditEvent V) → Type 0
  AllSame [] [] = Unit
  AllSame (a ∷ as') (b ∷ bs) = SaysSame a b × AllSame as' bs
  AllSame _ _ = ⊥

  abbrev pub final_hmac : Bytes → List (AuditEvent V) → Bytes
  final_hmac prev [] = prev
  final_hmac prev (ev ∷ rows) = final_hmac ev.event_hmac rows

  abbrev parts : Bytes → AuditEvent V → List Bytes
  parts prev ev =
      hmac_parts k prev ev.event_id ev.event_type ev.scan_id ev.operator_id ev.created_at
        (k.canonical ev.payload)

  -- the messages whose HMACs a log holds, where its first row follows on from `prev`
  abbrev pub messages : Bytes → List (AuditEvent V) → List Bytes
  messages prev [] = []
  messages prev (ev ∷ rows) = join_nul (parts prev ev) ∷ messages ev.event_hmac rows

  -- No message of the one list has the HMAC of a different message of the other.
  abbrev pub HasNoCollision : Bytes → List Bytes → List Bytes → Type 0
  HasNoCollision key ms ns =
      (m n : Bytes) → In m ms → In n ns → k.hmac_hex key m ≡ k.hmac_hex key n → m ≡ n

  module _ (sound : IsSound k) (key : Bytes) where
    parts_clean :
        (prev : Bytes) (ev : AuditEvent V)
        → NulFree prev
        → IsStorable ev
        → All NulFree (parts prev ev)
    unfolding hmac_parts
    parts_clean prev ev p w = (
      p,
      (
        sound.hex_clean ev.event_id,
        (
          w.type_clean,
          (
            scan_clean ev.scan_id,
            (w.operator_clean, (sound.time_clean ev.created_at, (sound.json_clean ev.payload, tt))),
          ),
        ),
      ),
    )
      where
        scan_clean : (u : Option Uuid) → NulFree (scan_text k u)
        scan_clean none = tt
        scan_clean (some u) = sound.str_clean u

    -- Rows whose HMACs agree follow on from one link and say the same.
    same_row :
        (p q : Bytes) (a b : AuditEvent V)
        → NulFree p
        → NulFree q
        → IsStorable a
        → IsStorable b
        → expected_hmac k key p a ≡ a.event_hmac
        → expected_hmac k key q b ≡ b.event_hmac
        → (k.hmac_hex key (join_nul (parts p a)) ≡ k.hmac_hex key (join_nul (parts q b))
            → join_nul (parts p a) ≡ join_nul (parts q b))
        → a.event_hmac ≡ b.event_hmac
        → (p ≡ q) × SaysSame a b
    unfolding expected_hmac hmac_parts
    same_row p q a b hp hq wa wb ea eb single e =
        let msg = single (ea ∙ e ∙ sym eb) in
        let eq =
          join_nul-injective (parts p a) (parts q b) tt (parts_clean p a hp wa)
            (parts_clean q b hq wb) msg in
        (
          ap (part_at 0) eq,
          record {
            event_id = sound.hex_distinct a.event_id b.event_id (ap (part_at 1) eq);
            event_type = ap (part_at 2) eq;
            scan = ap (part_at 3) eq;
            operator = ap (part_at 4) eq;
            created_at = sound.time_distinct a.created_at b.created_at (ap (part_at 5) eq);
            payload = ap (part_at 6) eq;
            event_hmac = e;
          },
        )

    -- two chains that end in one HMAC
    chained_same :
        (p q : Bytes) (i j : Option Uuid) (as' bs : List (AuditEvent V))
        → NulFree p
        → NulFree q
        → All IsStorable as'
        → All IsStorable bs
        → length as' ≡ length bs
        → IsChained k key p i as'
        → IsChained k key q j bs
        → HasNoCollision key (messages p as') (messages q bs)
        → final_hmac p as' ≡ final_hmac q bs
        → (p ≡ q) × AllSame as' bs
    unfolding expected_hmac
    chained_same p q i j [] [] hp hq wa wb l ca cb single e = (e, tt)
    chained_same p q i j [] (b ∷ bs) hp hq wa wb l ca cb single e = absurd (omega arith)
    chained_same p q i j (a ∷ as') [] hp hq wa wb l ca cb single e = absurd (omega arith)
    chained_same p q i j (a ∷ as') (b ∷ bs) hp hq wa wb l ca cb single e =
        let clean_a : NulFree a.event_hmac = subst NulFree ca.0 (sound.hmac_clean key _) in
        let clean_b : NulFree b.event_hmac = subst NulFree cb.0 (sound.hmac_clean key _) in
        let (same, rest) =
          chained_same a.event_hmac b.event_hmac (some a.event_id) (some b.event_id) as' bs clean_a
            clean_b wa.1 wb.1 (omega arith) ca.2 cb.2 (λ m n x y. single m n (inr x) (inr y)) e in
        let (link, row) =
          same_row p q a b hp hq wa.0 wb.0 ca.0 cb.0 (single _ _ (inl refl) (inl refl)) same in
        (link, (row, rest))

    -- Two intact logs of one length whose last rows have the same HMAC say the same in every row, in
    -- all that the HMAC covers, which `seq` and `prev_event_id` are not part of. No message of the one
    -- log collides with a different one of the other; distinct ids and times have distinct texts; and no
    -- text that is hashed or stored has a zero byte.
    pub intact_logs_agree :
        (as' bs : List (AuditEvent V))
        → All IsStorable as'
        → All IsStorable bs
        → length as' ≡ length bs
        → IsIntact k key as'
        → IsIntact k key bs
        → HasNoCollision key (messages genesis_hmac as') (messages genesis_hmac bs)
        → final_hmac genesis_hmac as' ≡ final_hmac genesis_hmac bs
        → AllSame as' bs
    intact_logs_agree as' bs wa wb l ia ib single e =
        (chained_same genesis_hmac genesis_hmac none none as' bs genesis_clean genesis_clean wa wb l
          ((IsIntact-iff k key as').0 ia) ((IsIntact-iff k key bs).0 ib) single e).1
