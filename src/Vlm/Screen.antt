-- ===== src/Vlm/Screen.antt =====
-- vlm/screen.py: several readings of one X-ray image by the model, merged by a vote. A call of the
-- model is a parameter: its text, or nothing when it raises. The time it takes is left out.
pub mod Texts
pub mod Vote
pub mod Order
pub mod Lengths
use Prim.Native.Nat.{◌/◌}
use loyiha.Base.{
  ℕ, zero, suc, ◌+◌, ◌*◌, Bool, true, false, not, ◌&&◌, ◌||◌, leb, Option, none, some, List, [],
  ◌∷◌, ◌++◌, String, if◌then◌else◌, length, is_empty, any, count_if, map,
}
use loyiha.Contracts.Common.{Text, codes, RiskBand, clear, medium, high}
use loyiha.Vlm.Text.{Unicode, strip, starts_with}
use loyiha.Vlm.Guard.{ViolationKind, check}
use loyiha.Vlm.Screen.Texts.{
  Answer, get, get_or_empty, parse, vote_text, or_text, choose_summary, tripped, fallback_summary,
  fallback_wagon, fallback_cargo,
}

pub data Flag : Type 0 where
  yoq shubhali bor : Flag

-- the prompt's fields, for the keys narcotics, weapon, tobacco and other
pub data FlagField : Type 0 where
  qoradori qurol tamaki boshqa : FlagField

abbrev pub prompt_key : FlagField → Text
prompt_key qoradori = codes "QORADORI"
prompt_key qurol = codes "QUROL"
prompt_key tamaki = codes "TAMAKI"
prompt_key boshqa = codes "BOSHQA"

abbrev pub Flags : Type 0
Flags = FlagField → Flag

pub data ScreenError : Type 0 where
  guard_rejected : ViolationKind → ScreenError
  incomplete_format inference_failed : ScreenError

pub record ScreenResult : Type 0 where
  pub filename : String
  pub ok : Bool
  pub wagon_type : Text
  pub main_cargo : Text
  pub flags : Flags
  pub risk_band : RiskBand
  pub summary_uz : Text
  pub error : Option ScreenError

abbrev pub is_yoq : Flag → Bool
is_yoq yoq = true
is_yoq _ = false

abbrev pub is_shubhali : Flag → Bool
is_shubhali shubhali = true
is_shubhali _ = false

abbrev pub is_bor : Flag → Bool
is_bor bor = true
is_bor _ = false

abbrev pub any_flag : (Flag → Bool) → Flags → Bool
any_flag p f = p (f qoradori) || p (f qurol) || p (f tamaki) || p (f boshqa)

unfoldable pub risk_from_flags : Flags → RiskBand
risk_from_flags f =
    if any_flag is_bor f then high else if any_flag is_shubhali f then medium else clear

module _ (u : Unicode) where
  unfoldable pub normalize_flag : Text → Flag
  normalize_flag value =
      let v = u.upper (strip value) in
      if is_empty v
      then shubhali
      else if starts_with (codes "YO") v
      then yoq
      else if starts_with (codes "BOR") v || starts_with (codes "HA") v
      then bor
      else shubhali

  -- what one answer says of one field; a missing field escalates
  unfoldable pub flag_in : FlagField → Answer → Flag
  flag_in field answer = said (get (prompt_key field) answer)
    where
      said : Option Text → Flag
      said none = shubhali
      said (some value) = normalize_flag value

  unfoldable pub is_missing : FlagField → Answer → Bool
  is_missing field answer = absent (get (prompt_key field) answer)
    where
      absent : Option Text → Bool
      absent none = true
      absent (some value) = false

  unfoldable pub vote_flag : List Answer → FlagField → Flag
  vote_flag answers field =
      let need = length answers / 2 + 1 in
      if leb need (count_if (λ a. is_bor (flag_in field a)) answers)
      then bor
      else if leb need (count_if (λ a. is_yoq (flag_in field a)) answers)
      then yoq
      else shubhali

  unfoldable pub any_missing : List Answer → Bool
  any_missing answers =
      any
        (λ a.
          is_missing qoradori a || is_missing qurol a || is_missing tamaki a || is_missing boshqa a)
        answers

  abbrev escalate : Flag → Flag
  escalate yoq = shubhali
  escalate f = f

  -- the end of `_aggregate`, by what the guard found in the texts
  unfoldable pub conclude :
      Option ViolationKind → String → Bool → Flags → Text → Text → Text → ScreenResult
  conclude (some kind) name missing flags summary cargo wagon = record {
    filename = name;
    ok = false;
    wagon_type = fallback_wagon;
    main_cargo = fallback_cargo;
    flags = λ field. escalate (flags field);
    risk_band = risk_from_flags (λ field. escalate (flags field));
    summary_uz = fallback_summary;
    error = some (guard_rejected kind);
  }
  conclude none name missing flags summary cargo wagon = record {
    filename = name;
    ok = not missing;
    wagon_type = wagon;
    main_cargo = cargo;
    flags = flags;
    risk_band = risk_from_flags flags;
    summary_uz = summary;
    error = if missing then some incomplete_format else none;
  }

  -- `_aggregate`
  unfoldable pub aggregate : List Text → String → ScreenResult
  aggregate raws name =
      let answers = map (parse u) raws in
      let wagon =
        or_text (vote_text u (map (get_or_empty (codes "VAGON_TURI")) answers)) fallback_wagon in
      let cargo =
        or_text (vote_text u (map (get_or_empty (codes "ASOSIY_YUK")) answers)) fallback_cargo in
      let summary = choose_summary u (map (get_or_empty (codes "TAVSIF")) answers) raws in
      conclude (tripped u (summary ∷ cargo ∷ wagon ∷ [])) name (any_missing answers)
        (vote_flag answers) summary cargo wagon

  -- the texts of the passes that did not raise
  unfoldable pub infer_all : (ℕ → Option Text) → ℕ → List Text
  infer_all infer zero = []
  infer_all infer (suc i) = infer_all infer i ++ reply (infer i)
    where
      reply : Option Text → List Text
      reply none = []
      reply (some raw) = raw ∷ []

  unfoldable pub screen_raws : List Text → String → ScreenResult
  screen_raws [] name = record {
    filename = name;
    ok = false;
    wagon_type = fallback_wagon;
    main_cargo = fallback_cargo;
    flags = λ field. shubhali;
    risk_band = medium;
    summary_uz = fallback_summary;
    error = some inference_failed;
  }
  screen_raws (raw ∷ raws) name = aggregate (raw ∷ raws) name

  -- `screen_one`, of so many passes
  unfoldable pub screen_one : ℕ → (ℕ → Option Text) → String → ScreenResult
  screen_one passes infer name = screen_raws (infer_all infer passes) name

  -- `screen_many`
  unfoldable pub screen_many : ℕ → List ((ℕ → Option Text) × String) → List ScreenResult
  screen_many passes [] = []
  screen_many passes ((infer, name) ∷ items) =
      screen_one passes infer name ∷ screen_many passes items
