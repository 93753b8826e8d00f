-- ===== src/Vlm/Guard.antt =====
-- vlm/guard.py: the checks of a text of the model. `detail`, the text of a violation, is left out.
mod Words
pub mod Phrases
pub mod Clean
use loyiha.Base.{
  ℕ, Bool, true, false, not, ◌&&◌, ◌||◌, leb, ltb, Option, none, some, List, [], ◌∷◌, ◌++◌,
  if◌then◌else◌, length, is_empty, any, count_if, map,
}
use loyiha.Contracts.Common.{Text}
use loyiha.Datalayer.Quality.{is_space}
use loyiha.Vlm.Text.{Unicode, text_eq, strip, runs}
use loyiha.Vlm.Pattern.{search}
use loyiha.Vlm.Guard.Words.{russian_stopwords, english_stopwords}
use loyiha.Vlm.Guard.Phrases.{forbidden_phrases}

pub data ViolationKind : Type 0 where
  cyrillic_detected mixed_script russian_detected english_drift : ViolationKind
  forbidden_clearance too_short too_long empty : ViolationKind

pub record GuardViolation : Type 0 where
  pub kind : ViolationKind
  pub retryable : Bool

pub record GuardResult : Type 0 where
  pub passed : Bool
  pub text : Text
  pub violations : List GuardViolation

unfoldable pub should_retry : GuardResult → Bool
should_retry r = any (λ v. v.retryable) r.violations

unfoldable pub first_violation : GuardResult → Option GuardViolation
first_violation r = first r.violations
  where
    first : List GuardViolation → Option GuardViolation
    first [] = none
    first (v ∷ vs) = some v

abbrev pub is_cyrillic : ℕ → Bool
is_cyrillic c = leb 1024 c && leb c 1327

abbrev pub is_latin : ℕ → Bool
is_latin c = (leb 65 c && leb c 90) || (leb 97 c && leb c 122) || (leb 192 c && leb c 591)

unfoldable pub has_cyrillic : Text → Bool
has_cyrillic t = any is_cyrillic t

unfoldable pub has_latin : Text → Bool
has_latin t = any is_latin t

-- whether `_mixed_script_tokens` returns a token
unfoldable pub has_mixed_script : Text → Bool
has_mixed_script t =
    any (λ token. has_latin token && has_cyrillic token) (runs (λ c. not (is_space c)) t)

abbrev pub min_slot_chars : ℕ
min_slot_chars = 10

abbrev pub max_slot_chars : ℕ
max_slot_chars = 600

abbrev violation : ViolationKind → Bool → GuardViolation
violation k again = record { kind = k; retryable = again }

-- the violations whose test is true, in order
abbrev pub report : List (Bool × GuardViolation) → List GuardViolation
report [] = []
report ((found, v) ∷ tests) = let later = report tests in if found then v ∷ later else later

module _ (u : Unicode) where
  -- `\b(w1|w2|...)\b`, ignoring case, on one word of the text
  unfoldable pub is_stopword : List Text → Text → Bool
  is_stopword stopwords word = any (text_eq (map u.fold word)) stopwords

  unfoldable pub russian_found : Text → Bool
  russian_found t = any (is_stopword russian_stopwords) (runs u.is_word t)

  -- `len(_ENGLISH_RE.findall(t))`
  unfoldable pub english_matches : Text → ℕ
  english_matches t = count_if (is_stopword english_stopwords) (runs u.is_word t)

  unfoldable pub forbidden_found : Text → Bool
  forbidden_found t = search u.is_word (forbidden_phrases u) t

  -- the tests of a text that is not blank
  unfoldable pub tests_of : Text → List (Bool × GuardViolation)
  tests_of t =
      (ltb (length t) min_slot_chars, violation too_short true)
      ∷ (ltb max_slot_chars (length t), violation too_long false)
      ∷ (has_cyrillic t, violation cyrillic_detected true)
      ∷ (has_mixed_script t, violation mixed_script false)
      ∷ (russian_found t, violation russian_detected true)
      ∷ (leb 3 (english_matches t), violation english_drift true)
      ∷ (forbidden_found t, violation forbidden_clearance false)
      ∷ []

  unfoldable pub check : Text → GuardResult
  check text =
      let stripped = strip (u.nfkc text) in
      let violations =
        if is_empty stripped then violation empty true ∷ [] else report (tests_of stripped) in
      record { passed = is_empty violations; text = text; violations = violations }
