-- ===== src/Vlm/Screen/Texts.antt =====
-- vlm/screen.py: reading the fields of an answer, and choosing the texts that are shown.
use loyiha.Base.{
  ℕ, Bool, true, false, not, ◌&&◌, ◌==◌, leb, Option, none, some, List, [], ◌∷◌, if◌then◌else◌,
  length, is_empty, any, count_if, find, keep, map,
}
use loyiha.Contracts.Common.{Text, codes}
use loyiha.Datalayer.Labels.{or_else}
use loyiha.Datalayer.Quality.{is_blank}
use loyiha.Vlm.Text.{Unicode, text_eq, strip, lines}
use loyiha.Vlm.Guard.{
  ViolationKind, GuardViolation, GuardResult, too_long, too_short, check, first_violation,
}

-- The fields of an answer, the last one written first.
abbrev pub Answer : Type 0
Answer = List (Text × Text)

unfoldable pub get : Text → Answer → Option Text
get key [] = none
get key ((k, v) ∷ rest) = let earlier = get key rest in if text_eq k key then some v else earlier

-- `d.get(key, "")`
unfoldable pub get_or_empty : Text → Answer → Text
get_or_empty key answer = or_else (get key answer) []

-- `_STRUCT_FIELDS`
abbrev pub struct_fields : List Text
struct_fields = map codes (
    "TAVSIF" ∷ "VAGON_TURI" ∷ "ASOSIY_YUK" ∷ "QORADORI" ∷ "QUROL" ∷ "TAMAKI" ∷ "BOSHQA" ∷ "XAVF"
    ∷ [])

abbrev pub fallback_summary : Text
fallback_summary =
    codes "Tizim ishonchli o'zbekcha tavsif bera olmadi. Bu rasmni operator qo'lda ko'rib chiqsin."

abbrev pub fallback_wagon : Text
fallback_wagon = codes "aniqlanmadi (qo'lda ko'rik kerak)"

abbrev pub fallback_cargo : Text
fallback_cargo = codes "aniqlanmadi (qo'lda ko'rik kerak)"

-- `line.partition(":")`, if there is one
unfoldable pub at_colon : Text → Option (Text × Text)
at_colon [] = none
at_colon (c ∷ cs) = let rest = at_colon cs in if c == b':' then some ([], cs) else further rest
  where
    further : Option (Text × Text) → Option (Text × Text)
    further none = none
    further (some (k, v)) = some (c ∷ k, v)

-- `a or b`, of texts
abbrev pub or_text : Text → Text → Text
or_text [] b = b
or_text (c ∷ cs) b = c ∷ cs

-- the texts, longest first; equally long ones keep their order
unfoldable pub longest_first : List Text → List Text
longest_first [] = []
longest_first (t ∷ ts) = put (longest_first ts)
  where
    put : List Text → List Text
    put [] = t ∷ []
    put (x ∷ xs) = let rest = put xs in if leb (length x) (length t) then t ∷ x ∷ xs else x ∷ rest

-- `max(values, key=len)`: the first of the longest
unfoldable pub longest : List Text → Text
longest [] = []
longest (t ∷ ts) = let best = longest ts in if leb (length best) (length t) then t else best

abbrev pub first_of : Option ViolationKind → Option ViolationKind → Option ViolationKind
first_of none o = o
first_of (some k) o = some k

abbrev pub kind_of : Option GuardViolation → Option ViolationKind
kind_of none = none
kind_of (some v) = elim v.kind [ too_long ↦ none | too_short ↦ none | k ↦ some k ]

unfoldable pub judged : GuardResult → Option ViolationKind
judged r = if r.passed then none else kind_of (first_violation r)

module _ (u : Unicode) where
  unfoldable pub read_line : Text → Answer → Answer
  read_line line out = put (at_colon line)
    where
      put : Option (Text × Text) → Answer
      put none = out
      put (some (k, v)) =
          let key = u.upper (strip k) in
          if any (text_eq key) struct_fields then (key, strip v) ∷ out else out

  unfoldable pub read_lines : List Text → Answer → Answer
  read_lines [] out = out
  read_lines (line ∷ rest) out = read_lines rest (read_line line out)

  unfoldable pub parse : Text → Answer
  parse text = read_lines (lines text) []

  -- how many of the texts are this one, in lower case
  unfoldable pub votes : List Text → Text → ℕ
  votes cleaned v = count_if (λ w. text_eq (u.lower w) (u.lower v)) cleaned

  abbrev most : List Text → List Text → ℕ
  most cleaned [] = 0
  most cleaned (v ∷ vs) =
      let rest = most cleaned vs in if leb rest (votes cleaned v) then votes cleaned v else rest

  -- `_vote_text`
  unfoldable pub vote_text : List Text → Text
  vote_text values =
      let cleaned = keep (λ v. not (is_empty v)) (map strip values) in
      longest (keep (λ v. votes cleaned v == most cleaned cleaned) cleaned)

  -- the violation that `_text_clean` and the final check look at, unless it is one of length
  unfoldable pub serious : Text → Option ViolationKind
  serious text = judged (check u text)

  unfoldable pub text_clean : Text → Bool
  text_clean text = not (is_blank text) && absent (serious text)
    where
      absent : Option ViolationKind → Bool
      absent none = true
      absent (some k) = false

  -- the first text that the guard rejects for what it says
  unfoldable pub tripped : List Text → Option ViolationKind
  tripped [] = none
  tripped (text ∷ texts) =
      let rest = tripped texts in if is_blank text then rest else first_of (serious text) rest

  unfoldable pub choose_summary : List Text → List Text → Text
  choose_summary descriptions raws =
      let clean = λ (ts : List Text). or_else (find text_clean ts) [] in
      or_text (clean (longest_first (keep (λ t. not (is_empty t)) (map strip descriptions))))
        (or_text (clean (map strip (longest_first raws))) fallback_summary)
