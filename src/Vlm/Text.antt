-- ===== src/Vlm/Text.antt =====
-- Python's text operations that vlm uses, on the list of a text's code points. Tables of Unicode
-- are a parameter: NFKC, upper and lower case, word characters, and the folding of a regular
-- expression that ignores case.
use loyiha.Base.{ℕ, Bool, true, false, ◌&&◌, ◌||◌, ◌==◌, List, [], ◌∷◌, if◌then◌else◌, is_empty}
use loyiha.Contracts.Common.{Text}
use loyiha.Datalayer.Quality.{is_space}

pub record Unicode : Type 0 where
  pub nfkc : Text → Text
  pub upper : Text → Text
  pub lower : Text → Text
  pub is_word : ℕ → Bool
  pub fold : ℕ → ℕ

abbrev pub text_eq : Text → Text → Bool
text_eq [] [] = true
text_eq (a ∷ as') (b ∷ bs) = a == b && text_eq as' bs
text_eq _ _ = false

abbrev pub strip_left : Text → Text
strip_left [] = []
strip_left (c ∷ cs) = let rest = strip_left cs in if is_space c then rest else c ∷ cs

abbrev pub strip_right : Text → Text
strip_right [] = []
strip_right (c ∷ cs) =
    let rest = strip_right cs in if is_empty rest && is_space c then [] else c ∷ rest

-- `s.strip()`
unfoldable pub strip : Text → Text
strip s = strip_right (strip_left s)

abbrev pub starts_with : Text → Text → Bool
starts_with [] s = true
starts_with (p ∷ ps) [] = false
starts_with (p ∷ ps) (c ∷ cs) = p == c && starts_with ps cs

-- `s[len(prefix):]`
abbrev pub drop_prefix : Text → Text → Text
drop_prefix [] s = s
drop_prefix (p ∷ ps) [] = []
drop_prefix (p ∷ ps) (c ∷ cs) = drop_prefix ps cs

abbrev is_line_end : ℕ → Bool
is_line_end c =
    c == 10
    || c == 11
    || c == 12
    || c == 13
    || c == 28
    || c == 29
    || c == 30
    || c == 133
    || c == 8232
    || c == 8233

abbrev pub attach : ℕ → List Text → List Text
attach c [] = (c ∷ []) ∷ []
attach c (line ∷ rest) = (c ∷ line) ∷ rest

-- `s.splitlines()`: `\r\n` is one end, and no empty line follows the last one.
unfoldable pub lines : Text → List Text
lines [] = []
lines (c ∷ cs) =
    let rest = lines cs in
    if c == 13 && starts_with (10 ∷ []) cs
    then rest
    else if is_line_end c
    then [] ∷ rest
    else attach c rest

abbrev pub begins : (ℕ → Bool) → Text → Bool
begins p [] = false
begins p (c ∷ cs) = p c

-- The maximal runs of characters that pass a test, in order.
unfoldable pub runs : (ℕ → Bool) → Text → List Text
runs p [] = []
runs p (c ∷ cs) =
    let rest = runs p cs in
    if p c then (if begins p cs then attach c rest else (c ∷ []) ∷ rest) else rest
