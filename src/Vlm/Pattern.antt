-- ===== src/Vlm/Pattern.antt =====
-- The regular expressions of vlm/guard.py, and the search that `re` does with them. A pattern says
-- which texts it takes off the front of another; `word_end` takes nothing, where no word goes on.
pub mod Meaning
use loyiha.Base.{
  ℕ, suc, ◌≡◌, refl, ◌↔◌, ◌⊎◌, inl, inr, Bool, true, false, ◌&&◌, ◌||◌, List, [], ◌∷◌, ◌++◌,
  Bool-cases, not,
}
use loyiha.Contracts.Common.{Text}

pub data Pattern : Type 0 where
  nothing word_end : Pattern
  item : (ℕ → Bool) → Pattern
  many : (ℕ → Bool) → Pattern
  then either : Pattern → Pattern → Pattern

module _ (is_word : ℕ → Bool) where
  abbrev pub at_end : Text → Bool
  at_end [] = true
  at_end (c ∷ cs) = not (is_word c)

  abbrev many_then : (ℕ → Bool) → (Text → Bool) → Text → Bool
  many_then p k [] = k []
  many_then p k (c ∷ cs) = let rest = many_then p k cs in k (c ∷ cs) || (p c && rest)

  -- the pattern takes the front of the text, and the rest passes `k`
  unfoldable pub match_then : Pattern → (Text → Bool) → Text → Bool
  match_then nothing k s = k s
  match_then word_end k s = at_end s && k s
  match_then (item p) k [] = false
  match_then (item p) k (c ∷ cs) = p c && k cs
  match_then (many p) k s = many_then p k s
  match_then (then a b) k s = match_then a (match_then b k) s
  match_then (either a b) k s = match_then a k s || match_then b k s

  -- `pattern.search(s)`
  unfoldable pub search : Pattern → Text → Bool
  search r [] = match_then r (λ rest. true) []
  search r (c ∷ cs) = match_then r (λ rest. true) (c ∷ cs) || search r cs

  -- What a pattern takes: from the first text it takes the front and leaves the second.
  pub data Takes : Pattern → Text → Text → Type 0 where
    by_nothing : {s : Text} → Takes nothing s s
    by_end : {s : Text} → at_end s ≡ true → Takes word_end s s
    by_item : {p : ℕ → Bool} {c : ℕ} {cs : Text} → p c ≡ true → Takes (item p) (c ∷ cs) cs
    by_none : {p : ℕ → Bool} {s : Text} → Takes (many p) s s
    by_more :
        {p : ℕ → Bool} {c : ℕ} {cs t : Text}
        → p c ≡ true
        → Takes (many p) cs t
        → Takes (many p) (c ∷ cs) t
    by_then : {a b : Pattern} {s t u : Text} → Takes a s t → Takes b t u → Takes (then a b) s u
    by_left : {a b : Pattern} {s t : Text} → Takes a s t → Takes (either a b) s t
    by_right : {a b : Pattern} {s t : Text} → Takes b s t → Takes (either a b) s t

  -- A part of the text, from some place on, is taken.
  abbrev pub Occurs : Pattern → Text → Type 0
  Occurs r s = (before rest after : Text) × (before ++ rest ≡ s) × Takes r rest after
