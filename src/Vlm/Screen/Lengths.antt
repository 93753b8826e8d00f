-- ===== src/Vlm/Screen/Lengths.antt =====
-- vlm/screen.py tolerates a text whose first violation is its length, and looks no further.
use loyiha.Base.{
  ◌<◌, ◌≡◌, refl, ◌⊎◌, inl, inr, true, false, ltb, none, some, List, [], ◌∷◌, arith, length,
  is_empty, Bool-cases,
}
use loyiha.Contracts.Common.{Text}
use loyiha.Vlm.Text.{Unicode, strip}
use loyiha.Vlm.Guard.{check, report, tests_of, GuardViolation, first_violation}
use loyiha.Vlm.Screen.Texts.{serious, judged, kind_of}

-- The first violation of a text is one of length when its length is out of bounds.
first-length :
    (u : Unicode) (t : Text)
    → (length t < 10) ⊎ (600 < length t)
    → (v : GuardViolation) × (rest : List GuardViolation) × (report (tests_of u t) ≡ v ∷ rest)
      × (kind_of (some v) ≡ none)
unfolding tests_of
first-length u t h = elim (Bool-cases (ltb (length t) 10)) [
  | inl short ↦ rw short (_, _, refl, refl)
  | inr long ↦
      let e : ltb 600 (length t) ≡ true = ground (arith, h, long) in rw (long, e) (_, _, refl, refl)
]

-- A text of 1 to 9 characters, or of more than 600, is never rejected, whatever it says: with a
-- phrase that clears the cargo, or in Cyrillic.
pub serious-length :
    (u : Unicode) (text : Text)
    → ((0 < length (strip (u.nfkc text))) × (length (strip (u.nfkc text)) < 10))
      ⊎ (600 < length (strip (u.nfkc text)))
    → serious u text ≡ none
unfolding serious judged check first_violation
serious-length u text h =
    let t = strip (u.nfkc text) in
    let (v, rest, reported, tolerated) = first-length u t (ground (arith, h)) in
    rw (filled t (ground (arith, h)), reported) tolerated
  where
    filled : (t : Text) → 0 < length t → is_empty t ≡ false
    filled [] h = absurd (omega arith)
    filled (c ∷ cs) h = refl
