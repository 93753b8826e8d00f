-- ===== src/Vlm/Generator/Rationale.antt =====
-- vlm/generator.py: the note under every rationale, and the contract's bound on its length.
use loyiha.Base.{
  ℕ, zero, suc, ◌+◌, ◌-◌, ◌≤◌, ◌<◌, inl, inr, ◌≡◌, refl, Bool, true, false, ltb, [], ◌∷◌, ◌++◌,
  arith, length, length-append, take, if◌then◌else◌, Bool-cases,
}
use loyiha.Contracts.Common.{Text}
use loyiha.Vlm.Text.{strip_right}
use loyiha.Vlm.Generator.{append_text_disclaimer, note_of}

length-take : (n : ℕ) (t : Text) → length (take n t) ≤ n
length-take zero t = omega arith
length-take (suc n) [] = omega arith
length-take (suc n) (c ∷ cs) = omega (arith, length-take n cs)

length-strip_right : (t : Text) → length (strip_right t) ≤ length t
length-strip_right [] = omega arith
length-strip_right (c ∷ cs) = ground (arith, length-strip_right cs)

length-note_of : (b : Bool) → length (note_of b) ≤ 200
length-note_of true = omega arith
length-note_of false = omega arith

trimmed-fits :
    (budget : ℕ) (t : Text)
    → 0 < budget
    → length (if ltb budget (length t) then strip_right (take (budget - 1) t) ++ (8230 ∷ []) else t)
      ≤ budget
trimmed-fits budget t pos = elim (Bool-cases (ltb budget (length t))) [
  | inl long ↦
      let kept = strip_right (take (budget - 1) t) in
      rw (long, length-append kept (8230 ∷ []))
        (omega (arith, length-strip_right (take (budget - 1) t), length-take (budget - 1) t))
  | inr short ↦ rw short (ground (arith, short))
]

-- A rationale with its note fits the 2000 characters of the contract and ends with the whole note;
-- the rationale itself is kept whole when there is room for it.
pub append_text_disclaimer-fits :
    (rationale : Text) (is_fallback : Bool)
    → (length (append_text_disclaimer rationale is_fallback) ≤ 2000)
      × ((body : Text) × (append_text_disclaimer rationale is_fallback
            ≡ body ++ note_of is_fallback))
      × (length rationale + length (note_of is_fallback) ≤ 2000
          → append_text_disclaimer rationale is_fallback ≡ rationale ++ note_of is_fallback)
unfolding append_text_disclaimer
append_text_disclaimer-fits rationale b = (
  rw (length-append body (note_of b)) (omega (arith, fits, length-note_of b)),
  (body, refl),
  λ room. rw (whole room),
)
  where
    budget : ℕ
    budget = 2000 - length (note_of b)

    body : Text
    body =
        if ltb budget (length rationale)
        then strip_right (take (budget - 1) rationale) ++ (8230 ∷ [])
        else rationale

    fits : length body ≤ 2000 - length (note_of b)
    fits = trimmed-fits budget rationale (omega (arith, length-note_of b))

    whole : length rationale + length (note_of b) ≤ 2000 → ltb budget (length rationale) ≡ false
    whole room = ground arith
