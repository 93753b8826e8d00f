-- ===== src/Vlm/Guard/Clean.antt =====
-- What a text is that LanguageGuard.check (vlm/guard.py) lets through.
use loyiha.Base.{
  ℕ, ◌≤◌, ◌<◌, ◌≡◌, refl, ◌↔◌, inl, inr, Bool, true, false, not, ◌&&◌, List, [], ◌∷◌, if◌then◌else◌,
  arith, All, any, is_empty, length, Bool-cases,
}
use loyiha.Contracts.Common.{Text}
use loyiha.Datalayer.Quality.{is_space}
use loyiha.Vlm.Text.{Unicode, strip, runs, begins, attach}
use loyiha.Vlm.Pattern.{Occurs, search}
use loyiha.Vlm.Pattern.Meaning.{search_iff}
use loyiha.Vlm.Guard.{
  check, report, tests_of, empty, GuardViolation, has_cyrillic, has_latin, has_mixed_script,
  is_cyrillic, russian_found, english_matches, forbidden_found, is_stopword,
}
use loyiha.Vlm.Guard.Words.{russian_stopwords}
use loyiha.Vlm.Guard.Phrases.{forbidden_phrases}

-- A text, normalized and stripped, that an operator may be shown.
pub record IsClean (u : Unicode) (t : Text) : Type 0 where
  pub long_enough : 10 ≤ length t
  pub short_enough : length t ≤ 600
  pub no_cyrillic : All (λ c. is_cyrillic c ≡ false) t
  pub no_russian : All (λ w. is_stopword u russian_stopwords w ≡ false) (runs u.is_word t)
  pub little_english : english_matches u t < 3
  pub no_clearance : ¬ Occurs u.is_word (forbidden_phrases u) t

module _ {A : Type 0} where
  pub any-false : (p : A → Bool) (xs : List A) → (any p xs ≡ false) ↔ All (λ x. p x ≡ false) xs
  any-false p [] = (λ h. tt, λ h. refl)
  any-false p (x ∷ xs) =
      let ih = any-false p xs in
      (
        λ h. elim (Bool-cases (p x)) [ inl e ↦ cc (rw e at h) | inr e ↦ (e, ih.0 (rw e at h)) ],
        λ h. rw h.0 (ih.1 h.1),
      )

and_false : (b : Bool) → b && false ≡ false
and_false true = refl
and_false false = refl

-- every part of a text is made of the text's characters
runs-All : (P : ℕ → Type 0) (p : ℕ → Bool) (t : Text) → All P t → All (All P) (runs p t)
unfolding runs
runs-All P p [] h = tt
runs-All P p (c ∷ cs) (pc, pcs) = elim (Bool-cases (p c)) [
  | inl e ↦ rw e (joined (begins p cs) (runs p cs) (runs-All P p cs pcs))
  | inr e ↦ rw e (runs-All P p cs pcs)
]
  where
    joined :
        (b : Bool) (rest : List Text)
        → All (All P) rest
        → All (All P) (if b then attach c rest else (c ∷ []) ∷ rest)
    joined true [] h = ((pc, tt), tt)
    joined true (line ∷ rest) h = ((pc, h.0), h.1)
    joined false rest h = ((pc, tt), h)

pub has_mixed_script-false :
    (t : Text) → All (λ c. is_cyrillic c ≡ false) t → has_mixed_script t ≡ false
unfolding has_mixed_script has_cyrillic
has_mixed_script-false t h = (any-false _ _).1 (each _ (runs-All _ (λ c. not (is_space c)) t h))
  where
    each :
        (tokens : List Text)
        → All (All (λ c. is_cyrillic c ≡ false)) tokens
        → All (λ token. has_latin token && any is_cyrillic token ≡ false) tokens
    each [] a = tt
    each (w ∷ ws) (a, as') =
        (rw ((any-false is_cyrillic w).1 a) (and_false (has_latin w)), each ws as')

quiet_iff :
    (tests : List (Bool × GuardViolation))
    → (is_empty (report tests) ≡ true) ↔ All (λ test. test.0 ≡ false) tests
quiet_iff [] = (λ h. tt, λ h. refl)
quiet_iff ((true, v) ∷ tests) = (λ h. cc, λ h. cc (h.0))
quiet_iff ((false, v) ∷ tests) = (λ h. (refl, (quiet_iff tests).0 h), λ h. (quiet_iff tests).1 h.1)

tests_of_iff : (u : Unicode) (t : Text) → All (λ test. test.0 ≡ false) (tests_of u t) ↔ IsClean u t
unfolding tests_of has_cyrillic russian_found forbidden_found
tests_of_iff u t = (
  λ h.
      let (short, (long, (cyrillic, (mixed, (russian, (english, (clearance, _))))))) = h in
      record {
        long_enough = ground arith;
        short_enough = ground arith;
        no_cyrillic = (any-false is_cyrillic t).0 cyrillic;
        no_russian = (any-false _ (runs u.is_word t)).0 russian;
        little_english = ground arith;
        no_clearance = λ o. cc (clearance, (search_iff u.is_word _ t).1 o);
      },
  λ w. (
    ground (arith, w.long_enough),
    (
      ground (arith, w.short_enough),
      (
        (any-false is_cyrillic t).1 w.no_cyrillic,
        (
          has_mixed_script-false t w.no_cyrillic,
          (
            (any-false _ (runs u.is_word t)).1 w.no_russian,
            (ground (arith, w.little_english), (unfound w.no_clearance, tt)),
          ),
        ),
      ),
    ),
  ),
)
  where
    unfound :
        ¬ Occurs u.is_word (forbidden_phrases u) t
        → search u.is_word (forbidden_phrases u) t ≡ false
    unfound n = elim (Bool-cases (search u.is_word (forbidden_phrases u) t)) [
      | inl e ↦ absurd (n ((search_iff u.is_word _ t).0 e))
      | inr e ↦ e
    ]

-- The guard passes a text exactly when the text, normalized and stripped, has 10 to 600
-- characters, no Cyrillic letter, no Russian stopword, fewer than three English ones, and no phrase
-- that clears the cargo from any place of it on.
pub check_iff :
    (u : Unicode) (text : Text) → ((check u text).passed ≡ true) ↔ IsClean u (strip (u.nfkc text))
unfolding check
check_iff u text = go (strip (u.nfkc text))
  where
    go :
        (t : Text)
        → (is_empty (
              if is_empty t
              then record { kind = empty; retryable = true } ∷ []
              else report (tests_of u t))
            ≡ true)
          ↔ IsClean u t
    go [] = (λ h. cc, λ w. absurd (omega (arith, w.long_enough)))
    go (c ∷ cs) = (
      λ h. (tests_of_iff u (c ∷ cs)).0 ((quiet_iff _).0 h),
      λ w. (quiet_iff _).1 ((tests_of_iff u (c ∷ cs)).1 w),
    )
