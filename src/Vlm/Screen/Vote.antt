-- ===== src/Vlm/Screen/Vote.antt =====
-- What a vote of vlm/screen.py says when it clears an image.

use loyiha.Base.{
  suc, ◌*◌, ◌<◌, ◌≡◌, ◌≢◌, ap, sym, subst, refl, ◌↔◌, ◌⊎◌, inl, inr, All, Bool, true, Option, none,
  some, List, [], ◌∷◌, String, arith, length, count_if, map, Bool-cases,
}
use loyiha.Contracts.Common.{Text, clear}
use loyiha.Datalayer.Quality.{is_blank}
use loyiha.Vlm.Text.{Unicode}
use loyiha.Vlm.Guard.{ViolationKind}
use loyiha.Vlm.Screen.Texts.{Answer, parse, tripped, serious, first_of}
use loyiha.Vlm.Screen.{
  Flag, Flags, FlagField, ScreenResult, qoradori, qurol, tamaki, boshqa, yoq, shubhali, bor, is_yoq,
  risk_from_flags, flag_in, vote_flag, escalate, conclude, aggregate,
}

-- A risk is clear exactly when all flags are YO'Q.
pub risk_clear_iff :
    (f : Flags) → (risk_from_flags f ≡ clear) ↔ ((field : FlagField) → f field ≡ yoq)
unfolding risk_from_flags
risk_clear_iff f = (
  λ h. elim [
    | qoradori ↦ ground (arith, h)
    | qurol ↦ ground (arith, h)
    | tamaki ↦ ground (arith, h)
    | boshqa ↦ ground (arith, h)
  ],
  λ h. rw (h qoradori, h qurol, h tamaki, h boshqa),
)

-- A flag is voted YO'Q only by more than half of the answers.
vote_flag-yoq :
    (u : Unicode) (answers : List Answer) (field : FlagField)
    → vote_flag u answers field ≡ yoq
    → length answers < 2 * count_if (λ a. is_yoq (flag_in u field a)) answers
unfolding vote_flag
vote_flag-yoq u answers field h = ground (arith, h)

escalate-yoq : (u : Unicode) (f : Flag) → escalate u f ≢ yoq
escalate-yoq u yoq = λ e. cc
escalate-yoq u shubhali = λ e. cc
escalate-yoq u bor = λ e. cc

abbrev shown : ScreenResult → List Text
shown r = r.summary_uz ∷ r.main_cargo ∷ r.wagon_type ∷ []

-- Blank, or not rejected by what the guard finds first.
abbrev IsTolerated : Unicode → Text → Type 0
IsTolerated u t = (is_blank t ≡ true) ⊎ (serious u t ≡ none)

-- What the operator may rely on when an image is shown as clear.
pub record IsVotedClear (u : Unicode) (raws : List Text) (r : ScreenResult) : Type 0 where
  pub majority :
      (field : FlagField)
      → length raws < 2 * count_if (λ raw. is_yoq (flag_in u field (parse u raw))) raws
  pub tolerated : All (IsTolerated u) (shown r)

tripped-none : (u : Unicode) (ts : List Text) → tripped u ts ≡ none → All (IsTolerated u) ts
unfolding tripped
tripped-none u [] h = tt
tripped-none u (t ∷ ts) h = elim (Bool-cases (is_blank t)) [
  | inl e ↦ (inl e, tripped-none u ts (rw e at h))
  | inr e ↦
      let (now, later) = none_first (serious u t) (tripped u ts) (rw e at h) in
      (inr now, tripped-none u ts later)
]
  where
    none_first :
        (o rest : Option ViolationKind) → first_of o rest ≡ none → (o ≡ none) × (rest ≡ none)
    none_first none rest h = (refl, h)
    none_first (some k) rest h = cc

count_if-map :
    {A B : Type 0} (p : B → Bool) (f : A → B) (xs : List A)
    → count_if p (map f xs) ≡ count_if (λ x. p (f x)) xs
count_if-map p f [] = refl
count_if-map p f (x ∷ xs) = rw (count_if-map p f xs)

length-map : {A B : Type 0} (f : A → B) (xs : List A) → length (map f xs) ≡ length xs
length-map f [] = refl
length-map f (x ∷ xs) = ap suc (length-map f xs)

conclude-clear :
    (u : Unicode) (trip : Option ViolationKind) (name : String) (missing : Bool) (flags : Flags)
    (summary cargo wagon : Text)
    → (conclude u trip name missing flags summary cargo wagon).risk_band ≡ clear
    → (trip ≡ none)
      × ((field : FlagField) → flags field ≡ yoq)
      × (shown (conclude u trip name missing flags summary cargo wagon)
          ≡ summary ∷ cargo ∷ wagon ∷ [])
unfolding conclude
conclude-clear u (some kind) name missing flags summary cargo wagon h =
    absurd (escalate-yoq u (flags qurol) ((risk_clear_iff _).0 h qurol))
conclude-clear u none name missing flags summary cargo wagon h =
    (refl, (risk_clear_iff flags).0 h, refl)

-- An image is shown as clear only if, for each of the four flags, more than half of the answers of
-- the model say YO'Q, and each shown text is blank or has no violation that the check looks at.
pub aggregate-clear :
    (u : Unicode) (raws : List Text) (name : String)
    → (aggregate u raws name).risk_band ≡ clear
    → IsVotedClear u raws (aggregate u raws name)
unfolding aggregate
aggregate-clear u raws name h =
    let (quiet, voted, same) = conclude-clear u _ name _ _ _ _ _ h in
    record {
      majority = λ field.
          rw
            (
              ← length-map (parse u) raws,
              ← count_if-map (λ a. is_yoq (flag_in u field a)) (parse u) raws,
            )
            (vote_flag-yoq u (map (parse u) raws) field (voted field));
      tolerated = subst (All (IsTolerated u)) (sym same) (tripped-none u _ quiet);
    }
