-- ===== src/Base/Members.antt =====
-- Python's `in` and `set` over keys with decidable equality.
use text.Mathlib.Text.{◌==◌ as str_eq}
use text.Mathlib.TextEquality.{eq_iff}
use Prim.Native.Nat.{ℕ, ◌≤◌}
use Prim.Native.String.{String}
use mathlib.Core.Path.{◌≡◌, refl, sym}
use mathlib.Core.Logic.{◌↔◌, ◌⊎◌, inl, inr}
use mathlib.Core.Bool.{Bool, true, false, ◌||◌}
use mathlib.Core.List.{List, [], ◌∷◌}
use native.Mathlib.Omega.{arith}
use loyiha.Base.Tests.{if◌then◌else◌, ◌==◌, ==_iff, Bool-cases}
use loyiha.Base.Lists.{length, All}

pub record Eq {ℓ} (A : Type ℓ) : Type ℓ where
  pub beq : A → A → Bool
  pub beq_iff : (x y : A) → (beq x y ≡ true) ↔ (x ≡ y)

instance abbrev pub ℕ_eq : Eq ℕ
ℕ_eq = record { beq = ◌==◌; beq_iff = ==_iff }

instance abbrev pub String_eq : Eq String
String_eq = record { beq = str_eq; beq_iff = eq_iff }

abbrev pub In : {A : Type 0} → A → List A → Type 0
In a [] = ⊥
In a (x ∷ xs) = (a ≡ x) ⊎ In a xs

module _ {A : Type 0} where
  -- No item occurs twice.
  abbrev pub IsDistinct : List A → Type 0
  IsDistinct [] = Unit
  IsDistinct (x ∷ xs) = (¬ In x xs) × IsDistinct xs

  pub All-In {κ} : (P : A → Type κ) (xs : List A) → ((a : A) → In a xs → P a) → All P xs
  All-In P [] h = tt
  All-In P (x ∷ xs) h = (h x (inl refl), All-In P xs (λ a i. h a (inr i)))

  pub In-All {κ} : (P : A → Type κ) (xs : List A) → All P xs → (a : A) → In a xs → P a
  In-All P [] h a i = absurd i
  In-All P (x ∷ xs) h a (inl e) = rw e h.0
  In-All P (x ∷ xs) h a (inr i) = In-All P xs h.1 a i

  -- No item has been seen.
  abbrev pub IsFresh : List A → List A → Type 0
  IsFresh seen xs = All (λ x. ¬ In x seen) xs

  pub IsFresh-nil : (xs : List A) → IsFresh [] xs
  IsFresh-nil [] = tt
  IsFresh-nil (x ∷ xs) = (λ i. i, IsFresh-nil xs)

  -- A list is fresh for `x ∷ seen` when it is fresh for `seen` and misses `x`.
  pub IsFresh-cons :
      (x : A) (seen xs : List A) → IsFresh (x ∷ seen) xs ↔ (IsFresh seen xs × (¬ In x xs))
  IsFresh-cons x seen [] = (λ h. (tt, λ i. i), λ h. tt)
  IsFresh-cons x seen (y ∷ ys) =
      let (to, from) = IsFresh-cons x seen ys in
      (
        λ h. (
          (λ i. h.0 (inr i), (to h.1).0),
          elim [ inl e ↦ h.0 (inl (sym e)) | inr i ↦ (to h.1).1 i ],
        ),
        λ h. (elim [ inl e ↦ h.1 (inl (sym e)) | inr i ↦ h.0.0 i ], from (h.0.1, λ i. h.1 (inr i))),
      )

module _ {A : Type 0} ⦃e : Eq A⦄ where
  -- `x in xs`
  abbrev pub contains : List A → A → Bool
  contains [] x = false
  contains (y ∷ ys) x = e.beq x y || contains ys x

  -- The items of `set(xs)`, each once.
  abbrev pub dedup : List A → List A
  dedup [] = []
  dedup (x ∷ xs) = let rest = dedup xs in if contains rest x then rest else x ∷ rest

  pub contains_iff : (xs : List A) (x : A) → (contains xs x ≡ true) ↔ In x xs
  contains_iff xs x = (sound xs, complete xs)
    where
      sound : (ys : List A) → contains ys x ≡ true → In x ys
      sound [] h = cc
      sound (y ∷ ys) h = elim (Bool-cases (e.beq x y)) [
        | inl p ↦ inl ((e.beq_iff x y).0 p)
        | inr p ↦ inr (sound ys (rw p at h))
      ]

      complete : (ys : List A) → In x ys → contains ys x ≡ true
      complete [] i = absurd i
      complete (y ∷ ys) (inl p) = rw ((e.beq_iff x y).1 p)
      complete (y ∷ ys) (inr i) = elim (Bool-cases (e.beq x y)) [
        | inl p ↦ rw p
        | inr p ↦ rw p (complete ys i)
      ]

  pub contains-false : (xs : List A) (x : A) → contains xs x ≡ false → ¬ In x xs
  contains-false xs x h i = cc (h, (contains_iff xs x).1 i)

  pub false-contains : (xs : List A) (x : A) → ¬ In x xs → contains xs x ≡ false
  false-contains xs x n = elim (Bool-cases (contains xs x)) [
    | inl p ↦ absurd (n ((contains_iff xs x).0 p))
    | inr p ↦ p
  ]

  pub In-dedup : (xs : List A) (x : A) → In x (dedup xs) ↔ In x xs
  In-dedup xs x = (back xs, there xs)
    where
      back : (ys : List A) → In x (dedup ys) → In x ys
      back [] i = i
      back (y ∷ ys) i = elim (Bool-cases (contains (dedup ys) y)) [
        | inl p ↦ inr (back ys (rw p at i))
        | inr p ↦
            let j : (x ≡ y) ⊎ In x (dedup ys) = rw p at i in
            elim j [ inl q ↦ inl q | inr k ↦ inr (back ys k) ]
      ]

      there : (ys : List A) → In x ys → In x (dedup ys)
      there [] i = i
      there (y ∷ ys) i = elim (Bool-cases (contains (dedup ys) y)) [
        | inl p ↦
            rw p (elim i [ inl q ↦ rw q ((contains_iff (dedup ys) y).0 p) | inr j ↦ there ys j ])
        | inr p ↦ rw p (elim i [ inl q ↦ inl q | inr j ↦ inr (there ys j) ])
      ]

  length-dedup : (xs : List A) → length (dedup xs) ≤ length xs
  length-dedup [] = omega arith
  length-dedup (x ∷ xs) = ground (arith, length-dedup xs)

  -- `len(set(xs)) == len(xs)` tests that no item occurs twice.
  pub dedup_iff : (xs : List A) → (length (dedup xs) ≡ length xs) ↔ IsDistinct xs
  dedup_iff xs = (sound xs, complete xs)
    where
      sound : (ys : List A) → length (dedup ys) ≡ length ys → IsDistinct ys
      sound [] h = tt
      sound (y ∷ ys) h = elim (Bool-cases (contains (dedup ys) y)) [
        | inl p ↦ absurd (omega (arith, length-dedup ys, rw p at h))
        | inr p ↦ (
          λ i. contains-false (dedup ys) y p ((In-dedup ys y).1 i),
          sound ys (omega (arith, rw p at h)),
        )
      ]

      complete : (ys : List A) → IsDistinct ys → length (dedup ys) ≡ length ys
      complete [] d = refl
      complete (y ∷ ys) d =
          rw (false-contains (dedup ys) y (λ i. d.0 ((In-dedup ys y).0 i)))
            (omega (arith, complete ys d.1))
