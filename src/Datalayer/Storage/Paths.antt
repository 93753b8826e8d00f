-- ===== src/Datalayer/Storage/Paths.antt =====
-- datalayer/storage.py: the paths of blobs, each of which names its hash.
use loyiha.Base.{
  ◌+◌, ◌≡◌, refl, ap, ◌∙◌, inl, inr, true, ◌==◌, ==_iff, List, [], ◌∷◌, ◌++◌, String, eq_iff,
  if◌then◌else◌, length, Bool-cases, and_iff, arith,
}
use loyiha.Contracts.Common.{append, codes}
use loyiha.Datalayer.Storage.{same_path, is_within}

pub same_path_refl : (p : List String) → same_path p p ≡ true
unfolding same_path
same_path_refl [] = refl
same_path_refl (p ∷ ps) = (and_iff _ _).1 ((eq_iff p p).1 refl, same_path_refl ps)

pub same_path_eq : (p q : List String) → same_path p q ≡ true → p ≡ q
unfolding same_path
same_path_eq [] [] h = refl
same_path_eq [] (q ∷ qs) h = cc
same_path_eq (p ∷ ps) [] h = cc
same_path_eq (p ∷ ps) (q ∷ qs) h =
    let (a, b) = (and_iff _ _).0 h in
    ap (λ x. x ∷ ps) ((eq_iff p q).0 a) ∙ ap (λ l. q ∷ l) (same_path_eq ps qs b)

pub within_append : (root rest : List String) → is_within root (root ++ rest) ≡ true
unfolding is_within
within_append [] rest = refl
within_append (r ∷ rs) rest = (and_iff _ _).1 ((eq_iff r r).1 refl, within_append rs rest)

-- the name of a blob without its suffix
pub stem : String → String
stem String.[] = String.[]
stem (String.◌∷◌ c s) =
    let rest = stem s in if length (codes s) == 4 then String.[] else String.◌∷◌ c rest

length-append_suffix : (s : String) → length (codes (append s ".blob")) ≡ length (codes s) + 5
length-append_suffix String.[] = refl
length-append_suffix (String.◌∷◌ c s) = omega (arith, length-append_suffix s)

pub stem-append : (s : String) → stem (append s ".blob") ≡ s
unfolding stem
stem-append String.[] = refl
stem-append (String.◌∷◌ c s) = elim (Bool-cases (length (codes (append s ".blob")) == 4)) [
  | inl e ↦ absurd (omega (arith, (==_iff _ _).0 e, length-append_suffix s))
  | inr e ↦ rw e (ap (λ t. String.◌∷◌ c t) (stem-append s))
]
