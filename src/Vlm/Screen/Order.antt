-- ===== src/Vlm/Screen/Order.antt =====
-- The vote of vlm/screen.py does not depend on the order of the answers.

use mathlib.Core.List.{Permᴰ}
use loyiha.Base.{◌≡◌, refl, Bool, List, arith, length, count_if}
use loyiha.Vlm.Text.{Unicode}
use loyiha.Vlm.Screen.Texts.{Answer}
use loyiha.Vlm.Screen.{FlagField, is_yoq, is_bor, flag_in, vote_flag}

module _ {A : Type 0} where
  count_if-Perm : (p : A → Bool) {xs ys : List A} → Permᴰ xs ys → count_if p xs ≡ count_if p ys
  count_if-Perm p Permᴰ.nil = refl
  count_if-Perm p (Permᴰ.cons e d) = rw (e, count_if-Perm p d)
  count_if-Perm p (Permᴰ.swap e₁ e₂) = rw (e₁, e₂) (omega arith)
  count_if-Perm p (Permᴰ.trans d₁ d₂) = cc (count_if-Perm p d₁, count_if-Perm p d₂)

  length-Perm : {xs ys : List A} → Permᴰ xs ys → length xs ≡ length ys
  length-Perm Permᴰ.nil = refl
  length-Perm (Permᴰ.cons e d) = omega (arith, length-Perm d)
  length-Perm (Permᴰ.swap e₁ e₂) = refl
  length-Perm (Permᴰ.trans d₁ d₂) = cc (length-Perm d₁, length-Perm d₂)

-- The answers of the model in another order give every flag the same vote.
pub vote_flag-Perm :
    (u : Unicode) {answers answers' : List Answer} (field : FlagField)
    → Permᴰ answers answers'
    → vote_flag u answers field ≡ vote_flag u answers' field
unfolding vote_flag
vote_flag-Perm u {answers} {answers'} field p = rw (
  length-Perm p,
  count_if-Perm (λ a. is_bor (flag_in u field a)) p,
  count_if-Perm (λ a. is_yoq (flag_in u field a)) p,
)
