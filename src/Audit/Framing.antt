-- ===== src/Audit/Framing.antt =====
-- `b"\x00".join(parts)` of app/audit/sink.py, over lists of bytes.
use loyiha.Base.{ℕ, ◌≡◌, ◌≢◌, refl, sym, List, [], ◌∷◌, ◌++◌, All}

abbrev pub Bytes : Type 0
Bytes = List ℕ

unfoldable pub join_nul : List Bytes → Bytes
join_nul [] = []
join_nul (p ∷ []) = p
join_nul (p ∷ q ∷ ps) = p ++ (0 ∷ join_nul (q ∷ ps))

abbrev pub NulFree : Bytes → Type 0
NulFree = All (λ b. b ≢ 0)

cons_eq : {x y : ℕ} {xs ys : Bytes} → x ∷ xs ≡ y ∷ ys → (x ≡ y) × (xs ≡ ys)
cons_eq h = (cc, cc)

-- a part without a zero byte ends at the first zero byte
split_nul :
    (p q r s : Bytes) → NulFree p → NulFree q → p ++ (0 ∷ r) ≡ q ++ (0 ∷ s) → (p ≡ q) × (r ≡ s)
split_nul [] [] r s hp hq e = (refl, (cons_eq e).1)
split_nul [] (y ∷ q) r s hp hq e = absurd (hq.0 (sym (cons_eq e).0))
split_nul (x ∷ p) [] r s hp hq e = absurd (hp.0 (cons_eq e).0)
split_nul (x ∷ p) (y ∷ q) r s hp hq e =
    let (h, t) = cons_eq e in let (a, b) = split_nul p q r s hp.1 hq.1 t in (cc (h, a), b)

-- as many parts on both sides
abbrev pub SameLength : List Bytes → List Bytes → Type 0
SameLength [] [] = Unit
SameLength (p ∷ ps) (q ∷ qs) = SameLength ps qs
SameLength _ _ = ⊥

-- Two messages of equally many parts with no zero byte are the same only if their parts are: a
-- byte cannot be moved from one part into its neighbour.
pub join_nul-injective :
    (ps qs : List Bytes)
    → SameLength ps qs
    → All NulFree ps
    → All NulFree qs
    → join_nul ps ≡ join_nul qs
    → ps ≡ qs
unfolding join_nul
join_nul-injective [] [] l hp hq e = refl
join_nul-injective [] (q ∷ qs) l hp hq e = absurd l
join_nul-injective (p ∷ ps) [] l hp hq e = absurd l
join_nul-injective (p ∷ []) (q ∷ []) l hp hq e = cc
join_nul-injective (p ∷ []) (q ∷ q' ∷ qs) l hp hq e = absurd l
join_nul-injective (p ∷ p' ∷ ps) (q ∷ []) l hp hq e = absurd l
join_nul-injective (p ∷ p' ∷ ps) (q ∷ q' ∷ qs) l hp hq e =
    let (a, b) = split_nul p q (join_nul (p' ∷ ps)) (join_nul (q' ∷ qs)) hp.0 hq.0 e in
    let rest = join_nul-injective (p' ∷ ps) (q' ∷ qs) l hp.1 hq.1 b in cc (a, rest)
