-- ===== src/Keys/Hex.antt =====
-- app/security_keys.py: a secret in the form that the runbooks ask for is decoded.
use Prim.Native.Nat.{◌/◌, ◌%◌}
use loyiha.Base.{
  ℕ, ◌+◌, ◌*◌, ◌≤◌, ◌<◌, ◌≡◌, refl, ap, true, false, ◌&&◌, ◌==◌, leb, ltb, some, List, [], ◌∷◌,
  length, All, is_empty, if◌then◌else◌, ok, arith,
}
use loyiha.Contracts.Common.{Text}
use loyiha.Datalayer.Quality.{is_space}
use loyiha.Vlm.Text.{strip, strip_left, strip_right}
use loyiha.Keys.{hex_value, is_ascii_space, from_hex, normalise_key_bytes}

unfoldable pub hex_digit : ℕ → ℕ
hex_digit n = if ltb n 10 then 48 + n else 87 + n

-- What `secrets.token_hex` prints for the bytes.
unfoldable pub to_hex : List ℕ → Text
to_hex [] = []
to_hex (b ∷ bs) = hex_digit (b / 16) ∷ hex_digit (b % 16) ∷ to_hex bs

hex_value-hex_digit : (n : ℕ) → n < 16 → hex_value (hex_digit n) ≡ some n
unfolding hex_digit
hex_value-hex_digit n lt = ground arith

digit_solid : (n : ℕ) → n < 16 → is_space (hex_digit n) ≡ false
unfolding hex_digit is_space
digit_solid n lt = ground arith

digit_ascii : (n : ℕ) → n < 16 → is_ascii_space (hex_digit n) ≡ false
unfolding hex_digit
digit_ascii n lt = ground arith

halves : (b : ℕ) → b < 256 → (b / 16 < 16) × (b % 16 < 16) × (16 * (b / 16) + b % 16 ≡ b)
halves b lt = (omega (arith, lt), omega arith, omega arith)

from_hex-to_hex : (bs : List ℕ) → All (λ b. b < 256) bs → from_hex (to_hex bs) ≡ some bs
unfolding from_hex to_hex
from_hex-to_hex [] h = refl
from_hex-to_hex (b ∷ bs) (lt, hs) =
    let (hi, lo, whole) = halves b lt in
    rw
      (
        digit_ascii (b / 16) hi,
        hex_value-hex_digit (b / 16) hi,
        hex_value-hex_digit (b % 16) lo,
        from_hex-to_hex bs hs,
      )
      (ap (λ n. some (n ∷ bs)) whole)

strip_left-to_hex : (bs : List ℕ) → All (λ b. b < 256) bs → strip_left (to_hex bs) ≡ to_hex bs
unfolding to_hex
strip_left-to_hex [] h = refl
strip_left-to_hex (b ∷ bs) (lt, hs) = rw (digit_solid (b / 16) (halves b lt).0) refl

strip_right-to_hex : (bs : List ℕ) → All (λ b. b < 256) bs → strip_right (to_hex bs) ≡ to_hex bs
unfolding to_hex
strip_right-to_hex [] h = refl
strip_right-to_hex (b ∷ bs) (lt, hs) =
    let (hi, lo, whole) = halves b lt in
    rw (strip_right-to_hex bs hs)
      (kept _ _ (to_hex bs) (digit_solid (b / 16) hi) (digit_solid (b % 16) lo))
  where
    kept :
        (c d : ℕ) (t : Text)
        → is_space c ≡ false
        → is_space d ≡ false
        → (let rest = (if is_empty t && is_space d then [] else d ∷ t) in
            if is_empty rest && is_space c then [] else c ∷ rest)
          ≡ c ∷ d ∷ t
    kept c d [] p q = rw (p, q) refl
    kept c d (x ∷ t) p q = refl

strip-to_hex : (bs : List ℕ) → All (λ b. b < 256) bs → strip (to_hex bs) ≡ to_hex bs
unfolding strip
strip-to_hex bs h = rw (strip_left-to_hex bs h, strip_right-to_hex bs h) refl

length-to_hex : (bs : List ℕ) → length (to_hex bs) ≡ 2 * length bs
unfolding to_hex
length-to_hex [] = refl
length-to_hex (b ∷ bs) = omega (arith, length-to_hex bs)

-- A secret that is the hexadecimal text of sixteen bytes or more, and that has the least length
-- asked for, becomes these bytes again: it is neither refused nor hashed.
pub normalise_key_bytes-to_hex :
    (sha256 : Text → List ℕ) (bs : List ℕ) (min_chars : ℕ)
    → All (λ b. b < 256) bs
    → 16 ≤ length bs
    → min_chars ≤ 2 * length bs
    → normalise_key_bytes sha256 (to_hex bs) min_chars ≡ ok bs
unfolding normalise_key_bytes
normalise_key_bytes-to_hex sha256 bs min_chars h long enough =
    let short : ltb (length (to_hex bs)) min_chars ≡ false =
      ground (arith, enough, length-to_hex bs) in
    let even : (length (to_hex bs) % 2 == 0) ≡ true = ground (arith, length-to_hex bs) in
    let most : leb 16 (length bs) ≡ true = ground (arith, long) in
    rw (strip-to_hex bs h, short, even, from_hex-to_hex bs h, most) refl
