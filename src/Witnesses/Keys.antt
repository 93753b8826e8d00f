-- ===== src/Witnesses/Keys.antt =====
-- A key of sixteen bytes.
use loyiha.Base.{ℕ, ◌≡◌, ◌<◌, All, List, [], ◌∷◌, ok, arith}
use loyiha.Keys.{min_secret_chars, normalise_key_bytes}
use loyiha.Keys.Hex.{to_hex, normalise_key_bytes-to_hex}

abbrev sixteen : List ℕ
sixteen = 171 ∷ 0 ∷ 255 ∷ 16 ∷ 7 ∷ 200 ∷ 33 ∷ 90 ∷ 1 ∷ 2 ∷ 3 ∷ 128 ∷ 64 ∷ 99 ∷ 250 ∷ 15 ∷ []

are_bytes : All (λ b. b < 256) sixteen
are_bytes = (
  omega arith,
  (
    omega arith,
    (
      omega arith,
      (
        omega arith,
        (
          omega arith,
          (
            omega arith,
            (
              omega arith,
              (
                omega arith,
                (
                  omega arith,
                  (
                    omega arith,
                    (
                      omega arith,
                      (omega arith, (omega arith, (omega arith, (omega arith, (omega arith, tt))))),
                    ),
                  ),
                ),
              ),
            ),
          ),
        ),
      ),
    ),
  ),
)

normalise_key_bytes-to_hex_example :
    normalise_key_bytes (λ t. []) (to_hex sixteen) min_secret_chars ≡ ok sixteen
normalise_key_bytes-to_hex_example =
    normalise_key_bytes-to_hex (λ t. []) sixteen min_secret_chars are_bytes (omega arith)
      (omega arith)
