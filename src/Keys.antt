-- ===== src/Keys.antt =====
-- app/security_keys.py: a configured secret becomes key bytes. SHA-256 of the secret's UTF-8 text is
-- a parameter. `bytes.fromhex` skips ASCII white space before each pair of digits.
pub mod Hex
use Prim.Native.Nat.{◌%◌}
use loyiha.Base.{
  ℕ, zero, suc, ◌+◌, ◌-◌, ◌*◌, ◌≤◌, ◌<◌, ◌≡◌, refl, sym, ap, ◌∙◌, Bool, true, false, ◌&&◌, ◌||◌,
  ◌==◌, leb, ltb, Option, none, some, List, [], ◌∷◌, length, All, is_empty, if◌then◌else◌, Result,
  ok, raised, arith,
}
use loyiha.Contracts.Common.{Text}
use loyiha.Datalayer.Quality.{is_space}
use loyiha.Vlm.Text.{strip}

abbrev pub min_secret_chars : ℕ
min_secret_chars = 32

pub data SecretError : Type 0 where
  too_short : SecretError

abbrev pub hex_value : ℕ → Option ℕ
hex_value c =
    if leb 48 c && leb c 57
    then some (c - 48)
    else if leb 97 c && leb c 102
    then some (c - 87)
    else if leb 65 c && leb c 70
    then some (c - 55)
    else none

abbrev pub is_ascii_space : ℕ → Bool
is_ascii_space c = (leb 9 c && leb c 13) || c == 32

abbrev pub pair : Option ℕ → Option ℕ → Option (List ℕ) → Option (List ℕ)
pair (some h) (some l) (some bs) = some ((16 * h + l) ∷ bs)
pair _ _ _ = none

-- `bytes.fromhex`
unfoldable pub from_hex : Text → Option (List ℕ)
from_hex [] = some []
from_hex (c ∷ []) = if is_ascii_space c then some [] else none
from_hex (c ∷ (d ∷ rest)) =
    let next = from_hex (d ∷ rest) in
    let after = from_hex rest in
    if is_ascii_space c then next else pair (hex_value c) (hex_value d) after

module _ (sha256 : Text → List ℕ) where
  abbrev pub derived : Text → Option (List ℕ) → List ℕ
  derived raw none = sha256 raw
  derived raw (some decoded) = if leb 16 (length decoded) then decoded else sha256 raw

  unfoldable pub normalise_key_bytes : Text → ℕ → Result SecretError (List ℕ)
  normalise_key_bytes raw min_chars =
      let stripped = strip raw in
      if ltb (length stripped) min_chars
      then raised too_short
      else if length stripped % 2 == 0
      then ok (derived stripped (from_hex stripped))
      else ok (sha256 stripped)
