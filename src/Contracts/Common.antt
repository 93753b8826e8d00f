-- ===== src/Contracts/Common.antt =====
-- contracts/v1/common.py: identifiers, enumerations, storage references, frames and boxes.
-- A UUID is its 128-bit number. A finite float in [0, 1] is the number of its multiples of
-- 2^-1074, the spacing of the smallest doubles, so every comparison is exact.
pub mod Fields
use Prim.Native.Char.{code}
use Prim.Native.String
use loyiha.Base.{
  ℕ, suc, ◌+◌, ◌^◌, String, Bool, true, false, ◌&&◌, ◌||◌, Option, none, some, List, [], ◌∷◌, leb,
  ltb, ◌==◌, if◌then◌else◌, length,
}

abbrev pub Uuid : Type 0
Uuid = ℕ

abbrev pub Score : Type 0
Score = ℕ

-- A text as its code points.
abbrev pub Text : Type 0
Text = List ℕ

-- 1.0 in units of 2^-1074
unfoldable pub one : Score
one = 2 ^ 1074

pub data ScanSubject : Type 0 where
  vehicle cargo baggage parcel other : ScanSubject

pub data ImageModality : Type 0 where
  single_energy dual_energy multi_view : ImageModality

pub data ThreatCategory : Type 0 where
  narcotics firearm bladed_weapon explosive currency organic_anomaly metallic_anomaly
        contraband_other unknown :
      ThreatCategory

pub data RiskBand : Type 0 where
  clear low medium high : RiskBand

abbrev pub codes : String → Text
codes String.[] = []
codes (String.◌∷◌ c s) = code c ∷ codes s

abbrev pub append : String → String → String
append String.[] t = t
append (String.◌∷◌ c s) t = String.◌∷◌ c (append s t)

-- `Field(min_length=lo, max_length=hi)`
abbrev pub text_in : ℕ → ℕ → String → Bool
text_in lo hi s = leb lo (length (codes s)) && leb (length (codes s)) hi

-- the same of an optional field
abbrev pub text_at_most : ℕ → Option String → Bool
text_at_most hi none = true
text_at_most hi (some s) = leb (length (codes s)) hi

all_hex : List ℕ → Bool
all_hex [] = true
all_hex (c ∷ cs) = (leb b'a' c && leb c b'f' || leb b'0' c && leb c b'9') && all_hex cs

-- `^[a-f0-9]{64}$`
unfoldable pub is_sha256_hex : String → Bool
unfolding all_hex
is_sha256_hex s = length (codes s) == 64 && all_hex (codes s)

-- `split(".", 1)[0]`
unfoldable pub major : List ℕ → List ℕ
major [] = []
major (c ∷ cs) = let rest = c ∷ major cs in if c == b'.' then [] else rest

codes_eq : List ℕ → List ℕ → Bool
codes_eq [] [] = true
codes_eq (a ∷ as') (b ∷ bs) = a == b && codes_eq as' bs
codes_eq _ _ = false

unfoldable pub schema_major_compatible : List ℕ → List ℕ → Bool
unfolding codes_eq
schema_major_compatible wire_version expected = codes_eq (major wire_version) (major expected)

pub record ModelProvenance : Type 0 where
  pub name : String
  pub version : String
  pub weights_sha256 : Option String
  pub runtime : Option String

pub record StorageRef : Type 0 where
  pub uri : String
  pub media_type : String
  pub sha256 : String
  pub size_bytes : ℕ

pub record ImageFrame : Type 0 where
  pub frame_id : String
  pub width_px : ℕ
  pub height_px : ℕ
  pub image : StorageRef
  pub view_label : Option String

pub record PixelBox : Type 0 where
  pub x : ℕ
  pub y : ℕ
  pub width : ℕ
  pub height : ℕ

unfoldable pub fits_within : PixelBox → ImageFrame → Bool
fits_within b frame = leb (b.x + b.width) frame.width_px && leb (b.y + b.height) frame.height_px
