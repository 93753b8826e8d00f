-- ===== src/Vlm/Prompts.antt =====
-- vlm/prompts.py: the fixed Uzbek texts, the two slots that the model fills, and the risk band.
-- A score is in units of 2^-1074; the IEEE operations on scores are the parameter `Floats`.
pub mod Facts
pub mod Request
use Prim.Native.Nat.{◌/◌, ◌%◌}
use loyiha.Base.{
  ℕ, zero, suc, ◌+◌, ◌*◌, ◌^◌, Bool, true, false, not, ◌&&◌, ◌||◌, leb, ltb, Option, none, some,
  List, [], ◌∷◌, ◌++◌, if◌then◌else◌, length, is_empty, any, map,
}
use loyiha.Contracts.Common.{
  Text, codes, Score, ThreatCategory, RiskBand, clear, low, medium, high, narcotics, firearm,
  bladed_weapon, explosive, currency, organic_anomaly, metallic_anomaly, contraband_other, unknown,
}
use loyiha.Contracts.Detection.{Detection, DetectionResult, has_findings}
use loyiha.Vlm.Text.{Unicode, strip, lines, starts_with, drop_prefix}

-- `int(score * 100)`, `(start + extent / 2) / size` and `area / whole`, in double precision
pub record Floats : Type 0 where
  pub percent : Score → ℕ
  pub centre : ℕ → ℕ → ℕ → Score
  pub quotient : ℕ → ℕ → Score

abbrev pub newline : Text
newline = 10 ∷ []

abbrev decimal_fuel : ℕ → ℕ → Text
decimal_fuel zero n = []
decimal_fuel (suc f) n =
    let rest = decimal_fuel f (n / 10) in
    if ltb n 10 then (48 + n) ∷ [] else rest ++ ((48 + n % 10) ∷ [])

-- `str(n)`
unfoldable pub decimal : ℕ → Text
decimal n = decimal_fuel (n + 1) n

unfoldable pub category_uz : ThreatCategory → Text
category_uz narcotics = codes "giyohvand modda"
category_uz firearm = codes "oʻqotar qurol"
category_uz bladed_weapon = codes "kesuvchi qurol"
category_uz explosive = codes "portlovchi modda"
category_uz currency = codes "naqd pul"
category_uz organic_anomaly = codes "organik anomaliya"
category_uz metallic_anomaly = codes "metall anomaliya"
category_uz contraband_other = codes "kontrabanda"
category_uz unknown = codes "noaniq predmet"

unfoldable pub risk_label_uz : RiskBand → Text
risk_label_uz clear = codes "Shubha yoʻq"
risk_label_uz low = codes "Past xavf"
risk_label_uz medium = codes "Oʻrta xavf"
risk_label_uz high = codes "Yuqori xavf"

abbrev pub disclaimer : Text
disclaimer = codes "Eslatma: Yakuniy qaror faqat operator tomonidan qabul qilinadi."

pub record FilledSlots : Type 0 where
  pub tavsif : Text
  pub sabab : Text
  pub fallback : Bool

abbrev pub fallback_tavsif : Text
fallback_tavsif = codes "Detektor tomonidan aniqlangan hudud."

abbrev pub fallback_sabab : Text
fallback_sabab = codes "Avtomatik ravishda shubhali deb belgilangan."

-- `tavsif or _FALLBACK_TAVSIF`, where no line was found is the empty text too
abbrev pub or_text : Text → Text → Text
or_text [] b = b
or_text (c ∷ cs) b = c ∷ cs

-- what follows the label on the last line that has it; a line cannot have both labels
abbrev slot_after : Unicode → Text → List Text → Text → Text
slot_after u label [] found = found
slot_after u label (line ∷ rest) found =
    let stripped = strip line in
    slot_after u label rest
      (if starts_with label (u.upper stripped) then strip (drop_prefix label stripped) else found)

unfoldable pub extract_slots : Unicode → Text → FilledSlots
extract_slots u raw =
    let tavsif = slot_after u (codes "TAVSIF:") (lines raw) [] in
    let sabab = slot_after u (codes "SABAB:") (lines raw) [] in
    record {
      tavsif = or_text tavsif fallback_tavsif;
      sabab = or_text sabab fallback_sabab;
      fallback = is_empty tavsif || is_empty sabab;
    }

unfoldable pub assemble_rationale : Floats → Detection → FilledSlots → Text
assemble_rationale fl d slots =
    codes "Aniqlangan toifa: "
    ++ category_uz d.category
    ++ codes " ("
    ++ decimal (fl.percent d.score)
    ++ codes "% ishonch)"
    ++ newline
    ++ codes "Tavsif: "
    ++ slots.tavsif
    ++ newline
    ++ codes "Sabab: "
    ++ slots.sabab

unfoldable pub clear_summary : ℕ → Text
clear_summary n_frames =
    decimal n_frames
    ++ codes " ta kadrdan iborat skan koʻrib chiqildi."
    ++ newline
    ++ codes "Shubhali predmet aniqlanmadi."
    ++ newline
    ++ newline
    ++ disclaimer

-- the block of each detection, numbered from `i`
unfoldable pub blocks : ℕ → List Text → Text
blocks i [] = []
blocks i (rationale ∷ rest) =
    codes "[ "
    ++ decimal i
    ++ codes "-predmet ]"
    ++ newline
    ++ rationale
    ++ newline
    ++ newline
    ++ blocks (i + 1) rest

unfoldable pub build_summary : RiskBand → List Text → Text
build_summary risk rationales =
    codes "Xavf darajasi: "
    ++ risk_label_uz risk
    ++ newline
    ++ codes "Aniqlangan shubhali predmetlar soni: "
    ++ decimal (length rationales)
    ++ newline
    ++ newline
    ++ blocks 1 rationales
    ++ disclaimer

abbrev pub is_high_risk : ThreatCategory → Bool
is_high_risk narcotics = true
is_high_risk firearm = true
is_high_risk explosive = true
is_high_risk bladed_weapon = true
is_high_risk _ = false

-- 0.70 and 0.40
abbrev pub high_threshold : Score
high_threshold = 25220157913274776 * 2 ^ 1019

abbrev pub medium_threshold : Score
medium_threshold = 14411518807585588 * 2 ^ 1019

-- `max(d.score for d in detections)`, of scores that are not negative
unfoldable pub max_score : List Detection → Score
max_score [] = 0
max_score (d ∷ ds) = let rest = max_score ds in if leb rest d.score then d.score else rest

unfoldable pub compute_risk_band : DetectionResult → RiskBand
compute_risk_band r =
    if not (has_findings r)
    then clear
    else if any (λ d. is_high_risk d.category && leb high_threshold d.score) r.detections
    then high
    else if leb medium_threshold (max_score r.detections)
    then medium
    else low
