-- ===== src/Datalayer/Quality.antt =====
-- datalayer/quality.py: the checks that a label candidate passes before it is queued.
-- The texts of the outcomes (`reason`) are left out; that the text of a failed area check raises
-- for an entry without a category is not.
pub mod Usable
use loyiha.Base.{
  ℕ, ◌+◌, ◌*◌, min, Bool, true, false, not, ◌&&◌, ◌||◌, ◌==◌, leb, ltb, Option, none, some, List,
  [], ◌∷◌, ◌++◌, String, length, is_empty, Result, ok, raised, if◌then◌else◌, ◌>>=◌,
}
use loyiha.Contracts.Common.{
  Uuid, codes, ThreatCategory, narcotics, firearm, bladed_weapon, explosive, currency,
  organic_anomaly, metallic_anomaly, contraband_other, unknown,
}
use loyiha.Contracts.Feedback.{OperatorOutcome, seized, is_none}
use loyiha.Datalayer.Labels.{
  LabelEntry, LabelSource, operator_confirmed, operator_reclassified, operator_missed,
  hard_negative, true_negative_scan,
}

-- `_MIN_BOX_AREA`, with `_DEFAULT_MIN_BOX_AREA` for a missing key
unfoldable pub min_box_area : Option ThreatCategory → ℕ
min_box_area none = 625
min_box_area (some narcotics) = 1024
min_box_area (some firearm) = 2025
min_box_area (some bladed_weapon) = 900
min_box_area (some explosive) = 1024
min_box_area (some currency) = 625
min_box_area (some organic_anomaly) = 4096
min_box_area (some metallic_anomaly) = 2025
min_box_area (some contraband_other) = 625
min_box_area (some unknown) = 625

abbrev pub max_aspect_ratio : ℕ
max_aspect_ratio = 20

pub data CheckResult : Type 0 where
  pass fail skip : CheckResult

pub record CheckOutcome : Type 0 where
  pub name : String
  pub result : CheckResult

pub record QualityReport : Type 0 where
  pub label_id : Uuid
  pub passed : Bool
  pub checks : List CheckOutcome

-- `entry.category.value` of an entry without a category
pub data AttributeError : Type 0 where
  attribute_error : AttributeError

-- the characters that Python's `str.strip` removes
unfoldable pub is_space : ℕ → Bool
is_space c =
    (leb 9 c && leb c 13)
    || (leb 28 c && leb c 32)
    || c == 133
    || c == 160
    || c == 5760
    || (leb 8192 c && leb c 8202)
    || c == 8232
    || c == 8233
    || c == 8239
    || c == 8287
    || c == 12288

-- `not s.strip()`
unfoldable pub is_blank : List ℕ → Bool
is_blank [] = true
is_blank (c ∷ cs) = is_space c && is_blank cs

-- `x or n`: the default stands for an absent number and for 0
abbrev pub or_default : Option ℕ → ℕ → ℕ
or_default none n = n
or_default (some x) n = if x == 0 then n else x

unfoldable pub has_box : LabelEntry → Bool
has_box e = not (is_none e.box_x)

abbrev pub is_negative : LabelSource → Bool
is_negative hard_negative = true
is_negative true_negative_scan = true
is_negative _ = false

abbrev pub is_unknown : Option ThreatCategory → Bool
is_unknown (some unknown) = true
is_unknown _ = false

abbrev pub is_seized : OperatorOutcome → Bool
is_seized seized = true
is_seized _ = false

abbrev pub larger : ℕ → ℕ → ℕ
larger a b = if leb a b then b else a

abbrev outcome : String → Bool → CheckOutcome
outcome n bad = record { name = n; result = if bad then fail else pass }

abbrev skipped : String → CheckOutcome
skipped n = record { name = n; result = skip }

unfoldable pub check_operator_id : LabelEntry → CheckOutcome
check_operator_id e =
    outcome "operator_id_present" (is_empty (codes e.operator_id) || is_blank (codes e.operator_id))

unfoldable pub check_category_not_unknown : LabelEntry → CheckOutcome
check_category_not_unknown e =
    outcome "category_not_unknown" (not (is_negative e.source) && is_unknown e.category)

abbrev pub needs_box : LabelSource → Bool
needs_box operator_confirmed = true
needs_box operator_reclassified = true
needs_box operator_missed = true
needs_box _ = false

unfoldable pub check_box_present_for_positive : LabelEntry → CheckOutcome
check_box_present_for_positive e =
    outcome "box_present_for_positive" (needs_box e.source && not (has_box e))

unfoldable pub box_area : LabelEntry → ℕ
box_area e = or_default e.box_w 0 * or_default e.box_h 0

unfoldable pub check_box_area : LabelEntry → Result AttributeError CheckOutcome
check_box_area e =
    if has_box e
    then (if ltb (box_area e) (min_box_area e.category)
        then (if is_none e.category then raised attribute_error else ok (outcome "box_area" true))
        else ok (outcome "box_area" false))
    else ok (skipped "box_area")

-- `ratio > 20.0` of the quotient, multiplied out: the quotient of two sides below 2^47 is over
-- 20 exactly when its rounding to a double is.
unfoldable pub check_box_aspect_ratio : LabelEntry → CheckOutcome
check_box_aspect_ratio e =
    let w = or_default e.box_w 1 in
    let h = or_default e.box_h 1 in
    if has_box e
    then outcome "box_aspect_ratio" (ltb (max_aspect_ratio * larger (min w h) 1) (larger w h))
    else skipped "box_aspect_ratio"

unfoldable pub check_box_positive_dims : LabelEntry → CheckOutcome
check_box_positive_dims e =
    if has_box e
    then outcome "box_positive_dims" (leb (or_default e.box_w 0) 0 || leb (or_default e.box_h 0) 0)
    else skipped "box_positive_dims"

unfoldable pub check_scan_sha256_format : LabelEntry → CheckOutcome
check_scan_sha256_format e =
    outcome "scan_sha256_format"
      (is_empty (codes e.scan_sha256) || not (length (codes e.scan_sha256) == 64))

unfoldable pub check_seizure_needs_box : LabelEntry → CheckOutcome
check_seizure_needs_box e =
    outcome "seizure_needs_box"
      (is_seized e.operator_outcome && is_negative e.source && not (has_box e))

abbrev pub is_fail : CheckResult → Bool
is_fail fail = true
is_fail _ = false

-- `all(o.result != CheckResult.FAIL for o in outcomes)`
abbrev pub none_failed : List CheckOutcome → Bool
none_failed [] = true
none_failed (o ∷ os) = not (is_fail o.result) && none_failed os

-- `LabelQualityGate.__call__`, with `_ALL_CHECKS` written out
unfoldable pub quality_gate : LabelEntry → Result AttributeError QualityReport
quality_gate e = do
  area ← check_box_area e
  let outcomes =
      check_operator_id e
      ∷ check_category_not_unknown e
      ∷ check_box_present_for_positive e
      ∷ area
      ∷ check_box_aspect_ratio e
      ∷ check_box_positive_dims e
      ∷ check_scan_sha256_format e
      ∷ check_seizure_needs_box e
      ∷ []
  ok (record { label_id = e.label_id; passed = none_failed outcomes; checks = outcomes })

-- `LabelQualityGate.filter_passing`
unfoldable pub filter_passing :
    List LabelEntry → Result AttributeError (List LabelEntry × List QualityReport)
filter_passing [] = ok ([], [])
filter_passing (e ∷ es) =
    let rest = filter_passing es in
    do
      report ← quality_gate e
      found ← rest
      ok (if report.passed then e ∷ found.0 else found.0, report ∷ found.1)
