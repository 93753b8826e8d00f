-- ===== src/Detector/Adapter.antt =====
-- detector/serving/adapter.py: from raw boxes to a result that the contract accepts. The model, the
-- loader and the calibrator are parameters; so are the floating-point numbers `F` of a raw box. A
-- calibrated score is a multiple of 2^-1074, of any sign; a calibrator whose result is not finite is
-- one that raises. An exception anywhere ends in a FAILED result; what it was is left out.
pub mod Box
pub mod Consistent
use loyiha.Base.{
  ℕ, suc, ◌+◌, ◌-◌, ◌*◌, ◌^◌, min, Bool, true, false, not, ◌||◌, Option, none, some, List, [], ◌∷◌,
  ◌++◌, String, str_eq, if◌then◌else◌, leb, ltb, length, is_empty, Result, ok, raised, raise_if,
  ◌>>=◌, ◌>>◌,
}
use Prim.Native.String
use loyiha.Contracts.Common.{
  Uuid, Score, one, codes, StorageRef, ImageFrame, PixelBox, ModelProvenance, ThreatCategory,
  firearm, bladed_weapon, metallic_anomaly, unknown,
}
use loyiha.Contracts.Acquisition.{AcquisitionResult}
use loyiha.Contracts.Detection.{
  Detection, DetectionResult, DetectionStatus, completed, completed_no_findings, failed,
}
use loyiha.Vlm.Text.{Unicode}
use loyiha.Detector.Taxonomy.{KeyError, to_category}

pub data ℤ : Type 0 where
  pos negsuc : ℕ → ℤ

-- any exception of a run
pub data Failure : Type 0 where
  failure : Failure

pub record RawDetection (F : Type 0) : Type 0 where
  pub native_label : String
  pub score : F
  pub x1 : F
  pub y1 : F
  pub x2 : F
  pub y2 : F
  pub attributes : List (String × String)

-- `min`, `max`, `int(round(x))`, which raises on no number, and `f"{x:.4f}"`
pub record Numbers (F : Type 0) : Type 0 where
  pub least : F → F → F
  pub greatest : F → F → F
  pub rounded : F → Result Failure ℤ
  pub shown : F → String

pub record WeaponsDetector (F : Type 0) : Type 0 where
  pub unicode : Unicode
  pub numbers : Numbers F
  pub predict_frame : StorageRef → Result Failure (List (RawDetection F))
  pub calibrate : String → F → Result Failure (Option ℤ)
  pub trimmed : String → String
  pub is_identity : Bool
  pub thresholds : ThreatCategory → Score
  pub provenance : ModelProvenance
  pub uuid4 : ℕ → Uuid
  pub error : String

-- `DEFAULT_THRESHOLDS`, with `_FALLBACK_THRESHOLD` for the others
unfoldable pub default_thresholds : ThreatCategory → Score
default_thresholds firearm = 7205759403792794 * 2 ^ 1019
default_thresholds bladed_weapon = 7205759403792794 * 2 ^ 1019
default_thresholds metallic_anomaly = 12610078956637388 * 2 ^ 1019
default_thresholds unknown = 14411518807585588 * 2 ^ 1019
default_thresholds _ = 10808639105689190 * 2 ^ 1019

-- `score < threshold`; NaN is `none`, and an infinity any number beyond [0, 1] on its side
abbrev pub is_below : Option ℤ → Score → Bool
is_below none t = false
is_below (some (negsuc n)) t = true
is_below (some (pos n)) t = ltb n t

unfoldable pub clip_unit : ℤ → Score
clip_unit (negsuc n) = 0
clip_unit (pos n) = if ltb one n then one else n

abbrev pub first_chars : ℕ → String → String
first_chars n String.[] = String.[]
first_chars ℕ.zero s = String.[]
first_chars (suc n) (String.◌∷◌ c s) = String.◌∷◌ c (first_chars n s)

-- `d[key] = value`
unfoldable pub set_attribute : String → String → List (String × String) → List (String × String)
set_attribute key value [] = (key, value) ∷ []
set_attribute key value ((k, v) ∷ rest) =
    let later = set_attribute key value rest in
    if str_eq k key then (key, value) ∷ rest else (k, v) ∷ later

-- One axis: where the clamped interval starts, and how long it is, if anything is left of it.
unfoldable pub clamp : ℕ → ℤ → ℤ → Option (ℕ × ℕ)
clamp size lo (negsuc n) = none
clamp size lo (pos hi) =
    let start = max_zero lo in
    let end = min size hi in
    if leb end start || leb size start then none else some (start, end - start)
  where
    max_zero : ℤ → ℕ
    max_zero (negsuc n) = 0
    max_zero (pos n) = n

abbrev pub box_of : Option (ℕ × ℕ) → Option (ℕ × ℕ) → Option PixelBox
box_of (some (x, w)) (some (y, h)) = some (record { x = x; y = y; width = w; height = h })
box_of _ _ = none

abbrev pub of_key : Result KeyError ThreatCategory → Result Failure ThreatCategory
of_key (ok c) = ok c
of_key (raised e) = raised failure

module _ {F : Type 0} (w : WeaponsDetector F) where
  unfoldable pub legal_box : RawDetection F → ImageFrame → Result Failure (Option PixelBox)
  legal_box raw frame = do
    x1 ← w.numbers.rounded (w.numbers.least raw.x1 raw.x2)
    y1 ← w.numbers.rounded (w.numbers.least raw.y1 raw.y2)
    x2 ← w.numbers.rounded (w.numbers.greatest raw.x1 raw.x2)
    y2 ← w.numbers.rounded (w.numbers.greatest raw.y1 raw.y2)
    ok (box_of (clamp frame.width_px x1 x2) (clamp frame.height_px y1 y2))

  abbrev pub attributes_of : RawDetection F → List (String × String)
  attributes_of raw =
      set_attribute "calibrated" (if w.is_identity then "false" else "true")
        (set_attribute "raw_score" (w.numbers.shown raw.score) raw.attributes)

  -- the message that is built around a legal box; pydantic strips the label, and refuses an empty one
  -- and a score that is NaN
  abbrev pub detection_of :
      RawDetection F
      → ImageFrame
      → ThreatCategory
      → Option ℤ
      → ℕ
      → Option PixelBox
      → Result Failure (Option Detection)
  detection_of raw frame category score n none = ok none
  detection_of raw frame category none n (some box) = raised failure
  detection_of raw frame category (some score) n (some box) =
      if is_empty (codes (w.trimmed (first_chars 128 raw.native_label)))
      then raised failure
      else ok (
          some (record {
            detection_id = w.uuid4 n;
            frame_id = frame.frame_id;
            box = box;
            native_label = w.trimmed (first_chars 128 raw.native_label);
            category = category;
            score = clip_unit score;
            crop = none;
            calibrated = false;
            attributes = attributes_of raw;
          }))

  -- `_to_detection`, with the n-th `uuid4()`
  unfoldable pub to_detection : RawDetection F → ImageFrame → ℕ → Result Failure (Option Detection)
  to_detection raw frame n = do
    category ← of_key (to_category w.unicode (codes raw.native_label))
    score ← w.calibrate raw.native_label raw.score
    (if is_below score (w.thresholds category)
        then ok none
        else (legal_box raw frame >>= detection_of raw frame category score n))

  -- the inner loop of `_detect_sync`
  unfoldable pub detect_frame :
      ImageFrame → List (RawDetection F) → ℕ → Result Failure (List Detection)
  detect_frame frame [] n = ok []
  detect_frame frame (raw ∷ raws) n = do
    found ← to_detection raw frame n
    elim found [
      | none ↦ detect_frame frame raws n
      | some d ↦ (do ds ← detect_frame frame raws (n + 1); ok (d ∷ ds))
    ]

  unfoldable pub detect_sync : List ImageFrame → ℕ → Result Failure (List Detection)
  detect_sync [] n = ok []
  detect_sync (frame ∷ frames) n = do
    raws ← w.predict_frame frame.image
    ds ← detect_frame frame raws n
    rest ← detect_sync frames (n + length ds)
    ok (ds ++ rest)

  abbrev pub result_of : AcquisitionResult → Result Failure (List Detection) → DetectionResult
  result_of a (raised e) = record {
    scan_id = a.scan_id;
    status = failed;
    model = w.provenance;
    frames = a.frames;
    detections = [];
    error = some w.error;
  }
  result_of a (ok ds) = record {
    scan_id = a.scan_id;
    status = if is_empty ds then completed_no_findings else completed;
    model = w.provenance;
    frames = a.frames;
    detections = ds;
    error = none;
  }

  -- `detect`
  unfoldable pub detect : AcquisitionResult → DetectionResult
  detect a = result_of a (detect_sync a.frames 0)
