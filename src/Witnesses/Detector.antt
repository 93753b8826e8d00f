-- ===== src/Witnesses/Detector.antt =====
-- A model that always sees the same knife, a scan for it, and a scanner's raw frame.
use loyiha.Base.{
  ℕ, zero, suc, ◌≡◌, refl, Option, none, some, [], ◌∷◌, String, min, true, if◌then◌else◌, leb, ok,
  IsDistinct,
}
use loyiha.Contracts.Common.{cargo, single_energy, StorageRef}
use loyiha.Contracts.Acquisition.{AcquisitionResult, acquired_frame_ids}
use loyiha.Contracts.Detection.Consistency.{IsConsistent}
use loyiha.Detector.Adapter.{pos, RawDetection, Numbers, WeaponsDetector, detect}
use loyiha.Detector.Adapter.Consistent.{detect-IsConsistent}
use loyiha.Datalayer.Ingestion.{RawFrame, IngestConfig, Bytes}
use loyiha.Witnesses.Data.{knife_frame, detector}
use loyiha.Witnesses.Unicode.{ascii}

abbrev pub raw_knife : RawDetection ℕ
raw_knife = record {
  native_label = "Knife";
  score = 5;
  x1 = 110;
  y1 = 20;
  x2 = 10;
  y2 = 70;
  attributes = [];
}

abbrev pub whole_numbers : Numbers ℕ
whole_numbers = record {
  least = min;
  greatest = λ a b. if leb a b then b else a;
  rounded = λ n. ok (pos n);
  shown = λ n. "5.0000";
}

abbrev pub weapons : WeaponsDetector ℕ
weapons = record {
  unicode = ascii;
  numbers = whole_numbers;
  predict_frame = λ r. ok (raw_knife ∷ []);
  calibrate = λ label score. ok (some (pos score));
  trimmed = λ label. label;
  is_identity = true;
  thresholds = λ c. 3;
  provenance = detector;
  uuid4 = λ n. n;
  error = "RuntimeError: no image";
}

abbrev pub knife_scan : AcquisitionResult
knife_scan = record {
  scan_id = 1;
  scanner_id = "s1";
  lane_id = some "lane-1";
  operator_id = none;
  subject = cargo;
  modality = single_energy;
  captured_at = 1;
  emitted_at = 2;
  frames = knife_frame ∷ [];
  notes = none;
}

one_frame : IsDistinct (acquired_frame_ids knife_scan)
unfolding acquired_frame_ids
one_frame = (λ i. i, tt)

detect-IsConsistent_example :
    ((detect weapons knife_scan).scan_id ≡ 1)
    × ((detect weapons knife_scan).frames ≡ knife_frame ∷ [])
    × IsConsistent (detect weapons knife_scan)
detect-IsConsistent_example = detect-IsConsistent weapons knife_scan one_frame (λ i j h. h) refl

abbrev pub zeros : ℕ → Bytes
zeros zero = []
zeros (suc n) = 0 ∷ zeros n

abbrev pub side_view : RawFrame
side_view = record {
  raw_bytes = zeros 1024;
  frame_label = "side";
  width_px = 64;
  height_px = 16;
  media_type = "image/tiff";
}

abbrev pub lane : IngestConfig
lane = record {
  scanner_id = "s1";
  lane_id = "lane-1";
  modality = single_energy;
  subject = cargo;
  operator_id = none;
}

abbrev pub keep : Bytes → String → Option StorageRef
keep bytes media_type = some knife_frame.image
