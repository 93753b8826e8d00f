-- ===== src/Datalayer/Ingestion.antt =====
-- datalayer/ingestion.py: raw frames are checked, stored and packed into a message. The
-- spacing of the pixels, which is passed on, is left out. The encrypted
-- store is a parameter, which returns a reference or raises; what was put is a list. The random id,
-- with the first eight digits of its text, the clock, and pydantic's stripping of texts are arguments.
pub mod Stored
use loyiha.Base.{
  ℕ, zero, suc, ◌+◌, ◌*◌, ◌^◌, Bool, true, false, not, ◌||◌, ◌&&◌, leb, ltb, ◌==◌, Option, none,
  some, List, [], ◌∷◌, ◌++◌, String, if◌then◌else◌, length, is_empty, Result, ok, raised,
}
use loyiha.Contracts.Common.{
  text_in, text_at_most, Uuid, Text, codes, StorageRef, ImageFrame, ScanSubject, ImageModality,
}
use loyiha.Contracts.Common.Fields.{frame_ok}
use loyiha.Datalayer.Labels.{option_map}
use loyiha.Contracts.Acquisition.{AcquisitionResult}

abbrev pub Bytes : Type 0
Bytes = List ℕ

abbrev pub min_scan_bytes : ℕ
min_scan_bytes = 1024

abbrev pub max_scan_bytes : ℕ
max_scan_bytes = 200 * 1024 ^ 2

pub record RawFrame : Type 0 where
  pub raw_bytes : Bytes
  pub frame_label : String
  pub width_px : ℕ
  pub height_px : ℕ
  pub media_type : String

pub record IngestConfig : Type 0 where
  pub scanner_id : String
  pub lane_id : String
  pub modality : ImageModality
  pub subject : ScanSubject
  pub operator_id : Option String

-- `IngestValidationError`; pydantic's error on a message; an exception of the store
pub data IngestError : Type 0 where
  invalid_frame contract_violation store_failed : IngestError

-- `_validate_frame` does not raise
unfoldable pub validate_frame : RawFrame → Bool
validate_frame f =
    leb min_scan_bytes (length f.raw_bytes)
    && leb (length f.raw_bytes) max_scan_bytes
    && not (f.width_px == 0 || f.height_px == 0)

unfoldable pub validate_frames : List RawFrame → Bool
validate_frames [] = true
validate_frames (f ∷ fs) = validate_frame f && validate_frames fs

-- the fields of the message that pydantic checks beside the frames, of which there is one at least
unfoldable pub message_ok : IngestConfig → Option String → Bool
message_ok cfg notes =
    text_in 1 64 cfg.scanner_id
    && text_in 1 64 cfg.lane_id
    && optional_id cfg.operator_id
    && text_at_most 2000 notes
  where
    optional_id : Option String → Bool
    optional_id none = true
    optional_id (some o) = text_in 1 64 o

abbrev pub message :
    IngestConfig
    → Uuid
    → ℕ
    → ℕ
    → Option String
    → Result IngestError (List ImageFrame)
    → Result IngestError AcquisitionResult
message cfg scan_id now captured_at notes (raised e) = raised e
message cfg scan_id now captured_at notes (ok frames) =
    if not (message_ok cfg notes)
    then raised contract_violation
    else ok (record {
      scan_id = scan_id;
      scanner_id = cfg.scanner_id;
      lane_id = some cfg.lane_id;
      operator_id = cfg.operator_id;
      subject = cfg.subject;
      modality = cfg.modality;
      captured_at = captured_at;
      emitted_at = now;
      frames = frames;
      notes = notes;
    })

abbrev pub packed_message :
    IngestConfig
    → Uuid
    → ℕ
    → ℕ
    → Option String
    → Result IngestError (List ImageFrame) × List Bytes
    → Result IngestError AcquisitionResult × List Bytes
packed_message cfg scan_id now captured_at notes (r, stored) =
    (message cfg scan_id now captured_at notes r, stored)

-- the texts of the configuration as pydantic strips them
abbrev pub stripped : (String → String) → IngestConfig → IngestConfig
stripped trim cfg = record cfg {
  scanner_id = trim cfg.scanner_id;
  lane_id = trim cfg.lane_id;
  operator_id = option_map trim cfg.operator_id;
}

module _ (put : Bytes → String → Option StorageRef) (frame_id : ℕ → String → String)
    (trim : String → String) where
  -- the descriptor of the i-th frame; pydantic strips its texts and checks its fields
  abbrev pub packed : ℕ → RawFrame → StorageRef → ImageFrame
  packed i raw ref = record {
    frame_id = trim (frame_id i raw.frame_label);
    width_px = raw.width_px;
    height_px = raw.height_px;
    image = ref;
    view_label = some (trim raw.frame_label);
  }

  abbrev pub pack_one :
      ℕ
      → RawFrame
      → Option StorageRef
      → List Bytes
      → (List Bytes → Result IngestError (List ImageFrame) × List Bytes)
      → Result IngestError (List ImageFrame) × List Bytes
  pack_one i raw none stored next = (raised store_failed, stored)
  pack_one i raw (some ref) stored next =
      let stored' = stored ++ (raw.raw_bytes ∷ []) in
      let (rest, end) = next stored' in
      if frame_ok (packed i raw ref)
      then (with_frame (packed i raw ref) rest, end)
      else (raised contract_violation, stored')
    where
      with_frame :
          ImageFrame → Result IngestError (List ImageFrame) → Result IngestError (List ImageFrame)
      with_frame f (ok fs) = ok (f ∷ fs)
      with_frame f (raised e) = raised e

  -- the loop that puts each frame, from the i-th on
  unfoldable pub pack_frames :
      ℕ → List RawFrame → List Bytes → Result IngestError (List ImageFrame) × List Bytes
  pack_frames i [] stored = (ok [], stored)
  pack_frames i (raw ∷ raws) stored =
      pack_one i raw (put raw.raw_bytes raw.media_type) stored (pack_frames (suc i) raws)

  -- `ingest`, with `captured_at` or else the time now
  unfoldable pub ingest :
      IngestConfig
      → Uuid
      → ℕ
      → Option ℕ
      → Option String
      → List RawFrame
      → List Bytes
      → Result IngestError AcquisitionResult × List Bytes
  ingest cfg scan_id now captured_at notes frames stored =
      if is_empty frames || not (validate_frames frames)
      then (raised invalid_frame, stored)
      else packed_message (stripped trim cfg) scan_id now (get_or now captured_at)
          (option_map trim notes) (pack_frames 0 frames stored)
    where
      get_or : ℕ → Option ℕ → ℕ
      get_or d none = d
      get_or d (some t) = t
