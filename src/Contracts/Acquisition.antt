-- ===== src/Contracts/Acquisition.antt =====
-- contracts/v1/acquisition.py: a captured scan, ready for detection, and what pydantic checks of it.
use loyiha.Base.{ℕ, Bool, true, not, ◌&&◌, String, Option, none, some, List, [], ◌∷◌, map, is_empty}
use loyiha.Contracts.Common.{Uuid, ScanSubject, ImageModality, ImageFrame, text_in, text_at_most}
use loyiha.Contracts.Common.Fields.{frame_ok}

pub record AcquisitionResult : Type 0 where
  pub scan_id : Uuid
  pub scanner_id : String
  pub lane_id : Option String
  pub operator_id : Option String
  pub subject : ScanSubject
  pub modality : ImageModality
  pub captured_at : ℕ
  pub emitted_at : ℕ
  pub frames : List ImageFrame
  pub notes : Option String

unfoldable pub acquired_frame_ids : AcquisitionResult → List String
acquired_frame_ids a = map (λ f. f.frame_id) a.frames

abbrev pub optional_id : Option String → Bool
optional_id none = true
optional_id (some t) = text_in 1 64 t

abbrev pub frames_ok : List ImageFrame → Bool
frames_ok [] = true
frames_ok (f ∷ fs) = frame_ok f && frames_ok fs

-- the bounds of the fields
unfoldable pub acquisition_ok : AcquisitionResult → Bool
acquisition_ok a =
    text_in 1 64 a.scanner_id
    && optional_id a.lane_id
    && optional_id a.operator_id
    && not (is_empty a.frames)
    && frames_ok a.frames
    && text_at_most 2000 a.notes
