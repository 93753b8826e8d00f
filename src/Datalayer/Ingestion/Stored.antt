-- ===== src/Datalayer/Ingestion/Stored.antt =====
-- datalayer/ingestion.py: what is in the store, and in the message, when `ingest` has ended.
use loyiha.Base.{
  ℕ, suc, ◌≡◌, ◌≢◌, true, not, ◌||◌, Option, some, List, [], ◌∷◌, ◌++◌, String, map, is_empty,
  Result, ok, raised, ◌⊎◌,
}
use loyiha.Contracts.Common.{StorageRef, ImageFrame}
use loyiha.Contracts.Common.Fields.{frame_ok}
use loyiha.Contracts.Acquisition.{AcquisitionResult}
use loyiha.Datalayer.Ingestion.{
  Bytes, RawFrame, IngestError, invalid_frame, validate_frames, packed,
}

-- The second list is the first one from its start.
pub data IsPrefix : List Bytes → List Bytes → Type 0 where
  stop : (xs : List Bytes) → IsPrefix [] xs
  next : (x : Bytes) (ys xs : List Bytes) → IsPrefix ys xs → IsPrefix (x ∷ ys) (x ∷ xs)

module _ (put : Bytes → String → Option StorageRef) (frame_id : ℕ → String → String)
    (trim : String → String) where
  -- Each frame's descriptor, in order, passes the checks and has the reference of its own bytes.
  pub data IsPacked : ℕ → List RawFrame → List ImageFrame → Type 0 where
    done : (i : ℕ) → IsPacked i [] []
    pack :
        (i : ℕ) (raw : RawFrame) (raws : List RawFrame) (ref : StorageRef) (fs : List ImageFrame)
        → put raw.raw_bytes raw.media_type ≡ some ref
        → frame_ok (packed put frame_id trim i raw ref) ≡ true
        → IsPacked (suc i) raws fs
        → IsPacked i (raw ∷ raws) (packed put frame_id trim i raw ref ∷ fs)

  -- The loop has packed every frame and stored all their bytes, in order.
  abbrev pub IsWhole :
      ℕ → List RawFrame → List Bytes → Result IngestError (List ImageFrame) → List Bytes → Type 0
  IsWhole i raws stored out end =
      (fs : List ImageFrame) × (out ≡ ok fs)
      × IsPacked i raws fs
      × (end ≡ stored ++ map (λ f. f.raw_bytes) raws)

  -- It has stopped at a frame, and the bytes up to there are in the store.
  abbrev pub IsCut :
      {A : Type 0} → List RawFrame → List Bytes → Result IngestError A → List Bytes → Type 0
  IsCut raws stored out end =
      (e : IngestError) × (kept : List Bytes) × (out ≡ raised e)
      × (e ≢ invalid_frame)
      × IsPrefix kept (map (λ f. f.raw_bytes) raws)
      × (end ≡ stored ++ kept)

  -- How a scan can end: refused before anything is stored; or packed, with all of its bytes stored;
  -- or cut short by the store or by the contract's checks.
  abbrev pub IsIngested :
      List RawFrame → List Bytes → Result IngestError AcquisitionResult → List Bytes → Type 0
  IsIngested frames stored out end =
      ((is_empty frames || not (validate_frames frames) ≡ true)
        × (out ≡ raised invalid_frame)
        × (end ≡ stored))
      ⊎ ((validate_frames frames ≡ true)
          × (((a : AcquisitionResult) × (out ≡ ok a)
                × IsPacked 0 frames a.frames
                × (end ≡ stored ++ map (λ f. f.raw_bytes) frames))
              ⊎ IsCut frames stored out end))
