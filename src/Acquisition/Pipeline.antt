-- ===== src/Acquisition/Pipeline.antt =====
-- acquisition/pipeline.py: from a scanner's bundle to a POST. What a monitored read ends with is an
-- argument; SHA-256, the store and the answers of the API are parameters. The pipeline keeps its
-- counters, the digests it has seen, what it has stored, the number of its POSTs, and its sleeps.
-- Logs, signal handlers and the disconnection at the end are left out.
pub mod Posts
pub mod Repeat
use loyiha.Base.{
  ℕ, ℕ_eq, zero, suc, ◌+◌, ◌*◌, Bool, true, false, ◌||◌, ◌==◌, Option, none, some, List, [], ◌∷◌,
  ◌++◌, String, map, take, contains, if◌then◌else◌, length, Result, ok, raised,
}
use Prim.Native.String
use loyiha.Contracts.Common.{Uuid, StorageRef, append}
use loyiha.Contracts.Acquisition.{AcquisitionResult}
use loyiha.Datalayer.Ingestion.{
  Bytes, RawFrame, IngestConfig, IngestError, invalid_frame, contract_violation, store_failed,
  ingest,
}

-- The frames, and the fidelity note of each frame's metadata.
pub record ScanBundle : Type 0 where
  pub frames : List RawFrame
  pub fidelity_notes : List (Option String)

-- `monitored_read` returns, or raises `ScannerUnavailableError` or anything else.
pub data Reading : Type 0 where
  bundle : ScanBundle → Reading
  scanner_unavailable unexpected : Reading

-- `httpx` returns a status, or raises a `TransportError` or anything else.
pub data Response : Type 0 where
  status : ℕ → Response
  transport_error other_error : Response

-- A cycle returns, or raises.
pub data CycleEnd : Type 0 where
  returned unavailable escaped : CycleEnd

pub record PipelineStats : Type 0 where
  pub scans_ingested : ℕ
  pub scans_posted : ℕ
  pub scans_failed : ℕ
  pub api_retries : ℕ

pub record AcquisitionPipeline : Type 0 where
  pub stats : PipelineStats
  pub seen_hashes : List ℕ
  pub stored : List Bytes
  pub posts : ℕ
  pub sleeps : List ℕ

-- `digest` is the hash of the joined hashes of the frames; `second` counts ticks.
pub record Wiring : Type 0 where
  pub cfg : IngestConfig
  pub digest : List Bytes → ℕ
  pub put : Bytes → String → Option StorageRef
  pub frame_id : Uuid → ℕ → String → String
  pub trim : String → String
  pub uuid4 : ℕ → Uuid
  pub clock : ℕ → ℕ
  pub post : ℕ → AcquisitionResult → Response
  pub api_retries : ℕ
  pub second : ℕ

abbrev pub but_last : List ℕ → List ℕ
but_last [] = []
but_last (x ∷ []) = []
but_last (x ∷ (y ∷ ys)) = x ∷ but_last (y ∷ ys)

-- `xs[: n - 1]`
unfoldable pub slice : ℕ → List ℕ → List ℕ
slice zero xs = but_last xs
slice (suc n) xs = take n xs

-- the sleeps before the attempts, with `_RETRY_BACKOFF`
unfoldable pub backoffs : Wiring → List ℕ
backoffs w = 0 ∷ slice w.api_retries (w.second ∷ (3 * w.second) ∷ (8 * w.second) ∷ [])

unfoldable pub slept : ℕ → AcquisitionPipeline → AcquisitionPipeline
slept zero p = p
slept (suc n) p = record p {
  sleeps = p.sleeps ++ (suc n ∷ []);
  stats = record p.stats { api_retries = p.stats.api_retries + 1 };
}

unfoldable pub scan_failed : AcquisitionPipeline → AcquisitionPipeline
scan_failed p = record p { stats = record p.stats { scans_failed = p.stats.scans_failed + 1 } }

unfoldable pub scan_posted : AcquisitionPipeline → AcquisitionPipeline
scan_posted p = record p { stats = record p.stats { scans_posted = p.stats.scans_posted + 1 } }

-- what an answer does, given what the next attempt would do
abbrev pub answered :
    Response → AcquisitionPipeline → CycleEnd × AcquisitionPipeline → CycleEnd × AcquisitionPipeline
answered (status code) p next =
    if code == 200 || code == 201 || code == 202
    then (returned, scan_posted p)
    else if code == 409
    then (returned, p)
    else next
answered transport_error p next = next
answered other_error p next = (escaped, p)

abbrev pub join_notes : List String → String
join_notes [] = ""
join_notes (n ∷ []) = n
join_notes (n ∷ (m ∷ ms)) = append n (append " | " (join_notes (m ∷ ms)))

unfoldable pub fidelity_note : ScanBundle → Option String
fidelity_note b = joined (notes_of b.fidelity_notes)
  where
    notes_of : List (Option String) → List String
    notes_of [] = []
    notes_of (none ∷ ms) = notes_of ms
    notes_of (some String.[] ∷ ms) = notes_of ms
    notes_of (some n ∷ ms) = n ∷ notes_of ms

    joined : List String → Option String
    joined [] = none
    joined (n ∷ ns) = some (join_notes (n ∷ ns))

module _ (w : Wiring) where
  -- one attempt after another, each after its sleep
  unfoldable pub post_attempts :
      AcquisitionResult → List ℕ → AcquisitionPipeline → CycleEnd × AcquisitionPipeline
  post_attempts a [] p = (returned, scan_failed p)
  post_attempts a (backoff ∷ backoffs) p =
      let rested = slept backoff p in
      let posted = record rested { posts = rested.posts + 1 } in
      answered (w.post rested.posts a) posted (post_attempts a backoffs posted)

  unfoldable pub post_with_retry :
      AcquisitionResult → AcquisitionPipeline → CycleEnd × AcquisitionPipeline
  post_with_retry a p = post_attempts a (backoffs w) p

  abbrev pub ingested :
      Result IngestError AcquisitionResult × List Bytes
      → AcquisitionPipeline
      → CycleEnd × AcquisitionPipeline
  ingested (ok a, stored) p = post_with_retry a (record p {
    stored = stored;
    stats = record p.stats { scans_ingested = p.stats.scans_ingested + 1 };
  })
  ingested (raised invalid_frame, stored) p = (returned, scan_failed (record p { stored = stored }))
  ingested (raised contract_violation, stored) p = (escaped, record p { stored = stored })
  ingested (raised store_failed, stored) p = (escaped, record p { stored = stored })

  abbrev pub combined : ScanBundle → ℕ
  combined b = w.digest (map (λ f. f.raw_bytes) b.frames)

  -- the cycle from the dedup check on; the n-th bundle that is not a repeat is the n-th scan
  unfoldable pub handled : ScanBundle → AcquisitionPipeline → CycleEnd × AcquisitionPipeline
  handled b p =
      if contains p.seen_hashes (combined b)
      then (returned, p)
      else let n = length p.seen_hashes in
        let scan_id = w.uuid4 n in
        ingested
          (ingest w.put (w.frame_id scan_id) w.trim w.cfg scan_id (w.clock (2 * n + 1))
            (some (w.clock (2 * n))) (fidelity_note b) b.frames p.stored)
          (record p { seen_hashes = combined b ∷ p.seen_hashes })

  -- `_run_one_cycle`
  unfoldable pub run_one_cycle : Reading → AcquisitionPipeline → CycleEnd × AcquisitionPipeline
  run_one_cycle scanner_unavailable p = (unavailable, p)
  run_one_cycle unexpected p = (returned, record p { sleeps = p.sleeps ++ (w.second ∷ []) })
  run_one_cycle (bundle b) p = handled b p

  abbrev pub proceed :
      CycleEnd × AcquisitionPipeline
      → (AcquisitionPipeline → CycleEnd × AcquisitionPipeline)
      → CycleEnd × AcquisitionPipeline
  proceed (returned, p) next = next p
  proceed (unavailable, p) next = (unavailable, p)
  proceed (escaped, p) next = (escaped, p)

  -- `run_forever` on the readings up to the stop event
  unfoldable pub run_forever : List Reading → AcquisitionPipeline → CycleEnd × AcquisitionPipeline
  run_forever [] p = (returned, p)
  run_forever (r ∷ rs) p = proceed (run_one_cycle r p) (run_forever rs)
