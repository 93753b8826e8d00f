-- ===== src/Witnesses/Pipeline.antt =====
-- A pipeline whose API refuses the first POST, with a bundle that comes twice.
use loyiha.Base.{◌==◌, ◌≡◌, refl, some, [], ◌∷◌, if◌then◌else◌, length, arith}
use loyiha.Acquisition.Pipeline.{
  ScanBundle, bundle, scanner_unavailable, unexpected, status, transport_error, returned,
  AcquisitionPipeline, Wiring, run_one_cycle, run_forever,
}
use loyiha.Acquisition.Pipeline.Repeat.{IsCounted, run_forever-IsCounted, repeat_ignored}
use loyiha.Witnesses.Detector.{side_view, lane, keep}

abbrev side : ScanBundle
side = record { frames = side_view ∷ []; fidelity_notes = some "8-bit grey" ∷ [] }

abbrev wiring : Wiring
wiring = record {
  cfg = lane;
  digest = λ frames. length frames;
  put = keep;
  frame_id = λ scan i label. label;
  trim = λ text. text;
  uuid4 = λ n. n;
  clock = λ n. n;
  post = λ n a. if n == 0 then transport_error else status 202;
  api_retries = 3;
  second = 1000;
}

abbrev fresh : AcquisitionPipeline
fresh = record {
  stats = record { scans_ingested = 0; scans_posted = 0; scans_failed = 0; api_retries = 0 };
  seen_hashes = [];
  stored = [];
  posts = 0;
  sleeps = [];
}

run_forever-IsCounted_example :
    IsCounted
      (run_forever wiring
        (bundle side ∷ unexpected ∷ bundle side ∷ scanner_unavailable ∷ [])
        fresh).1
run_forever-IsCounted_example =
    run_forever-IsCounted wiring (bundle side ∷ unexpected ∷ bundle side ∷ scanner_unavailable ∷ [])
      fresh
      (record {
        ingested_at_most = omega arith;
        ends_at_most = omega arith;
        posts_at_most = omega arith;
      })

repeat_ignored_example :
    run_one_cycle wiring
      (bundle side)
      (run_forever wiring (unexpected ∷ []) (run_one_cycle wiring (bundle side) fresh).1).1
    ≡ (
      returned,
      (run_forever wiring (unexpected ∷ []) (run_one_cycle wiring (bundle side) fresh).1).1,
    )
repeat_ignored_example = repeat_ignored wiring side side (unexpected ∷ []) fresh refl
