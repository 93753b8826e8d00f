-- ===== src/Camera/Motion.antt =====
-- camera/driver.py, `USBCameraDriver`: the reader that takes a snapshot when something has moved into
-- the picture and come to rest. OpenCV is a parameter, as in Camera/Stream; `difference` is the mean
-- difference of two grey images of one shape, in the unit of the threshold. A turn of the loop is
-- one step, since the pending frame changes under the lock.
pub mod Still
pub mod Waiting
use loyiha.Base.{
  ℕ, ◌+◌, ◌-◌, ◌*◌, Bool, true, false, Option, none, some, List, [], ◌∷◌, if◌then◌else◌, leb, ltb,
  Result, ok, raised,
}
use loyiha.Datalayer.Ingestion.{Bytes}
use loyiha.Camera.Stream.{
  Roi, Vision, Read, no_frame, frame_read, Encoded, encoded, refused, encoding_raised, cropped,
  CameraError, camera_not_open, camera_read_failed, camera_timeout, encoding_failed,
}

pub data State : Type 0 where
  idle active stable captured : State

pub record CameraConfig : Type 0 where
  pub roi : Option Roi
  pub motion_thresh : ℕ
  pub stable_frames : ℕ

pub record CameraFrame : Type 0 where
  pub jpeg_bytes : Bytes
  pub size : ℕ × ℕ
  pub captured_at : ℕ
  pub motion_score : ℕ

pub record UsbCameraDriver (I : Type 0) : Type 0 where
  pub state : State
  pub prev_gray : Option I
  pub stable_count : ℕ
  pub best_frame : Option I
  pub pending : Option CameraFrame
  pub pending_event : Bool
  pub reader_alive : Bool

abbrev pub started : {I : Type 0} → UsbCameraDriver I
started = record {
  state = idle;
  prev_gray = none;
  stable_count = 0;
  best_frame = none;
  pending = none;
  pending_event = false;
  reader_alive = true;
}

module _ {I : Type 0} (v : Vision I) (difference : I → I → Option ℕ) (cfg : CameraConfig) where
  abbrev score_or_zero : Option ℕ → ℕ
  score_or_zero none = 0
  score_or_zero (some s) = s

  -- `_motion_score`
  unfoldable pub motion_score : Option I → I → ℕ
  motion_score none image = 0
  motion_score (some before) image = score_or_zero (difference image before)

  abbrev pub framed : ℕ → I → ℕ → Encoded → Result CameraError CameraFrame
  framed now image score (encoded jpeg) =
      ok (record {
        jpeg_bytes = jpeg;
        size = v.shape image;
        captured_at = now;
        motion_score = score;
      })
  framed now image score refused = raised encoding_failed
  framed now image score encoding_raised = raised encoding_failed

  -- `_encode_frame`, which raises on no image
  unfoldable pub encode_frame : ℕ → Option I → ℕ → Result CameraError CameraFrame
  encode_frame now none score = raised encoding_failed
  encode_frame now (some image) score = framed now image score (v.encode image)

  -- the snapshot; an exception ends the thread
  abbrev pub snapshot : Result CameraError CameraFrame → UsbCameraDriver I → UsbCameraDriver I
  snapshot (ok f) d = record d { pending = some f; pending_event = true; state = captured }
  snapshot (raised e) d = record d { reader_alive = false }

  -- the state machine of `_reader_loop`
  unfoldable pub moved : State → ℕ → I → ℕ → UsbCameraDriver I → UsbCameraDriver I
  moved idle now image score d =
      if ltb cfg.motion_thresh score then record d { state = active; stable_count = 0 } else d
  moved active now image score d =
      if leb score cfg.motion_thresh
      then (if leb cfg.stable_frames (d.stable_count + 1)
          then record d {
            best_frame = some image;
            stable_count = d.stable_count + 1;
            state = stable;
          }
          else record d { best_frame = some image; stable_count = d.stable_count + 1 })
      else record d { best_frame = some image; stable_count = 0 }
  moved stable now image score d = snapshot (encode_frame now d.best_frame score) d
  moved captured now image score d =
      if ltb (cfg.motion_thresh * 2) score then record d { state = idle; stable_count = 0 } else d

  -- one turn of `_reader_loop`
  unfoldable pub reader_turn : ℕ → Read I → UsbCameraDriver I → UsbCameraDriver I
  reader_turn now no_frame d = d
  reader_turn now (frame_read image) d =
      let bgr = cropped v cfg.roi image in
      moved d.state now bgr (motion_score d.prev_gray bgr) (record d { prev_gray = some bgr })

  -- a turn of the thread, if it is still there
  abbrev pub thread_turn : ℕ → Read I → UsbCameraDriver I → UsbCameraDriver I
  thread_turn now r d = if d.reader_alive then reader_turn now r d else d

  -- `next_frame` after the wait
  abbrev pub take_pending :
      UsbCameraDriver I → Option CameraFrame → Result CameraError CameraFrame × UsbCameraDriver I
  take_pending d none = (raised camera_read_failed, record d { pending = none })
  take_pending d (some f) = (ok f, record d { pending = none })

  -- the wait: the reader's turns until the event is set, or those before the timeout
  unfoldable pub wait_pending :
      List (ℕ × Read I) → UsbCameraDriver I → Result CameraError CameraFrame × UsbCameraDriver I
  wait_pending [] d = (raised camera_timeout, d)
  wait_pending ((now, r) ∷ rs) d =
      let d' = thread_turn now r d in
      let later = wait_pending rs d' in
      if d'.pending_event then take_pending d' d'.pending else later

  -- `next_frame`
  unfoldable pub next_frame :
      List (ℕ × Read I) → UsbCameraDriver I → Result CameraError CameraFrame × UsbCameraDriver I
  next_frame rs d = wait_pending rs (record d { pending_event = false })

  -- `capture_now`: the first good read of fifteen, each failed one followed by a tenth of a second
  unfoldable pub first_good : ℕ → (ℕ → Read I) → Option I
  first_good ℕ.zero reads = none
  first_good (ℕ.suc n) reads = good (reads (15 - ℕ.suc n)) (first_good n reads)
    where
      good : Read I → Option I → Option I
      good no_frame later = later
      good (frame_read image) later = some image

  unfoldable pub capture_now : Bool → ℕ → (ℕ → Read I) → Result CameraError CameraFrame
  capture_now false now reads = raised camera_not_open
  capture_now true now reads = shot (first_good 15 reads)
    where
      shot : Option I → Result CameraError CameraFrame
      shot none = raised camera_read_failed
      shot (some image) = encode_frame now (some image) 0
