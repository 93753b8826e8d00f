-- ===== src/Camera/Stream.antt =====
-- camera/stream.py, `VideoStreamCapture`: the background reader and what it keeps for the preview and
-- the analysis. OpenCV is a parameter: images of type `I`, their shape, the crop and the JPEG coder.
-- The reader holds the lock while it changes the latest frame, so a turn of its loop is one step.
use loyiha.Base.{
  ℕ, ◌+◌, Bool, true, false, Option, none, some, List, [], ◌∷◌, ◌++◌, if◌then◌else◌, Result, ok,
  raised,
}
use loyiha.Datalayer.Ingestion.{Bytes}

-- (x, y, w, h)
pub record Roi : Type 0 where
  pub x : ℕ
  pub y : ℕ
  pub w : ℕ
  pub h : ℕ

-- `cv2.imencode`: JPEG bytes, a refusal, or an exception, which ends the reader's thread
pub data Encoded : Type 0 where
  encoded : Bytes → Encoded
  refused encoding_raised : Encoded

-- `crop` is numpy's slice, `writes` whether `VideoWriter.write` returns.
pub record Vision (I : Type 0) : Type 0 where
  pub shape : I → ℕ × ℕ
  pub crop : Roi → I → I
  pub encode : I → Encoded
  pub writes : I → Bool

-- `cap.read()`: no frame, or an image that is not empty
pub data Read (I : Type 0) : Type 0 where
  no_frame : Read I
  frame_read : I → Read I

pub data CameraError : Type 0 where
  camera_not_open camera_open_failed camera_read_failed camera_timeout encoding_failed : CameraError

-- The frames that a writer has taken stand for its file.
pub record VideoStreamCapture (I : Type 0) : Type 0 where
  pub roi : Option Roi
  pub record_session : Bool
  pub is_open : Bool
  pub reader_alive : Bool
  pub writer : Option (List I)
  pub latest_bgr : Option I
  pub latest_jpeg : Option Bytes
  pub latest_ts : ℕ
  pub frame_event : Bool
  pub frames_read : ℕ
  pub read_errors : ℕ

abbrev pub cropped : {I : Type 0} → Vision I → Option Roi → I → I
cropped v none image = image
cropped v (some r) image = v.crop r image

abbrev pub written : {I : Type 0} → Vision I → I → Option (List I) → Option (List I)
written v image none = none
written v image (some taken) = some (if v.writes image then taken ++ (image ∷ []) else taken)

module _ {I : Type 0} (v : Vision I) where
  abbrev pub keep_frame : ℕ → I → Option Bytes → VideoStreamCapture I → VideoStreamCapture I
  keep_frame now bgr jpeg c = record c {
    latest_bgr = some bgr;
    latest_jpeg = jpeg;
    latest_ts = now;
    frames_read = c.frames_read + 1;
    writer = written v bgr c.writer;
    frame_event = true;
  }

  -- the lock's block, for an image and its coding
  abbrev pub coded : ℕ → I → Encoded → VideoStreamCapture I → VideoStreamCapture I
  coded now bgr (encoded jpeg) c = keep_frame now bgr (some jpeg) c
  coded now bgr refused c = keep_frame now bgr c.latest_jpeg c
  coded now bgr encoding_raised c = record c { reader_alive = false }

  -- one turn of `_reader_loop`
  unfoldable pub reader_turn : ℕ → Read I → VideoStreamCapture I → VideoStreamCapture I
  reader_turn now no_frame c = record c { read_errors = c.read_errors + 1 }
  reader_turn now (frame_read image) c =
      coded now (cropped v c.roi image) (v.encode (cropped v c.roi image)) c

  -- the turns up to the stop event
  unfoldable pub reader_loop : List (ℕ × Read I) → VideoStreamCapture I → VideoStreamCapture I
  reader_loop [] c = c
  reader_loop ((now, r) ∷ rs) c =
      let more = reader_loop rs (reader_turn now r c) in if c.reader_alive then more else c

  -- `open`: whether the device and the writer open
  unfoldable pub open_stream :
      Bool → Bool → VideoStreamCapture I → Result CameraError (Unit {0}) × VideoStreamCapture I
  open_stream device_opens writer_opens c =
      if device_opens
      then (
        ok tt,
        with_writer writer_opens
            (record c { is_open = true; frame_event = false; reader_alive = true }),
      )
      else (raised camera_open_failed, c)
    where
      with_writer : Bool → VideoStreamCapture I → VideoStreamCapture I
      with_writer opens c =
          if c.record_session
          then record c { writer = if opens then some [] else none; record_session = opens }
          else c

  -- `close`
  unfoldable pub close_stream : VideoStreamCapture I → VideoStreamCapture I
  close_stream c = record c { reader_alive = false; writer = none; is_open = false }

  unfoldable pub latest_frame : VideoStreamCapture I → Option (I × ℕ)
  latest_frame c = stamped c.latest_bgr
    where
      stamped : Option I → Option (I × ℕ)
      stamped none = none
      stamped (some bgr) = some (bgr, c.latest_ts)
