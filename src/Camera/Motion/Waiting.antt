-- ===== src/Camera/Motion/Waiting.antt =====
-- camera/driver.py: what `next_frame` waits for.
use loyiha.Base.{
  ℕ, ◌*◌, ◌≤◌, ◌≡◌, refl, ap, ◌∙◌, Bool, true, false, Option, some, List, [], ◌∷◌, arith,
  if◌then◌else◌, raised, Result, subst,
}
use loyiha.Camera.Stream.{Vision, Read, no_frame, frame_read, cropped, CameraError, camera_timeout}
use loyiha.Camera.Motion.{
  State, captured, CameraConfig, CameraFrame, UsbCameraDriver, motion_score, moved, reader_turn,
  thread_turn, wait_pending, next_frame,
}

module _ {I : Type 0} (v : Vision I) (difference : I → I → Option ℕ) (cfg : CameraConfig) where
  -- No image differs from the one before it by more than twice the threshold.
  abbrev pub IsQuiet : Option I → List (ℕ × Read I) → Type 0
  IsQuiet prev [] = Unit
  IsQuiet prev ((now, no_frame) ∷ rs) = IsQuiet prev rs
  IsQuiet prev ((now, frame_read image) ∷ rs) =
      (motion_score v difference cfg prev (cropped v cfg.roi image) ≤ cfg.motion_thresh * 2)
      × IsQuiet (some (cropped v cfg.roi image)) rs

  moved_quiet :
      (st : State) (now : ℕ) (image : I) (s : ℕ) (d : UsbCameraDriver I)
      → st ≡ captured
      → s ≤ cfg.motion_thresh * 2
      → moved v difference cfg st now image s d ≡ d
  unfolding moved
  moved_quiet captured now image s d e low = ground (arith, low)
  moved_quiet _ now image s d e low = cc

  wait_step :
      (now : ℕ) (r : Read I) (rs : List (ℕ × Read I)) (d x : UsbCameraDriver I)
      → thread_turn v difference cfg now r d ≡ x
      → x.pending_event ≡ false
      → wait_pending v difference cfg ((now, r) ∷ rs) d ≡ wait_pending v difference cfg rs x
  unfolding wait_pending
  wait_step now r rs d x e =
      subst
        (λ y.
          y.pending_event ≡ false
          → wait_pending v difference cfg ((now, r) ∷ rs) d ≡ wait_pending v difference cfg rs y)
        e (λ off. unset _ _ _ off)
    where
      unset :
          (b : Bool) (p q : Result CameraError CameraFrame × UsbCameraDriver I)
          → b ≡ false
          → (if b then p else q) ≡ q
      unset true p q e = cc
      unset false p q e = refl

  alive_turn :
      (now : ℕ) (r : Read I) (d x : UsbCameraDriver I)
      → d.reader_alive ≡ true
      → reader_turn v difference cfg now r d ≡ x
      → thread_turn v difference cfg now r d ≡ x
  alive_turn now r d x alive e = on d.reader_alive alive
    where
      on : (b : Bool) → b ≡ true → (if b then reader_turn v difference cfg now r d else d) ≡ x
      on true p = e
      on false p = cc

  wait_quiet :
      (rs : List (ℕ × Read I)) (d : UsbCameraDriver I)
      → d.state ≡ captured
      → d.reader_alive ≡ true
      → d.pending_event ≡ false
      → IsQuiet d.prev_gray rs
      → (wait_pending v difference cfg rs d).0 ≡ raised camera_timeout
  unfolding reader_turn
  wait_quiet [] d e alive off q = unfold wait_pending in refl
  wait_quiet ((now, no_frame) ∷ rs) d e alive off q =
      ap (λ x. x.0) (wait_step now no_frame rs d d (alive_turn now no_frame d d alive refl) off)
      ∙ wait_quiet rs d e alive off q
  wait_quiet ((now, frame_read image) ∷ rs) d e alive off (low, q) =
      let d' : UsbCameraDriver I = record d { prev_gray = some (cropped v cfg.roi image) } in
      let turned =
        alive_turn now (frame_read image) d d' alive (moved_quiet d.state now _ _ d' e low) in
      ap (λ x. x.0) (wait_step now (frame_read image) rs d d' turned off)
      ∙ wait_quiet rs d' e alive off q

  -- A snapshot that was taken before the call is not returned: the call clears the event, and while
  -- nothing moves by more than twice the threshold it ends with a timeout, whatever is pending.
  pub next_frame-timeout :
      (rs : List (ℕ × Read I)) (d : UsbCameraDriver I)
      → d.state ≡ captured
      → d.reader_alive ≡ true
      → IsQuiet d.prev_gray rs
      → (next_frame v difference cfg rs d).0 ≡ raised camera_timeout
  unfolding next_frame
  next_frame-timeout rs d e alive q =
      wait_quiet rs (record d { pending_event = false }) e alive refl q
