-- ===== src/Camera/Motion/Still.antt =====
-- camera/driver.py: what a snapshot shows.
use loyiha.Base.{
  ℕ, suc, ◌+◌, ◌*◌, ◌≤◌, ◌<◌, ◌≡◌, ◌≢◌, refl, sym, subst, Bool, true, false, ltb, leb, Option, some,
  none, List, [], ◌∷◌, ◌⊎◌, inl, inr, Bool-cases, arith, ok, raised, Result,
}
use loyiha.Camera.Stream.{
  Vision, frame_read, cropped, Encoded, encoded, refused, encoding_raised, CameraError,
}
use loyiha.Camera.Motion.{
  State, idle, active, stable, captured, CameraConfig, CameraFrame, UsbCameraDriver, started,
  motion_score, encode_frame, framed, snapshot, moved, reader_turn,
}

module _ {I : Type 0} (v : Vision I) (difference : I → I → Option ℕ) (cfg : CameraConfig) where
  -- Something moved, and the `n` images after it, which are the last ones, are at rest.
  pub data Rested : ℕ → List (ℕ × I) → Type 0 where
    moving :
        (s : ℕ) (image : I) (h : List (ℕ × I)) → cfg.motion_thresh < s → Rested 0 ((s, image) ∷ h)
    calm :
        (s : ℕ) (image : I) (h : List (ℕ × I)) (n : ℕ)
        → s ≤ cfg.motion_thresh
        → Rested n h
        → Rested (suc n) ((s, image) ∷ h)

  -- The images that the reader has seen, with their scores and the last one first. A caller may
  -- clear the event and take the pending frame at any time.
  pub data Reached : List (ℕ × I) → UsbCameraDriver I → Type 0 where
    begun : Reached [] started
    polled :
        (h : List (ℕ × I)) (d : UsbCameraDriver I) (p : Option CameraFrame) (e : Bool)
        → Reached h d
        → Reached h (record d { pending = p; pending_event = e })
    seen :
        (h : List (ℕ × I)) (d : UsbCameraDriver I) (now : ℕ) (image : I)
        → d.reader_alive ≡ true
        → Reached h d
        → Reached
            ((
              motion_score v difference cfg d.prev_gray (cropped v cfg.roi image),
              cropped v cfg.roi image,
            )
              ∷ h)
            (reader_turn v difference cfg now (frame_read image) d)

  -- The last image is kept, and enough of them are at rest.
  abbrev pub IsStill : List (ℕ × I) → I → Type 0
  IsStill h image =
      (s : ℕ) × (rest : List (ℕ × I)) × (n : ℕ) × (h ≡ (s, image) ∷ rest)
      × Rested n h
      × (cfg.stable_frames ≤ n)

  abbrev Holds : State → List (ℕ × I) → UsbCameraDriver I → Type 0
  Holds idle h d = Unit
  Holds active h d = Rested d.stable_count h
  Holds stable h d = (image : I) × (d.best_frame ≡ some image) × IsStill h image
  Holds captured h d = Unit

  -- or the thread is gone
  abbrev IsKept : List (ℕ × I) → UsbCameraDriver I → Type 0
  IsKept h d = (d.reader_alive ≡ false) ⊎ Holds d.state h d

  snapshot-IsKept :
      (r : Result CameraError CameraFrame) (h : List (ℕ × I)) (d : UsbCameraDriver I)
      → IsKept h (snapshot v difference cfg r d)
  snapshot-IsKept (ok f) h d = inr tt
  snapshot-IsKept (raised e) h d = inl refl

  in_state :
      (st : State) (h : List (ℕ × I)) (d : UsbCameraDriver I)
      → d.state ≡ st
      → Holds st h d
      → IsKept h d
  in_state st h d e k = inr (subst (λ x. Holds x h d) (sym e) k)

  moved-IsKept :
      (st : State) (now : ℕ) (image : I) (s : ℕ) (h : List (ℕ × I)) (d : UsbCameraDriver I)
      → d.state ≡ st
      → Holds st h d
      → IsKept ((s, image) ∷ h) (moved v difference cfg st now image s d)
  unfolding moved
  moved-IsKept idle now image s h d e k = elim (Bool-cases (ltb cfg.motion_thresh s)) [
    | inl p ↦ rw p (inr (moving s image h (ground (arith, p))))
    | inr p ↦ rw p (in_state idle ((s, image) ∷ h) d e tt)
  ]
  moved-IsKept active now image s h d e k = elim (Bool-cases (leb s cfg.motion_thresh)) [
    | inl p ↦
        let rest : Rested (suc d.stable_count) ((s, image) ∷ h) =
          calm s image h d.stable_count (ground (arith, p)) k in
        elim (Bool-cases (leb cfg.stable_frames (d.stable_count + 1))) [
          | inl q ↦
              rw (p, q)
                (inr (image, refl, (s, h, suc d.stable_count, refl, rest, ground (arith, q))))
          | inr q ↦
              rw (p, q)
                (in_state active ((s, image) ∷ h)
                  (record d { best_frame = some image; stable_count = d.stable_count + 1 }) e
                  (subst (λ n. Rested n ((s, image) ∷ h)) (omega arith) rest))
        ]
    | inr p ↦ rw p (
        in_state active ((s, image) ∷ h) (record d { best_frame = some image; stable_count = 0 }) e
          (moving s image h (ground (arith, p))))
  ]
  moved-IsKept stable now image s h d e k = snapshot-IsKept _ ((s, image) ∷ h) d
  moved-IsKept captured now image s h d e k = elim (Bool-cases (ltb (cfg.motion_thresh * 2) s)) [
    | inl p ↦ rw p (inr tt)
    | inr p ↦ rw p (in_state captured ((s, image) ∷ h) d e tt)
  ]

  Reached-IsKept : {h : List (ℕ × I)} {d : UsbCameraDriver I} → Reached h d → IsKept h d
  unfolding reader_turn
  Reached-IsKept begun = inr tt
  Reached-IsKept (polled h d' p e r) = elim (Reached-IsKept r) [
    | inl dead ↦ inl dead
    | inr k ↦ inr (same d'.state k)
  ]
    where
      same :
          (st : State) → Holds st h d' → Holds st h (record d' { pending = p; pending_event = e })
      same idle k = tt
      same active k = k
      same stable k = k
      same captured k = tt
  Reached-IsKept (seen h' d' now image alive r) = elim (Reached-IsKept r) [
    | inl dead ↦ absurd (cc (alive, dead))
    | inr k ↦
        moved-IsKept d'.state now (cropped v cfg.roi image) _ h'
          (record d' { prev_gray = some (cropped v cfg.roi image) }) refl (same d'.state k)
  ]
    where
      same :
          (st : State)
          → Holds st h' d'
          → Holds st h' (record d' { prev_gray = some (cropped v cfg.roi image) })
      same idle k = tt
      same active k = k
      same stable k = k
      same captured k = tt

  -- The turn takes a snapshot, and this is what it shows.
  abbrev pub IsTaken : List (ℕ × I) → UsbCameraDriver I → Type 0
  IsTaken h d =
      (image : I) × (f : CameraFrame) × IsStill h image
      × (d.pending ≡ some f)
      × (v.encode image ≡ encoded f.jpeg_bytes)
      × (f.size ≡ v.shape image)

  framed-IsTaken :
      (c : Encoded) (h : List (ℕ × I)) (d : UsbCameraDriver I) (now : ℕ) (image : I) (s : ℕ)
      → v.encode image ≡ c
      → IsStill h image
      → d.state ≡ stable
      → (snapshot v difference cfg (framed v difference cfg now image s c) d).state ≡ captured
      → IsTaken h (snapshot v difference cfg (framed v difference cfg now image s c) d)
  framed-IsTaken (encoded jpeg) h d now image s p still e t = (image, _, still, refl, p, refl)
  framed-IsTaken refused h d now image s p still e t = cc
  framed-IsTaken encoding_raised h d now image s p still e t = cc

  best-IsTaken :
      (best : Option I) (image : I) (h : List (ℕ × I)) (d : UsbCameraDriver I) (now : ℕ) (s : ℕ)
      → best ≡ some image
      → IsStill h image
      → d.state ≡ stable
      → (snapshot v difference cfg (encode_frame v difference cfg now best s) d).state ≡ captured
      → IsTaken h (snapshot v difference cfg (encode_frame v difference cfg now best s) d)
  unfolding encode_frame
  best-IsTaken none image h d now s p still e t = cc
  best-IsTaken (some best) image h d now s p still e t =
      let same : image ≡ best = cc in
      framed-IsTaken (v.encode best) h d now best s refl (subst (IsStill h) same still) e t

  moved-IsTaken :
      (st : State) (now : ℕ) (image : I) (s : ℕ) (h : List (ℕ × I)) (d : UsbCameraDriver I)
      → d.state ≡ st
      → st ≢ captured
      → Holds st h d
      → (moved v difference cfg st now image s d).state ≡ captured
      → IsTaken h (moved v difference cfg st now image s d)
  unfolding moved
  moved-IsTaken idle now image s h d e new k t = elim (Bool-cases (ltb cfg.motion_thresh s)) [
    | inl p ↦ cc (rw p at t)
    | inr p ↦ cc (e, rw p at t)
  ]
  moved-IsTaken active now image s h d e new k t = elim (Bool-cases (leb s cfg.motion_thresh)) [
    | inl p ↦ elim (Bool-cases (leb cfg.stable_frames (d.stable_count + 1))) [
      | inl q ↦ cc (rw (p, q) at t)
      | inr q ↦ cc (e, rw (p, q) at t)
    ]
    | inr p ↦ cc (e, rw p at t)
  ]
  moved-IsTaken stable now image s h d e new (best, p, still) t =
      best-IsTaken d.best_frame best h d now s p still e t
  moved-IsTaken captured now image s h d e new k t = absurd (new refl)

  -- A turn that takes a snapshot shows the last image before it, encoded, with its size. Before that
  -- image something had moved by more than the threshold, and since then at least `stable_frames`
  -- images in a row, that one included, were at rest.
  pub snapshot-IsStill :
      (h : List (ℕ × I)) (d : UsbCameraDriver I) (now : ℕ) (image : I)
      → Reached h d
      → d.reader_alive ≡ true
      → d.state ≢ captured
      → (reader_turn v difference cfg now (frame_read image) d).state ≡ captured
      → IsTaken h (reader_turn v difference cfg now (frame_read image) d)
  unfolding reader_turn
  snapshot-IsStill h d now image r alive new taken = elim (Reached-IsKept r) [
    | inl dead ↦ absurd (cc (alive, dead))
    | inr k ↦
        moved-IsTaken d.state now (cropped v cfg.roi image) _ h
          (record d { prev_gray = some (cropped v cfg.roi image) }) refl new (same d.state k) taken
  ]
    where
      same :
          (st : State)
          → Holds st h d
          → Holds st h (record d { prev_gray = some (cropped v cfg.roi image) })
      same idle k = tt
      same active k = k
      same stable k = k
      same captured k = tt
