-- ===== src/Contracts/Detection/Frames.antt =====
-- Looking up a frame by its id in a message (contracts/v1/detection.py), and fitting a box into it.
use loyiha.Base.{
  ◌+◌, ◌≤◌, ◌≡◌, refl, sym, ap, ◌↔◌, inl, inr, true, Option, none, some, List, [], ◌∷◌, String,
  str_eq, eq_iff, arith, In, IsDistinct, Bool-cases, ok,
}
use loyiha.Contracts.Common.{ImageFrame, PixelBox, fits_within}
use loyiha.Contracts.Detection.{frame_by_id, frame_check, frame_ids, ContractError}

-- The box lies inside the frame's pixels.
pub record Fits (b : PixelBox) (f : ImageFrame) : Type 0 where
  pub right : b.x + b.width ≤ f.width_px
  pub bottom : b.y + b.height ≤ f.height_px

pub fits_within_iff : (b : PixelBox) (f : ImageFrame) → (fits_within b f ≡ true) ↔ Fits b f
unfolding fits_within
fits_within_iff b f = (
  λ h. record { right = ground arith; bottom = ground arith },
  λ h. ground (arith, h.right, h.bottom),
)

-- Some frame of the message has this id and holds the box.
pub record IsPlaced (frames : List ImageFrame) (frame_id : String) (box : PixelBox) : Type 0 where
  pub frame : ImageFrame
  pub listed : In frame frames
  pub named : frame.frame_id ≡ frame_id
  pub fits : Fits box frame

pub frame_by_id-In :
    (frames : List ImageFrame) (frame_id : String) {f : ImageFrame}
    → frame_by_id frames frame_id ≡ some f
    → In f frames × (f.frame_id ≡ frame_id)
unfolding frame_by_id
frame_by_id-In [] frame_id h = cc
frame_by_id-In (g ∷ gs) frame_id {f} h = elim (Bool-cases (str_eq g.frame_id frame_id)) [
  | inl p ↦
      let e : g ≡ f = ground (arith, h, p) in
      (inl (sym e), rw (← e) ((eq_iff g.frame_id frame_id).0 p))
  | inr p ↦ let (i, q) = frame_by_id-In gs frame_id (rw p at h) in (inr i, q)
]

pub In-frame_ids :
    (frames : List ImageFrame) (f : ImageFrame) → In f frames → In f.frame_id (frame_ids frames)
In-frame_ids [] f i = absurd i
In-frame_ids (g ∷ gs) f (inl e) = inl (ap (λ (x : ImageFrame). x.frame_id) e)
In-frame_ids (g ∷ gs) f (inr i) = inr (In-frame_ids gs f i)

pub frame_by_id-found :
    (frames : List ImageFrame) (f : ImageFrame)
    → IsDistinct (frame_ids frames)
    → In f frames
    → frame_by_id frames f.frame_id ≡ some f
unfolding frame_by_id
frame_by_id-found [] f d i = absurd i
frame_by_id-found (g ∷ gs) f d (inl e) =
    rw ((eq_iff g.frame_id f.frame_id).1 (ap (λ (x : ImageFrame). x.frame_id) (sym e)))
      (ap some (sym e))
frame_by_id-found (g ∷ gs) f d (inr i) = elim (Bool-cases (str_eq g.frame_id f.frame_id)) [
  | inl p ↦ absurd (d.0 (rw ((eq_iff g.frame_id f.frame_id).0 p) (In-frame_ids gs f i)))
  | inr p ↦ rw p (frame_by_id-found gs f d.1 i)
]

-- On distinct frame ids the check of one box passes exactly when the box is placed.
pub frame_check_iff :
    (frames : List ImageFrame) (frame_id : String) (box : PixelBox) (e₁ e₂ : ContractError)
    → IsDistinct (frame_ids frames)
    → (frame_check (frame_by_id frames frame_id) box e₁ e₂ ≡ ok tt) ↔ IsPlaced frames frame_id box
frame_check_iff frames frame_id box e₁ e₂ d = (sound (frame_by_id frames frame_id) refl, complete)
  where
    sound :
        (o : Option ImageFrame)
        → frame_by_id frames frame_id ≡ o
        → frame_check o box e₁ e₂ ≡ ok tt
        → IsPlaced frames frame_id box
    sound none p h = unfold frame_check in cc
    sound (some f) p h = record {
      frame = f;
      listed = (frame_by_id-In frames frame_id p).0;
      named = (frame_by_id-In frames frame_id p).1;
      fits = (fits_within_iff box f).0 (unfold frame_check in ground (arith, h));
    }

    complete :
        IsPlaced frames frame_id box → frame_check (frame_by_id frames frame_id) box e₁ e₂ ≡ ok tt
    complete w =
        rw (← w.named, frame_by_id-found frames w.frame d w.listed)
          (unfold frame_check in rw ((fits_within_iff box w.frame).1 w.fits))
