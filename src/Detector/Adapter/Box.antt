-- ===== src/Detector/Adapter/Box.antt =====
-- detector/serving/adapter.py: a box that `_legal_box` lets through lies in its frame.
use loyiha.Base.{
  ℕ, ◌+◌, ◌≤◌, ◌<◌, ◌≡◌, Option, some, arith, Option-cases, inl, inr, ok, >>=-eq-ok, ok_inj,
}
use loyiha.Contracts.Common.{ImageFrame, PixelBox}
use loyiha.Contracts.Detection.Frames.{Fits}
use loyiha.Detector.Adapter.{
  ℤ, pos, negsuc, clamp, box_of, legal_box, RawDetection, WeaponsDetector,
}

clamp_inside :
    (size : ℕ) (lo hi : ℤ) (x n : ℕ) → clamp size lo hi ≡ some (x, n) → (x + n ≤ size) × (0 < n)
unfolding clamp
clamp_inside size lo (negsuc h) x n e = cc
clamp_inside size (negsuc l) (pos h) x n e = ground (arith, e)
clamp_inside size (pos l) (pos h) x n e = ground (arith, e)

pub box_of-Fits :
    (frame : ImageFrame) (x1 x2 y1 y2 : ℤ) (b : PixelBox)
    → box_of (clamp frame.width_px x1 x2) (clamp frame.height_px y1 y2) ≡ some b
    → Fits b frame × (0 < b.width) × (0 < b.height)
box_of-Fits frame x1 x2 y1 y2 b e = elim (Option-cases (clamp frame.width_px x1 x2)) [
  | inl h ↦ cc (rw h at e)
  | inr ((x, w), h) ↦ elim (Option-cases (clamp frame.height_px y1 y2)) [
    | inl k ↦ cc (rw (h, k) at e)
    | inr ((y, v), k) ↦
        let (inx, posx) = clamp_inside frame.width_px x1 x2 x w h in
        let (iny, posy) = clamp_inside frame.height_px y1 y2 y v k in
        let same : ◌≡◌ {A = Option PixelBox} (some (record { x = x; y = y; width = w; height = v }))
            (some b) =
          rw (h, k) at e in
        rw (← some_inj same) (record { right = inx; bottom = iny }, posx, posy)
  ]
]
  where
    some_inj : {p q : PixelBox} → some p ≡ some q → p ≡ q
    some_inj h = cc

-- A raw box is kept only as a box with positive sides inside its frame.
pub legal_box-Fits :
    {F : Type 0} (w : WeaponsDetector F) (raw : RawDetection F) (frame : ImageFrame) (b : PixelBox)
    → legal_box w raw frame ≡ ok (some b)
    → Fits b frame × (0 < b.width) × (0 < b.height)
unfolding legal_box
legal_box-Fits w raw frame b h =
    let (x1, e1, h1) = >>=-eq-ok (w.numbers.rounded _) _ h in
    let (y1, e2, h2) = >>=-eq-ok (w.numbers.rounded _) _ h1 in
    let (x2, e3, h3) = >>=-eq-ok (w.numbers.rounded _) _ h2 in
    let (y2, e4, h4) = >>=-eq-ok (w.numbers.rounded _) _ h3 in
    box_of-Fits frame x1 x2 y1 y2 b (ok_inj h4)
