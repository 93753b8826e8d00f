-- ===== src/Vlm/Prompts/Facts.antt =====
-- vlm/prompts.py: the slots built from the detector's facts alone.
use loyiha.Base.{ℕ, ◌*◌, ◌^◌, true, ◌==◌, ltb, leb, ◌++◌, if◌then◌else◌}
use loyiha.Contracts.Common.{Text, codes, Score, PixelBox}
use loyiha.Contracts.Detection.{Detection}
use loyiha.Vlm.Prompts.{
  Floats, FilledSlots, category_uz, decimal, is_high_risk, high_threshold, medium_threshold,
}

-- Which third of the frame the centre of a box lies in.
pub data Third : Type 0 where
  first middle last : Third

abbrev half : Score
half = 18014398509481984 * 2 ^ 1019

-- the centre against 0.34 and 0.66; 0.5 for a frame without pixels
unfoldable pub third : Floats → ℕ → ℕ → ℕ → Third
third fl start extent size =
    let c = if size == 0 then half else fl.centre start extent size in
    if ltb c (12249790986447750 * 2 ^ 1019)
    then first
    else if ltb (23779006032516220 * 2 ^ 1019) c
    then last
    else middle

abbrev position_of : Third → Third → Text
position_of middle middle = codes "markaziy qismida"
position_of middle first = codes "yuqori qismida"
position_of middle last = codes "quyi qismida"
position_of first middle = codes "chap tomonida"
position_of last middle = codes "oʻng tomonida"
position_of first first = codes "yuqori chap burchagida"
position_of first last = codes "quyi chap burchagida"
position_of last first = codes "yuqori oʻng burchagida"
position_of last last = codes "quyi oʻng burchagida"

unfoldable pub position_uz : Floats → PixelBox → ℕ → ℕ → Text
position_uz fl box frame_w frame_h =
    position_of (third fl box.x box.width frame_w) (third fl box.y box.height frame_h)

-- the share of the frame against 0.05 and 0.20
unfoldable pub size_uz : Floats → PixelBox → ℕ → ℕ → Text
size_uz fl box frame_w frame_h =
    let whole = frame_w * frame_h in
    let frac = fl.quotient (box.width * box.height) (if whole == 0 then 1 else whole) in
    if ltb frac (3602879701896397 * 2 ^ 1018)
    then codes "kichik"
    else if ltb (7205759403792794 * 2 ^ 1019) frac
    then codes "katta"
    else codes "oʻrta"

unfoldable pub confidence_uz : Score → Text
confidence_uz score =
    if leb high_threshold score
    then codes "yuqori"
    else if leb medium_threshold score
    then codes "oʻrta"
    else codes "past"

unfoldable pub deterministic_slots : Floats → Detection → ℕ → ℕ → FilledSlots
deterministic_slots fl d frame_w frame_h = record {
  tavsif =
      codes "Kadrning "
      ++ position_uz fl d.box frame_w frame_h
      ++ codes " "
      ++ size_uz fl d.box frame_w frame_h
      ++ codes " oʻlchamli, "
      ++ category_uz d.category
      ++ codes "ga oʻxshash obyekt aniqlandi (detektor ishonchi "
      ++ confidence_uz d.score
      ++ codes ", "
      ++ decimal (fl.percent d.score)
      ++ codes "%).";
  sabab =
      if is_high_risk d.category
      then (codes "Aniqlangan "
          ++ category_uz d.category
          ++ codes " yuqori xavfli toifaga kiradi va majburiy operator tekshiruvini talab qiladi.")
      else (codes "Aniqlangan "
          ++ category_uz d.category
          ++ codes
              " avtomatik tarzda shubhali deb belgilandi; operator vizual tekshiruvi tavsiya etiladi.");
  fallback = true;
}
