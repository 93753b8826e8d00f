-- ===== src/Vlm/Prompts/Request.antt =====
-- vlm/prompts.py: the message that asks the model to fill the two slots.
use loyiha.Base.{ℕ, Bool, true, false, ◌++◌}
use loyiha.Contracts.Common.{Text, codes}
use loyiha.Contracts.Detection.{Detection}
use loyiha.Vlm.Prompts.{Floats, category_uz, decimal}

abbrev pair : Text → ℕ → Text → ℕ → Text
pair opening a between b = opening ++ decimal a ++ between ++ decimal b

abbrev image_line : Detection → ℕ → ℕ → Bool → Bool → Text
image_line d frame_w frame_h false full_frame =
    pair (codes "Rasm mavjud emas. Kadr oʻlchami: ") frame_w (codes "×") frame_h ++ codes " px."
image_line d frame_w frame_h true true =
    pair (codes "Yuqoridagi rasm — BUTUN kadr (") frame_w (codes "×") frame_h
    ++ pair (codes " px). Aniqlangan hudud: (") d.box.x (codes ",") d.box.y
    ++ pair (codes ") nuqtadan boshlab ") d.box.width (codes "×") d.box.height
    ++ codes " px. Faqat shu hududdagi narsani tasvirlang."
image_line d frame_w frame_h true false =
    codes "Yuqoridagi rasm — aniqlanagan hududning kesib olingan tasvirI."

unfoldable pub build_slot_prompt : Floats → Detection → ℕ → ℕ → Bool → Bool → Text
build_slot_prompt fl d frame_w frame_h has_image full_frame =
    codes "Detektor quyidagini aniqladi:\n  Toifa: "
    ++ category_uz d.category
    ++ codes "\n  Ishonch: "
    ++ decimal (fl.percent d.score)
    ++ pair (codes "%\n  Joylashuv: (") d.box.x (codes ",") d.box.y
    ++ pair (codes "), oʻlcham ") d.box.width (codes "×") d.box.height
    ++ codes " px\n\n"
    ++ image_line d frame_w frame_h has_image full_frame
    ++ codes "\n\nQuyidagi maydonlarni FAQAT OZBEK TILIDA (lotin yozuvi) toʻldiring:\n\n"
    ++ codes "TAVSIF: [rasmda koʻrinayotgan narsani 1–3 gap bilan tasvirlab bering]\n"
    ++ codes "SABAB: [nima uchun bu hudud diqqatni tortishini 1–2 gapda tushuntiring]\n\n"
    ++ codes "Faqat TAVSIF va SABAB qatorlarini toʻldiring. Boshqa hech narsa yozmang."
