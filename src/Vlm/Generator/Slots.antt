-- ===== src/Vlm/Generator/Slots.antt =====
-- vlm/generator.py: where the text of a rationale comes from, and how often the model is asked.
use loyiha.Base.{
  ℕ, zero, suc, ◌+◌, ◌≤◌, ◌≡◌, refl, ◌⊎◌, inl, inr, Bool, true, false, ◌&&◌, ◌||◌, arith,
  Option-cases, if◌then◌else◌,
}
use loyiha.Contracts.Common.{Text, ImageFrame}
use loyiha.Contracts.Detection.{Detection}
use loyiha.Vlm.Text.{strip}
use loyiha.Vlm.Guard.{check}
use loyiha.Vlm.Guard.Clean.{IsClean, check_iff}
use loyiha.Vlm.Prompts.{FilledSlots, extract_slots}
use loyiha.Vlm.Prompts.Facts.{deterministic_slots}
use loyiha.Vlm.Generator.{
  Generator, attempts, fill_slots, slots_of, choose, fallback_slots, any_non_retryable,
}

-- Both slots may be shown to an operator.
pub record AreClean (g : Generator) (slots : FilledSlots) : Type 0 where
  pub tavsif_clean : IsClean g.unicode (strip (g.unicode.nfkc slots.tavsif))
  pub sabab_clean : IsClean g.unicode (strip (g.unicode.nfkc slots.sabab))
  pub model_text : slots.fallback ≡ false

-- What the loop answers: the template, or slots that the guard passes.
record IsAttempt (g : Generator) (left calls : ℕ) (out : FilledSlots × Bool × ℕ) : Type 0 where
  few : out.2 ≤ calls + left
  judged :
      (out.1 ≡ true)
      ⊎ (((check g.unicode out.0.tavsif).passed ≡ true)
          × ((check g.unicode out.0.sabab).passed ≡ true))

judged-IsAttempt :
    (g : Generator) (left calls : ℕ) (slots : FilledSlots) (p q : Bool)
    → (check g.unicode slots.tavsif).passed ≡ p
    → (check g.unicode slots.sabab).passed ≡ q
    → (final : Bool) (again : FilledSlots × Bool × ℕ) → IsAttempt g left (calls + 1) again
    → IsAttempt g (suc left) calls (
        if p && q
        then (slots, false, calls + 1)
        else if final
        then (fallback_slots, true, calls + 1)
        else again)
judged-IsAttempt g left calls slots true true hp hq final again ih = record {
  few = omega arith;
  judged = inr (hp, hq);
}
judged-IsAttempt g left calls slots true false hp hq true again ih = record {
  few = omega arith;
  judged = inl refl;
}
judged-IsAttempt g left calls slots true false hp hq false again ih = record {
  few = omega (arith, ih.few);
  judged = ih.judged;
}
judged-IsAttempt g left calls slots false q hp hq true again ih = record {
  few = omega arith;
  judged = inl refl;
}
judged-IsAttempt g left calls slots false q hp hq false again ih = record {
  few = omega (arith, ih.few);
  judged = ih.judged;
}

attempts-IsAttempt :
    (g : Generator) (left : ℕ) (prompt : Text) (calls : ℕ)
    → IsAttempt g left calls (attempts g left prompt calls)
unfolding attempts
attempts-IsAttempt g zero prompt calls = record { few = omega arith; judged = inl refl }
attempts-IsAttempt g (suc left) prompt calls =
    let ih = attempts-IsAttempt g left prompt (calls + 1) in
    elim (Option-cases (g.services.generate calls prompt)) [
      | inl e ↦ rw e (record { few = omega arith; judged = inl refl })
      | inr (raw, e) ↦
          let slots = extract_slots g.unicode raw in
          rw e (
            judged-IsAttempt g left calls slots (check g.unicode slots.tavsif).passed
              (check g.unicode slots.sabab).passed refl refl
              (any_non_retryable (check g.unicode slots.tavsif)
                || any_non_retryable (check g.unicode slots.sabab))
              (attempts g left prompt (calls + 1)) ih)
    ]

clean :
    (g : Generator) (slots : FilledSlots)
    → slots.fallback ≡ false
    → (false ≡ true)
      ⊎ (((check g.unicode slots.tavsif).passed ≡ true)
          × ((check g.unicode slots.sabab).passed ≡ true))
    → AreClean g slots
clean g slots e (inl h) = cc
clean g slots e (inr (p, q)) = record {
  tavsif_clean = (check_iff g.unicode slots.tavsif).0 p;
  sabab_clean = (check_iff g.unicode slots.sabab).0 q;
  model_text = e;
}

picked :
    (g : Generator) (facts slots : FilledSlots)
    → (false ≡ true)
      ⊎ (((check g.unicode slots.tavsif).passed ≡ true)
          × ((check g.unicode slots.sabab).passed ≡ true))
    → (b : Bool) → slots.fallback ≡ b
    → ((if b then facts else slots) ≡ facts) ⊎ AreClean g (if b then facts else slots)
picked g facts slots j true e = inl refl
picked g facts slots j false e = inr (clean g slots e j)

-- The slots of a rationale are those of the model only if both pass the guard, and otherwise state
-- the detector's facts alone. The model is asked at most twice, and not at all when its
-- descriptions are switched off.
pub slots_of_lem :
    (g : Generator) (d : Detection) (frame : ImageFrame) (calls : ℕ)
    → (((slots_of g d frame calls).0
          ≡ deterministic_slots g.floats d frame.width_px frame.height_px)
        ⊎ AreClean g (slots_of g d frame calls).0)
      × ((slots_of g d frame calls).1 ≤ calls + 2)
      × (g.describe ≡ false → (slots_of g d frame calls).1 ≡ calls)
unfolding slots_of fill_slots
slots_of_lem g d frame calls =
    chosen g.describe _ (attempts g 2 _ calls) (attempts-IsAttempt g 2 _ calls)
  where
    chosen :
        (on : Bool) (facts : FilledSlots) (out : FilledSlots × Bool × ℕ)
        → IsAttempt g 2 calls out
        → (((choose on facts out calls).0 ≡ facts) ⊎ AreClean g (choose on facts out calls).0)
          × ((choose on facts out calls).1 ≤ calls + 2)
          × (on ≡ false → (choose on facts out calls).1 ≡ calls)
    chosen false facts out w = (inl refl, omega arith, λ h. refl)
    chosen true facts (slots, true, n) w = (inl refl, w.few, λ h. cc)
    chosen true facts (slots, false, n) w =
        (picked g facts slots w.judged slots.fallback refl, w.few, λ h. cc)
