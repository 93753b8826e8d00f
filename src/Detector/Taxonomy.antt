-- ===== src/Detector/Taxonomy.antt =====
-- detector/taxonomy.py: from the labels of a model to the shared categories. The warning that is
-- logged for a label outside the tables is left out.
use loyiha.Base.{
  ◌≡◌, ◌≢◌, refl, ◌⊎◌, inl, inr, Option, none, some, List, [], ◌∷◌, if◌then◌else◌, Result, ok,
  raised, Bool-cases, String, str_eq,
}
use loyiha.Contracts.Common.{
  Text, codes, ThreatCategory, firearm, bladed_weapon, metallic_anomaly, unknown,
}
use loyiha.Vlm.Text.{Unicode, text_eq, strip}

-- a dictionary by its items, each key once
abbrev pub look_up : List (String × String) → Text → Option String
look_up [] key = none
look_up ((k, v) ∷ items) key =
    let rest = look_up items key in if text_eq (codes k) key then some v else rest

-- `_NATIVE_ALIASES`
abbrev pub native_aliases : List (String × String)
native_aliases =
    ("gun", "gun")
    ∷ ("pistol", "gun")
    ∷ ("revolver", "gun")
    ∷ ("firearm", "gun")
    ∷ ("handgun", "gun")
    ∷ ("rifle", "gun")
    ∷ ("knife", "knife")
    ∷ ("folding_knife", "knife")
    ∷ ("straight_knife", "knife")
    ∷ ("utility_knife", "knife")
    ∷ ("multi-tool_knife", "knife")
    ∷ ("multi_tool_knife", "knife")
    ∷ ("blade", "knife")
    ∷ ("scissors", "scissors")
    ∷ ("scissor", "scissors")
    ∷ ("wrench", "wrench")
    ∷ ("spanner", "wrench")
    ∷ ("pliers", "pliers")
    ∷ ("plier", "pliers")
    ∷ ("hammer", "hammer")
    ∷ []

-- `_CLASS_TO_CATEGORY`
unfoldable pub class_to_category : String → Option ThreatCategory
class_to_category c =
    if str_eq c "gun"
    then some firearm
    else if str_eq c "knife"
    then some bladed_weapon
    else if str_eq c "scissors"
    then some bladed_weapon
    else if str_eq c "wrench"
    then some metallic_anomaly
    else if str_eq c "pliers"
    then some metallic_anomaly
    else if str_eq c "hammer"
    then some metallic_anomaly
    else none

unfoldable pub normalize_native : Unicode → Text → Option String
normalize_native u raw_label = look_up native_aliases (u.lower (strip raw_label))

-- `_CLASS_TO_CATEGORY[unified]` of a class outside the table
pub data KeyError : Type 0 where
  key_error : KeyError

abbrev pub category_of : Option ThreatCategory → Result KeyError ThreatCategory
category_of none = raised key_error
category_of (some c) = ok c

abbrev pub of_unified : Option String → Result KeyError ThreatCategory
of_unified none = ok unknown
of_unified (some unified) = category_of (class_to_category unified)

unfoldable pub to_category : Unicode → Text → Result KeyError ThreatCategory
to_category u native_label = of_unified (normalize_native u native_label)

-- The class has a category of its own.
abbrev IsMapped : String → Type 0
IsMapped v = (c : ThreatCategory) × (class_to_category v ≡ some c) × (c ≢ unknown)

abbrev AreMapped : List (String × String) → Type 0
AreMapped [] = Unit
AreMapped ((k, v) ∷ items) = IsMapped v × AreMapped items

look_up-AreMapped :
    (items : List (String × String)) (key : Text)
    → AreMapped items
    → (look_up items key ≡ none) ⊎ ((v : String) × (look_up items key ≡ some v) × IsMapped v)
look_up-AreMapped [] key h = inl refl
look_up-AreMapped ((k, v) ∷ items) key h = elim (Bool-cases (text_eq (codes k) key)) [
  | inl e ↦ rw e (inr (v, refl, h.0))
  | inr e ↦ rw e (look_up-AreMapped items key h.1)
]

native_aliases-AreMapped : AreMapped native_aliases
unfolding class_to_category
native_aliases-AreMapped =
    let gun : IsMapped "gun" = (firearm, refl, λ e. cc) in
    let knife : IsMapped "knife" = (bladed_weapon, refl, λ e. cc) in
    let scissors : IsMapped "scissors" = (bladed_weapon, refl, λ e. cc) in
    let wrench : IsMapped "wrench" = (metallic_anomaly, refl, λ e. cc) in
    let pliers : IsMapped "pliers" = (metallic_anomaly, refl, λ e. cc) in
    let hammer : IsMapped "hammer" = (metallic_anomaly, refl, λ e. cc) in
    (
      gun,
      (
        gun,
        (
          gun,
          (
            gun,
            (
              gun,
              (
                gun,
                (
                  knife,
                  (
                    knife,
                    (
                      knife,
                      (
                        knife,
                        (
                          knife,
                          (
                            knife,
                            (
                              knife,
                              (
                                scissors,
                                (scissors, (wrench, (wrench, (pliers, (pliers, (hammer, tt)))))),
                              ),
                            ),
                          ),
                        ),
                      ),
                    ),
                  ),
                ),
              ),
            ),
          ),
        ),
      ),
    )

-- Every label of the model gets a category, and no lookup fails: the category is UNKNOWN exactly for
-- a label that is not in the table of aliases.
pub to_category-ends :
    (u : Unicode) (label : Text)
    → ((normalize_native u label ≡ none) × (to_category u label ≡ ok unknown))
      ⊎ ((normalize_native u label ≢ none)
          × ((c : ThreatCategory) × (to_category u label ≡ ok c) × (c ≢ unknown)))
unfolding to_category normalize_native
to_category-ends u label =
    elim (look_up-AreMapped native_aliases (u.lower (strip label)) native_aliases-AreMapped) [
      | inl e ↦ rw e (inl (refl, refl))
      | inr (v, e, (c, mapped, known)) ↦ rw (e, mapped) (inr (λ h. cc, (c, refl, known)))
    ]
