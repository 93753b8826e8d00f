-- ===== src/Datalayer/Retrain/Triggers.antt =====
-- What a retraining job means: the thresholds it waited for, and the trigger that never fires
-- (datalayer/retrain.py).
use loyiha.Base.{
  ℕ, ◌≡◌, ◌≢◌, refl, sym, ap, ◌∙◌, inl, inr, Bool, true, false, not, ◌==◌, any, some, List, [], ◌∷◌,
  map, keep, ==_iff, if◌then◌else◌, arith, Bool-cases,
}
use loyiha.Contracts.Common.{
  ThreatCategory, narcotics, firearm, bladed_weapon, explosive, currency, organic_anomaly,
  metallic_anomaly, contraband_other, unknown,
}
use loyiha.Datalayer.Balance.{
  Counts, ClassStats, trainable_classes, compute_balance_report, class_stats, category_code,
  all_categories,
}
use loyiha.Datalayer.Retrain.{
  new_class_reached_minimum, RetrainThresholds, Scheduler, previously_untrainable, newly_trainable,
  evaluate_triggers,
}

category_of : ℕ → ThreatCategory
category_of n =
    if n == 1
    then narcotics
    else if n == 2
    then firearm
    else if n == 3
    then bladed_weapon
    else if n == 4
    then explosive
    else if n == 5
    then currency
    else if n == 6
    then organic_anomaly
    else if n == 7
    then metallic_anomaly
    else if n == 8
    then contraband_other
    else unknown

category_of-category_code : (c : ThreatCategory) → category_of (category_code c) ≡ c
unfolding category_of
category_of-category_code narcotics = refl
category_of-category_code firearm = refl
category_of-category_code bladed_weapon = refl
category_of-category_code explosive = refl
category_of-category_code currency = refl
category_of-category_code organic_anomaly = refl
category_of-category_code metallic_anomaly = refl
category_of-category_code contraband_other = refl
category_of-category_code unknown = refl

code_eq : (c d : ThreatCategory) → (category_code c == category_code d) ≡ true → c ≡ d
code_eq c d h =
    sym (category_of-category_code c)
    ∙ ap category_of ((==_iff _ _).0 h)
    ∙ category_of-category_code d

module _ {W : Type 0} (q : ℕ → ℕ → W) (counts : Counts) where
  abbrev meets : ThreatCategory → Bool
  meets c = (class_stats q counts c).meets_minimum

  abbrev lacking : List ThreatCategory → List ThreatCategory
  lacking cs =
      map (λ (s : ClassStats W). s.category)
        (keep (λ (s : ClassStats W). not s.meets_minimum) (map (class_stats q counts) cs))

  stats_category : (c : ThreatCategory) → (class_stats q counts c).category ≡ c
  unfolding class_stats
  stats_category c = refl

  -- A class that has its minimum is not among those that lack theirs.
  absent :
      (c : ThreatCategory) (cs : List ThreatCategory)
      → meets c ≡ true
      → any (λ d. category_code d == category_code c) (lacking cs) ≡ false
  absent c [] h = refl
  absent c (d ∷ cs) h = elim (Bool-cases (meets d)) [
    | inl p ↦ rw p (absent c cs h)
    | inr p ↦ elim (Bool-cases (category_code d == category_code c)) [
      | inl e ↦ absurd (ground (arith, p, h, ap meets (code_eq d c e)))
      | inr e ↦ rw (p, stats_category d, e) (absent c cs h)
    ]
  ]

  none_new :
      (us cs : List ThreatCategory)
      → ((c : ThreatCategory)
          → meets c ≡ true
          → any (λ d. category_code d == category_code c) us ≡ false)
      → keep
          (λ (s : ClassStats W). any (λ c. category_code c == category_code s.category) us)
          (keep (λ (s : ClassStats W). s.meets_minimum) (map (class_stats q counts) cs))
        ≡ []
  none_new us [] h = refl
  none_new us (d ∷ cs) h = elim (Bool-cases (meets d)) [
    | inl p ↦ rw (p, stats_category d, h d p) (none_new us cs h)
    | inr p ↦ rw p (none_new us cs h)
  ]

  pub newly_empty : newly_trainable (compute_balance_report q counts) ≡ []
  unfolding newly_trainable previously_untrainable trainable_classes compute_balance_report
  newly_empty = none_new (lacking all_categories) all_categories (λ c. absent c all_categories)

  -- The trigger of a class that reached its minimum never fires: the classes that lacked it before
  -- are read from the same report as those that have it.
  pub never_new_class :
      (t : RetrainThresholds) (s : Scheduler W) (now : ℕ)
      → evaluate_triggers t s (compute_balance_report q counts) now ≢ some new_class_reached_minimum
  unfolding evaluate_triggers
  never_new_class t s now h = ground (arith, h, newly_empty)
