-- ===== src/Datalayer/Retrain/Emission.antt =====
-- What a retraining job that was emitted without force means (datalayer/retrain.py).
use loyiha.Base.{
  ℕ, ◌+◌, ◌≤◌, ◌≡◌, ◌≢◌, refl, ap, inl, inr, false, Option, none, some, List, [], ◌∷◌, ◌++◌, map,
  keep, is_empty, arith, Bool-cases, All, String, subst,
}
use loyiha.Contracts.Common.{Uuid, ThreatCategory}
use loyiha.Datalayer.Labels.{or_else}
use loyiha.Datalayer.Balance.{
  Counts, ClassStats, BalanceReport, trainable_classes, compute_balance_report, class_stats,
  all_categories, total_count, get_count, min_labels_per_class,
}
use loyiha.Datalayer.Retrain.{
  TriggerReason, RetrainThresholds, RetrainJobSpec, Scheduler, in_cooldown, evaluate_triggers,
  spec_of, emit, check_and_emit,
}
use loyiha.Datalayer.Retrain.Triggers.{newly_empty}

-- The thresholds, at a total of labels and a time.
pub record IsDue {W : Type 0} (t : RetrainThresholds) (s : Scheduler W) (total now : ℕ)
    : Type 0 where
  pub enough : t.min_total_labels ≤ total
  pub grown : s.labels_at_last_retrain + t.min_new_labels_since_last ≤ total
  pub cooled : (last : ℕ) → s.last_retrain_at ≡ some last → last + t.min_cooldown ≤ now

module _ {W : Type 0} (q : ℕ → ℕ → W) (counts : Counts) where
  due :
      (t : RetrainThresholds) (s : Scheduler W) (now : ℕ) (r : TriggerReason)
      → evaluate_triggers t s (compute_balance_report q counts) now ≡ some r
      → IsDue t s (total_count counts) now
  unfolding evaluate_triggers compute_balance_report in_cooldown
  due t s now r h = record {
    enough = ground (arith, h, newly_empty q counts);
    grown = ground (arith, h, newly_empty q counts);
    cooled = λ last p. ground (arith, h, p);
  }

  -- every class of a job has its minimum
  ready :
      (cs : List ThreatCategory)
      → All
          (λ c. min_labels_per_class c ≤ get_count counts (some c))
          (map
            (λ (s : ClassStats W). s.category)
            (keep (λ (s : ClassStats W). s.meets_minimum) (map (class_stats q counts) cs)))
  unfolding class_stats
  ready [] = tt
  ready (c ∷ cs) = elim (Bool-cases ((class_stats q counts c).meets_minimum)) [
    | inl p ↦ rw p (ground (arith, p), ready cs)
    | inr p ↦ rw p (ready cs)
  ]

-- What an emitted job says and does: it was due, its classes are there and each has its minimum,
-- it is the one new job file, and the scheduler remembers its total.
pub record IsEmitted {W : Type 0} (t : RetrainThresholds) (counts : Counts) (now : ℕ)
    (s s' : Scheduler W) (spec : RetrainJobSpec W) : Type 0 where
  pub is_due : IsDue t s spec.total_labels now
  pub total : spec.total_labels ≡ total_count counts
  pub some_class : spec.trainable ≢ []
  pub ready : All (λ c. min_labels_per_class c ≤ get_count counts (some c)) spec.trainable
  pub written : s'.jobs ≡ s.jobs ++ (spec ∷ [])
  pub remembered : s'.labels_at_last_retrain ≡ spec.total_labels

module _ {W : Type 0} (q : ℕ → ℕ → W) (uuid4 : Uuid) (clock : ℕ → ℕ) (checkpoint : Option String)
    (t : RetrainThresholds) (counts : Counts) (version : Option String) where
  abbrev report : BalanceReport W
  report = compute_balance_report q counts

  nonempty :
      (ss : List (ClassStats W))
      → is_empty ss ≡ false
      → map (λ (s : ClassStats W). s.category) ss ≢ []
  nonempty [] h e = absurd (ground (arith, h))
  nonempty (x ∷ xs) h e = absurd (ground (arith, e))

  emit-IsEmitted :
      (r : TriggerReason) (s s' : Scheduler W) (spec : RetrainJobSpec W)
      → IsDue t s (total_count counts) (clock 0)
      → emit q uuid4 clock checkpoint report false version (some r) s ≡ (some spec, s')
      → IsEmitted t counts (clock 0) s s' spec
  unfolding emit spec_of compute_balance_report trainable_classes
  emit-IsEmitted r s s' spec d h = elim (Bool-cases (is_empty (trainable_classes report))) [
    | inl p ↦ absurd (ground (arith, h, p))
    | inr p ↦
        let same : _ ≡ spec =
          ap (λ (x : Option (RetrainJobSpec W) × Scheduler W). or_else x.0 spec) (rw p at h) in
        let after : _ ≡ s' =
          ap (λ (x : Option (RetrainJobSpec W) × Scheduler W). x.1) (rw p at h) in
        subst (IsEmitted t counts (clock 0) s s') same (
          subst
            (λ x.
              IsEmitted t counts (clock 0) s x
                (spec_of q uuid4 clock checkpoint report r (or_else version "unversioned")))
            after
            (record {
              is_due = d;
              total = refl;
              some_class = λ e. nonempty (trainable_classes report) p e;
              ready = ready q counts all_categories;
              written = refl;
              remembered = refl;
            }))
  ]

  -- A job emitted without force is due, names only classes that have their minimum, and is the
  -- one job that the check writes.
  pub check_and_emit-IsEmitted :
      (s s' : Scheduler W) (spec : RetrainJobSpec W)
      → check_and_emit q uuid4 clock checkpoint t counts version false s ≡ (some spec, s')
      → IsEmitted t counts (clock 0) s s' spec
  unfolding check_and_emit emit
  check_and_emit-IsEmitted s s' spec h = go (evaluate_triggers t s report (clock 0)) refl h
    where
      go :
          (o : Option TriggerReason)
          → evaluate_triggers t s report (clock 0) ≡ o
          → emit q uuid4 clock checkpoint report false version o s ≡ (some spec, s')
          → IsEmitted t counts (clock 0) s s' spec
      go none p h = absurd (ground (arith, h))
      go (some r) p h = emit-IsEmitted r s s' spec (due q counts t s (clock 0) r p) h

  -- Once a job has been emitted, a second check of the same labels emits none, at whatever time and
  -- for whatever version, if a job needs a new label at all.
  pub emitted_once :
      (uuid4' : Uuid) (clock' : ℕ → ℕ) (version' : Option String) (s s' : Scheduler W)
      (spec : RetrainJobSpec W)
      → 1 ≤ t.min_new_labels_since_last
      → check_and_emit q uuid4 clock checkpoint t counts version false s ≡ (some spec, s')
      → check_and_emit q uuid4' clock' checkpoint t counts version' false s' ≡ (none, s')
  unfolding check_and_emit emit
  emitted_once uuid4' clock' version' s s' spec new h =
      go (evaluate_triggers t s' report (clock' 0)) refl
    where
      w : IsEmitted t counts (clock 0) s s' spec
      w = check_and_emit-IsEmitted s s' spec h

      go :
          (o : Option TriggerReason)
          → evaluate_triggers t s' report (clock' 0) ≡ o
          → emit q uuid4' clock' checkpoint report false version' o s' ≡ (none, s')
      go none p = refl
      go (some r) p =
          let d = due q counts t s' (clock' 0) r p in
          absurd (omega (arith, d.grown, w.remembered, w.total, new))
