-- ===== src/Datalayer/Retrain.antt =====
-- datalayer/retrain.py: when a retraining job is emitted. Times are numbers of ticks, and `clock n`
-- is what the n-th call of `datetime.now` returns; `uuid4` is the id of the job.
-- The advisory fields of a job, which are constants, are left out.
pub mod Triggers
pub mod Emission
use loyiha.Base.{
  ℕ, ◌+◌, Bool, true, false, not, ◌&&◌, ◌||◌, ◌==◌, leb, ltb, any, Option, none, some, List, [],
  ◌∷◌, ◌++◌, String, map, keep, is_empty, if◌then◌else◌,
}
use loyiha.Contracts.Common.{Uuid, ThreatCategory}
use loyiha.Datalayer.Labels.{or_else}
use loyiha.Datalayer.Balance.{
  Counts, ClassStats, BalanceReport, trainable_classes, compute_balance_report, category_code,
}

pub data TriggerReason : Type 0 where
  new_class_reached_minimum delta_threshold_reached manual_override : TriggerReason

pub record RetrainThresholds : Type 0 where
  pub min_new_labels_since_last : ℕ
  pub min_cooldown : ℕ
  pub min_total_labels : ℕ

pub record RetrainJobSpec (W : Type 0) : Type 0 where
  pub spec_id : Uuid
  pub dataset_version_tag : String
  pub triggered_by : TriggerReason
  pub trainable : List ThreatCategory
  pub sample_weights : List (ThreatCategory × W)
  pub total_labels : ℕ
  pub per_class_counts : List (ThreatCategory × ℕ)
  pub created_at : ℕ
  pub base_checkpoint : Option String

-- The fields of a `RetrainScheduler` that change, and the job files that it wrote.
pub record Scheduler (W : Type 0) : Type 0 where
  pub last_retrain_at : Option ℕ
  pub labels_at_last_retrain : ℕ
  pub jobs : List (RetrainJobSpec W)

-- the test `elapsed < cooldown`, of the time since the last job
unfoldable pub in_cooldown : RetrainThresholds → Option ℕ → ℕ → Bool
in_cooldown t none now = false
in_cooldown t (some last) now = ltb now (last + t.min_cooldown)

module _ {W : Type 0} where
  -- `{s.category for s in balance.per_class if not s.meets_minimum}`
  unfoldable pub previously_untrainable : BalanceReport W → List ThreatCategory
  previously_untrainable balance =
      map (λ s. s.category) (keep (λ s. not s.meets_minimum) balance.per_class)

  unfoldable pub newly_trainable : BalanceReport W → List (ClassStats W)
  newly_trainable balance =
      keep
        (λ s.
          any (λ c. category_code c == category_code s.category) (previously_untrainable balance))
        (trainable_classes balance)

  unfoldable pub evaluate_triggers :
      RetrainThresholds → Scheduler W → BalanceReport W → ℕ → Option TriggerReason
  evaluate_triggers t s balance now =
      let total = balance.total_positive_labels in
      if ltb total t.min_total_labels
      then none
      else if in_cooldown t s.last_retrain_at now
      then none
      else if not (is_empty (newly_trainable balance))
      then some new_class_reached_minimum
      -- `new_since_last >= ...`, with the difference brought to the other side
      else if leb (s.labels_at_last_retrain + t.min_new_labels_since_last) total
      then some delta_threshold_reached
      else none

  module _ (quotient : ℕ → ℕ → W) (uuid4 : Uuid) (clock : ℕ → ℕ)
      (base_checkpoint : Option String) where
    unfoldable pub spec_of : BalanceReport W → TriggerReason → String → RetrainJobSpec W
    spec_of balance reason tag = record {
      spec_id = uuid4;
      dataset_version_tag = tag;
      triggered_by = reason;
      trainable = map (λ s. s.category) (trainable_classes balance);
      sample_weights = map (λ s. (s.category, s.sample_weight)) balance.per_class;
      total_labels = balance.total_positive_labels;
      per_class_counts = map (λ s. (s.category, s.count)) balance.per_class;
      created_at = clock 1;
      base_checkpoint = base_checkpoint;
    }

    -- `check_and_emit` once the reason is known: the guard on the classes, and the emission
    unfoldable pub emit :
        BalanceReport W
        → Bool
        → Option String
        → Option TriggerReason
        → Scheduler W
        → Option (RetrainJobSpec W) × Scheduler W
    emit balance force version none s = (none, s)
    emit balance force version (some reason) s =
        if is_empty (trainable_classes balance) && not force
        then (none, s)
        else let spec = spec_of balance reason (or_else version "unversioned") in
          (
            some spec,
            record {
              last_retrain_at = some (clock 2);
              labels_at_last_retrain = balance.total_positive_labels;
              jobs = s.jobs ++ (spec ∷ []);
            },
          )

    -- `version` is the tag of the dataset's version, where one is given.
    unfoldable pub check_and_emit :
        RetrainThresholds
        → Counts
        → Option String
        → Bool
        → Scheduler W
        → Option (RetrainJobSpec W) × Scheduler W
    check_and_emit t counts version force s =
        let balance = compute_balance_report quotient counts in
        emit balance force version
          (if force then some manual_override else evaluate_triggers t s balance (clock 0)) s
