-- ===== src/Datalayer/Balance.antt =====
-- datalayer/balance.py and `LabelQueue.count_by_category` of datalayer/labelstore.py: how many
-- labels each class has. `quotient` stands for the float division rounded to four places.
use loyiha.Base.{
  ℕ, ◌+◌, ◌-◌, ◌*◌, Bool, true, not, ◌&&◌, ◌==◌, leb, ltb, Option, none, some, List, [], ◌∷◌, map,
  keep, if◌then◌else◌,
}
use loyiha.Contracts.Common.{
  ThreatCategory, narcotics, firearm, bladed_weapon, explosive, currency, organic_anomaly,
  metallic_anomaly, contraband_other, unknown,
}
use loyiha.Datalayer.Labels.{LabelEntry, LabelStatus}

abbrev pub category_code : ThreatCategory → ℕ
category_code unknown = 0
category_code narcotics = 1
category_code firearm = 2
category_code bladed_weapon = 3
category_code explosive = 4
category_code currency = 5
category_code organic_anomaly = 6
category_code metallic_anomaly = 7
category_code contraband_other = 8

abbrev pub status_code : LabelStatus → ℕ
status_code LabelStatus.pending = 0
status_code LabelStatus.reviewed = 1
status_code LabelStatus.consumed = 2
status_code LabelStatus.rejected = 3

-- the key of a dict of counts: the category of a line, which may be null
abbrev pub key_code : Option ThreatCategory → ℕ
key_code none = 9
key_code (some c) = category_code c

-- a dict from categories to counts, its keys distinct
abbrev pub Counts : Type 0
Counts = List (Option ThreatCategory × ℕ)

-- `counts.get(cat, 0)`
unfoldable pub get_count : Counts → Option ThreatCategory → ℕ
get_count [] c = 0
get_count ((k, n) ∷ counts) c = if key_code k == key_code c then n else get_count counts c

-- `counts[cat] = counts.get(cat, 0) + 1`
unfoldable pub bump : Counts → Option ThreatCategory → Counts
bump [] c = (c, 1) ∷ []
bump ((k, n) ∷ counts) c =
    if key_code k == key_code c then (k, n + 1) ∷ counts else (k, n) ∷ bump counts c

-- the loop over the lines of the queue
unfoldable pub add_counts : LabelStatus → Counts → List LabelEntry → Counts
add_counts status counts [] = counts
add_counts status counts (e ∷ es) =
    add_counts status
      (if status_code e.status == status_code status then bump counts e.category else counts) es

unfoldable pub count_by_category : LabelStatus → List LabelEntry → Counts
count_by_category status queue = add_counts status [] queue

-- `MIN_LABELS_PER_CLASS`
unfoldable pub min_labels_per_class : ThreatCategory → ℕ
min_labels_per_class narcotics = 1500
min_labels_per_class firearm = 800
min_labels_per_class bladed_weapon = 600
min_labels_per_class explosive = 1200
min_labels_per_class currency = 500
min_labels_per_class organic_anomaly = 400
min_labels_per_class metallic_anomaly = 400
min_labels_per_class contraband_other = 300
min_labels_per_class unknown = 0

abbrev pub all_categories : List ThreatCategory
all_categories =
    narcotics ∷ firearm ∷ bladed_weapon ∷ explosive ∷ currency ∷ organic_anomaly ∷ metallic_anomaly
    ∷ contraband_other ∷ []

-- `sum(counts.values())`
unfoldable pub total_count : Counts → ℕ
total_count [] = 0
total_count (kn ∷ counts) = kn.1 + total_count counts

pub record ClassStats (W : Type 0) : Type 0 where
  pub category : ThreatCategory
  pub count : ℕ
  pub minimum_required : ℕ
  pub shortfall : ℕ
  pub meets_minimum : Bool
  pub sample_weight : W

pub record BalanceReport (W : Type 0) : Type 0 where
  pub total_positive_labels : ℕ
  pub per_class : List (ClassStats W)

module _ {W : Type 0} where
  unfoldable pub untrainable_classes : BalanceReport W → List (ClassStats W)
  untrainable_classes r = keep (λ s. not s.meets_minimum && ltb 0 s.minimum_required) r.per_class

  unfoldable pub trainable_classes : BalanceReport W → List (ClassStats W)
  trainable_classes r = keep (λ s. s.meets_minimum) r.per_class

  module _ (quotient : ℕ → ℕ → W) where
    -- one turn of the loop; subtraction on ℕ is the `max(0, minimum - n)` of the source
    unfoldable pub class_stats : Counts → ThreatCategory → ClassStats W
    class_stats counts cat =
        let n = get_count counts (some cat) in
        let total = total_count counts in
        let minimum = min_labels_per_class cat in
        record {
          category = cat;
          count = n;
          minimum_required = minimum;
          shortfall = minimum - n;
          meets_minimum = if ltb 0 minimum then leb minimum n else true;
          sample_weight = if ltb 0 total && ltb 0 n then quotient total (8 * n) else quotient 8 1;
        }

    unfoldable pub compute_balance_report : Counts → BalanceReport W
    compute_balance_report counts = record {
      total_positive_labels = total_count counts;
      per_class = map (class_stats counts) all_categories;
    }

  -- `math.ceil(minimum_required * 3.0)` is exact below 2^51.
  unfoldable pub augmentation_target : ClassStats W → ℕ
  augmentation_target s = s.minimum_required * 3 - s.count
