-- ===== src/Witnesses/Versions.antt =====
-- A queue with one knife, one frame without a class and one rejected label, frozen under two tags.
use loyiha.Base.{◌≡◌, refl, none, some, List, [], ◌∷◌, String, map, ok}
use loyiha.Contracts.Common.{bladed_weapon}
use loyiha.Contracts.Feedback.{seized}
use loyiha.Datalayer.Labels.{LabelEntry, LabelStatus, operator_confirmed}
use loyiha.Datalayer.Balance.{count_by_category, add_counts, bump}
use loyiha.Datalayer.Versions.{
  DatasetVersion, VersionDir, class, null_text, create_snapshot, read, safe_tag, keyed, from_json,
  latest, list_versions, insert_name, is_before,
}
use loyiha.Datalayer.Versions.Frozen.{IsFrozen, create_snapshot-IsFrozen}
use loyiha.Witnesses.Data.{sha}

abbrev knife_label : LabelEntry
knife_label = record {
  label_id = 1;
  scan_id = 1;
  scan_sha256 = sha;
  frame_id = "f1";
  source = operator_confirmed;
  category = some bladed_weapon;
  operator_id = "op-1";
  operator_outcome = seized;
  box_x = some 1;
  box_y = some 1;
  box_w = some 1;
  box_h = some 1;
  status = LabelStatus.reviewed;
  original_model_score = none;
  corrected_from = none;
  operator_note = none;
  feedback_id = none;
  queued_at = 1;
  reviewed_at = none;
  consumed_at = none;
}

abbrev labels : List LabelEntry
labels =
    knife_label
    ∷ record knife_label { category = none }
    ∷ record knife_label { status = LabelStatus.rejected }
    ∷ []

abbrev version : String → List LabelEntry → VersionDir → VersionDir
version tag queue dir = (create_snapshot 5 sha tag LabelStatus.reviewed queue dir).1

frozen :
    (v : DatasetVersion) × ((create_snapshot 5 sha "v0.10.0" LabelStatus.reviewed labels
        (version "v0.9.0" labels [])).0
      ≡ ok v)
unfolding create_snapshot read safe_tag
frozen = (_, refl)

create_snapshot-IsFrozen_example :
    IsFrozen "v0.10.0" LabelStatus.reviewed labels
      (version "v0.9.0" labels [])
      (version "v0.10.0" labels (version "v0.9.0" labels []))
      frozen.0
create_snapshot-IsFrozen_example =
    create_snapshot-IsFrozen 5 sha "v0.10.0" LabelStatus.reviewed labels
      (version "v0.9.0" labels []) frozen.0 frozen.1

-- The names are in the order of texts, so the last one is not the newest.
newest :
    latest (version "v0.10.0" labels (version "v0.9.0" labels []))
    ≡ latest (version "v0.9.0" labels [])
unfolding latest list_versions insert_name is_before create_snapshot read safe_tag
newest = refl

-- A label without a class comes back under another key.
renamed_key :
    map (λ p. p.0) (from_json frozen.0).per_class_counts ≡ class bladed_weapon ∷ null_text ∷ []
unfolding from_json frozen keyed count_by_category add_counts bump
renamed_key = refl
