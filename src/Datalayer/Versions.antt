-- ===== src/Datalayer/Versions.antt =====
-- datalayer/versioning.py, `VersioningManager`: frozen snapshots of the label queue. A folder of
-- manifests is a list of names with their versions; the DVC stub and the texts of JSON are left out,
-- but for the key None of a dict, which JSON makes the text "null". The hash of the queue's file is
-- an argument.
pub mod Frozen
use loyiha.Base.{
  ℕ, ◌+◌, Bool, true, false, ◌&&◌, ◌||◌, ◌==◌, ltb, Option, none, some, List, [], ◌∷◌, String, map,
  keep, if◌then◌else◌, length, Result, ok, raised,
}
use loyiha.Contracts.Common.{Text, codes, ThreatCategory}
use loyiha.Vlm.Text.{text_eq}
use loyiha.Datalayer.Labels.{LabelEntry, LabelStatus}
use loyiha.Datalayer.Balance.{Counts, status_code, count_by_category}

pub data ClassKey : Type 0 where
  class : ThreatCategory → ClassKey
  null_key null_text : ClassKey

pub record DatasetVersion : Type 0 where
  pub tag : String
  pub created_at : ℕ
  pub label_count : ℕ
  pub per_class_counts : List (ClassKey × ℕ)
  pub queue_sha256 : String
  pub entries : List LabelEntry

-- `FileExistsError`, `ValueError`, `FileNotFoundError`
pub data VersionError : Type 0 where
  tag_exists no_entries not_found : VersionError

abbrev pub VersionDir : Type 0
VersionDir = List (Text × DatasetVersion)

-- the slash and the space become an underscore
abbrev pub safe_code : ℕ → ℕ
safe_code c = if c == 47 || c == 32 then 95 else c

-- the stem of `_manifest_path`
unfoldable pub safe_tag : String → Text
safe_tag tag = map safe_code (codes tag)

unfoldable pub read : Text → VersionDir → Option DatasetVersion
read name [] = none
read name ((n, v) ∷ dir) = if text_eq n name then some v else read name dir

abbrev pub key_of : Option ThreatCategory → ClassKey
key_of none = null_key
key_of (some c) = class c

unfoldable pub keyed : Counts → List (ClassKey × ℕ)
keyed [] = []
keyed ((k, n) ∷ counts) = (key_of k, n) ∷ keyed counts

abbrev pub json_key : ClassKey → ClassKey
json_key (class c) = class c
json_key null_key = null_text
json_key null_text = null_text

-- `DatasetVersion.from_json(version.to_json())`
unfoldable pub from_json : DatasetVersion → DatasetVersion
from_json v = record v { per_class_counts = map (λ p. (json_key p.0, p.1)) v.per_class_counts }

abbrev pub has_status : LabelStatus → LabelEntry → Bool
has_status status e = status_code e.status == status_code status

abbrev pub snapshot_of : ℕ → String → String → LabelStatus → List LabelEntry → DatasetVersion
snapshot_of now queue_sha256 tag status queue = record {
  tag = tag;
  created_at = now;
  label_count = length (keep (has_status status) queue);
  per_class_counts = keyed (count_by_category status queue);
  queue_sha256 = queue_sha256;
  entries = keep (has_status status) queue;
}

abbrev pub written :
    Text → DatasetVersion → VersionDir → Result VersionError DatasetVersion × VersionDir
written name v dir =
    if v.label_count == 0 then (raised no_entries, dir) else (ok v, (name, v) ∷ dir)

abbrev pub created :
    Text
    → DatasetVersion
    → VersionDir
    → Option DatasetVersion
    → Result VersionError DatasetVersion × VersionDir
created name v dir (some old) = (raised tag_exists, dir)
created name v dir none = written name v dir

-- `create_snapshot`
unfoldable pub create_snapshot :
    ℕ
    → String
    → String
    → LabelStatus
    → List LabelEntry
    → VersionDir
    → Result VersionError DatasetVersion × VersionDir
create_snapshot now queue_sha256 tag status queue dir =
    created (safe_tag tag) (snapshot_of now queue_sha256 tag status queue) dir
      (read (safe_tag tag) dir)

abbrev pub loaded : Option DatasetVersion → Result VersionError DatasetVersion
loaded none = raised not_found
loaded (some v) = ok (from_json v)

-- `load`
unfoldable pub load : String → VersionDir → Result VersionError DatasetVersion
load tag dir = loaded (read (safe_tag tag) dir)

-- the order of texts
unfoldable pub is_before : Text → Text → Bool
is_before [] ds = true
is_before (c ∷ cs) [] = false
is_before (c ∷ cs) (d ∷ ds) = let rest = is_before cs ds in ltb c d || (c == d && rest)

unfoldable pub insert_name : Text → List Text → List Text
insert_name n [] = n ∷ []
insert_name n (m ∷ ms) =
    let later = m ∷ insert_name n ms in if is_before n m then n ∷ m ∷ ms else later

-- `list_versions`
unfoldable pub list_versions : VersionDir → List Text
list_versions [] = []
list_versions ((n, v) ∷ dir) = insert_name n (list_versions dir)

abbrev pub last_name : Text → List Text → Text
last_name n [] = n
last_name n (m ∷ ms) = last_name m ms

abbrev pub last_loaded : VersionDir → List Text → Option DatasetVersion
last_loaded dir [] = none
last_loaded dir (n ∷ ns) = option_from_json (read (last_name n ns) dir)
  where
    option_from_json : Option DatasetVersion → Option DatasetVersion
    option_from_json none = none
    option_from_json (some v) = some (from_json v)

-- `latest`
unfoldable pub latest : VersionDir → Option DatasetVersion
latest dir = last_loaded dir (list_versions dir)
