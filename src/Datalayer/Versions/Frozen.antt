-- ===== src/Datalayer/Versions/Frozen.antt =====
-- datalayer/versioning.py: what a snapshot holds, and that no snapshot changes another.
use loyiha.Base.{
  ℕ, ◌+◌, ◌≡◌, ◌≢◌, refl, ap, subst, ◌∙◌, inl, inr, true, ◌==◌, ==_iff, ==_refl, Option, none, List,
  [], ◌∷◌, String, keep, length, ok, ok_inj, Bool-cases, Option-cases, and_iff, arith,
}
use loyiha.Contracts.Common.{Text, ThreatCategory}
use loyiha.Vlm.Text.{text_eq}
use loyiha.Datalayer.Labels.{LabelEntry, LabelStatus}
use loyiha.Datalayer.Balance.{Counts, key_code, bump, add_counts, count_by_category}
use loyiha.Datalayer.Versions.{
  ClassKey, DatasetVersion, VersionDir, safe_tag, read, keyed, from_json, has_status, snapshot_of,
  create_snapshot, load,
}

text_eq_refl : (n : Text) → text_eq n n ≡ true
text_eq_refl [] = refl
text_eq_refl (c ∷ cs) = (and_iff _ _).1 (==_refl c, text_eq_refl cs)

equal_texts : (n m : Text) → text_eq n m ≡ true → n ≡ m
equal_texts [] [] h = refl
equal_texts [] (d ∷ ds) h = cc
equal_texts (c ∷ cs) [] h = cc
equal_texts (c ∷ cs) (d ∷ ds) h =
    let (a, b) = (and_iff _ _).0 h in
    ap (λ x. x ∷ cs) ((==_iff c d).0 a) ∙ ap (λ l. d ∷ l) (equal_texts cs ds b)

abbrev pub total : List (ClassKey × ℕ) → ℕ
total [] = 0
total ((k, n) ∷ counts) = n + total counts

total-bump :
    (counts : Counts) (c : Option ThreatCategory)
    → total (keyed (bump counts c)) ≡ total (keyed counts) + 1
unfolding bump keyed
total-bump [] c = refl
total-bump ((k, n) ∷ counts) c = elim (Bool-cases (key_code k == key_code c)) [
  | inl e ↦ rw e (omega arith)
  | inr e ↦ rw e (omega (arith, total-bump counts c))
]

total-add_counts :
    (status : LabelStatus) (counts : Counts) (queue : List LabelEntry)
    → total (keyed (add_counts status counts queue))
      ≡ total (keyed counts) + length (keep (has_status status) queue)
unfolding add_counts
total-add_counts status counts [] = omega arith
total-add_counts status counts (e ∷ es) = elim (Bool-cases (has_status status e)) [
  | inl h ↦ rw h (
      omega
        (arith, total-add_counts status (bump counts e.category) es, total-bump counts e.category))
  | inr h ↦ rw h (total-add_counts status counts es)
]

total-count_by_category :
    (status : LabelStatus) (queue : List LabelEntry)
    → total (keyed (count_by_category status queue)) ≡ length (keep (has_status status) queue)
unfolding count_by_category keyed
total-count_by_category status queue = omega (arith, total-add_counts status [] queue)

-- What a snapshot with a tag, of the labels of a queue at a status, is and leaves in the folder.
pub record IsFrozen (tag : String) (status : LabelStatus) (queue : List LabelEntry)
    (dir dir' : VersionDir) (v : DatasetVersion) : Type 0 where
  pub fresh : read (safe_tag tag) dir ≡ none
  pub all_labels : v.entries ≡ keep (has_status status) queue
  pub some_labels : v.label_count ≢ 0
  pub counted : v.label_count ≡ length v.entries
  pub by_class : total v.per_class_counts ≡ v.label_count
  pub readable : load tag dir' ≡ ok (from_json v)
  pub others_kept :
      (other : String) (w : DatasetVersion) → load other dir ≡ ok w → load other dir' ≡ ok w

load-later :
    (name : Text) (v : DatasetVersion) (dir : VersionDir)
    → read name dir ≡ none
    → (other : String) (w : DatasetVersion) → load other dir ≡ ok w
    → load other ((name, v) ∷ dir) ≡ ok w
unfolding load read
load-later name v dir new other w h = elim (Bool-cases (text_eq name (safe_tag other))) [
  | inr e ↦ rw e h
  | inl e ↦ cc (equal_texts name (safe_tag other) e, new, h)
]

load-latest :
    (tag : String) (v : DatasetVersion) (dir : VersionDir)
    → load tag ((safe_tag tag, v) ∷ dir) ≡ ok (from_json v)
unfolding load read
load-latest tag v dir = rw (text_eq_refl (safe_tag tag)) refl

-- A snapshot that succeeds has a tag whose file was not there, and holds all labels of the queue at the
-- status, at least one; its counts by class add up to all of them; it can be loaded by its tag; and
-- every version that could be loaded before is loaded unchanged.
pub create_snapshot-IsFrozen :
    (now : ℕ) (queue_sha256 tag : String) (status : LabelStatus) (queue : List LabelEntry)
    (dir : VersionDir) (v : DatasetVersion)
    → (create_snapshot now queue_sha256 tag status queue dir).0 ≡ ok v
    → IsFrozen tag status queue dir (create_snapshot now queue_sha256 tag status queue dir).1 v
unfolding create_snapshot
create_snapshot-IsFrozen now queue_sha256 tag status queue dir v h =
    let s = snapshot_of now queue_sha256 tag status queue in
    elim (Option-cases (read (safe_tag tag) dir)) [
      | inr (old, e) ↦ cc (rw e at h)
      | inl e ↦ elim (Bool-cases (s.label_count == 0)) [
        | inl z ↦ cc (rw (e, z) at h)
        | inr z ↦
            rw (e, z)
              (subst (IsFrozen tag status queue dir ((safe_tag tag, s) ∷ dir))
                (ok_inj (rw (e, z) at h))
                (record {
                  fresh = e;
                  all_labels = refl;
                  some_labels = ground (arith, z);
                  counted = refl;
                  by_class = total-count_by_category status queue;
                  readable = load-latest tag s dir;
                  others_kept = load-later (safe_tag tag) s dir e;
                }))
      ]
    ]
