-- ===== src/Api/Admin/Thresholds.antt =====
-- app/api/v1/admin.py: what an update of a threshold leaves in the table.
use loyiha.Base.{
  ◌≤◌, ◌≡◌, refl, sym, ap, subst, ◌∙◌, inl, inr, Bool, true, false, not, ◌&&◌, leb, ltb, List, [],
  ◌∷◌, ◌++◌, String, str_eq, eq_iff, keep, map, length, if◌then◌else◌, ok, ok_inj, Bool-cases,
  and_iff, arith,
}
use loyiha.Contracts.Common.{Uuid, one, codes}
use loyiha.Api.Access.{TokenClaims}
use loyiha.Api.Admin.{
  ThresholdConfig, retired_if, ThresholdUpdate, deactivate, new_config, Tables, invalidated,
  update_threshold,
}

-- The rows of a category that are in force, and those of the others.
abbrev pub active_in : String → List ThresholdConfig → List ThresholdConfig
active_in category = keep (λ (r : ThresholdConfig). str_eq r.category category && r.is_active)

abbrev pub active_outside : String → List ThresholdConfig → List ThresholdConfig
active_outside category =
    keep (λ (r : ThresholdConfig). not (str_eq r.category category) && r.is_active)

-- The rows are the same but for the column `is_active`.
abbrev pub history : List ThresholdConfig → List ThresholdConfig
history = map (λ (r : ThresholdConfig). retired_if true r)

keep-append :
    {A : Type 0} (p : A → Bool) (xs ys : List A) → keep p (xs ++ ys) ≡ keep p xs ++ keep p ys
keep-append p [] ys = refl
keep-append p (x ∷ xs) ys = elim (Bool-cases (p x)) [
  | inl e ↦ rw e (ap (λ l. x ∷ l) (keep-append p xs ys))
  | inr e ↦ rw e (keep-append p xs ys)
]

append_nil : {A : Type 0} (xs : List A) → xs ++ [] ≡ xs
append_nil [] = refl
append_nil (x ∷ xs) = ap (λ l. x ∷ l) (append_nil xs)

record IsRetired (category : String) (rows : List ThresholdConfig) : Type 0 where
  none_left : active_in category (deactivate category rows) ≡ []
  others : active_outside category (deactivate category rows) ≡ active_outside category rows
  same : history (deactivate category rows) ≡ history rows

module _ (category : String) (r : ThresholdConfig) where
  no_longer :
      (b : Bool)
      → (str_eq r.category category && r.is_active) ≡ b
      → (str_eq (retired_if b r).category category && (retired_if b r).is_active) ≡ false
  no_longer true e = and_false (str_eq r.category category)
    where
      and_false : (x : Bool) → (x && false) ≡ false
      and_false true = refl
      and_false false = refl
  no_longer false e = e

  untouched :
      (b : Bool) (rest : List ThresholdConfig)
      → (str_eq r.category category && r.is_active) ≡ b
      → active_outside category (retired_if b r ∷ rest) ≡ active_outside category (r ∷ rest)
  untouched true rest e = rw ((and_iff (str_eq r.category category) r.is_active).0 e).0 refl
  untouched false rest e = refl

  flag_only : (b : Bool) → retired_if true (retired_if b r) ≡ retired_if true r
  flag_only true = refl
  flag_only false = refl

same_test :
    {A : Type 0} (p : A → Bool) (x : A) (xs ys : List A)
    → keep p xs ≡ keep p ys
    → keep p (x ∷ xs) ≡ keep p (x ∷ ys)
same_test p x xs ys h = ap (λ l. if p x then x ∷ l else l) h

deactivate-IsRetired : (category : String) (rows : List ThresholdConfig) → IsRetired category rows
unfolding deactivate
deactivate-IsRetired category [] = record { none_left = refl; others = refl; same = refl }
deactivate-IsRetired category (r ∷ rs) =
    let ih = deactivate-IsRetired category rs in
    record {
      none_left = rw (no_longer category r _ refl) ih.none_left;
      others = untouched category r _ _ refl ∙ same_test _ r (deactivate category rs) rs ih.others;
      same =
          ap (λ x. x ∷ history (deactivate category rs)) (flag_only category r _)
          ∙ ap (λ l. retired_if true r ∷ l) ih.same;
    }

history-append : (xs ys : List ThresholdConfig) → history (xs ++ ys) ≡ history xs ++ history ys
history-append [] ys = refl
history-append (x ∷ xs) ys = ap (λ l. retired_if true x ∷ l) (history-append xs ys)

-- One row is in force for the category, and the others are as they were.
abbrev pub IsUpdated :
    String → ThresholdConfig → List ThresholdConfig → List ThresholdConfig → Type 0
IsUpdated category row rows rows' =
    (active_in category rows' ≡ row ∷ [])
    × (active_outside category rows' ≡ active_outside category rows)
    × (history rows' ≡ history rows ++ (retired_if true row ∷ []))

deactivate-IsUpdated :
    (category : String) (row : ThresholdConfig) (rows : List ThresholdConfig)
    → row.category ≡ category
    → row.is_active ≡ true
    → IsUpdated category row rows (deactivate category rows ++ (row ∷ []))
deactivate-IsUpdated category row rows c a =
    let old = deactivate-IsRetired category rows in
    let mine : str_eq row.category category ≡ true = (eq_iff row.category category).1 c in
    let in_force : active_in category (row ∷ []) ≡ row ∷ [] = one_kept _ (rw (mine, a) refl) in
    let not_other : active_outside category (row ∷ []) ≡ [] = one_dropped _ (rw mine refl) in
    (
      keep-append _ (deactivate category rows) (row ∷ [])
          ∙ ap (λ l. l ++ active_in category (row ∷ [])) old.none_left
          ∙ in_force,
      keep-append _ (deactivate category rows) (row ∷ [])
          ∙ ap (λ l. active_outside category (deactivate category rows) ++ l) not_other
          ∙ append_nil _
          ∙ old.others,
      history-append (deactivate category rows) (row ∷ [])
          ∙ ap (λ l. l ++ (retired_if true row ∷ [])) old.same,
    )
  where
    one_kept : (b : Bool) → b ≡ true → (if b then row ∷ [] else []) ≡ row ∷ []
    one_kept true e = refl
    one_kept false e = cc

    one_dropped :
        (b : Bool) → b ≡ false → ◌≡◌ {A = List ThresholdConfig} (if b then row ∷ [] else []) []
    one_dropped true e = cc
    one_dropped false e = refl

-- An update that is accepted has 0 ≤ auto_clear ≤ alert ≤ 1 and puts one row in force for its category,
-- the new one, and no other. The rows in force for the other categories are as before, and every old
-- row is still there, in its place and with nothing but its flag changed. The cache is told.
pub update_threshold-active :
    (config_id : Uuid) (claims : TokenClaims) (category : String) (body : ThresholdUpdate)
    (t : Tables) (out : ThresholdConfig × Tables)
    → update_threshold config_id claims category body t ≡ ok out
    → (out.0 ≡ new_config config_id category claims.username body)
      × (body.auto_clear_threshold ≤ body.alert_threshold)
      × (body.alert_threshold ≤ one)
      × IsUpdated category out.0 t.rows out.1.rows
      × (out.1.cache ≡ invalidated t.cache)
unfolding update_threshold
update_threshold-active config_id claims category body t out h =
    elim (Bool-cases (not (leb body.alert_threshold one && leb body.auto_clear_threshold one))) [
      | inl e ↦ cc (rw e at h)
      | inr e ↦ elim (Bool-cases (ltb body.alert_threshold body.auto_clear_threshold)) [
        | inl f ↦ cc (rw (e, f) at h)
        | inr f ↦ elim (Bool-cases (not (leb (length (codes category)) 32))) [
          | inl g ↦ cc (rw (e, f, g) at h)
          | inr g ↦ accepted (ok_inj (rw (e, f, g) at h)) (ground (arith, f)) (ground (arith, e))
        ]
      ]
    ]
  where
    accepted :
        (
          new_config config_id category claims.username body,
          record {
            rows =
                deactivate category t.rows
                ++ (new_config config_id category claims.username body ∷ []);
            cache = invalidated t.cache;
          },
        )
          ≡ out
        → body.auto_clear_threshold ≤ body.alert_threshold
        → body.alert_threshold ≤ one
        → (out.0 ≡ new_config config_id category claims.username body)
          × (body.auto_clear_threshold ≤ body.alert_threshold)
          × (body.alert_threshold ≤ one)
          × IsUpdated category out.0 t.rows out.1.rows
          × (out.1.cache ≡ invalidated t.cache)
    accepted same order top =
        let new = new_config config_id category claims.username body in
        (
          sym (ap (λ (p : ThresholdConfig × Tables). p.0) same),
          order,
          top,
          subst (λ (p : ThresholdConfig × Tables). IsUpdated category p.0 t.rows p.1.rows) same
              (deactivate-IsUpdated category new t.rows refl refl),
          sym (ap (λ (p : ThresholdConfig × Tables). p.1.cache) same),
        )
