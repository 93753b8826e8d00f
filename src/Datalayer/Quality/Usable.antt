-- ===== src/Datalayer/Quality/Usable.antt =====
-- The gate of datalayer/quality.py passes exactly the label candidates that are fit for training.
use loyiha.Base.{
  ℕ, ◌*◌, ◌≤◌, ◌≡◌, ◌≢◌, refl, ◌↔◌, inl, inr, Bool, true, false, not, ltb, Option, some, List, [],
  ◌∷◌, length, ok, arith, if◌then◌else◌, Bool-cases, All, sym, ◌∙◌,
}
use loyiha.Contracts.Common.{codes, unknown, ThreatCategory}
use loyiha.Contracts.Feedback.{seized, OperatorOutcome, is_none}
use loyiha.Datalayer.Labels.{LabelEntry}
use loyiha.Datalayer.Quality.{
  CheckOutcome, QualityReport, min_box_area, is_blank, or_default, has_box, is_negative, is_unknown,
  is_seized, is_fail, check_operator_id, check_category_not_unknown, check_box_present_for_positive,
  box_area, check_box_area, check_box_aspect_ratio, check_box_positive_dims,
  check_scan_sha256_format, check_seizure_needs_box, quality_gate, none_failed,
}

-- A box is not a slip of the mouse: its sides are positive, its area reaches the minimum of the
-- category, and neither side is over twenty times the other.
pub record IsSane (e : LabelEntry) : Type 0 where
  pub wide : 1 ≤ or_default e.box_w 0
  pub tall : 1 ≤ or_default e.box_h 0
  pub large : min_box_area e.category ≤ box_area e
  pub not_flat : or_default e.box_w 0 ≤ 20 * or_default e.box_h 0
  pub not_thin : or_default e.box_h 0 ≤ 20 * or_default e.box_w 0

-- The entry names its operator, a positive one its category and its box; a box is sane; the hash
-- has its 64 digits; and a negative entry of a seizure has a box.
pub record IsUsable (e : LabelEntry) : Type 0 where
  pub attributable : is_blank (codes e.operator_id) ≡ false
  pub specific : is_negative e.source ≡ false → e.category ≢ some unknown
  pub boxed : is_negative e.source ≡ false → has_box e ≡ true
  pub sane : has_box e ≡ true → IsSane e
  pub hashed : length (codes e.scan_sha256) ≡ 64
  pub seizure : e.operator_outcome ≡ seized → is_negative e.source ≡ true → has_box e ≡ true

abbrev passes : CheckOutcome → Bool
passes o = not (is_fail o.result)

operator_test :
    (e : LabelEntry)
    → (passes (check_operator_id e) ≡ true) ↔ (is_blank (codes e.operator_id) ≡ false)
unfolding check_operator_id is_blank
operator_test e = go (codes e.operator_id) refl
  where
    go :
        (cs : List ℕ)
        → codes e.operator_id ≡ cs
        → (passes (check_operator_id e) ≡ true) ↔ (is_blank (codes e.operator_id) ≡ false)
    go [] p = rw p (λ h. cc, λ h. cc)
    go (c ∷ cs) p = rw p (λ h. ground (arith, h), λ h. ground (arith, h))

unknown_iff : (c : Option ThreatCategory) → (is_unknown c ≡ true) ↔ (c ≡ some unknown)
unknown_iff c = (λ h. ground (arith, h), λ h. ground (arith, h))

seized_iff : (o : OperatorOutcome) → (is_seized o ≡ true) ↔ (o ≡ seized)
seized_iff o = (λ h. ground (arith, h), λ h. ground (arith, h))

category_test :
    (e : LabelEntry)
    → (passes (check_category_not_unknown e) ≡ true)
      ↔ (is_negative e.source ≡ false → e.category ≢ some unknown)
unfolding check_category_not_unknown
category_test e = (
  λ h n u. ground (arith, h, n, (unknown_iff e.category).1 u),
  λ k. elim (Bool-cases (is_negative e.source)) [
    | inl p ↦ ground (arith, p)
    | inr p ↦ elim (Bool-cases (is_unknown e.category)) [
      | inl q ↦ absurd (k p ((unknown_iff e.category).0 q))
      | inr q ↦ ground (arith, p, q)
    ]
  ],
)

box_test :
    (e : LabelEntry)
    → (passes (check_box_present_for_positive e) ≡ true)
      ↔ (is_negative e.source ≡ false → has_box e ≡ true)
unfolding check_box_present_for_positive
box_test e = (
  λ h n. ground (arith, h, n),
  λ k. elim (Bool-cases (is_negative e.source)) [
    | inl p ↦ ground (arith, p)
    | inr p ↦ ground (arith, p, k p)
  ],
)

seizure_test :
    (e : LabelEntry)
    → (passes (check_seizure_needs_box e) ≡ true)
      ↔ (e.operator_outcome ≡ seized → is_negative e.source ≡ true → has_box e ≡ true)
unfolding check_seizure_needs_box
seizure_test e = (
  λ h s n. ground (arith, h, (seized_iff e.operator_outcome).1 s, n),
  λ k. elim (Bool-cases (is_seized e.operator_outcome)) [
    | inl p ↦ elim (Bool-cases (is_negative e.source)) [
      | inl q ↦ ground (arith, p, q, k ((seized_iff e.operator_outcome).0 p) q)
      | inr q ↦ ground (arith, p, q)
    ]
    | inr p ↦ ground (arith, p)
  ],
)

hash_test :
    (e : LabelEntry)
    → (passes (check_scan_sha256_format e) ≡ true) ↔ (length (codes e.scan_sha256) ≡ 64)
unfolding check_scan_sha256_format
hash_test e = go (codes e.scan_sha256) refl
  where
    go :
        (cs : List ℕ)
        → codes e.scan_sha256 ≡ cs
        → (passes (check_scan_sha256_format e) ≡ true) ↔ (length (codes e.scan_sha256) ≡ 64)
    go [] p = rw p (λ h. cc, λ h. absurd (omega (arith, h)))
    go (c ∷ cs) p = rw p (λ h. ground (arith, h), λ h. ground (arith, h))

-- the three checks of a box
IsSane-test :
    (e : LabelEntry)
    → has_box e ≡ true
    → ((ltb (box_area e) (min_box_area e.category) ≡ false)
        × (passes (check_box_aspect_ratio e) ≡ true)
        × (passes (check_box_positive_dims e) ≡ true))
      ↔ IsSane e
unfolding check_box_aspect_ratio check_box_positive_dims
IsSane-test e b = (
  λ h.
      let area = h.0 in
      let ratio = h.1 in
      let dims = h.2 in
      record {
        wide = ground (arith, b, dims);
        tall = ground (arith, b, dims);
        large = ground (arith, area);
        not_flat = ground (arith, b, dims, ratio);
        not_thin = ground (arith, b, dims, ratio);
      },
  λ s. (
    ground (arith, s.large),
    ground (arith, b, s.wide, s.tall, s.not_flat, s.not_thin),
    ground (arith, b, s.wide, s.tall),
  ),
)

none_failed_iff : (os : List CheckOutcome) → (none_failed os ≡ true) ↔ All (λ o. passes o ≡ true) os
none_failed_iff [] = (λ h. tt, λ h. refl)
none_failed_iff (o ∷ os) =
    let ih = none_failed_iff os in
    (
      λ h. (ground (arith, h), ih.0 (ground (arith, h))),
      λ h. let rest = ih.1 h.1 in ground (arith, h.0, rest),
    )

-- the outcome of the area check, of an entry with a category
area_found :
    (e : LabelEntry) (c : ThreatCategory)
    → e.category ≡ some c
    → (o : CheckOutcome) × (check_box_area e ≡ ok o)
      × (passes o ≡ (if has_box e then not (ltb (box_area e) (min_box_area e.category)) else true))
unfolding check_box_area
area_found e c known = elim (Bool-cases (has_box e)) [
  | inl p ↦ elim (Bool-cases (ltb (box_area e) (min_box_area e.category))) [
    | inl q ↦ let k : is_none e.category ≡ false = rw known refl in rw (p, q, k) (_, refl, refl)
    | inr q ↦ rw (p, q) (_, refl, refl)
  ]
  | inr p ↦ rw p (_, refl, refl)
]

boxes_test :
    (e : LabelEntry)
    → (((if has_box e then not (ltb (box_area e) (min_box_area e.category)) else true) ≡ true)
        × (passes (check_box_aspect_ratio e) ≡ true)
        × (passes (check_box_positive_dims e) ≡ true))
      ↔ (has_box e ≡ true → IsSane e)
unfolding check_box_aspect_ratio check_box_positive_dims
boxes_test e = (
  λ h b. (IsSane-test e b).0 (ground (arith, h.0, b), h.1, h.2),
  λ k. elim (Bool-cases (has_box e)) [
    | inl p ↦ let s = (IsSane-test e p).1 (k p) in (ground (arith, s.0, p), s.1, s.2)
    | inr p ↦ (ground (arith, p), ground (arith, p), ground (arith, p))
  ],
)

-- Of an entry with a category, the gate returns a report, and the report passes exactly when the
-- entry is usable.
pub quality_gate_iff :
    (e : LabelEntry) (c : ThreatCategory)
    → e.category ≡ some c
    → (r : QualityReport) × (quality_gate e ≡ ok r) × ((r.passed ≡ true) ↔ IsUsable e)
unfolding quality_gate
quality_gate_iff e c known =
    let (area, found, area_test) = area_found e c known in
    rw found (
      _,
      refl,
      (
        λ h.
            let w = (none_failed_iff (outcomes area)).0 h in
            record {
              attributable = (operator_test e).0 w.0;
              specific = (category_test e).0 w.1.0;
              boxed = (box_test e).0 w.1.1.0;
              sane = (boxes_test e).0 (sym area_test ∙ w.1.1.1.0, w.1.1.1.1.0, w.1.1.1.1.1.0);
              hashed = (hash_test e).0 w.1.1.1.1.1.1.0;
              seizure = (seizure_test e).0 w.1.1.1.1.1.1.1.0;
            },
        λ w.
            let boxes = (boxes_test e).1 w.sane in
            (none_failed_iff (outcomes area)).1 (
              (operator_test e).1 w.attributable,
              (
                (category_test e).1 w.specific,
                (
                  (box_test e).1 w.boxed,
                  (
                    area_test ∙ boxes.0,
                    (
                      boxes.1,
                      (boxes.2, ((hash_test e).1 w.hashed, ((seizure_test e).1 w.seizure, tt))),
                    ),
                  ),
                ),
              ),
            ),
      ),
    )
  where
    outcomes : CheckOutcome → List CheckOutcome
    outcomes area =
        check_operator_id e
        ∷ check_category_not_unknown e
        ∷ check_box_present_for_positive e
        ∷ area
        ∷ check_box_aspect_ratio e
        ∷ check_box_positive_dims e
        ∷ check_scan_sha256_format e
        ∷ check_seizure_needs_box e
        ∷ []
