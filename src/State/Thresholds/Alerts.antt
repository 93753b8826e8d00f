-- ===== src/State/Thresholds/Alerts.antt =====
-- `evaluate_detections` (app/state/thresholds.py): one alert for each detection, in order of urgency.
use loyiha.Base.{
  ℕ, ◌≤◌, ◌≡◌, refl, ap, ◌∙◌, Bool, List, [], ◌∷◌, map, arith, leb, ◌==◌, keep, All, Bool-cases,
  inl, inr,
}
use loyiha.Contracts.Detection.{Detection}
use loyiha.State.Thresholds.{
  Rows, ThresholdCache, DetectionAlert, rank, decide, insert_alert, sort_alerts, judge_all,
  evaluate_detections, get_threshold,
}

abbrev pub of_rank : ℕ → DetectionAlert → Bool
of_rank k a = rank a.decision == k

-- No alert is more urgent than one that stands before it.
abbrev pub IsUrgentFirst : List DetectionAlert → Type 0
IsUrgentFirst [] = Unit
IsUrgentFirst (a ∷ as') = All (λ b. rank a.decision ≤ rank b.decision) as' × IsUrgentFirst as'

All-insert_alert :
    (k : ℕ) (a : DetectionAlert) (bs : List DetectionAlert)
    → k ≤ rank a.decision
    → All (λ b. k ≤ rank b.decision) bs
    → All (λ b. k ≤ rank b.decision) (insert_alert a bs)
unfolding insert_alert
All-insert_alert k a [] h w = (h, tt)
All-insert_alert k a (b ∷ bs) h w = elim (Bool-cases (leb (rank a.decision) (rank b.decision))) [
  | inl p ↦ rw p (h, w)
  | inr p ↦ rw p (w.0, All-insert_alert k a bs h w.1)
]

All-weaken :
    (j k : ℕ) (bs : List DetectionAlert)
    → j ≤ k
    → All (λ b. k ≤ rank b.decision) bs
    → All (λ b. j ≤ rank b.decision) bs
All-weaken j k [] h w = tt
All-weaken j k (b ∷ bs) h w = (omega (arith, w.0), All-weaken j k bs h w.1)

insert_alert-IsUrgentFirst :
    (a : DetectionAlert) (bs : List DetectionAlert)
    → IsUrgentFirst bs
    → IsUrgentFirst (insert_alert a bs)
unfolding insert_alert
insert_alert-IsUrgentFirst a [] w = (tt, tt)
insert_alert-IsUrgentFirst a (b ∷ bs) w =
    elim (Bool-cases (leb (rank a.decision) (rank b.decision))) [
      | inl p ↦
          let le : rank a.decision ≤ rank b.decision = ground arith in
          rw p ((le, All-weaken (rank a.decision) (rank b.decision) bs le w.0), w)
      | inr p ↦
          let ge : rank b.decision ≤ rank a.decision = ground arith in
          rw p (All-insert_alert (rank b.decision) a bs ge w.0, insert_alert-IsUrgentFirst a bs w.1)
    ]

sort_alerts-IsUrgentFirst : (xs : List DetectionAlert) → IsUrgentFirst (sort_alerts xs)
unfolding sort_alerts
sort_alerts-IsUrgentFirst [] = tt
sort_alerts-IsUrgentFirst (a ∷ xs) =
    insert_alert-IsUrgentFirst a (sort_alerts xs) (sort_alerts-IsUrgentFirst xs)

keep-insert_alert :
    (k : ℕ) (a : DetectionAlert) (bs : List DetectionAlert)
    → keep (of_rank k) (insert_alert a bs) ≡ keep (of_rank k) (a ∷ bs)
unfolding insert_alert
keep-insert_alert k a [] = refl
keep-insert_alert k a (b ∷ bs) = ground (arith, keep-insert_alert k a bs)

keep-sort_alerts :
    (k : ℕ) (xs : List DetectionAlert) → keep (of_rank k) (sort_alerts xs) ≡ keep (of_rank k) xs
unfolding sort_alerts
keep-sort_alerts k [] = refl
keep-sort_alerts k (a ∷ xs) =
    keep-insert_alert k a (sort_alerts xs) ∙ ground (arith, keep-sort_alerts k xs)

judged :
    (rows : Rows) (dets : List (ℕ × Detection)) (c : ThresholdCache)
    → map (λ (a : DetectionAlert). a.detection) (judge_all rows dets c).0
      ≡ map (λ (d : ℕ × Detection). d.1) dets
unfolding judge_all
judged rows [] c = refl
judged rows ((now, d) ∷ rest) c =
    ap (λ (l : List Detection). d ∷ l) (judged rows rest (get_threshold now rows d.category c).1)

decided_by_threshold :
    (rows : Rows) (dets : List (ℕ × Detection)) (c : ThresholdCache)
    → All
        (λ (a : DetectionAlert). a.decision ≡ decide a.threshold a.detection.score)
        (judge_all rows dets c).0
unfolding judge_all
decided_by_threshold rows [] c = tt
decided_by_threshold rows ((now, d) ∷ rest) c =
    (refl, decided_by_threshold rows rest (get_threshold now rows d.category c).1)

-- The alerts come out with the most urgent first; those of one rank are exactly the judged ones of
-- that rank, in the order of the detections; and there is one judgement for each detection.
pub evaluate_detections_lem :
    (rows : Rows) (dets : List (ℕ × Detection)) (c : ThresholdCache)
    → IsUrgentFirst (evaluate_detections rows dets c).0
      × ((k : ℕ)
          → keep (of_rank k) (evaluate_detections rows dets c).0
            ≡ keep (of_rank k) (judge_all rows dets c).0)
      × (map (λ (a : DetectionAlert). a.detection) (judge_all rows dets c).0
          ≡ map (λ (d : ℕ × Detection). d.1) dets)
      × All
          (λ (a : DetectionAlert). a.decision ≡ decide a.threshold a.detection.score)
          (judge_all rows dets c).0
unfolding evaluate_detections
evaluate_detections_lem rows dets c = (
  sort_alerts-IsUrgentFirst (judge_all rows dets c).0,
  λ k. keep-sort_alerts k (judge_all rows dets c).0,
  judged rows dets c,
  decided_by_threshold rows dets c,
)
