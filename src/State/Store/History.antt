-- ===== src/State/Store/History.antt =====
-- What the store's methods can do to the database over time, whoever runs them and whatever their
-- sessions have loaded before.
use loyiha.Base.{
  ◌<◌, ◌≡◌, refl, sym, ◌∙◌, ap, ◌⊎◌, inl, inr, Bool, true, false, Option, none, some, arith, ok,
  Option-cases,
}
use loyiha.Contracts.Common.{Uuid}
use loyiha.State.Machine.{
  ScanState, pending, decided, error, Event, detect_failed, verdict_failed, allowed_transition,
  allowed_transition-⟶, stage, stage-⟶,
}
use loyiha.State.Session.{Scan, Db}

-- the events that report a failure
abbrev pub is_failure : Event → Bool
is_failure detect_failed = true
is_failure verdict_failed = true
is_failure _ = false

-- A path of accepted events, none of which reports a failure.
infix 40 ◌⟿◌
pub data ◌⟿◌ : ScanState → ScanState → Type 0 where
  here : {s : ScanState} → s ⟿ s
  step :
      {s t u : ScanState} (e : Event)
      → is_failure e ≡ false
      → allowed_transition s e ≡ ok t
      → t ⟿ u
      → s ⟿ u

pub ⟿-trans : {s t u : ScanState} → s ⟿ t → t ⟿ u → s ⟿ u
⟿-trans here q = q
⟿-trans (step e f a p) q = step e f a (⟿-trans p q)

-- no accepted event leads on from `decided`
pub decided_last : {s t : ScanState} → s ⟿ t → s ≡ decided → t ≡ decided
decided_last here h = h
decided_last (step {s} {t} e f a p) h = absurd (stuck s t e a h)
  where
    stuck : (s t : ScanState) (e : Event) → allowed_transition s e ≡ ok t → s ≡ decided → ⊥
    stuck s t e a h = unfold allowed_transition in ground (arith, a, h)

-- nor does one that reports no failure lead to `error`
pub error_first : {s t : ScanState} → s ⟿ t → t ≡ error → s ≡ error
error_first here h = h
error_first (step {s} {t} e f a p) h = absurd (never s t e f a (error_first p h))
  where
    never :
        (s t : ScanState) (e : Event)
        → is_failure e ≡ false
        → allowed_transition s e ≡ ok t
        → t ≡ error
        → ⊥
    never s t e f a h = unfold allowed_transition in ground (arith, f, a, h)

-- A scan's row moves along accepted events, and keeps all its fields while its state stays.
pub record Later (r r' : Scan) : Type 0 where
  pub moved : r.state ⟿ r'.state
  pub kept : r'.state ≡ r.state → r' ≡ r

abbrev pub Keeps {ℓ} : {A : Type ℓ} → (Uuid → Option A) → (Uuid → Option A) → Type ℓ
Keeps {A} m m' = (k : Uuid) (a : A) → m k ≡ some a → m' k ≡ some a

-- Rows are never removed, a stored detection, verdict or feedback never changes, and scans move.
pub record Extends (a b : Db) : Type 0 where
  pub scans :
      (k : Uuid) (r : Scan) → a.scan k ≡ some r → (r' : Scan) × (b.scan k ≡ some r') × Later r r'
  pub born : (k : Uuid) (r' : Scan) → a.scan k ≡ none → b.scan k ≡ some r' → pending ⟿ r'.state
  pub detections : Keeps a.detection b.detection
  pub verdicts : Keeps a.verdict b.verdict
  pub feedbacks : Keeps a.feedback b.feedback

pub Later-refl : (r : Scan) → Later r r
Later-refl r = record { moved = here; kept = λ e. refl }

pub Extends-refl : (a : Db) → Extends a a
Extends-refl a = record {
  scans = λ k r p. (r, p, Later-refl r);
  born = λ k r' p q. cc (p, q);
  detections = λ k x p. p;
  verdicts = λ k x p. p;
  feedbacks = λ k x p. p;
}

⟿-stage : {s t : ScanState} → s ⟿ t → (s ≡ t) ⊎ (stage s < stage t)
⟿-stage here = inl refl
⟿-stage (step {s} {t} e f a p) =
    let first = stage-⟶ (allowed_transition-⟶ s t e a) in
    elim (⟿-stage p) [ inl q ↦ inr (rw (← q) first) | inr q ↦ inr (omega arith) ]

-- a path that ends where it began has not moved
⟿-loop : {s t u : ScanState} → s ⟿ t → t ⟿ u → u ≡ s → t ≡ s
⟿-loop p q e = elim (⟿-stage p) [
  | inl h ↦ sym h
  | inr h ↦ elim (⟿-stage q) [ inl k ↦ k ∙ e | inr k ↦ absurd (omega (arith, ap stage e)) ]
]

Later-trans : {a b c : Scan} → Later a b → Later b c → Later a c
Later-trans p q = record {
  moved = ⟿-trans p.moved q.moved;
  kept = λ e. let b-a = ⟿-loop p.moved q.moved e in q.kept (e ∙ sym b-a) ∙ p.kept b-a;
}

pub Extends-trans : {a b c : Db} → Extends a b → Extends b c → Extends a c
Extends-trans {a} {b} {c} p q = record {
  scans = λ k r h.
      let (r', h', l) = p.scans k r h in
      let (r'', h'', l') = q.scans k r' h' in (r'', h'', Later-trans l l');
  born = λ k r'' h h'. elim (Option-cases (b.scan k)) [
    | inl n ↦ q.born k r'' n h'
    | inr (r', y) ↦
        let (r₃, h₃, l) = q.scans k r' y in
        let same : r₃ ≡ r'' = cc (h₃, h') in rw (← same) (⟿-trans (p.born k r' h y) l.moved)
  ];
  detections = λ k x h. q.detections k x (p.detections k x h);
  verdicts = λ k x h. q.verdicts k x (p.verdicts k x h);
  feedbacks = λ k x h. q.feedbacks k x (p.feedbacks k x h);
}
