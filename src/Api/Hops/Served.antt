-- ===== src/Api/Hops/Served.antt =====
-- app/api/v1/verdict.py: what the verdict endpoint serves, whatever the generator says.
use loyiha.Base.{ℕ, ◌≡◌, not, is_empty, ok}
use loyiha.Contracts.Verdict.{VerdictRequest, OperatorVerdict}
use loyiha.Contracts.Verdict.Integrity.{StaysWithin}
use loyiha.State.Session.{Session}
use loyiha.State.Store.{record_verdict}
use loyiha.State.Store.Verdicts.{IsRecorded}
use loyiha.Api.Hops.{Hop, is_flagged}

-- What holds when the endpoint answers with a verdict.
pub record IsServed (now : ℕ) (q : VerdictRequest) (s : Session) (v : OperatorVerdict)
    (hop : Hop OperatorVerdict) (s' : Session) : Type 0 where
  pub grounded : StaysWithin q v
  pub stored : (s₁ : Session) × (record_verdict now v q.scan_id s ≡ ok (tt, s₁)) × (s'.db ≡ s₁.db)
  pub recorded : IsRecorded now v q.scan_id s s'.db
  pub alarmed : is_empty hop.pushed ≡ not (is_flagged v.overall_risk)
