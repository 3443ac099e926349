-- ===== src/Readiness/Grace.antt =====
-- The first-start grace period (internal/service/synchronizer/readiness_diagnostic.go).
use opensaola.Base.{ℕ, ◌+◌, ◌≤◌, ◌<◌, true, some, ◌≡◌, ◌≢◌, ◌↔◌, arith}
use opensaola.Api.{Phase, is_creating}
use opensaola.Readiness.{
  PrimaryMeta, initial_readiness_deadline, initial_readiness_grace_deadline,
  is_within_initial_readiness_grace, initial_readiness_grace_period,
}

-- A middleware is within the grace period exactly when its custom resources are in phase
-- Creating, the primary resource is at generation 1 and has a creation time, and now is at or
-- after that time and less than two minutes after it.
pub grace_iff :
    (phase : Phase) (cr : PrimaryMeta) (now : ℕ)
    → (is_within_initial_readiness_grace (some phase) (some cr) now ≡ true) ↔ (
        (is_creating phase ≡ true)
        × (cr.generation ≡ 1)
        × (cr.creation_timestamp ≢ 0)
        × (cr.creation_timestamp ≤ now)
        × (now < cr.creation_timestamp + initial_readiness_grace_period))
unfolding is_within_initial_readiness_grace initial_readiness_grace_deadline
    initial_readiness_deadline
grace_iff phase cr now = (λ h. ground arith, λ (c, g, n, l, u). ground arith)
