-- ===== src/Examples/Writes.antt =====
-- Retried writes of a middleware over a server with a conflict in the first round.
use opensaola.Base.{
  ℕ, String, Bool, false, List, [], ◌∷◌, none, some, ◌≡◌, eq_iff, All, ap, sym, ◌∙◌, inl, inr, refl,
  arith,
}
use opensaola.Api.{ReconcileResumePolicy, annotation_suspend_reconcile, annotation_resume_policy}
use opensaola.StatusWrite.{
  StatusParts, MiddlewareStatus, StoredMiddleware, Round, update_middleware_status,
  patch_middleware_status_fields, complete_middleware_reconcile_resume,
  finalize_middleware_reconcile_resume,
}
use opensaola.StatusWrite.Keeps.{IsCoherent, Ends}
use opensaola.StatusWrite.Ownership.{KeepsOwned, status_update-KeepsOwned}
use opensaola.StatusWrite.Resume.{
  IsCompleted, IsFinalized, complete_resume-IsCompleted, finalize_resume-IsFinalized,
}
use opensaola.StatusWrite.Progress.{is_conflict, status_writes-fresh}

abbrev parts : StatusParts
parts = record { Projection = ℕ; Inventory = ℕ; Rest = Unit }

abbrev old_status : MiddlewareStatus parts
old_status = record {
  observed_generation = 1;
  custom_resources = 4;
  reconcile_pause = some (record { hash = "h" });
  rendered = 0;
  rendered_generation = 1;
  conditions = [];
  rest = tt;
}

abbrev stale_object : StoredMiddleware parts Unit ℕ
stale_object = record {
  resource_version = "10";
  generation = 3;
  annotations = (annotation_suspend_reconcile, "true") ∷ (annotation_resume_policy, "merge") ∷ [];
  overrides = none;
  spec = tt;
  status = old_status;
}

abbrev stored_object : StoredMiddleware parts Unit ℕ
stored_object = record stale_object {
  resource_version = "11";
  status = record old_status { observed_generation = 2; custom_resources = 5 };
}

abbrev example_rounds : List (Round parts Unit ℕ)
example_rounds =
    record {
      read = some stale_object;
      stored = stored_object;
      fails = false;
      next_version = "12";
      next_generation = 3;
    }
    ∷ record {
      read = some stored_object;
      stored = stored_object;
      fails = false;
      next_version = "12";
      next_generation = 3;
    }
    ∷ []

some-eq : {A : Type 0} {a b : A} → some a ≡ some b → a ≡ b
some-eq e = cc

versions_differ : ◌≡◌ {A = String} "10" "11" → ⊥
versions_differ e = ground (arith, eq_iff "10" "11")

example_rounds-IsCoherent : All IsCoherent example_rounds
example_rounds-IsCoherent = (
  λ now e v. absurd (versions_differ (ap (λ x. x.resource_version) (some-eq e) ∙ v)),
  (λ now e v. sym (some-eq e), tt),
)

abbrev never_equal : MiddlewareStatus parts → MiddlewareStatus parts → Bool
never_equal a b = false

status_update-KeepsOwned_example :
    Ends KeepsOwned (update_middleware_status parts Unit ℕ never_equal old_status example_rounds)
status_update-KeepsOwned_example =
    status_update-KeepsOwned never_equal old_status example_rounds example_rounds-IsCoherent

status_writes-fresh_example :
    (is_conflict (update_middleware_status parts Unit ℕ never_equal old_status example_rounds)
      ≡ false)
    × (is_conflict (patch_middleware_status_fields parts Unit ℕ never_equal (λ s. s) example_rounds)
        ≡ false)
status_writes-fresh_example =
    status_writes-fresh never_equal old_status (λ s. s) example_rounds (inr (inl refl))

complete_resume-IsCompleted_example :
    Ends (IsCompleted 3 "h" ReconcileResumePolicy.merge (some 7)) (
      complete_middleware_reconcile_resume parts Unit ℕ 3 "h" ReconcileResumePolicy.merge
        (some 7)
        example_rounds)
complete_resume-IsCompleted_example =
    complete_resume-IsCompleted 3 "h" ReconcileResumePolicy.merge (some 7) example_rounds
      example_rounds-IsCoherent

finalize_resume-IsFinalized_example : Ends (IsFinalized "h" ReconcileResumePolicy.merge) (
    finalize_middleware_reconcile_resume parts Unit ℕ "h" ReconcileResumePolicy.merge
      example_rounds)
finalize_resume-IsFinalized_example =
    finalize_resume-IsFinalized "h" ReconcileResumePolicy.merge example_rounds
      example_rounds-IsCoherent
