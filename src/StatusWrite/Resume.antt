-- ===== src/StatusWrite/Resume.antt =====
-- The two writes that end a reconcile pause (internal/k8s/middleware.go).
use opensaola.Base.{
  ℕ, String, true, false, List, Option, none, All, Dict, delete, value_at-delete_self,
  value_at-delete_other, eqb, eqb→eq, ◌≡◌, refl, ap, subst, ◌∙◌, inl, inr, Bool-cases,
}
use opensaola.Api.{
  ReconcileResumePolicy, reconcile_resume_policy_for, is_reconcile_suspended,
  annotation_suspend_reconcile, annotation_resume_policy,
}
use opensaola.StatusWrite.{
  StatusParts, StoredMiddleware, Round, commit_object, snapshot_matches, policy_matches,
  complete_round, complete_middleware_reconcile_resume, finalize_round,
  finalize_middleware_reconcile_resume,
}
use opensaola.StatusWrite.Keeps.{IsCoherent, Ends, Sends, retry-Ends}

-- Without the suspension annotation reconciliation is not suspended, and the policy is as before.
deleted_suspension :
    (a : Dict String) → is_reconcile_suspended (delete annotation_suspend_reconcile a) ≡ false
unfolding is_reconcile_suspended
deleted_suspension a = rw (value_at-delete_self annotation_suspend_reconcile a) refl

deleted_suspension-policy :
    (a : Dict String)
    → reconcile_resume_policy_for (delete annotation_suspend_reconcile a)
      ≡ reconcile_resume_policy_for a
unfolding reconcile_resume_policy_for
deleted_suspension-policy a =
    rw (value_at-delete_other annotation_suspend_reconcile annotation_resume_policy a refl) refl

deleted_policy :
    (a : Dict String) → reconcile_resume_policy_for (delete annotation_resume_policy a) ≡ none
unfolding reconcile_resume_policy_for
deleted_policy a = rw (value_at-delete_self annotation_resume_policy a) refl

deleted_policy-suspension :
    (a : Dict String)
    → is_reconcile_suspended (delete annotation_resume_policy a) ≡ is_reconcile_suspended a
unfolding is_reconcile_suspended
deleted_policy-suspension a =
    rw (value_at-delete_other annotation_resume_policy annotation_suspend_reconcile a refl) refl

module _ {parts : StatusParts} {Spec Overrides : Type 0} where
  -- The object that a resume replaces is the one that the resume was computed for.
  pub record IsExpected (hash : String) (expected : ReconcileResumePolicy)
      (before : StoredMiddleware parts Spec Overrides) : Type 0 where
    pub snapshot : snapshot_matches parts Spec Overrides hash before.status.reconcile_pause ≡ true
    pub policy :
        policy_matches parts Spec Overrides expected
          (reconcile_resume_policy_for before.annotations)
        ≡ true

  pub record IsCompleted (generation : ℕ) (hash : String) (expected : ReconcileResumePolicy)
      (wanted : Option Overrides) (before after : StoredMiddleware parts Spec Overrides)
      : Type 0 where
    pub current : before.generation ≡ generation
    pub matched : IsExpected hash expected before
    pub overrides : after.overrides ≡ wanted
    pub resumed : is_reconcile_suspended after.annotations ≡ false
    pub policy :
        reconcile_resume_policy_for after.annotations
        ≡ reconcile_resume_policy_for before.annotations
    pub spec : after.spec ≡ before.spec
    pub status : after.status ≡ before.status

  pub record IsFinalized (hash : String) (expected : ReconcileResumePolicy)
      (before after : StoredMiddleware parts Spec Overrides) : Type 0 where
    pub matched : IsExpected hash expected before
    pub policy : reconcile_resume_policy_for after.annotations ≡ none
    pub suspension :
        is_reconcile_suspended after.annotations ≡ is_reconcile_suspended before.annotations
    pub overrides : after.overrides ≡ before.overrides
    pub spec : after.spec ≡ before.spec
    pub status : after.status ≡ before.status

  complete_round-Sends :
      (generation : ℕ) (hash : String) (expected : ReconcileResumePolicy) (o : Option Overrides)
      (r : Round parts Spec Overrides) (now : StoredMiddleware parts Spec Overrides)
      → Sends
          (IsCompleted generation hash expected o)
          r
          now
          (complete_round parts Spec Overrides generation hash expected o now)
  unfolding complete_round commit_object
  complete_round-Sends generation hash expected o r now =
      let snapshot = snapshot_matches parts Spec Overrides hash now.status.reconcile_pause in
      let policy =
        policy_matches parts Spec Overrides expected
          (reconcile_resume_policy_for now.annotations) in
      elim (Bool-cases (eqb now.generation generation)) [
        | inr e ↦ rw e tt
        | inl e ↦ elim (Bool-cases snapshot) [
          | inr f ↦ rw (e, f) tt
          | inl f ↦ elim (Bool-cases policy) [
            | inr g ↦ rw (e, f, g) tt
            | inl g ↦
                rw (e, f, g)
                  (
                    refl,
                    λ p. record {
                      current = subst (λ x. x.generation ≡ generation) p (eqb→eq _ _ e);
                      matched =
                          subst (IsExpected hash expected) p (record { snapshot = f; policy = g });
                      overrides = refl;
                      resumed = deleted_suspension now.annotations;
                      policy =
                          deleted_suspension-policy now.annotations
                          ∙ ap (λ x. reconcile_resume_policy_for x.annotations) p;
                      spec = ap (λ x. x.spec) p;
                      status = refl;
                    },
                  )
          ]
        ]
      ]

  finalize_round-Sends :
      (hash : String) (expected : ReconcileResumePolicy) (r : Round parts Spec Overrides)
      (now : StoredMiddleware parts Spec Overrides)
      → Sends
          (IsFinalized hash expected)
          r
          now
          (finalize_round parts Spec Overrides hash expected now)
  unfolding finalize_round commit_object
  finalize_round-Sends hash expected r now =
      let snapshot = snapshot_matches parts Spec Overrides hash now.status.reconcile_pause in
      let policy =
        policy_matches parts Spec Overrides expected
          (reconcile_resume_policy_for now.annotations) in
      elim (Bool-cases snapshot) [
        | inr f ↦ rw f tt
        | inl f ↦ elim (Bool-cases policy) [
          | inr g ↦ rw (f, g) tt
          | inl g ↦
              rw (f, g)
                (
                  refl,
                  λ p. record {
                    matched =
                        subst (IsExpected hash expected) p (record { snapshot = f; policy = g });
                    policy = deleted_policy now.annotations;
                    suspension =
                        deleted_policy-suspension now.annotations
                        ∙ ap (λ x. is_reconcile_suspended x.annotations) p;
                    overrides = ap (λ x. x.overrides) p;
                    spec = ap (λ x. x.spec) p;
                    status = refl;
                  },
                )
        ]
      ]

  -- Where a resource version identifies a state of the object, CompleteMiddlewareReconcileResume
  -- writes only over an object of the given generation, pause snapshot and resume policy, after
  -- any conflicts and stale reads; the write sets the overrides and ends the suspension, and
  -- keeps the resume policy, the rest of the spec and the status.
  pub complete_resume-IsCompleted :
      (generation : ℕ) (hash : String) (expected : ReconcileResumePolicy) (o : Option Overrides)
      (rounds : List (Round parts Spec Overrides))
      → All IsCoherent rounds
      → Ends (IsCompleted generation hash expected o) (
          complete_middleware_reconcile_resume parts Spec Overrides generation hash expected o
            rounds)
  unfolding complete_middleware_reconcile_resume
  complete_resume-IsCompleted generation hash expected o rounds c =
      retry-Ends (IsCompleted generation hash expected o) _
        (λ s. complete_round-Sends generation hash expected o) tt rounds c

  -- Where a resource version identifies a state of the object, FinalizeMiddlewareReconcileResume
  -- writes only over an object with the given pause snapshot and resume policy; the write
  -- consumes the policy, and keeps the suspension, the spec, the overrides and the status.
  pub finalize_resume-IsFinalized :
      (hash : String) (expected : ReconcileResumePolicy)
      (rounds : List (Round parts Spec Overrides))
      → All IsCoherent rounds
      → Ends
          (IsFinalized hash expected)
          (finalize_middleware_reconcile_resume parts Spec Overrides hash expected rounds)
  unfolding finalize_middleware_reconcile_resume
  finalize_resume-IsFinalized hash expected rounds c =
      retry-Ends (IsFinalized hash expected) _ (λ s. finalize_round-Sends hash expected) tt rounds c
