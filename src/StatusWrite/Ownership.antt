-- ===== src/StatusWrite/Ownership.antt =====
-- What a status write by a controller does to the fields that the runtime owns (internal/k8s/middleware.go).
use opensaola.Base.{
  ◌≤◌, Bool, List, All, ltb, ◌≡◌, refl, subst, inl, inr, Bool-cases, ltb-false→le, arith,
}
use opensaola.StatusWrite.{
  StatusParts, MiddlewareStatus, StoredMiddleware, Round, commit_status, raise_observed,
  desired_status, status_round, update_middleware_status,
}
use opensaola.StatusWrite.Keeps.{IsCoherent, Ends, Sends, retry-Ends}

module _ {parts : StatusParts} where
  -- The runtime's projection and the pause snapshot stay; the observed generation and the generation
  -- of the inventory do not go back.
  pub record KeepsStatus (before after : MiddlewareStatus parts) : Type 0 where
    pub custom_resources : after.custom_resources ≡ before.custom_resources
    pub reconcile_pause : after.reconcile_pause ≡ before.reconcile_pause
    pub observed : before.observed_generation ≤ after.observed_generation
    pub rendered : before.rendered_generation ≤ after.rendered_generation

  module _ (Spec Overrides : Type 0) where
    desired-KeepsStatus :
        (m now : MiddlewareStatus parts)
        → KeepsStatus now
            (desired_status parts Spec Overrides (raise_observed parts Spec Overrides m now) now)
    unfolding raise_observed desired_status
    desired-KeepsStatus m now =
        elim (Bool-cases (ltb m.observed_generation now.observed_generation)) [
          | inl e ↦ elim (Bool-cases (ltb m.rendered_generation now.rendered_generation)) [
            | inl f ↦
                rw (e, f)
                  (record {
                    custom_resources = refl;
                    reconcile_pause = refl;
                    observed = omega arith;
                    rendered = omega arith;
                  })
            | inr f ↦
                rw (e, f)
                  (record {
                    custom_resources = refl;
                    reconcile_pause = refl;
                    observed = omega arith;
                    rendered = ltb-false→le _ _ f;
                  })
          ]
          | inr e ↦ elim (Bool-cases (ltb m.rendered_generation now.rendered_generation)) [
            | inl f ↦
                rw (e, f)
                  (record {
                    custom_resources = refl;
                    reconcile_pause = refl;
                    observed = ltb-false→le _ _ e;
                    rendered = omega arith;
                  })
            | inr f ↦
                rw (e, f)
                  (record {
                    custom_resources = refl;
                    reconcile_pause = refl;
                    observed = ltb-false→le _ _ e;
                    rendered = ltb-false→le _ _ f;
                  })
          ]
        ]

module _ {parts : StatusParts} {Spec Overrides : Type 0} where
  -- How a status write changes the stored object.
  pub record KeepsOwned (before after : StoredMiddleware parts Spec Overrides) : Type 0 where
    pub generation : after.generation ≡ before.generation
    pub annotations : after.annotations ≡ before.annotations
    pub overrides : after.overrides ≡ before.overrides
    pub spec : after.spec ≡ before.spec
    pub status : KeepsStatus before.status after.status

  module _ (deep_equal : MiddlewareStatus parts → MiddlewareStatus parts → Bool) where
    status_round-Sends :
        (m : MiddlewareStatus parts) (r : Round parts Spec Overrides)
        (now : StoredMiddleware parts Spec Overrides)
        → Sends KeepsOwned r now (status_round parts Spec Overrides deep_equal m now).1
    unfolding status_round commit_status
    status_round-Sends m r now =
        let desired =
          desired_status parts Spec Overrides (raise_observed parts Spec Overrides m now.status)
            now.status in
        elim (Bool-cases (deep_equal now.status desired)) [
          | inl e ↦ rw e tt
          | inr e ↦ rw e (
            refl,
            λ p. record {
              generation = refl;
              annotations = refl;
              overrides = refl;
              spec = refl;
              status =
                  subst (λ x. KeepsStatus x.status desired) p
                    (desired-KeepsStatus Spec Overrides m now.status);
            },
          )
        ]

    -- Where a resource version identifies a state of the object, a write by
    -- UpdateMiddlewareStatus, after any conflicts and stale reads, leaves the stored projection
    -- of the custom resources and the stored pause snapshot as they are, sets neither the
    -- observed generation nor the generation of the rendered inventory back, and changes nothing
    -- outside the status.
    pub status_update-KeepsOwned :
        (m : MiddlewareStatus parts) (rounds : List (Round parts Spec Overrides))
        → All IsCoherent rounds
        → Ends KeepsOwned (update_middleware_status parts Spec Overrides deep_equal m rounds)
    unfolding update_middleware_status
    status_update-KeepsOwned m rounds c =
        retry-Ends KeepsOwned (status_round parts Spec Overrides deep_equal) status_round-Sends m
          rounds c
