-- ===== src/StatusWrite/Progress.antt =====
-- How a write that is retried on conflicts ends where a read is fresh (internal/k8s/middleware.go).
use opensaola.Base.{
  ◌==◌, eq_iff, Bool, true, false, List, [], ◌∷◌, some, Some, ◌≡◌, ◌⊎◌, refl, ◌∙◌, arith, inl, inr,
  Bool-cases, Option-cases,
}
use opensaola.StatusWrite.{
  StatusParts, MiddlewareStatus, StoredMiddleware, Round, Attempt, Ending, WriteError, send, settle,
  retry_on_conflict, raise_observed, desired_status, status_round, update_middleware_status,
  patch_round, patch_middleware_status_fields,
}

module _ {parts : StatusParts} {Spec Overrides : Type 0} where
  -- The read returns what the server has stored when the update arrives.
  abbrev pub IsFresh : Round parts Spec Overrides → Type 0
  IsFresh r = r.read ≡ some r.stored

  abbrev pub is_conflict : Ending parts Spec Overrides → Bool
  is_conflict (Ending.failed WriteError.conflict) = true
  is_conflict _ = false

  -- The round carries the version that it has read, and refuses nothing as a conflict.
  abbrev IsPlain : StoredMiddleware parts Spec Overrides → Attempt parts Spec Overrides → Type 0
  IsPlain now Attempt.unchanged = Unit
  IsPlain now (Attempt.refused e) = is_conflict (Ending.failed e) ≡ false
  IsPlain now (Attempt.update_status sent) = sent.resource_version ≡ now.resource_version
  IsPlain now (Attempt.update_object sent) = sent.resource_version ≡ now.resource_version

  send-fresh :
      (r : Round parts Spec Overrides) (sent committed : StoredMiddleware parts Spec Overrides)
      (retry : Ending parts Spec Overrides)
      → (sent.resource_version ≡ r.stored.resource_version) ⊎ (is_conflict retry ≡ false)
      → is_conflict (send parts Spec Overrides r sent committed retry) ≡ false
  unfolding send
  send-fresh r sent committed retry h =
      elim (Bool-cases (sent.resource_version == r.stored.resource_version)) [
        | inl f ↦ elim (Bool-cases r.fails) [ inl g ↦ rw (f, g) refl | inr g ↦ rw (f, g) refl ]
        | inr f ↦ rw f (late h f)
      ]
    where
      late :
          (sent.resource_version ≡ r.stored.resource_version) ⊎ (is_conflict retry ≡ false)
          → (sent.resource_version == r.stored.resource_version) ≡ false
          → is_conflict retry ≡ false
      late (inl e) f =
          absurd (ground (arith, eq_iff sent.resource_version r.stored.resource_version))
      late (inr e) f = e

  settle-fresh :
      (r : Round parts Spec Overrides) (now : StoredMiddleware parts Spec Overrides)
      (attempt : Attempt parts Spec Overrides) (retry : Ending parts Spec Overrides)
      → IsPlain now attempt
      → (now.resource_version ≡ r.stored.resource_version) ⊎ (is_conflict retry ≡ false)
      → is_conflict (settle parts Spec Overrides r attempt retry) ≡ false
  unfolding settle
  settle-fresh r now Attempt.unchanged retry p h = refl
  settle-fresh r now (Attempt.refused e) retry p h = p
  settle-fresh r now (Attempt.update_status sent) retry p h =
      send-fresh r sent _ retry (elim h [ inl e ↦ inl (p ∙ e) | inr e ↦ inr e ])
  settle-fresh r now (Attempt.update_object sent) retry p h =
      send-fresh r sent _ retry (elim h [ inl e ↦ inl (p ∙ e) | inr e ↦ inr e ])

  retry-fresh :
      {S : Type 0}
      (body : S → StoredMiddleware parts Spec Overrides → S × Attempt parts Spec Overrides)
      → ((s : S) (now : StoredMiddleware parts Spec Overrides) → IsPlain now (body s now).1)
      → (s : S) (rs : List (Round parts Spec Overrides)) → Some IsFresh rs
      → is_conflict (retry_on_conflict parts Spec Overrides body s rs) ≡ false
  unfolding retry_on_conflict
  retry-fresh body b s [] h = elim h [ ]
  retry-fresh body b s (r ∷ rs) (inl e) =
      rw e (settle-fresh r r.stored (body s r.stored).1 _ (b s r.stored) (inl refl))
  retry-fresh body b s (r ∷ rs) (inr h) = elim (Option-cases r.read) [
    | inl e ↦ rw e refl
    | inr (now, e) ↦ rw e (
        settle-fresh r now (body s now).1 _ (b s now)
          (inr (retry-fresh body b (body s now).0 rs h)))
  ]

  module _ (deep_equal : MiddlewareStatus parts → MiddlewareStatus parts → Bool) where
    status_round-IsPlain :
        (m : MiddlewareStatus parts) (now : StoredMiddleware parts Spec Overrides)
        → IsPlain now (status_round parts Spec Overrides deep_equal m now).1
    unfolding status_round
    status_round-IsPlain m now =
        let desired =
          desired_status parts Spec Overrides (raise_observed parts Spec Overrides m now.status)
            now.status in
        elim (Bool-cases (deep_equal now.status desired)) [ inl e ↦ rw e tt | inr e ↦ rw e refl ]

    patch_round-IsPlain :
        (mutate : MiddlewareStatus parts → MiddlewareStatus parts)
        (now : StoredMiddleware parts Spec Overrides)
        → IsPlain now (patch_round parts Spec Overrides deep_equal mutate now)
    unfolding patch_round
    patch_round-IsPlain mutate now = elim (Bool-cases (deep_equal now.status (mutate now.status))) [
      | inl e ↦ rw e tt
      | inr e ↦ rw e refl
    ]

    -- Where one of the rounds that the backoff grants reads what the server has stored when its
    -- update arrives, neither UpdateMiddlewareStatus nor PatchMiddlewareStatusFields ends with a
    -- conflict.
    pub status_writes-fresh :
        (m : MiddlewareStatus parts) (mutate : MiddlewareStatus parts → MiddlewareStatus parts)
        (rounds : List (Round parts Spec Overrides))
        → Some IsFresh rounds
        → (is_conflict (update_middleware_status parts Spec Overrides deep_equal m rounds) ≡ false)
          × (is_conflict
                (patch_middleware_status_fields parts Spec Overrides deep_equal mutate rounds)
              ≡ false)
    unfolding update_middleware_status patch_middleware_status_fields
    status_writes-fresh m mutate rounds h = (
      retry-fresh (status_round parts Spec Overrides deep_equal) status_round-IsPlain m rounds h,
      retry-fresh _ (λ s. patch_round-IsPlain mutate) tt rounds h,
    )
