-- ===== src/StatusWrite.antt =====
-- internal/k8s/middleware.go: the writes of a Middleware that are retried on a conflict. The API
-- server accepts an update whose resource version is the stored one; every round of
-- retry.RetryOnConflict has what its read returns, which may be stale, and what the server has
-- stored when the update arrives, whatever other writers did in between.
pub mod Keeps
pub mod Ownership
pub mod Resume
pub mod Progress
use opensaola.Base.{
  ℕ, String, ◌==◌, Bool, true, false, not, ◌&&◌, ◌||◌, List, [], ◌∷◌, Option, none, some, Dict,
  delete, eqb, ltb, if◌then◌else◌,
}
use opensaola.Api.{
  Condition, ReconcileResumePolicy, same_policy, reconcile_resume_policy_for,
  annotation_suspend_reconcile, annotation_resume_policy,
}

-- The parts of the status that no code here looks into, and equality.Semantic.DeepEqual.
pub record StatusParts : Type 1 where
  pub Projection : Type 0
  pub Inventory : Type 0
  pub Rest : Type 0

pub record Snapshot : Type 0 where
  pub hash : String

module _ (parts : StatusParts) where
  pub record MiddlewareStatus : Type 0 where
    pub observed_generation : ℕ
    pub custom_resources : parts.Projection
    pub reconcile_pause : Option Snapshot
    pub rendered : parts.Inventory
    pub rendered_generation : ℕ
    pub conditions : List Condition
    pub rest : parts.Rest

module _ (parts : StatusParts) (Spec Overrides : Type 0) where
  -- The spec is split into spec.reconcileOverrides and everything else.
  pub record StoredMiddleware : Type 0 where
    pub resource_version : String
    pub generation : ℕ
    pub annotations : Dict String
    pub overrides : Option Overrides
    pub spec : Spec
    pub status : MiddlewareStatus parts

  -- `read` is `none` where the read fails. The server answers an update of the stored object with
  -- `fails` for an error other than a conflict, and else gives the new version and generation.
  pub record Round : Type 0 where
    pub read : Option StoredMiddleware
    pub stored : StoredMiddleware
    pub fails : Bool
    pub next_version : String
    pub next_generation : ℕ

  pub data WriteError : Type 0 where
    read_failed update_failed conflict : WriteError
    generation_changed snapshot_changed policy_changed : WriteError

  -- What one round wants to do with the object that it has read.
  pub data Attempt : Type 0 where
    unchanged : Attempt
    refused : WriteError → Attempt
    update_status update_object : StoredMiddleware → Attempt

  -- How a write ends: with nothing to do, an error, or the stored object before and after it.
  pub data Ending : Type 0 where
    nothing : Ending
    failed : WriteError → Ending
    written : StoredMiddleware → StoredMiddleware → Ending

  -- Status().Update writes the status only, Update everything but the status.
  unfoldable pub commit_status : Round → StoredMiddleware → StoredMiddleware
  commit_status r sent = record r.stored { resource_version = r.next_version; status = sent.status }

  unfoldable pub commit_object : Round → StoredMiddleware → StoredMiddleware
  commit_object r sent = record sent {
    resource_version = r.next_version;
    generation = r.next_generation;
    status = r.stored.status;
  }

  -- The server's answer to an update; `retry` is the rest of the rounds, for a conflict.
  unfoldable pub send : Round → StoredMiddleware → StoredMiddleware → Ending → Ending
  send r sent committed retry =
      if not (sent.resource_version == r.stored.resource_version)
      then retry
      else if r.fails
      then failed update_failed
      else written r.stored committed

  unfoldable pub settle : Round → Attempt → Ending → Ending
  settle r unchanged retry = nothing
  settle r (refused e) retry = failed e
  settle r (update_status sent) retry = send r sent (commit_status r sent) retry
  settle r (update_object sent) retry = send r sent (commit_object r sent) retry

  -- retry.RetryOnConflict over a round that keeps a state of its own between attempts; the rounds
  -- are as many as the backoff grants.
  unfoldable pub retry_on_conflict :
      {S : Type 0} → (S → StoredMiddleware → S × Attempt) → S → List Round → Ending
  retry_on_conflict body s [] = failed conflict
  retry_on_conflict body s (r ∷ rs) = elim r.read [
    | none ↦ failed read_failed
    | some now ↦ let (s', attempt) = body s now in settle r attempt (retry_on_conflict body s' rs)
  ]

  -- The observed generation never goes back: `m` keeps the larger one for the rounds to come.
  unfoldable pub raise_observed :
      MiddlewareStatus parts → MiddlewareStatus parts → MiddlewareStatus parts
  raise_observed m now =
      if ltb m.observed_generation now.observed_generation
      then record m { observed_generation = now.observed_generation }
      else m

  unfoldable pub desired_status :
      MiddlewareStatus parts → MiddlewareStatus parts → MiddlewareStatus parts
  desired_status m now =
      let kept = record m {
        custom_resources = now.custom_resources;
        reconcile_pause = now.reconcile_pause;
      } in
      if ltb m.rendered_generation now.rendered_generation
      then record kept { rendered = now.rendered; rendered_generation = now.rendered_generation }
      else kept

  module _ (deep_equal : MiddlewareStatus parts → MiddlewareStatus parts → Bool) where
    unfoldable pub status_round :
        MiddlewareStatus parts → StoredMiddleware → MiddlewareStatus parts × Attempt
    status_round m now =
        let m' = raise_observed m now.status in
        let desired = desired_status m' now.status in
        (
          m',
          if deep_equal now.status desired
              then unchanged
              else update_status (record now { status = desired }),
        )

    unfoldable pub update_middleware_status : MiddlewareStatus parts → List Round → Ending
    update_middleware_status = retry_on_conflict status_round

  -- The hash is the empty text where no snapshot is expected.
  unfoldable pub snapshot_matches : String → Option Snapshot → Bool
  snapshot_matches hash none = hash == ""
  snapshot_matches hash (some s) = hash == "" || s.hash == hash

  unfoldable pub policy_matches : ReconcileResumePolicy → Option ReconcileResumePolicy → Bool
  policy_matches expected none = false
  policy_matches expected (some p) = same_policy p expected

  unfoldable pub complete_round :
      ℕ → String → ReconcileResumePolicy → Option Overrides → StoredMiddleware → Attempt
  complete_round generation hash expected overrides now =
      if not (eqb now.generation generation)
      then refused generation_changed
      else if not (snapshot_matches hash now.status.reconcile_pause)
      then refused snapshot_changed
      else if not (policy_matches expected (reconcile_resume_policy_for now.annotations))
      then refused policy_changed
      else update_object (record now {
        overrides = overrides;
        annotations = delete annotation_suspend_reconcile now.annotations;
      })

  unfoldable pub complete_middleware_reconcile_resume :
      ℕ → String → ReconcileResumePolicy → Option Overrides → List Round → Ending
  complete_middleware_reconcile_resume generation hash expected overrides =
      retry_on_conflict (λ s now. (s, complete_round generation hash expected overrides now)) tt

  unfoldable pub finalize_round : String → ReconcileResumePolicy → StoredMiddleware → Attempt
  finalize_round hash expected now =
      if not (snapshot_matches hash now.status.reconcile_pause)
      then refused snapshot_changed
      else if not (policy_matches expected (reconcile_resume_policy_for now.annotations))
      then refused policy_changed
      else update_object
          (record now { annotations = delete annotation_resume_policy now.annotations })

  unfoldable pub finalize_middleware_reconcile_resume :
      String → ReconcileResumePolicy → List Round → Ending
  finalize_middleware_reconcile_resume hash expected =
      retry_on_conflict (λ s now. (s, finalize_round hash expected now)) tt

  -- PatchMiddlewareStatusFields, with what the caller changes.
  module _ (deep_equal : MiddlewareStatus parts → MiddlewareStatus parts → Bool) where
    unfoldable pub patch_round :
        (MiddlewareStatus parts → MiddlewareStatus parts) → StoredMiddleware → Attempt
    patch_round mutate now =
        if deep_equal now.status (mutate now.status)
        then unchanged
        else update_status (record now { status = mutate now.status })

    unfoldable pub patch_middleware_status_fields :
        (MiddlewareStatus parts → MiddlewareStatus parts) → List Round → Ending
    patch_middleware_status_fields mutate =
        retry_on_conflict (λ s now. (s, patch_round mutate now)) tt
