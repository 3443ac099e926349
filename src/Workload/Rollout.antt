-- ===== src/Workload/Rollout.antt =====
-- What the derived phases say of a rollout, for the three kinds of workload of internal/k8s.
use opensaola.Base.{
  ℕ, ◌+◌, ◌≤◌, String, eq_iff, List, [], ◌∷◌, ◌≡◌, ◌≢◌, ◌⊎◌, ◌↔◌, inl, inr, refl, true, Bool-cases,
  some, any, Some, arith,
}
use opensaola.Api.{Phase, ConditionStatus}
use opensaola.Workload.{
  DeploymentConditionType, DeploymentCondition, Deployment, StatefulSet, DaemonSet,
  desired_replicas, workload_progress_phase, deployment_has_failed, derive_deployment_phase,
  stateful_set_revision_converged, derive_stateful_set_phase, derive_daemon_set_phase, partition_of,
  is_failure,
}

-- ReplicaFailure with status True, or Progressing with status False for the deadline.
abbrev pub IsFailure : DeploymentConditionType → ConditionStatus → String → Type 0
IsFailure type status reason =
    ((type ≡ DeploymentConditionType.replica_failure) × (status ≡ ConditionStatus.condition_true))
    ⊎ ((type ≡ DeploymentConditionType.progressing)
        × (status ≡ ConditionStatus.condition_false)
        × (reason ≡ "ProgressDeadlineExceeded"))

is_failure_sound :
    (t : DeploymentConditionType) (s : ConditionStatus) (r : String)
    → is_failure t s r ≡ true
    → IsFailure t s r
is_failure_sound DeploymentConditionType.replica_failure ConditionStatus.condition_true r h =
    inl (refl, refl)
is_failure_sound DeploymentConditionType.replica_failure ConditionStatus.condition_false r h = cc
is_failure_sound DeploymentConditionType.replica_failure ConditionStatus.condition_unknown r h = cc
is_failure_sound DeploymentConditionType.progressing ConditionStatus.condition_true r h = cc
is_failure_sound DeploymentConditionType.progressing ConditionStatus.condition_false r h =
    inr (refl, refl, (eq_iff r "ProgressDeadlineExceeded").0 h)
is_failure_sound DeploymentConditionType.progressing ConditionStatus.condition_unknown r h = cc
is_failure_sound DeploymentConditionType.available ConditionStatus.condition_true r h = cc
is_failure_sound DeploymentConditionType.available ConditionStatus.condition_false r h = cc
is_failure_sound DeploymentConditionType.available ConditionStatus.condition_unknown r h = cc

is_failure_complete :
    (t : DeploymentConditionType) (s : ConditionStatus) (r : String)
    → IsFailure t s r
    → is_failure t s r ≡ true
is_failure_complete DeploymentConditionType.replica_failure ConditionStatus.condition_true r h =
    refl
is_failure_complete DeploymentConditionType.replica_failure ConditionStatus.condition_false r h =
    ground arith
is_failure_complete DeploymentConditionType.replica_failure ConditionStatus.condition_unknown r h =
    ground arith
is_failure_complete DeploymentConditionType.progressing ConditionStatus.condition_true r h =
    ground arith
is_failure_complete DeploymentConditionType.progressing ConditionStatus.condition_false r h =
    ground (arith, eq_iff r "ProgressDeadlineExceeded")
is_failure_complete DeploymentConditionType.progressing ConditionStatus.condition_unknown r h =
    ground arith
is_failure_complete DeploymentConditionType.available ConditionStatus.condition_true r h =
    ground arith
is_failure_complete DeploymentConditionType.available ConditionStatus.condition_false r h =
    ground arith
is_failure_complete DeploymentConditionType.available ConditionStatus.condition_unknown r h =
    ground arith

abbrev pub HasFailure : List DeploymentCondition → Type 0
HasFailure = Some (λ c. IsFailure c.type c.status c.reason)

has_failed_sound : (cs : List DeploymentCondition) → deployment_has_failed cs ≡ true → HasFailure cs
unfolding deployment_has_failed any
has_failed_sound [] h = cc
has_failed_sound (c ∷ cs) h = elim (Bool-cases (is_failure c.type c.status c.reason)) [
  | inl e ↦ inl (is_failure_sound c.type c.status c.reason e)
  | inr e ↦ inr (has_failed_sound cs (ground (arith, e)))
]

has_failed_complete :
    (cs : List DeploymentCondition) → HasFailure cs → deployment_has_failed cs ≡ true
unfolding deployment_has_failed any
has_failed_complete [] h = absurd h
has_failed_complete (c ∷ cs) (inl h) =
    ground (arith, is_failure_complete c.type c.status c.reason h)
has_failed_complete (c ∷ cs) (inr h) = ground (arith, has_failed_complete cs h)

-- A Deployment is reported Failed exactly when its status is fresh and some condition of it is
-- ReplicaFailure with status True, or Progressing with status False and the reason
-- ProgressDeadlineExceeded.
pub deployment-failed_iff :
    (d : Deployment) (previous_phase : Phase)
    → (derive_deployment_phase (some d) previous_phase ≡ Phase.failed)
      ↔ ((d.generation ≤ d.observed_generation) × HasFailure d.conditions)
unfolding derive_deployment_phase workload_progress_phase
deployment-failed_iff d p = (
  λ h. (ground arith, has_failed_sound d.conditions (ground arith)),
  λ h. ground (arith, has_failed_complete d.conditions h.1),
)

-- A converged rollout has updated every replica but those below the partition.
converged_bound :
    (s : StatefulSet) (desired : ℕ)
    → stateful_set_revision_converged s desired ≡ true
    → desired ≤ s.updated_replicas + partition_of s.rolling_update
unfolding stateful_set_revision_converged
converged_bound s desired h = ground arith

-- A StatefulSet that is reported Running has a fresh status, every desired replica created, ready
-- and available, and every replica updated but as many as the rolling-update partition holds
-- back.
pub stateful_set-running_sound :
    (s : StatefulSet) (previous_phase : Phase)
    → derive_stateful_set_phase (some s) previous_phase ≡ Phase.running
    → (s.generation ≤ s.observed_generation)
      × (s.replicas ≡ desired_replicas s.spec_replicas)
      × (s.ready_replicas ≡ desired_replicas s.spec_replicas)
      × (s.available_replicas ≡ desired_replicas s.spec_replicas)
      × (desired_replicas s.spec_replicas ≤ s.updated_replicas + partition_of s.rolling_update)
unfolding derive_stateful_set_phase workload_progress_phase
stateful_set-running_sound s p h =
    ground (arith, converged_bound s (desired_replicas s.spec_replicas))

-- A native workload of one of the three kinds.
pub data AnyWorkload : Type 0 where
  deployment : Deployment → AnyWorkload
  stateful_set : StatefulSet → AnyWorkload
  daemon_set : DaemonSet → AnyWorkload

abbrev pub derive_phase : AnyWorkload → Phase → Phase
derive_phase (deployment d) = derive_deployment_phase (some d)
derive_phase (stateful_set s) = derive_stateful_set_phase (some s)
derive_phase (daemon_set m) = derive_daemon_set_phase (some m)

abbrev pub generation_of : AnyWorkload → ℕ
generation_of (deployment d) = d.generation
generation_of (stateful_set s) = s.generation
generation_of (daemon_set m) = m.generation

module _ (previous_phase : Phase) where
  progress-creating :
      (generation : ℕ)
      → workload_progress_phase generation previous_phase ≡ Phase.creating
      → (generation ≤ 1) × (previous_phase ≢ Phase.running) × (previous_phase ≢ Phase.updating)
  unfolding workload_progress_phase
  progress-creating g h = (ground arith, λ e. ground arith, λ e. ground arith)

  -- Where a phase that is derived from an existing workload, of any of the three kinds, is
  -- Creating, the generation of the workload is at most 1 and the previous phase is neither
  -- Running nor Updating.
  pub creating_only_initially :
      (w : AnyWorkload)
      → derive_phase w previous_phase ≡ Phase.creating
      → (generation_of w ≤ 1) × (previous_phase ≢ Phase.running) × (previous_phase ≢ Phase.updating)
  unfolding derive_deployment_phase derive_stateful_set_phase derive_daemon_set_phase
  creating_only_initially (deployment d) h = progress-creating d.generation (ground arith)
  creating_only_initially (stateful_set s) h = progress-creating s.generation (ground arith)
  creating_only_initially (daemon_set m) h = progress-creating m.generation (ground arith)
