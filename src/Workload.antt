-- ===== src/Workload.antt =====
-- The phases that OpenSaola derives from native workloads: internal/k8s/deployment.go, sts.go,
-- daemonsets.go and workload_phase.go. The int32 and int64 counters are natural numbers: the API
-- server's validation rejects negative replica counts, partitions and generations, and no
-- function here subtracts but `desired-partition`, where `partition <= desired` has been forced.
pub mod Rollout
use opensaola.Base.{
  ℕ, ◌-◌, String, ◌==◌, Bool, true, false, not, ◌&&◌, ◌||◌, List, Option, none, some, any, leb, ltb,
  eqb, if◌then◌else◌, min,
}
use opensaola.Api.{Phase, ConditionStatus, is_condition_true, condition_false}
use opensaola.Api

unfoldable pub desired_replicas : Option ℕ → ℕ
desired_replicas none = 1
desired_replicas (some n) = n

unfoldable pub workload_progress_phase : ℕ → Phase → Phase
workload_progress_phase generation previous_phase =
    if ltb 1 generation || Api.is_running_or_updating previous_phase
    then Phase.updating
    else Phase.creating

-- appsv1.DeploymentConditionType
pub data DeploymentConditionType : Type 0 where
  replica_failure progressing available : DeploymentConditionType

pub record DeploymentCondition : Type 0 where
  pub type : DeploymentConditionType
  pub status : ConditionStatus
  pub reason : String

pub record Deployment : Type 0 where
  pub generation : ℕ
  pub spec_replicas : Option ℕ
  pub observed_generation : ℕ
  pub replicas : ℕ
  pub updated_replicas : ℕ
  pub ready_replicas : ℕ
  pub available_replicas : ℕ
  pub unavailable_replicas : ℕ
  pub terminating_replicas : Option ℕ
  pub conditions : List DeploymentCondition

abbrev pub is_failure : DeploymentConditionType → ConditionStatus → String → Bool
is_failure replica_failure Api.ConditionStatus.condition_true reason = true
is_failure progressing Api.ConditionStatus.condition_false reason =
    reason == "ProgressDeadlineExceeded"
is_failure _ _ reason = false

unfoldable pub deployment_has_failed : List DeploymentCondition → Bool
unfolding any
deployment_has_failed = any (λ c. is_failure c.type c.status c.reason)

abbrev is_positive : Option ℕ → Bool
is_positive none = false
is_positive (some n) = ltb 0 n

unfoldable pub derive_deployment_phase : Option Deployment → Phase → Phase
derive_deployment_phase none previous_phase = Phase.unknown
derive_deployment_phase (some d) previous_phase =
    let desired = desired_replicas d.spec_replicas in
    let observed = leb d.generation d.observed_generation in
    let terminating = is_positive d.terminating_replicas in
    if observed && deployment_has_failed d.conditions
    then Phase.failed
    else if observed
        && eqb d.replicas desired
        && eqb d.updated_replicas desired
        && eqb d.ready_replicas desired
        && eqb d.available_replicas desired
        && eqb d.unavailable_replicas 0
        && not terminating
    then Phase.running
    else workload_progress_phase d.generation previous_phase

-- spec.updateStrategy: its type, and rollingUpdate.partition where both pointers are set
pub data UpdateStrategyType : Type 0 where
  unset rolling_update on_delete : UpdateStrategyType

pub record StatefulSet : Type 0 where
  pub generation : ℕ
  pub spec_replicas : Option ℕ
  pub strategy_type : UpdateStrategyType
  pub rolling_update : Option (Option ℕ)
  pub observed_generation : ℕ
  pub replicas : ℕ
  pub ready_replicas : ℕ
  pub available_replicas : ℕ
  pub current_replicas : ℕ
  pub updated_replicas : ℕ
  pub current_revision : String
  pub update_revision : String

abbrev pub partition_of : Option (Option ℕ) → ℕ
partition_of (some (some p)) = p
partition_of _ = 0

abbrev pub is_rolling : UpdateStrategyType → Bool
is_rolling on_delete = false
is_rolling _ = true

unfoldable pub stateful_set_revision_converged : StatefulSet → ℕ → Bool
stateful_set_revision_converged s desired =
    let partition = partition_of s.rolling_update in
    let clamped = if ltb desired partition then desired else partition in
    let converged =
      eqb s.current_replicas desired
      && eqb s.updated_replicas desired
      && not (s.current_revision == "")
      && s.current_revision == s.update_revision in
    if eqb desired 0
    then eqb s.current_replicas 0 && eqb s.updated_replicas 0
    else if is_rolling s.strategy_type && ltb 0 clamped
    then leb (desired - clamped) s.updated_replicas
    else converged

unfoldable pub derive_stateful_set_phase : Option StatefulSet → Phase → Phase
derive_stateful_set_phase none previous_phase = Phase.unknown
derive_stateful_set_phase (some s) previous_phase =
    let desired = desired_replicas s.spec_replicas in
    if leb s.generation s.observed_generation
      && eqb s.replicas desired
      && eqb s.ready_replicas desired
      && eqb s.available_replicas desired
      && stateful_set_revision_converged s desired
    then Phase.running
    else workload_progress_phase s.generation previous_phase

pub record DaemonSet : Type 0 where
  pub generation : ℕ
  pub observed_generation : ℕ
  pub desired_number_scheduled : ℕ
  pub current_number_scheduled : ℕ
  pub updated_number_scheduled : ℕ
  pub number_ready : ℕ
  pub number_available : ℕ
  pub number_unavailable : ℕ
  pub number_misscheduled : ℕ

unfoldable pub derive_daemon_set_phase : Option DaemonSet → Phase → Phase
derive_daemon_set_phase none previous_phase = Phase.unknown
derive_daemon_set_phase (some s) previous_phase =
    let desired = s.desired_number_scheduled in
    if leb s.generation s.observed_generation
      && eqb s.current_number_scheduled desired
      && eqb s.updated_number_scheduled desired
      && eqb s.number_ready desired
      && eqb s.number_available desired
      && eqb s.number_unavailable 0
      && eqb s.number_misscheduled 0
    then Phase.running
    else workload_progress_phase s.generation previous_phase
