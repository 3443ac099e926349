-- ===== src/Readiness.antt =====
-- internal/service/synchronizer/readiness_diagnostic.go: which pod, container or volume claim a
-- middleware's readiness diagnostic names, and what the first-start grace period suppresses. The
-- text of the diagnostic is kept as the object, the field, and the state found. Pods and claims are
-- given in the order of their sorted names; a time is a number of nanoseconds, 0 the zero time.
pub mod Messages
pub mod Grace
pub mod Diagnosed
use opensaola.Base.{
  ℕ, ◌+◌, String, ◌==◌, Bool, true, false, not, ◌||◌, ◌&&◌, List, [], ◌∷◌, Option, none, some, any,
  trim_space, leb, ltb, eqb, if◌then◌else◌,
}
use opensaola.Readiness.Messages.{is_pvc_binding_only}
use opensaola.Api.{Phase, is_creating, ConditionStatus, condition_true, is_condition_true}

-- 2 * time.Minute
abbrev pub initial_readiness_grace_period : ℕ
initial_readiness_grace_period = 120000000000

pub record PrimaryMeta : Type 0 where
  pub generation : ℕ
  pub creation_timestamp : ℕ

-- container.State.Waiting: its reason, where the container waits.
pub record ContainerStatus : Type 0 where
  pub name : String
  pub waiting : Option String

-- corev1's condition types that the source names, and the others.
pub data PodConditionType : Type 0 where
  pod_scheduled containers_ready pod_ready : PodConditionType
  other_type : String → PodConditionType

pub record PodCondition : Type 0 where
  pub type : PodConditionType
  pub status : ConditionStatus
  pub reason : String
  pub message : String

pub record Pod : Type 0 where
  pub name : String
  pub init_container_statuses : List ContainerStatus
  pub container_statuses : List ContainerStatus
  pub conditions : List PodCondition

pub record VolumeClaim : Type 0 where
  pub name : String
  pub is_pending : Bool

pub data Diagnostic : Type 0 where
  waiting_container : String → ContainerStatus → Diagnostic
  pod_condition : String → PodCondition → Diagnostic
  pending_claim : String → Diagnostic

-- `none` for a nil resource, a later generation, or no creation time.
unfoldable pub initial_readiness_deadline : Option PrimaryMeta → Option ℕ
initial_readiness_deadline none = none
initial_readiness_deadline (some cr) =
    if not (eqb cr.generation 1)
    then none
    else if eqb cr.creation_timestamp 0
    then none
    else some (cr.creation_timestamp + initial_readiness_grace_period)

-- The phase is mid.Status.CustomResources.Phase, `none` for a nil middleware.
unfoldable pub initial_readiness_grace_deadline : Option Phase → Option PrimaryMeta → Option ℕ
initial_readiness_grace_deadline none cr = none
initial_readiness_grace_deadline (some phase) cr =
    if not (is_creating phase) then none else initial_readiness_deadline cr

abbrev created_at : Option PrimaryMeta → ℕ
created_at none = 0
created_at (some cr) = cr.creation_timestamp

abbrev pub is_between : ℕ → Option ℕ → ℕ → Bool
is_between start none now = false
is_between start (some deadline) now = leb start now && ltb now deadline

unfoldable pub is_within_initial_readiness_grace : Option Phase → Option PrimaryMeta → ℕ → Bool
is_within_initial_readiness_grace phase cr now =
    is_between (created_at cr) (initial_readiness_grace_deadline phase cr) now

unfoldable pub is_transient_middleware_waiting_reason : String → Bool
is_transient_middleware_waiting_reason reason =
    reason == "ContainerCreating" || reason == "PodInitializing"

abbrev pub waits : (String → Bool) → ContainerStatus → Bool
waits p c = elim c.waiting [ none ↦ false | some reason ↦ p reason ]

abbrev pub is_stuck : ContainerStatus → Bool
is_stuck c = waits (λ reason. not (is_transient_middleware_waiting_reason reason)) c

abbrev pub is_transient : ContainerStatus → Bool
is_transient c = waits is_transient_middleware_waiting_reason c

-- The first that passes the test: the loops that return at the first hit.
unfoldable pub first {ℓ} : {A : Type ℓ} → (A → Bool) → List A → Option A
first p [] = none
first p (x ∷ xs) = if p x then some x else first p xs

unfoldable pub or_else {ℓ} : {A : Type ℓ} → Option A → Option A → Option A
or_else none o = o
or_else (some x) o = some x

-- The diagnostic of what was found.
unfoldable pub described : {A : Type 0} → (A → Diagnostic) → Option A → Option Diagnostic
described f none = none
described f (some x) = some (f x)

-- Init containers come first.
unfoldable pub first_middleware_waiting_container : Pod → Option ContainerStatus
first_middleware_waiting_container pod =
    or_else (first is_stuck pod.init_container_statuses) (first is_stuck pod.container_statuses)

unfoldable pub has_transient_middleware_waiting_container : Pod → Bool
has_transient_middleware_waiting_container pod =
    any is_transient pod.init_container_statuses || any is_transient pod.container_statuses

abbrev pub is_scheduling : PodConditionType → Bool
is_scheduling pod_scheduled = true
is_scheduling _ = false

abbrev pub is_readiness : PodConditionType → Bool
is_readiness containers_ready = true
is_readiness pod_ready = true
is_readiness _ = false

-- strings.ToLower
module _ (to_lower : String → String) where
  unfoldable pub is_initial_pvc_binding_pending_condition : PodCondition → Bool
  is_initial_pvc_binding_pending_condition c =
      is_scheduling c.type
      && c.reason == "Unschedulable"
      && is_pvc_binding_only (to_lower (trim_space c.message))

  -- The tests of the loop over the conditions, in order; true where none of them skips.
  unfoldable pub is_reported_condition : Bool → Pod → PodCondition → Bool
  is_reported_condition within pod c =
      if is_condition_true c.status
      then false
      else if not (is_scheduling c.type || is_readiness c.type)
      then false
      else if not (is_scheduling c.type)
          && (has_transient_middleware_waiting_container pod || within)
      then false
      else not (within && is_initial_pvc_binding_pending_condition c)

  unfoldable pub pod_condition_of : Bool → Pod → Option Diagnostic
  pod_condition_of within pod =
      described (pod_condition pod.name) (first (is_reported_condition within pod) pod.conditions)

  unfoldable pub middleware_pod_condition_diagnostic : Bool → List Pod → Option Diagnostic
  middleware_pod_condition_diagnostic within [] = none
  middleware_pod_condition_diagnostic within (pod ∷ pods) =
      or_else (pod_condition_of within pod) (middleware_pod_condition_diagnostic within pods)

unfoldable pub waiting_of : Pod → Option Diagnostic
waiting_of pod = described (waiting_container pod.name) (first_middleware_waiting_container pod)

unfoldable pub middleware_pod_waiting_diagnostic : List Pod → Option Diagnostic
middleware_pod_waiting_diagnostic [] = none
middleware_pod_waiting_diagnostic (pod ∷ pods) =
    or_else (waiting_of pod) (middleware_pod_waiting_diagnostic pods)

unfoldable pub middleware_pvc_pending_diagnostic : Bool → List VolumeClaim → Option Diagnostic
middleware_pvc_pending_diagnostic within [] = none
middleware_pvc_pending_diagnostic within (pvc ∷ pvcs) =
    if not pvc.is_pending || within
    then middleware_pvc_pending_diagnostic within pvcs
    else some (pending_claim pvc.name)

-- `none` for the empty text.
unfoldable pub derive_middleware_readiness_diagnostic_at :
    (String → String)
    → Option Phase
    → Option PrimaryMeta
    → List Pod
    → List VolumeClaim
    → ℕ
    → Option Diagnostic
derive_middleware_readiness_diagnostic_at to_lower phase cr pods pvcs now =
    let within = is_within_initial_readiness_grace phase cr now in
    or_else (middleware_pod_waiting_diagnostic pods) (
      or_else (middleware_pod_condition_diagnostic to_lower within pods)
        (middleware_pvc_pending_diagnostic within pvcs))
