-- ===== src/Examples/Diagnostics.antt =====
-- Readiness diagnostics at concrete pods and volume claims.
use opensaola.Base.{◌+◌, ◌≤◌, ◌<◌, true, false, [], ◌∷◌, some, any, ◌≡◌, ◌≢◌, ◌↔◌, refl}
use opensaola.Api.{creating, is_creating, condition_false}
use opensaola.Readiness.{
  PrimaryMeta, Pod, PodConditionType, VolumeClaim, is_within_initial_readiness_grace,
  initial_readiness_grace_period, initial_readiness_grace_deadline, initial_readiness_deadline,
  derive_middleware_readiness_diagnostic_at, middleware_pod_waiting_diagnostic,
  middleware_pod_condition_diagnostic, middleware_pvc_pending_diagnostic, waiting_of,
  pod_condition_of, first_middleware_waiting_container, first, or_else, described,
  is_reported_condition, has_transient_middleware_waiting_container,
  is_transient_middleware_waiting_reason,
}
use opensaola.Readiness.Grace.{grace_iff}
use opensaola.Readiness.Diagnosed.{IsQuiet, undiagnosed-IsQuiet}
use opensaola.Readiness.Messages.{is_pvc_binding_only}

abbrev primary : PrimaryMeta
primary = record { generation = 1; creation_timestamp = 5 }

grace_iff_example : (is_within_initial_readiness_grace (some creating) (some primary) 9 ≡ true) ↔ (
    (is_creating creating ≡ true)
    × (primary.generation ≡ 1)
    × (primary.creation_timestamp ≢ 0)
    × (primary.creation_timestamp ≤ 9)
    × (9 < primary.creation_timestamp + initial_readiness_grace_period))
grace_iff_example = grace_iff creating primary 9

binding_message :
    is_pvc_binding_only
      "0/3 nodes: pod has unbound immediate persistentvolumeclaims. preemption: none"
    ≡ true
unfolding is_pvc_binding_only
binding_message = refl

mixed_message :
    is_pvc_binding_only "insufficient cpu, pod has unbound immediate persistentvolumeclaims" ≡ false
unfolding is_pvc_binding_only
mixed_message = refl

-- A pod that is being created, and is not ready.
abbrev starting_pod : Pod
starting_pod = record {
  name = "redis-0";
  init_container_statuses = [];
  container_statuses = record { name = "redis"; waiting = some "ContainerCreating" } ∷ [];
  conditions =
      record {
        type = PodConditionType.pod_ready;
        status = condition_false;
        reason = "";
        message = "";
      }
      ∷ [];
}

abbrev claim : VolumeClaim
claim = record { name = "data-0"; is_pending = true }

undiagnosed-IsQuiet_example :
    IsQuiet
      (λ s. s)
      (is_within_initial_readiness_grace (some creating) (some primary) 9)
      (starting_pod ∷ [])
      (claim ∷ [])
unfolding derive_middleware_readiness_diagnostic_at or_else middleware_pod_waiting_diagnostic
    waiting_of described first_middleware_waiting_container first
    is_transient_middleware_waiting_reason middleware_pod_condition_diagnostic pod_condition_of
    is_reported_condition has_transient_middleware_waiting_container any
    middleware_pvc_pending_diagnostic is_within_initial_readiness_grace
    initial_readiness_grace_deadline initial_readiness_deadline
undiagnosed-IsQuiet_example =
    undiagnosed-IsQuiet (λ s. s) (some creating) (some primary) (starting_pod ∷ []) (claim ∷ []) 9
      refl
