-- ===== src/Examples/Workloads.antt =====
-- Rollouts of internal/k8s at concrete counters.
use opensaola.Base.{◌≤◌, ◌+◌, [], ◌∷◌, none, some, ◌≡◌, ◌≢◌, ◌↔◌, refl, any}
use opensaola.Api.{Phase, condition_false}
use opensaola.Workload.{
  Deployment, StatefulSet, DaemonSet, progressing, rolling_update, desired_replicas, partition_of,
  deployment_has_failed, derive_deployment_phase, stateful_set_revision_converged,
  derive_stateful_set_phase, derive_daemon_set_phase, workload_progress_phase,
}
use opensaola.Workload.Rollout.{
  deployment-failed_iff, AnyWorkload, HasFailure, stateful_set-running_sound,
  creating_only_initially,
}

abbrev stalled : Deployment
stalled = record {
  generation = 4;
  spec_replicas = some 3;
  observed_generation = 4;
  replicas = 4;
  updated_replicas = 1;
  ready_replicas = 3;
  available_replicas = 3;
  unavailable_replicas = 1;
  terminating_replicas = none;
  conditions =
      record { type = progressing; status = condition_false; reason = "ProgressDeadlineExceeded" }
      ∷ [];
}

stalled_fails : derive_deployment_phase (some stalled) Phase.updating ≡ Phase.failed
unfolding derive_deployment_phase deployment_has_failed any
stalled_fails = refl

deployment-failed_iff_example :
    (derive_deployment_phase (some stalled) Phase.updating ≡ Phase.failed)
    ↔ ((4 ≤ stalled.observed_generation) × HasFailure stalled.conditions)
deployment-failed_iff_example = deployment-failed_iff stalled Phase.updating

-- A canary: the partition holds two of the five replicas at the old revision.
abbrev canary : StatefulSet
canary = record {
  generation = 7;
  spec_replicas = some 5;
  strategy_type = rolling_update;
  rolling_update = some (some 2);
  observed_generation = 7;
  replicas = 5;
  ready_replicas = 5;
  available_replicas = 5;
  current_replicas = 2;
  updated_replicas = 3;
  current_revision = "db-1";
  update_revision = "db-2";
}

canary_runs : derive_stateful_set_phase (some canary) Phase.updating ≡ Phase.running
unfolding derive_stateful_set_phase stateful_set_revision_converged desired_replicas
canary_runs = refl

stateful_set-running_sound_example :
    (7 ≤ canary.observed_generation)
    × (canary.replicas ≡ desired_replicas (some 5))
    × (canary.ready_replicas ≡ desired_replicas (some 5))
    × (canary.available_replicas ≡ desired_replicas (some 5))
    × (desired_replicas (some 5) ≤ canary.updated_replicas + partition_of canary.rolling_update)
stateful_set-running_sound_example = stateful_set-running_sound canary Phase.updating canary_runs

abbrev spreading : DaemonSet
spreading = record {
  generation = 1;
  observed_generation = 1;
  desired_number_scheduled = 3;
  current_number_scheduled = 2;
  updated_number_scheduled = 2;
  number_ready = 2;
  number_available = 2;
  number_unavailable = 1;
  number_misscheduled = 0;
}

spreading_creates : derive_daemon_set_phase (some spreading) Phase.unknown ≡ Phase.creating
unfolding derive_daemon_set_phase workload_progress_phase
spreading_creates = refl

creating_only_initially_example :
    (1 ≤ 1) × (Phase.unknown ≢ Phase.running) × (Phase.unknown ≢ Phase.updating)
creating_only_initially_example =
    creating_only_initially Phase.unknown (AnyWorkload.daemon_set spreading) spreading_creates
