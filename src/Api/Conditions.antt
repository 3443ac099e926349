-- ===== src/Api/Conditions.antt =====
-- metav1.Condition, with the constants of api/v1/common.go that the components compare with.
-- A time is a number of nanoseconds; 0 is Go's zero time.
use opensaola.Base.{ℕ, String, Bool, true, false}

pub data ConditionStatus : Type 0 where
  condition_true condition_false condition_unknown : ConditionStatus

pub record Condition : Type 0 where
  pub type : String
  pub status : ConditionStatus
  pub observed_generation : ℕ
  pub last_transition_time : ℕ
  pub reason : String
  pub message : String

abbrev pub is_condition_true : ConditionStatus → Bool
is_condition_true condition_true = true
is_condition_true _ = false

abbrev pub same_status : ConditionStatus → ConditionStatus → Bool
same_status condition_true condition_true = true
same_status condition_false condition_false = true
same_status condition_unknown condition_unknown = true
same_status _ _ = false

abbrev pub cond_type_reconcile_paused : String
cond_type_reconcile_paused = "ReconcilePaused"

abbrev pub cond_type_reconcile_adoption : String
cond_type_reconcile_adoption = "ReconcileAdoption"

abbrev pub cond_type_build_extra_resource : String
cond_type_build_extra_resource = "BuildExtraResource"

abbrev pub cond_type_apply_cluster : String
cond_type_apply_cluster = "ApplyCluster"
