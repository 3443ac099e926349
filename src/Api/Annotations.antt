-- ===== src/Api/Annotations.antt =====
-- The annotation policies of api/v1/labels.go.
use opensaola.Base.{
  String, ◌==◌, Bool, true, false, ◌&&◌, List, Option, none, some, Dict, value_at, any,
  if◌then◌else◌,
}
use opensaola.Api.Conditions.{Condition, is_condition_true, cond_type_reconcile_paused}

abbrev pub annotation_suspend_reconcile : String
annotation_suspend_reconcile = "middleware.cn/suspend-reconcile"

abbrev pub annotation_resume_policy : String
annotation_resume_policy = "middleware.cn/resume-policy"

pub data ReconcileResumePolicy : Type 0 where
  merge apply : ReconcileResumePolicy

abbrev pub same_policy : ReconcileResumePolicy → ReconcileResumePolicy → Bool
same_policy merge merge = true
same_policy apply apply = true
same_policy _ _ = false

unfoldable pub is_reconcile_suspended : Dict String → Bool
is_reconcile_suspended annotations = value_at annotation_suspend_reconcile annotations == "true"

-- `none` is the result `("", false)`.
unfoldable pub reconcile_resume_policy_for : Dict String → Option ReconcileResumePolicy
reconcile_resume_policy_for annotations =
    let policy = value_at annotation_resume_policy annotations in
    if policy == "merge" then some merge else if policy == "apply" then some apply else none

-- The loop over the conditions, which returns at the first match.
unfoldable pub has_paused_condition : List Condition → Bool
unfolding any
has_paused_condition = any (λ condition.
    condition.type == cond_type_reconcile_paused && is_condition_true condition.status)

unfoldable pub is_middleware_reconcile_write_suspended : Dict String → List Condition → Bool
unfolding is_reconcile_suspended reconcile_resume_policy_for has_paused_condition
is_middleware_reconcile_write_suspended annotations conditions =
    if is_reconcile_suspended annotations
    then true
    else elim (reconcile_resume_policy_for annotations) [
      | some policy ↦ false
      | none ↦ has_paused_condition conditions
    ]
