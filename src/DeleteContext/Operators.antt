-- ===== src/DeleteContext/Operators.antt =====
-- internal/service/middlewareoperator/delete_context.go: the same for a MiddlewareOperator, which
-- needs no context at all where it is marked as having no operator.
pub mod Resolve
use opensaola.Base.{
  ℕ, String, ◌==◌, Bool, true, false, not, List, Option, none, some, Dict, value_at, if◌then◌else◌,
}
use opensaola.Cache.{Store, get}
use opensaola.DeleteContext.{
  Resolution, missing_base, is_empty, fallback_reason, fill, fill_label, resolve_from_cache,
  present,
}

pub record MiddlewareOperator : Type 0 where
  pub name : String
  pub namespace : String
  pub labels : Dict String
  pub annotations : Dict String
  pub baseline : String

abbrev pub label_no_operator : String
label_no_operator = "middleware.cn/nooperator"

unfoldable pub is_no_operator_resource : MiddlewareOperator → Bool
is_no_operator_resource m = value_at label_no_operator m.annotations == "true"

unfoldable pub operator_requirements_met : MiddlewareOperator → Bool
operator_requirements_met m = is_empty (missing_base m.labels m.baseline)

unfoldable pub operator_needs_fallback : MiddlewareOperator → Bool × String
operator_needs_fallback m =
    if operator_requirements_met m
    then (false, "")
    else (true, fallback_reason (missing_base m.labels m.baseline))

unfoldable pub fill_operator : MiddlewareOperator → MiddlewareOperator → MiddlewareOperator
fill_operator cp cached = record cp {
  labels = fill_label cp.labels cached.labels;
  baseline = fill cp.baseline cached.baseline;
}

module _ (namespaced_name : String → String → String) where
  unfoldable pub resolve_operator_delete_context :
      ℕ
      → Store MiddlewareOperator
      → MiddlewareOperator
      → Store MiddlewareOperator × Resolution MiddlewareOperator
  resolve_operator_delete_context now cache m =
      if is_no_operator_resource m
      then (cache, present operator_requirements_met m "")
      else if operator_requirements_met m
      then (cache, present operator_requirements_met m "all hard requirements already present")
      else let (need_fallback, reason) = operator_needs_fallback m in
        if not need_fallback
        then (cache, present operator_requirements_met m "")
        else let (cache', cached) = get now (namespaced_name m.namespace m.name) cache in
          (cache', resolve_from_cache operator_requirements_met reason (fill_operator m) cached)
