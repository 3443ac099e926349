-- ===== src/DeleteContext.antt =====
-- What a deletion needs to know of a resource, filled from a cache where the live object lacks it:
-- internal/service/middleware/delete_context.go and internal/service/middlewareoperator/delete_context.go.
pub mod Operators
pub mod Resolve
use Prim.Native.String.{◌++◌ as ◌⁀◌}
use opensaola.Base.{
  ℕ, String, ◌==◌, Bool, true, false, not, ◌&&◌, List, [], ◌∷◌, ◌++◌, Option, none, some, Dict,
  value_at, insert, if◌then◌else◌,
}
use opensaola.Api.{
  Condition, is_condition_true, cond_type_build_extra_resource, cond_type_apply_cluster,
}
use opensaola.Cache.{Store, get}

abbrev pub label_package_name : String
label_package_name = "middleware.cn/packagename"

pub record Middleware : Type 0 where
  pub name : String
  pub namespace : String
  pub labels : Dict String
  pub baseline : String
  pub operator_name : String
  pub operator_gvk_name : String
  pub conditions : List Condition

-- append(missing, name) under a test
abbrev missing_if : Bool → String → List String
missing_if b name = if b then name ∷ [] else []

-- The `switch` on the two fields of the operator baseline.
abbrev missing_operator : String → String → List String
missing_operator name gvk =
    if name == "" && gvk == ""
    then []
    else if not (name == "") && not (gvk == "")
    then []
    else missing_if (name == "") "operatorBaseline.Name"
      ++ missing_if (gvk == "") "operatorBaseline.GvkName"

abbrev pub missing_base : Dict String → String → List String
missing_base labels baseline =
    missing_if (value_at label_package_name labels == "") "packageName"
    ++ missing_if (baseline == "") "baseline"

-- The names that are missing; the requirements are met where there are none.
unfoldable pub missing_requirements : Middleware → List String
missing_requirements m =
    missing_base m.labels m.baseline ++ missing_operator m.operator_name m.operator_gvk_name

abbrev pub is_empty : List String → Bool
is_empty [] = true
is_empty (x ∷ xs) = false

unfoldable pub hard_requirements_met : Middleware → Bool
hard_requirements_met m = is_empty (missing_requirements m)

-- strings.Join(missing, ", ")
join_names : List String → String
join_names [] = ""
join_names (x ∷ []) = x
join_names (x ∷ y ∷ ys) = ◌⁀◌ x (◌⁀◌ ", " (join_names (y ∷ ys)))

unfoldable pub fallback_reason : List String → String
unfolding join_names
fallback_reason missing = ◌⁀◌ "missing hard requirements: " (join_names missing)

unfoldable pub should_use_legacy_delete_fallback : Middleware → Bool × String
should_use_legacy_delete_fallback m =
    if hard_requirements_met m
    then (false, "")
    else (true, fallback_reason (missing_requirements m))

-- What ResolveDeleteContext returns: the copy or an error, whether the cache was tried, the reason.
pub data ResolveError : Type 0 where
  cache_miss still_unmet : ResolveError

pub record Resolution (M : Type 0) : Type 0 where
  pub resolved : Option M
  pub fallback : Bool
  pub reason : String
  pub error : Option ResolveError

-- A field that is empty takes the cached value.
unfoldable pub fill : String → String → String
fill live cached = if live == "" then cached else live

unfoldable pub fill_label : Dict String → Dict String → Dict String
fill_label live cached =
    if value_at label_package_name live == "" && not (value_at label_package_name cached == "")
    then insert label_package_name (value_at label_package_name cached) live
    else live

unfoldable pub fill_missing : Middleware → Middleware → Middleware
fill_missing cp cached = record cp {
  labels = fill_label cp.labels cached.labels;
  baseline = fill cp.baseline cached.baseline;
  operator_name = fill cp.operator_name cached.operator_name;
  operator_gvk_name = fill cp.operator_gvk_name cached.operator_gvk_name;
}

module _ {M : Type 0} (met : M → Bool) where
  -- From the cache's answer on.
  unfoldable pub resolve_from_cache : String → (M → M) → Option M → Resolution M
  resolve_from_cache reason filled none = record {
    resolved = none;
    fallback = true;
    reason = reason;
    error = some cache_miss;
  }
  resolve_from_cache reason filled (some cached) =
      if met (filled cached)
      then record {
        resolved = some (filled cached);
        fallback = true;
        reason = reason;
        error = none;
      }
      else record { resolved = none; fallback = true; reason = reason; error = some still_unmet }

  abbrev pub present : M → String → Resolution M
  present m reason = record { resolved = some m; fallback = false; reason = reason; error = none }

-- types.NamespacedName.String of a namespace and a name
module _ (namespaced_name : String → String → String) where
  unfoldable pub resolve_delete_context :
      ℕ → Store Middleware → Middleware → Store Middleware × Resolution Middleware
  resolve_delete_context now cache m =
      if hard_requirements_met m
      then (cache, present hard_requirements_met m "all hard requirements already present")
      else let (need_fallback, reason) = should_use_legacy_delete_fallback m in
        if not need_fallback
        then (cache, present hard_requirements_met m "")
        else let (cache', cached) = get now (namespaced_name m.namespace m.name) cache in
          (cache', resolve_from_cache hard_requirements_met reason (fill_missing m) cached)

-- Status.Conditions: the first of the type decides.
unfoldable pub middleware_condition_is_true : List Condition → String → Bool
middleware_condition_is_true [] t = false
middleware_condition_is_true (c ∷ cs) t =
    let rest = middleware_condition_is_true cs t in
    if c.type == t then is_condition_true c.status else rest

-- A nil middleware is `none`.
unfoldable pub can_skip_delete_cleanup : Option Middleware → Bool
can_skip_delete_cleanup none = true
can_skip_delete_cleanup (some m) =
    not (middleware_condition_is_true m.conditions cond_type_build_extra_resource)
    && not (middleware_condition_is_true m.conditions cond_type_apply_cluster)
