-- ===== src/DeleteContext/Operators/Resolve.antt =====
-- What a resolved delete context of an operator is
-- (internal/service/middlewareoperator/delete_context.go).
use opensaola.Base.{
  ℕ, String, ◌==◌, eq_iff, true, false, Option, none, some, value_at, if◌then◌else◌, ◌≡◌, ◌≢◌, ◌⊎◌,
  refl, inl, inr, Bool-cases, arith,
}
use opensaola.Cache.{Store, get}
use opensaola.DeleteContext.{
  Resolution, cache_miss, still_unmet, fill, label_package_name, resolve_from_cache, missing_base,
  fallback_reason,
}
use opensaola.DeleteContext.Resolve.{value_at-fill_label}
use opensaola.DeleteContext.Operators.{
  MiddlewareOperator, is_no_operator_resource, operator_requirements_met, operator_needs_fallback,
  fill_operator, resolve_operator_delete_context, label_no_operator,
}

-- `r` is `m` with an empty baseline and an empty package name label taken from `cached`.
pub record IsFilled (m cached r : MiddlewareOperator) : Type 0 where
  pub labels :
      (k : String)
      → value_at k r.labels ≡ (
          if label_package_name == k
          then (if value_at k m.labels == "" then value_at k cached.labels else value_at k m.labels)
          else value_at k m.labels)
  pub baseline : r.baseline ≡ (if m.baseline == "" then cached.baseline else m.baseline)
  pub name : r.name ≡ m.name
  pub namespace : r.namespace ≡ m.namespace
  pub annotations : r.annotations ≡ m.annotations

fill_operator-IsFilled :
    (m cached : MiddlewareOperator) → IsFilled m cached (fill_operator m cached)
unfolding fill_operator fill
fill_operator-IsFilled m cached = record {
  labels = value_at-fill_label m.labels cached.labels;
  baseline = refl;
  name = refl;
  namespace = refl;
  annotations = refl;
}

-- The annotation says that there is no operator, or there are a package name and a baseline.
abbrev pub IsDeletable : MiddlewareOperator → Type 0
IsDeletable m =
    (value_at "middleware.cn/nooperator" m.annotations ≡ "true")
    ⊎ ((value_at label_package_name m.labels ≢ "") × (m.baseline ≢ ""))

met-IsDeletable : (m : MiddlewareOperator) → operator_requirements_met m ≡ true → IsDeletable m
unfolding operator_requirements_met
met-IsDeletable m h = inr (
  λ e. ground (arith, eq_iff (value_at label_package_name m.labels) ""),
  λ e. ground (arith, eq_iff m.baseline ""),
)

no_operator-IsDeletable :
    (m : MiddlewareOperator) → is_no_operator_resource m ≡ true → IsDeletable m
unfolding is_no_operator_resource
no_operator-IsDeletable m h = inl ((eq_iff (value_at label_no_operator m.annotations) "true").0 h)

unmet-IsDeletable :
    (m : MiddlewareOperator)
    → is_no_operator_resource m ≡ false
    → operator_requirements_met m ≡ false
    → ¬ IsDeletable m
unfolding is_no_operator_resource operator_requirements_met
unmet-IsDeletable m n h v = ground (
  arith,
  v,
  eq_iff (value_at label_no_operator m.annotations) "true",
  eq_iff (value_at label_package_name m.labels) "",
  eq_iff m.baseline "",
)

no_operator-fill :
    (m c : MiddlewareOperator)
    → is_no_operator_resource m ≡ false
    → is_no_operator_resource (fill_operator m c) ≡ false
unfolding is_no_operator_resource fill_operator
no_operator-fill m c h = h

-- How a resolution comes about: nothing was missing; the cache has what was missing; or the cache has
-- no entry, or one that does not complete `m`.
pub data Resolves (m : MiddlewareOperator) (cached : Option MiddlewareOperator)
    (r : Resolution MiddlewareOperator) : Type 0 where
  live : IsDeletable m → r.resolved ≡ some m → r.error ≡ none → Resolves m cached r
  filled :
      (c x : MiddlewareOperator)
      → ¬ IsDeletable m
      → cached ≡ some c
      → IsFilled m c x
      → IsDeletable x
      → r.resolved ≡ some x
      → r.error ≡ none
      → Resolves m cached r
  missed :
      ¬ IsDeletable m
      → cached ≡ none
      → r.resolved ≡ none
      → r.error ≡ some cache_miss
      → Resolves m cached r
  unmet :
      (c x : MiddlewareOperator)
      → ¬ IsDeletable m
      → cached ≡ some c
      → IsFilled m c x
      → ¬ IsDeletable x
      → r.resolved ≡ none
      → r.error ≡ some still_unmet
      → Resolves m cached r

from_cache-Resolves :
    (m : MiddlewareOperator) (reason : String) (cached : Option MiddlewareOperator)
    → is_no_operator_resource m ≡ false
    → operator_requirements_met m ≡ false
    → Resolves m cached
        (resolve_from_cache operator_requirements_met reason (fill_operator m) cached)
unfolding resolve_from_cache
from_cache-Resolves m reason none n h = missed (unmet-IsDeletable m n h) refl refl refl
from_cache-Resolves m reason (some c) n h =
    let x = fill_operator m c in
    let f = fill_operator-IsFilled m c in
    let needed = unmet-IsDeletable m n h in
    elim (Bool-cases (operator_requirements_met x)) [
      | inl e ↦ rw e (filled c x needed refl f (met-IsDeletable x e) refl refl)
      | inr e ↦
          rw e (unmet c x needed refl f (unmet-IsDeletable x (no_operator-fill m c n) e) refl refl)
    ]

needs_fallback-unmet :
    (m : MiddlewareOperator)
    → operator_requirements_met m ≡ false
    → operator_needs_fallback m ≡ (true, fallback_reason (missing_base m.labels m.baseline))
unfolding operator_needs_fallback
needs_fallback-unmet m h = rw h refl

-- For an operator, ResolveDeleteContext returns the live object where its annotation says that
-- there is no operator, or where it has a package name and a baseline. Otherwise, where the
-- cache's Get finds an entry, it fills the empty ones of these two from the entry, leaving every
-- other label and field as it is, and returns the copy where that has both and an error where it
-- has not; and where the cache has no entry it returns an error.
pub resolve_operator-Resolves :
    (namespaced_name : String → String → String) (now : ℕ) (cache : Store MiddlewareOperator)
    (m : MiddlewareOperator)
    → Resolves m
        ((get now (namespaced_name m.namespace m.name) cache).1)
        ((resolve_operator_delete_context namespaced_name now cache m).1)
unfolding resolve_operator_delete_context
resolve_operator-Resolves namespaced_name now cache m =
    elim (Bool-cases (is_no_operator_resource m)) [
      | inl e ↦ rw e (live (no_operator-IsDeletable m e) refl refl)
      | inr e ↦ elim (Bool-cases (operator_requirements_met m)) [
        | inl f ↦ rw (e, f) (live (met-IsDeletable m f) refl refl)
        | inr f ↦ rw (e, f, needs_fallback-unmet m f) (from_cache-Resolves m _ _ e f)
      ]
    ]
