-- ===== src/DeleteContext/Resolve.antt =====
-- What a resolved delete context is (internal/service/middleware/delete_context.go).
use opensaola.Base.{
  ℕ, String, ◌==◌, eq_iff, true, false, Option, none, some, Dict, value_at, ◌≢◌, ◌⊎◌, if◌then◌else◌,
  insert, lookup-insert, ◌≡◌, refl, inl, inr, Bool-cases, arith,
}
use opensaola.Cache.{Store, get}
use opensaola.DeleteContext.{
  Middleware, Resolution, hard_requirements_met, fill, fill_label, fill_missing, resolve_from_cache,
  resolve_delete_context, should_use_legacy_delete_fallback, label_package_name, fallback_reason,
  missing_requirements, cache_miss, still_unmet,
}

value_at-insert :
    (k j v : String) (m : Dict String)
    → value_at j (insert k v m) ≡ (if k == j then v else value_at j m)
unfolding value_at
value_at-insert k j v m = ground (arith, lookup-insert k j v m)

-- Where the package name is empty it is the cached one; every other label is the live one.
pub value_at-fill_label :
    (live cached : Dict String) (k : String)
    → value_at k (fill_label live cached) ≡ (
        if label_package_name == k
        then (if value_at k live == "" then value_at k cached else value_at k live)
        else value_at k live)
unfolding fill_label
value_at-fill_label live cached k =
    let p = label_package_name in
    elim (Bool-cases (p == k)) [
      | inl f ↦ ground (
        arith,
        (eq_iff p k).0 f,
        value_at-insert p k (value_at p cached) live,
        eq_iff (value_at k live) "",
        eq_iff (value_at k cached) "",
      )
      | inr f ↦ ground (arith, value_at-insert p k (value_at p cached) live)
    ]

-- `r` is `m` with its empty fields, and its empty package name label, taken from `cached`.
pub record IsFilled (m cached r : Middleware) : Type 0 where
  pub labels :
      (k : String)
      → value_at k r.labels ≡ (
          if label_package_name == k
          then (if value_at k m.labels == "" then value_at k cached.labels else value_at k m.labels)
          else value_at k m.labels)
  pub baseline : r.baseline ≡ (if m.baseline == "" then cached.baseline else m.baseline)
  pub operator_name :
      r.operator_name ≡ (if m.operator_name == "" then cached.operator_name else m.operator_name)
  pub operator_gvk_name :
      r.operator_gvk_name
      ≡ (if m.operator_gvk_name == "" then cached.operator_gvk_name else m.operator_gvk_name)
  pub name : r.name ≡ m.name
  pub namespace : r.namespace ≡ m.namespace
  pub conditions : r.conditions ≡ m.conditions

-- A package name and a baseline, and both or neither of the operator baseline's two names.
pub record IsComplete (m : Middleware) : Type 0 where
  pub package_name : value_at label_package_name m.labels ≢ ""
  pub baseline : m.baseline ≢ ""
  pub operator :
      ((m.operator_name ≡ "") × (m.operator_gvk_name ≡ ""))
      ⊎ ((m.operator_name ≢ "") × (m.operator_gvk_name ≢ ""))

met-IsComplete : (m : Middleware) → hard_requirements_met m ≡ true → IsComplete m
unfolding hard_requirements_met missing_requirements
met-IsComplete m h =
    let p = eq_iff (value_at label_package_name m.labels) "" in
    let b = eq_iff m.baseline "" in
    let n = eq_iff m.operator_name "" in
    let g = eq_iff m.operator_gvk_name "" in
    record {
      package_name = λ e. ground (arith, p);
      baseline = λ e. ground (arith, b);
      operator = elim (Bool-cases (m.operator_name == "")) [
        | inl e ↦ inl (n.0 e, ground (arith, g, e))
        | inr e ↦ inr (λ x. ground (arith, n, e), λ x. ground (arith, g, e))
      ];
    }

unmet-IsComplete : (m : Middleware) → hard_requirements_met m ≡ false → ¬ IsComplete m
unfolding hard_requirements_met missing_requirements
unmet-IsComplete m h v =
    let p = eq_iff (value_at label_package_name m.labels) "" in
    let b = eq_iff m.baseline "" in
    let n = eq_iff m.operator_name "" in
    let g = eq_iff m.operator_gvk_name "" in
    ground (arith, p, b, n, g, v.package_name, v.baseline, v.operator)

pub fill_missing-IsFilled : (m cached : Middleware) → IsFilled m cached (fill_missing m cached)
unfolding fill_missing fill
fill_missing-IsFilled m cached = record {
  labels = value_at-fill_label m.labels cached.labels;
  baseline = refl;
  operator_name = refl;
  operator_gvk_name = refl;
  name = refl;
  namespace = refl;
  conditions = refl;
}

-- How a resolution comes about: nothing was missing; the cache has what was missing; or the cache has
-- no entry, or one that does not complete `m`.
pub data Resolves (m : Middleware) (cached : Option Middleware) (r : Resolution Middleware)
    : Type 0 where
  live :
      IsComplete m → r.resolved ≡ some m → r.error ≡ none → r.fallback ≡ false → Resolves m cached r
  filled :
      (c x : Middleware)
      → ¬ IsComplete m
      → cached ≡ some c
      → IsFilled m c x
      → IsComplete x
      → r.resolved ≡ some x
      → r.error ≡ none
      → r.fallback ≡ true
      → Resolves m cached r
  missed :
      ¬ IsComplete m
      → cached ≡ none
      → r.resolved ≡ none
      → r.error ≡ some cache_miss
      → r.fallback ≡ true
      → Resolves m cached r
  unmet :
      (c x : Middleware)
      → ¬ IsComplete m
      → cached ≡ some c
      → IsFilled m c x
      → ¬ IsComplete x
      → r.resolved ≡ none
      → r.error ≡ some still_unmet
      → r.fallback ≡ true
      → Resolves m cached r

from_cache-Resolves :
    (m : Middleware) (reason : String) (cached : Option Middleware)
    → ¬ IsComplete m
    → Resolves m cached (resolve_from_cache hard_requirements_met reason (fill_missing m) cached)
unfolding resolve_from_cache
from_cache-Resolves m reason none h = missed h refl refl refl refl
from_cache-Resolves m reason (some c) h =
    let x = fill_missing m c in
    let f = fill_missing-IsFilled m c in
    elim (Bool-cases (hard_requirements_met x)) [
      | inl e ↦ rw e (filled c x h refl f (met-IsComplete x e) refl refl refl)
      | inr e ↦ rw e (unmet c x h refl f (unmet-IsComplete x e) refl refl refl)
    ]

fallback-needed :
    (m : Middleware)
    → hard_requirements_met m ≡ false
    → should_use_legacy_delete_fallback m ≡ (true, fallback_reason (missing_requirements m))
unfolding should_use_legacy_delete_fallback
fallback-needed m h = rw h refl

-- ResolveDeleteContext returns the live object where it has a package name, a baseline and both
-- or neither of the operator baseline's names. Otherwise, where the cache's Get finds an entry,
-- it fills the empty ones of these fields from the entry, leaving every other label and field as
-- it is, and returns the copy where that is complete and an error where it is not; and where the
-- cache has no entry it returns an error.
pub resolve-Resolves :
    (namespaced_name : String → String → String) (now : ℕ) (cache : Store Middleware)
    (m : Middleware)
    → Resolves m
        ((get now (namespaced_name m.namespace m.name) cache).1)
        ((resolve_delete_context namespaced_name now cache m).1)
unfolding resolve_delete_context
resolve-Resolves namespaced_name now cache m = elim (Bool-cases (hard_requirements_met m)) [
  | inl e ↦ rw e (live (met-IsComplete m e) refl refl refl)
  | inr e ↦
      rw (e, fallback-needed m e)
        (from_cache-Resolves m (fallback_reason (missing_requirements m)) _ (unmet-IsComplete m e))
]
