-- ===== src/Examples/Caches.antt =====
-- The cache and the delete contexts at concrete resources.
use Prim.Native.String.{◌++◌ as ◌⁀◌}
use opensaola.Base.{ℕ, String, [], ◌∷◌, none, some, lookup, insert, value_at, ◌≡◌, refl, arith}
use opensaola.Cache.{Store, get, is_expired, loaded}
use opensaola.Cache.History.{Op, History, run, last_set, fresh_value, get_history}
use opensaola.DeleteContext.{
  Middleware, label_package_name, fill, fill_label, resolve_from_cache, resolve_delete_context,
}
use opensaola.DeleteContext.Resolve.{Resolves, resolve-Resolves}
use opensaola.DeleteContext.Operators.{
  is_no_operator_resource, operator_requirements_met, operator_needs_fallback, fill_operator,
  MiddlewareOperator, resolve_operator_delete_context,
}
use opensaola.DeleteContext.Operators
use opensaola.DeleteContext.Operators.Resolve.{resolve_operator-Resolves}

abbrev operations : History ℕ
operations = (7, Op.read "b") ∷ (6, Op.delete "b") ∷ (5, Op.set "a" 1) ∷ (3, Op.set "b" 2) ∷ []

get_history_example :
    (get 14 "a" (run 10 operations)).1 ≡ fresh_value 10 14 (last_set "a" operations)
get_history_example =
    get_history 10 14 "a" operations (omega arith, (omega arith, (omega arith, (omega arith, tt))))

value_is_found : fresh_value 10 14 (last_set "a" operations) ≡ some 1
unfolding fresh_value last_set
value_is_found = refl

value_expires : fresh_value 10 16 (last_set "a" operations) ≡ none
unfolding fresh_value last_set
value_expires = refl

abbrev join_name : String → String → String
join_name a b = ◌⁀◌ a (◌⁀◌ "/" b)

abbrev live_middleware : Middleware
live_middleware = record {
  name = "redis";
  namespace = "default";
  labels = [];
  baseline = "";
  operator_name = "op";
  operator_gvk_name = "redis";
  conditions = [];
}

abbrev cached_middleware : Middleware
cached_middleware = record live_middleware {
  labels = (label_package_name, "redis-1.0") ∷ [];
  baseline = "base";
}

abbrev middleware_cache : Store Middleware
middleware_cache = record {
  data_ = ("default/redis", record { value = cached_middleware; expires_at = 0 }) ∷ [];
  ttl = 0;
}

resolve-Resolves_example :
    Resolves live_middleware
      (get 9 (join_name "default" "redis") middleware_cache).1
      (resolve_delete_context join_name 9 middleware_cache live_middleware).1
resolve-Resolves_example = resolve-Resolves join_name 9 middleware_cache live_middleware

abbrev live_operator : MiddlewareOperator
live_operator = record {
  name = "op";
  namespace = "default";
  labels = ("team", "db") ∷ [];
  annotations = [];
  baseline = "base";
}

abbrev cached_operator : MiddlewareOperator
cached_operator = record live_operator {
  labels = (label_package_name, "redis-1.0") ∷ [];
  baseline = "old";
}

abbrev operator_cache : Store MiddlewareOperator
operator_cache = record {
  data_ = ("default/op", record { value = cached_operator; expires_at = 0 }) ∷ [];
  ttl = 0;
}

operator_is_filled :
    (resolve_operator_delete_context join_name 9 operator_cache live_operator).1.resolved
    ≡ some
        (record live_operator { labels = ("team", "db") ∷ (label_package_name, "redis-1.0") ∷ [] })
unfolding resolve_operator_delete_context is_no_operator_resource operator_requirements_met
    operator_needs_fallback fill_operator fill fill_label resolve_from_cache get value_at lookup
    insert is_expired loaded
operator_is_filled = refl

resolve_operator-Resolves_example :
    Operators.Resolve.Resolves live_operator
      (get 9 (join_name "default" "op") operator_cache).1
      (resolve_operator_delete_context join_name 9 operator_cache live_operator).1
resolve_operator-Resolves_example =
    resolve_operator-Resolves join_name 9 operator_cache live_operator
