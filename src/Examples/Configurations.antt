-- ===== src/Examples/Configurations.antt =====
-- The cleanup of a ConfigMap that a Redis instance no longer renders.
use mathlib.Core.List.{Memᴰ}
use opensaola.Base.{
  Bool, true, false, List, [], ◌∷◌, Option, none, some, lookup, All, ◌≡◌, ◌≢◌, refl,
}
use opensaola.Configuration.{
  Object, OwnerReference, Owner, middleware, RenderedResource, found, not_found, deleted, ApiServer,
  GetControllerOf,
}
use opensaola.Configuration.Inventory.{
  rendered_configuration_resource_key, current_keys, collect_stale,
  delete_disabled_rendered_configuration_resources,
}
use opensaola.Configuration.Stale.{is_opted, stale_complete}
use opensaola.Configuration.Cleanup.{IsOwnedFor, cleanup_safe}

abbrev redis : Owner
redis = record { kind = middleware; namespace = "prod"; name = "redis"; uid = "u-1" }

abbrev map_entry : RenderedResource
map_entry = record {
  configuration_name = "redis-conf";
  configuration_uid = "";
  gvk = record { group = ""; version = "v1"; kind = "ConfigMap" };
  namespace = "prod";
  name = "redis-conf";
  owner_uid = "u-1";
  resource_uid = "o-7";
  namespaced = true;
  disable_policy = "delete";
}

abbrev live_map : Object
live_map = record {
  gvk = record { group = ""; version = "v1"; kind = "ConfigMap" };
  namespace = "prod";
  name = "redis-conf";
  uid = "o-7";
  labels = ("middleware.cn/app", "redis") ∷ [];
  annotations =
      ("middleware.cn/configurations", "redis-conf")
      ∷ ("middleware.cn/configurationOwnerUID", "u-1")
      ∷ [];
  owner_references =
      record {
        api_version = "middleware.cn/v1";
        kind = "Middleware";
        name = "redis";
        uid = "u-1";
        controller = true;
      }
      ∷ [];
}

-- A server with the one object, which a deletion takes away.
abbrev cluster : ApiServer
cluster = record {
  State = Bool;
  get = λ s gvk namespace name. elim s [ true ↦ found live_map | false ↦ not_found ];
  delete = λ s obj. (false, deleted);
}

abbrev head_of : List OwnerReference → Option OwnerReference
head_of [] = none
head_of (r ∷ rs) = some r

abbrev first_reference : GetControllerOf
first_reference = record { controller_of = head_of }

cleanup_safe_example :
    All
      (λ q.
        Memᴰ q.0 (map_entry ∷ [])
        × All
            (λ c. rendered_configuration_resource_key c ≢ rendered_configuration_resource_key q.0)
            []
        × IsOwnedFor first_reference redis q.0 q.1)
      (delete_disabled_rendered_configuration_resources cluster first_reference
        (record { state = true; requests = [] })
        redis
        (map_entry ∷ [])
        []).0.requests
cleanup_safe_example = cleanup_safe cluster first_reference redis true (map_entry ∷ []) []

stale_complete_example :
    is_opted (
      lookup
        (rendered_configuration_resource_key map_entry)
        (collect_stale (current_keys []) [] (map_entry ∷ [])))
    ≡ true
unfolding rendered_configuration_resource_key current_keys lookup
stale_complete_example =
    stale_complete [] (map_entry ∷ []) map_entry (Memᴰ.head refl) refl refl refl
