-- ===== src/Configuration/Inventory.antt =====
-- internal/service/middlewareconfiguration/inventory.go: which entries of the previous inventory
-- are stale, and their cleanup. The deletion requests that reach the API server are recorded.
use Prim.Native.String.{compare, ◌++◌ as ◌⁀◌}
use Prim.Native.Nat.{Ordering}
use opensaola.Base.{
  String, ◌==◌, Bool, true, false, not, ◌&&◌, ◌||◌, List, [], ◌∷◌, none, some, is_some, Dict,
  lookup, insert, if◌then◌else◌,
}
use opensaola.Configuration.{
  Object, Owner, RenderedResource, GetResult, found, not_found, crd_not_installed, failed, refused,
  ApiServer, GetControllerOf,
}
use opensaola.Configuration.Ownership.{
  is_custom_resource_definition, should_delete_disabled_rendered_resource,
}

join : String → String → String
join a b = ◌⁀◌ a (◌⁀◌ "/" b)

-- The empty text where version, kind or name is missing.
unfoldable pub rendered_configuration_resource_key : RenderedResource → String
unfolding join
rendered_configuration_resource_key r =
    if r.gvk.version == "" || r.gvk.kind == "" || r.name == ""
    then ""
    else join r.gvk.group (join r.gvk.version (join r.gvk.kind (join r.namespace r.name)))

-- sort.Strings
abbrev text_le : String → String → Bool
text_le a b = elim (compare a b) [ Ordering.gt ↦ false | _ ↦ true ]

abbrev insert_sorted : String → List String → List String
insert_sorted k [] = k ∷ []
insert_sorted k (j ∷ ks) = if text_le k j then k ∷ j ∷ ks else j ∷ insert_sorted k ks

unfoldable pub sort_strings : List String → List String
sort_strings [] = []
sort_strings (k ∷ ks) = insert_sorted k (sort_strings ks)

abbrev pub keys_of : Dict RenderedResource → List String
keys_of [] = []
keys_of ((k, r) ∷ m) = k ∷ keys_of m

-- currentKeys, as the set of its keys
unfoldable pub current_keys : List RenderedResource → Dict RenderedResource
current_keys [] = []
current_keys (r ∷ rs) =
    let key = rendered_configuration_resource_key r in
    let rest = current_keys rs in if key == "" then rest else insert key r rest

-- One round of the loop that collects the stale entries: a duplicate is replaced only to favour
-- an explicit delete policy.
unfoldable pub add_stale :
    Dict RenderedResource → Dict RenderedResource → RenderedResource → Dict RenderedResource
add_stale current stale resource =
    let key = rendered_configuration_resource_key resource in
    if key == ""
    then stale
    else if is_some (lookup key current)
    then stale
    else elim (lookup key stale) [
      | none ↦ insert key resource stale
      | some old ↦
          if not (old.disable_policy == "delete") && resource.disable_policy == "delete"
          then insert key resource stale
          else stale
    ]

unfoldable pub collect_stale :
    Dict RenderedResource → Dict RenderedResource → List RenderedResource → Dict RenderedResource
unfolding add_stale
collect_stale current stale [] = stale
collect_stale current stale (r ∷ rs) = collect_stale current (add_stale current stale r) rs

module _ (api : ApiServer) (meta : GetControllerOf) where
  -- The API server's state, and the deletion requests sent so far, the latest first, each with
  -- the inventory entry that it was sent for.
  pub record World : Type 0 where
    pub state : api.State
    pub requests : List (RenderedResource × Object)

  -- k8s.DeleteCustomResource, with the request recorded. The Boolean says whether the caller
  -- returns no error.
  unfoldable pub request : World → RenderedResource → Object → World × Bool
  request w resource obj =
      let (state, result) = api.delete w.state obj in
      (
        record { state = state; requests = (resource, obj) ∷ w.requests },
        elim result [ refused ↦ false | _ ↦ true ],
      )

  unfoldable pub delete_found : World → Owner → RenderedResource → GetResult → World × Bool
  delete_found w owner resource (found obj) =
      if should_delete_disabled_rendered_resource meta owner obj resource
      then request w resource obj
      else (w, true)
  delete_found w owner resource not_found = (w, true)
  delete_found w owner resource crd_not_installed = (w, true)
  delete_found w owner resource failed = (w, false)

  unfoldable pub delete_disabled_rendered_configuration_resource :
      World → Owner → RenderedResource → World × Bool
  unfolding delete_found request
  delete_disabled_rendered_configuration_resource w owner resource =
      if not (resource.disable_policy == "delete")
      then (w, true)
      else if is_custom_resource_definition resource.gvk
      then (w, true)
      else delete_found w owner resource
          (api.get w.state resource.gvk resource.namespace resource.name)

  -- The loop over the sorted keys, which stops at the first error.
  unfoldable pub delete_keys : Owner → Dict RenderedResource → World → List String → World × Bool
  delete_keys owner stale w [] = (w, true)
  delete_keys owner stale w (key ∷ keys) = elim (lookup key stale) [
    | none ↦ delete_keys owner stale w keys
    | some resource ↦
        let (w', ok) = delete_disabled_rendered_configuration_resource w owner resource in
        let rest = delete_keys owner stale w' keys in if ok then rest else (w', false)
  ]

  unfoldable pub delete_disabled_rendered_configuration_resources :
      World → Owner → List RenderedResource → List RenderedResource → World × Bool
  unfolding delete_keys
  delete_disabled_rendered_configuration_resources w owner previous currently_rendered =
      let stale = collect_stale (current_keys currently_rendered) [] previous in
      delete_keys owner stale w (sort_strings (keys_of stale))
