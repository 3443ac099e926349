-- ===== src/Configuration/Cleanup.antt =====
-- What the cleanup of disabled configurations asks the API server to delete
-- (internal/service/middlewareconfiguration/inventory.go and ownership.go).
use mathlib.Core.List.{Memᴰ}
use opensaola.Base.{
  String, ◌==◌, eq_iff, true, false, List, [], ◌∷◌, none, some, Dict, lookup, value_at, ◌≡◌, ◌≢◌,
  ◌⊎◌, inl, inr, All, Bool-cases, Option-cases, arith,
}
use opensaola.Configuration.{
  Object, Owner, RenderedResource, GetResult, found, not_found, crd_not_installed, failed,
  ApiServer, GetControllerOf,
}
use opensaola.Configuration.Ownership.{
  is_custom_resource_definition, should_delete_disabled_rendered_resource,
  has_configuration_lifecycle_markers, same_controller_owner, label_app, label_configurations,
  owner_uid_annotation,
}
use opensaola.Configuration.Inventory.{
  World, rendered_configuration_resource_key, current_keys, collect_stale, keys_of, sort_strings,
  delete_keys, delete_found, delete_disabled_rendered_configuration_resource,
  delete_disabled_rendered_configuration_resources,
}
use opensaola.Configuration.Stale.{collect-IsStale, current_keys-none}

module _ (meta : GetControllerOf) (owner : Owner) where
  -- What makes it right to delete `obj` for the inventory entry `r`.
  pub record IsOwnedFor (r : RenderedResource) (obj : Object) : Type 0 where
    pub opted : r.disable_policy ≡ "delete"
    pub not_crd : is_custom_resource_definition r.gvk ≡ false
    pub owner_uid : owner.uid ≡ r.owner_uid
    pub owner_known : r.owner_uid ≢ ""
    pub same_instance : obj.uid ≡ r.resource_uid
    pub instance_known : r.resource_uid ≢ ""
    pub app : value_at label_app obj.labels ≡ owner.name
    pub configuration : value_at label_configurations obj.annotations ≡ r.configuration_name
    pub marked : value_at owner_uid_annotation obj.annotations ≡ owner.uid
    pub controller :
        ((meta.controller_of obj.owner_references ≡ none)
          ⊎ (same_controller_owner owner (meta.controller_of obj.owner_references) ≡ true))

  markers_sound :
      (obj : Object) (name uid : String)
      → has_configuration_lifecycle_markers owner obj name uid ≡ true
      → (value_at label_app obj.labels ≡ owner.name)
        × (value_at label_configurations obj.annotations ≡ name)
        × (value_at owner_uid_annotation obj.annotations ≡ owner.uid)
  unfolding has_configuration_lifecycle_markers
  markers_sound obj name uid h = ground (
    arith,
    eq_iff (value_at label_app obj.labels) owner.name,
    eq_iff (value_at label_configurations obj.annotations) name,
    eq_iff (value_at owner_uid_annotation obj.annotations) owner.uid,
  )

  should_delete_sound :
      (obj : Object) (r : RenderedResource)
      → is_custom_resource_definition r.gvk ≡ false
      → should_delete_disabled_rendered_resource meta owner obj r ≡ true
      → IsOwnedFor r obj
  unfolding should_delete_disabled_rendered_resource
  should_delete_sound obj r c h =
      let (app, configuration, marked) =
        markers_sound obj r.configuration_name r.configuration_uid (ground arith) in
      record {
        opted = ground (arith, eq_iff r.disable_policy "delete");
        not_crd = c;
        owner_uid = ground (arith, eq_iff owner.uid r.owner_uid);
        owner_known = λ e. ground (arith, eq_iff r.owner_uid "");
        same_instance = ground (arith, eq_iff obj.uid r.resource_uid);
        instance_known = λ e. ground (arith, eq_iff r.resource_uid "");
        app = app;
        configuration = configuration;
        marked = marked;
        controller = ground arith;
      }

module _ (api : ApiServer) (meta : GetControllerOf) (owner : Owner) where
  -- Every request of `w'` is one of `w`, or satisfies `P`.
  abbrev Adds : (RenderedResource → Object → Type 0) → World api meta → World api meta → Type 0
  Adds P w w' = All (λ q. P q.0 q.1) w.requests → All (λ q. P q.0 q.1) w'.requests

  -- One entry: whatever the server answers, a request is sent only for what it owns.
  entry_safe :
      (w : World api meta) (r : RenderedResource) (P : RenderedResource → Object → Type 0)
      → ((obj : Object) → IsOwnedFor meta owner r obj → P r obj)
      → Adds P w (delete_disabled_rendered_configuration_resource api meta w owner r).0
  unfolding delete_disabled_rendered_configuration_resource
  entry_safe w r P sound before = elim (Bool-cases (r.disable_policy == "delete")) [
    | inr e ↦ rw e before
    | inl e ↦ rw e (elim (Bool-cases (is_custom_resource_definition r.gvk)) [
      | inl c ↦ rw c before
      | inr c ↦ rw c (answer (api.get w.state r.gvk r.namespace r.name) c)
    ])
  ]
    where
      answer :
          (g : GetResult)
          → is_custom_resource_definition r.gvk ≡ false
          → All (λ q. P q.0 q.1) (delete_found api meta w owner r g).0.requests
      answer (found obj) c =
          elim (Bool-cases (should_delete_disabled_rendered_resource meta owner obj r)) [
            | inl d ↦ rw d (sound obj (should_delete_sound meta owner obj r c d), before)
            | inr d ↦ rw d before
          ]
      answer not_found c = before
      answer crd_not_installed c = before
      answer failed c = before

  keys_safe :
      (stale : Dict RenderedResource) (P : RenderedResource → Object → Type 0)
      → ((k : String) (r : RenderedResource) (obj : Object)
          → lookup k stale ≡ some r
          → IsOwnedFor meta owner r obj
          → P r obj)
      → (w : World api meta) (keys : List String)
      → Adds P w (delete_keys api meta owner stale w keys).0
  unfolding delete_keys
  keys_safe stale P sound w [] before = before
  keys_safe stale P sound w (k ∷ keys) before = elim (Option-cases (lookup k stale)) [
    | inl e ↦ rw (e, delete_keys) (keys_safe stale P sound w keys before)
    | inr (r, e) ↦
        let w' = (delete_disabled_rendered_configuration_resource api meta w owner r).0 in
        let safe = entry_safe w r P (λ obj. sound k r obj e) before in
        rw (e, delete_keys)
          (elim (Bool-cases
            (delete_disabled_rendered_configuration_resource api meta w owner r).1) [
              | inl o ↦ rw o (keys_safe stale P sound w' keys safe)
              | inr o ↦ rw o safe
            ])
  ]

-- Every deletion that the cleanup asks for, whatever the API server answers on the way, is of an
-- object found for an entry of the previous inventory whose key is not rendered any more; the
-- entry opted into deletion and is not a CustomResourceDefinition, and the object is the recorded
-- instance, carries the owner's markers, and has no controller or the owner as its controller.
pub cleanup_safe :
    (api : ApiServer) (meta : GetControllerOf) (owner : Owner) (state : api.State)
    (previous currently_rendered : List RenderedResource)
    → All
        (λ q.
          Memᴰ q.0 previous
          × All
              (λ c. rendered_configuration_resource_key c ≢ rendered_configuration_resource_key q.0)
              currently_rendered
          × IsOwnedFor meta owner q.0 q.1)
        (delete_disabled_rendered_configuration_resources api meta
          (record { state = state; requests = [] })
          owner
          previous
          currently_rendered).0.requests
unfolding delete_disabled_rendered_configuration_resources
cleanup_safe api meta owner state previous currently_rendered =
    let current = current_keys currently_rendered in
    let stale = collect_stale current [] previous in
    keys_safe api meta owner stale _
      (λ k r obj e o.
        let s = collect-IsStale current previous k r e in
        (
          s.listed,
          rw s.keyed (
              current_keys-none k currently_rendered s.gone
                (λ z. ground (arith, eq_iff k "", s.valid))),
          o,
        ))
      (record { state = state; requests = [] }) (sort_strings (keys_of stale)) tt
