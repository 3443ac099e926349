-- ===== src/Configuration/Ownership.antt =====
-- internal/service/middlewareconfiguration/ownership.go
use opensaola.Base.{
  String, ◌==◌, Bool, true, false, not, ◌&&◌, ◌||◌, List, Option, none, some, is_none, value_at,
  keep, if◌then◌else◌,
}
use opensaola.Configuration.{
  Gvk, OwnerReference, Object, OwnerKind, middleware, middleware_operator, unsupported, Owner,
  MiddlewareConfiguration, RenderedResource, GetControllerOf,
}

-- The kind that `ownerIdentity` gives an owner; the empty text for an unsupported type.
abbrev pub kind_name : OwnerKind → String
kind_name middleware = "Middleware"
kind_name middleware_operator = "MiddlewareOperator"
kind_name unsupported = ""

abbrev pub api_version_of : OwnerKind → String
api_version_of unsupported = ""
api_version_of _ = "middleware.cn/v1"

abbrev is_supported : OwnerKind → Bool
is_supported unsupported = false
is_supported _ = true

unfoldable pub same_controller_owner : Owner → Option OwnerReference → Bool
same_controller_owner owner none = false
same_controller_owner owner (some ref) =
    if not (owner.uid == "") && not (ref.uid == "")
    then owner.uid == ref.uid
    else if is_supported owner.kind
    then ref.api_version == api_version_of owner.kind
      && ref.kind == kind_name owner.kind
      && ref.name == owner.name
    else ref.name == owner.name

abbrev pub delete_policy_annotation : String
delete_policy_annotation = "middleware.cn/configurationDeletePolicy"

abbrev pub disable_policy_annotation : String
disable_policy_annotation = "middleware.cn/configurationDisablePolicy"

abbrev pub owner_uid_annotation : String
owner_uid_annotation = "middleware.cn/configurationOwnerUID"

abbrev pub configuration_uid_annotation : String
configuration_uid_annotation = "middleware.cn/configurationUID"

abbrev pub label_app : String
label_app = "middleware.cn/app"

abbrev pub label_configurations : String
label_configurations = "middleware.cn/configurations"

-- The object's own annotation wins over the configuration's.
unfoldable pub configuration_policy : MiddlewareConfiguration → Object → String → String
configuration_policy m obj key =
    let value = value_at key obj.annotations in
    if not (value == "") then value else value_at key m.annotations

unfoldable pub is_custom_resource_definition : Gvk → Bool
is_custom_resource_definition gvk =
    gvk.group == "apiextensions.k8s.io" && gvk.kind == "CustomResourceDefinition"

is_default_orphan : Gvk → Bool
unfolding is_custom_resource_definition
is_default_orphan gvk =
    if is_custom_resource_definition gvk
    then true
    else gvk.group == "" && (gvk.kind == "PersistentVolume" || gvk.kind == "PersistentVolumeClaim")

default_configuration_disable_policy : Gvk → String
default_configuration_disable_policy gvk = if is_default_orphan gvk then "orphan" else "delete"

-- `none` is the error on an unsupported policy.
unfoldable pub configuration_disable_policy : MiddlewareConfiguration → Object → Option String
unfolding default_configuration_disable_policy is_default_orphan
configuration_disable_policy m obj =
    let policy = configuration_policy m obj disable_policy_annotation in
    if not (policy == "") && not (policy == "orphan") && not (policy == "delete")
    then none
    else if is_custom_resource_definition obj.gvk
    then some "orphan"
    else if policy == ""
    then some (default_configuration_disable_policy obj.gvk)
    else some policy

unfoldable pub has_configuration_lifecycle_markers : Owner → Object → String → String → Bool
has_configuration_lifecycle_markers owner obj configuration_name configuration_uid =
    if configuration_name == "" || owner.uid == ""
    then false
    else if not (value_at label_app obj.labels == owner.name)
        || not (value_at label_configurations obj.annotations == configuration_name)
    then false
    else if not (value_at owner_uid_annotation obj.annotations == owner.uid)
    then false
    else if not (configuration_uid == "")
        && not (value_at configuration_uid_annotation obj.annotations == configuration_uid)
    then false
    else true

is_open_saola_managed_configuration : Owner → Object → String → Bool
is_open_saola_managed_configuration owner obj configuration_name =
    if configuration_name == ""
    then false
    else value_at label_app obj.labels == owner.name
      && value_at label_configurations obj.annotations == configuration_name

-- Drops the controller references to the owner, and keeps the others.
unfoldable pub remove_controller_owner_reference : List OwnerReference → Owner → List OwnerReference
remove_controller_owner_reference refs owner =
    keep (λ ref. not (ref.controller && ref.uid == owner.uid)) refs

unfoldable pub resolve_configuration_delete_policy : MiddlewareConfiguration → Object → String
resolve_configuration_delete_policy m obj =
    let policy = configuration_policy m obj delete_policy_annotation in
    if not (policy == "") then policy else elim (configuration_disable_policy m obj) [
      | none ↦ ""
      | some disable_policy ↦ if disable_policy == "orphan" then "orphan" else ""
    ]

module _ (meta : GetControllerOf) where
  open meta use {controller_of}

  unfoldable pub should_delete_disabled_rendered_resource : Owner → Object → RenderedResource → Bool
  should_delete_disabled_rendered_resource owner obj resource =
      let controller = controller_of obj.owner_references in
      if not (resource.disable_policy == "delete")
      then false
      else if resource.owner_uid == "" || not (owner.uid == resource.owner_uid)
      then false
      else if resource.resource_uid == "" || not (obj.uid == resource.resource_uid)
      then false
      else if not (
          has_configuration_lifecycle_markers owner obj resource.configuration_name
            resource.configuration_uid)
      then false
      else if resource.namespaced && obj.namespace == owner.namespace
      then same_controller_owner owner controller
      else is_none controller || same_controller_owner owner controller

  unfoldable pub should_delete_rendered_resource : Owner → Object → String → String → Bool
  unfolding is_open_saola_managed_configuration
  should_delete_rendered_resource owner obj configuration_name delete_policy =
      if delete_policy == "orphan"
      then false
      else if delete_policy == "delete"
      then true
      else elim (controller_of obj.owner_references) [
        | some controller ↦ same_controller_owner owner (some controller)
        | none ↦ is_open_saola_managed_configuration owner obj configuration_name
      ]
