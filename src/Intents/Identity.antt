-- ===== src/Intents/Identity.antt =====
-- verifyManagedIdentity (internal/k8s/managed_resource.go) and verifyIntentIdentity
-- (internal/k8s/resource_intent.go): whether a live object belongs to an owner. `none` is no error.
use opensaola.Base.{
  String, ◌==◌, Bool, true, false, not, ◌&&◌, ◌||◌, Option, none, some, value_at, if◌then◌else◌,
}
use opensaola.Configuration.{OwnerReference, OwnerKind, unsupported, GetControllerOf}
use opensaola.Configuration.Ownership.{
  kind_name, label_app, label_configurations, owner_uid_annotation,
}
use opensaola.Intents.{
  WriteOwner, Rendered, WriteError, Fallible, ok, err, unsupported_owner, invalid_identity,
  no_controller, owner_mismatch, marker_mismatch, blocked,
}

abbrev pub group_middleware : String
group_middleware = "middleware.cn"

abbrev pub group_version : String
group_version = "middleware.cn/v1"

abbrev pub is_supported_kind : OwnerKind → Bool
is_supported_kind unsupported = false
is_supported_kind _ = true

abbrev pub is_group : Option String → Bool
is_group none = false
is_group (some g) = g == group_middleware

-- Where the object has a controller, the annotation with the owner's UID may be missing.
abbrev verify_uid_annotation : WriteOwner → String → Option WriteError
verify_uid_annotation owner uid =
    if not (uid == "") && not (uid == owner.uid) then some marker_mismatch else none

abbrev and_then : Option WriteError → Option WriteError → Option WriteError
and_then none e = e
and_then (some e) f = some e

-- schema.ParseGroupVersion, as far as the group of what it parses
module _ (parse_group : String → Option String) (meta : GetControllerOf) {Content : Type 0} where
  unfoldable pub verify_controller :
      WriteOwner → Rendered Content → Option OwnerReference → Option WriteError
  verify_controller owner live none = some no_controller
  verify_controller owner live (some ref) =
      if not (is_group (parse_group ref.api_version))
        || not (ref.kind == kind_name owner.kind)
        || not (ref.name == owner.name)
        || not (ref.uid == owner.uid)
        || not (live.namespace == owner.namespace)
      then some owner_mismatch
      else none

  unfoldable pub verify_managed_identity : WriteOwner → Rendered Content → Option WriteError
  verify_managed_identity owner live =
      if not (is_supported_kind owner.kind)
      then some unsupported_owner
      else if owner.uid == "" || live.uid == "" || owner.deleting || live.deleting
      then some invalid_identity
      else verify_controller owner live (meta.controller_of live.owner_references)

  unfoldable pub verify_markers :
      WriteOwner → Rendered Content → Option OwnerReference → Option WriteError
  verify_markers owner live (some ref) =
      and_then (verify_managed_identity owner live)
        (verify_uid_annotation owner (value_at owner_uid_annotation live.annotations))
  verify_markers owner live none =
      if not (value_at label_app live.labels == owner.name)
        || not (value_at owner_uid_annotation live.annotations == owner.uid)
      then some marker_mismatch
      else none

  unfoldable pub verify_intent_identity : WriteOwner → Rendered Content → String → Option WriteError
  verify_intent_identity owner live configuration =
      if configuration == ""
      then verify_managed_identity owner live
      else if owner.uid == "" || live.uid == "" || live.deleting
      then some invalid_identity
      else if not (value_at label_configurations live.annotations == configuration)
      then some marker_mismatch
      else verify_markers owner live (meta.controller_of live.owner_references)

-- intentOwnerReference
unfoldable pub intent_owner_reference : WriteOwner → Fallible OwnerReference
intent_owner_reference owner =
    if is_supported_kind owner.kind
    then ok (record {
      api_version = group_version;
      kind = kind_name owner.kind;
      name = owner.name;
      uid = owner.uid;
      controller = true;
    })
    else err blocked
