-- ===== src/Intents/Collect.antt =====
-- internal/k8s/resource_intent_gc.go: what the collector does with one record. The API server's
-- answers are parameters, and so are reflect.DeepEqual and the REST mapping.
pub mod Reads
pub mod Decide
pub mod Judged
pub mod Unreferenced
pub mod Deletes
use opensaola.Base.{
  ℕ, String, ◌==◌, Bool, true, false, not, ◌&&◌, ◌||◌, List, [], ◌∷◌, Option, none, some, is_none,
  Dict, value_at, eqb, ltb, ◌-◌, if◌then◌else◌,
}
use opensaola.Configuration.{
  Gvk, OwnerReference, OwnerKind, middleware, middleware_operator, unsupported, GetControllerOf,
}
use opensaola.Intents.{
  WriteOwner, Rendered, PauseData, ResourceIntent, Secret, WriteError, Fallible, ok, err, ◌>>=◌,
  require, blocked, read_failed, write_failed, snapshot_invalid, annotation_resource_intent,
  intent_record_label, intent_publication_protocol,
}
use opensaola.Intents.Answers.{Answer, present, absent, failed, Deletion, delete_record}
use opensaola.Intents.Objects.{intent_object}
use opensaola.Intents.Identity.{group_version, verify_intent_identity}
use opensaola.Intents.Codec.{Codecs, decode_resource_intent}
use opensaola.Intents.Records.{is_true}
use opensaola.Intents.Snapshots.{
  PauseStatus, Mid, MidStatus, SnapshotTools, pause_record_hash, load_reconcile_pause_snapshot,
}

-- What is to become of a record: it is kept, deleted, or deleted after a fence
-- on an object.
pub data Verdict (Content : Type 0) : Type 0 where
  keep_record delete_now : Verdict Content
  fence_first : Rendered Content → Verdict Content

-- The last steps of `collect`, from the read target on; `identity` is what verifyIntentIdentity says.
abbrev checked :
    {Content Overrides : Type 0}
    → ResourceIntent Content Overrides
    → Rendered Content
    → Option WriteError
    → Fallible (Verdict Content)
checked r target (some e) = err e
checked r target none =
    if target.resource_version == r.base_resource_version
    then ok (fence_first target)
    else ok delete_now

unfoldable pub judge :
    {Content Overrides : Type 0}
    → String
    → ResourceIntent Content Overrides
    → Rendered Content
    → Option WriteError
    → Fallible (Verdict Content)
judge name r target identity =
    if value_at annotation_resource_intent target.annotations == name
    then ok keep_record
    else if target.uid == "" || target.resource_version == ""
    then err blocked
    else if not (target.uid == r.resource_uid)
    then ok delete_now
    else checked r target identity

-- The JSON patch of fencePublication: it tests the UID and the resourceVersion, and sets the label
-- of the fence, in a map of labels of its own where there is none.
pub record FencePatch : Type 0 where
  pub uid : String
  pub resource_version : String
  pub fence : String

abbrev fence_patch : {Content Bytes : Type 0} → Rendered Content → Secret Bytes → FencePatch
fence_patch target s = record {
  uid = target.uid;
  resource_version = target.resource_version;
  fence = s.uid;
}

-- reflect.DeepEqual at the types that are compared
pub record DeepEqual (Content : Type 0) : Type 0 where
  pub objects : Rendered Content → Rendered Content → Bool
  pub references : List OwnerReference → List OwnerReference → Bool
  pub texts : List String → List String → Bool
  pub statuses : Option Content → Option Content → Bool

module _ {Content : Type 0} (deep_equal : DeepEqual Content) (base64 : String → String) where
  unfoldable pub intent_fence_unchanged : Rendered Content → Rendered Content → Bool
  intent_fence_unchanged before after =
      before.uid == after.uid
      && eqb before.generation after.generation
      && value_at annotation_resource_intent before.annotations
        == value_at annotation_resource_intent after.annotations
      && deep_equal.references before.owner_references after.owner_references
      && deep_equal.texts before.finalizers after.finalizers
      && deep_equal.statuses before.status after.status
      && deep_equal.objects (intent_object base64 before) (intent_object base64 after)

  abbrev patched : Option (Rendered Content) → Fallible (Rendered Content)
  patched none = err write_failed
  patched (some o) = ok o

  -- `patch` is a Patch call: with `true` a dry run.
  unfoldable pub fence_publication :
      {Bytes : Type 0}
      → (Bool → FencePatch → Rendered Content → Option (Rendered Content))
      → Rendered Content
      → Secret Bytes
      → Fallible (Rendered Content)
  fence_publication patch target s =
      patched (patch true (fence_patch target s) target) >>= λ preview.
      require (intent_fence_unchanged target preview) blocked (
        patched (patch false (fence_patch target s) target) >>= λ fenced.
        require
          (not (fenced.resource_version == target.resource_version)
            && intent_fence_unchanged target fenced)
          blocked (ok fenced))
