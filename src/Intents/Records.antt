-- ===== src/Intents/Records.antt =====
-- internal/k8s/resource_intent.go: the Secret that holds a record, its preparation before a write,
-- and its loading by the pointer that a live object carries. The Reader's Get and the Client's Create
-- are parameters, and so is reflect.DeepEqual.
pub mod Loading
use opensaola.Base.{
  ℕ, String, ◌==◌, Bool, true, false, not, ◌&&◌, ◌||◌, List, [], ◌∷◌, Option, none, some, is_none,
  Dict, insert, value_at, eqb, if◌then◌else◌,
}
use opensaola.Configuration.{Gvk, OwnerReference, GetControllerOf}
use opensaola.Intents.{
  WriteOwner, Rendered, ResourceIntent, Secret, WriteError, Fallible, ok, err, ◌>>=◌, require,
  blocked, read_failed, write_failed, annotation_resource_intent, intent_record_label,
  intent_publication_protocol,
}
use opensaola.Intents.Objects.{intent_object}
use opensaola.Intents.Identity.{intent_owner_reference}
use opensaola.Intents.Codec.{Codecs, encode_resource_intent, decode_resource_intent}

abbrev pub same_gvk : Gvk → Gvk → Bool
same_gvk a b = a.group == b.group && a.version == b.version && a.kind == b.kind

abbrev pub is_true : Option Bool → Bool
is_true none = false
is_true (some b) = b

-- The four fields of a reference that the code compares.
abbrev pub same_reference : Option OwnerReference → OwnerReference → Bool
same_reference none b = false
same_reference (some a) b =
    a.uid == b.uid && a.name == b.name && a.kind == b.kind && a.api_version == b.api_version

module _ {Content Overrides Bytes : Type 0}
    (codecs : Codecs (ResourceIntent Content Overrides) Bytes) where
  abbrev pub secret_of : WriteOwner → OwnerReference → Dict Bytes → Secret Bytes
  secret_of owner ref d = record {
    namespace = owner.namespace;
    name = "";
    uid = "";
    resource_version = "";
    created = 0;
    deleting = false;
    immutable = some true;
    is_opaque = true;
    labels = (intent_record_label, owner.uid) ∷ [];
    owner_references = ref ∷ [];
    data_ = d;
  }

  -- The name is left to the server: `GenerateName` gives only its prefix.
  unfoldable pub build_resource_intent_secret :
      WriteOwner → ResourceIntent Content Overrides → Fallible (Secret Bytes)
  build_resource_intent_secret owner r = encode_resource_intent codecs r >>= λ d.
      intent_owner_reference owner >>= λ ref. ok (secret_of owner ref d)

  module _ (base64 : String → String)
      (same_object : Rendered Content → Rendered Content → Bool) where
    -- Kept only where it differs from what is desired.
    abbrev effective_of : Rendered Content → Option (Rendered Content) → Option (Rendered Content)
    effective_of desired none = none
    effective_of desired (some e) =
        if same_object desired e then none else some (intent_object base64 e)

    unfoldable pub intent_record :
        WriteOwner
        → Rendered Content
        → Rendered Content
        → String
        → String
        → List String
        → Option (Rendered Content)
        → ResourceIntent Content Overrides
    intent_record owner live desired configuration schema_hash preserved effective = record {
      version = 1;
      publication_protocol = intent_publication_protocol;
      base_resource_version = live.resource_version;
      owner_uid = owner.uid;
      resource_uid = live.uid;
      configuration = configuration;
      schema_hash = schema_hash;
      desired = some (intent_object base64 desired);
      effective = effective_of (intent_object base64 desired) effective;
      preserved = preserved;
      pause = none;
    }

    abbrev created_or_failed : Option (Secret Bytes) → Fallible (Secret Bytes)
    created_or_failed none = err write_failed
    created_or_failed (some s) = ok s

    unfoldable pub prepare_resource_intent :
        (Secret Bytes → Option (Secret Bytes))
        → WriteOwner
        → Rendered Content
        → Rendered Content
        → String
        → String
        → List String
        → Option (Rendered Content)
        → Fallible (Secret Bytes)
    prepare_resource_intent create owner live desired configuration schema_hash preserved
          effective =
        require (not (live.uid == "") && not (live.resource_version == "")) blocked (
          build_resource_intent_secret owner
            (intent_record owner live desired configuration schema_hash preserved effective)
          >>= λ s. created_or_failed (create s))

  -- What loadResourceIntent returns besides an error: nothing for an object with no pointer.
  pub data Loaded : Type 0 where
    nothing : Loaded
    loaded : ResourceIntent Content Overrides → Secret Bytes → Loaded

  -- The record is of this object under this owner and this configuration.
  abbrev same_target : Option (Rendered Content) → Rendered Content → Bool
  same_target none live = false
  same_target (some d) live =
      same_gvk d.gvk live.gvk && d.namespace == live.namespace && d.name == live.name

  unfoldable pub is_intent_of :
      WriteOwner → Rendered Content → String → ResourceIntent Content Overrides → Bool
  is_intent_of owner live configuration r =
      r.owner_uid == owner.uid
      && r.resource_uid == live.uid
      && r.configuration == configuration
      && same_target r.desired live

  -- The data decodes to a rendered intent of version 1.
  unfoldable pub is_rendered_intent : ResourceIntent Content Overrides → Bool
  is_rendered_intent r = eqb r.version 1 && not (is_none r.desired) && is_none r.pause

  abbrev decoded_or_blocked :
      Fallible (ResourceIntent Content Overrides) → Fallible (ResourceIntent Content Overrides)
  decoded_or_blocked (ok r) = ok r
  decoded_or_blocked (err e) = err blocked

  unfoldable pub is_record_secret : WriteOwner → Secret Bytes → Bool
  is_record_secret owner s =
      is_true s.immutable && value_at intent_record_label s.labels == owner.uid && not s.deleting

  module _ (meta : GetControllerOf) where
    unfoldable pub load_from_secret :
        WriteOwner → Rendered Content → String → Secret Bytes → Fallible Loaded
    load_from_secret owner live configuration s = require (is_record_secret owner s) blocked (
        intent_owner_reference owner >>= λ expected.
        require (same_reference (meta.controller_of s.owner_references) expected) blocked (
          decoded_or_blocked (decode_resource_intent codecs s.data_) >>= λ r.
          require (is_rendered_intent r) blocked
            (require (is_intent_of owner live configuration r) blocked (ok (loaded r s)))))

    abbrev load_read :
        WriteOwner → Rendered Content → String → Option (Secret Bytes) → Fallible Loaded
    load_read owner live configuration none = err read_failed
    load_read owner live configuration (some s) = load_from_secret owner live configuration s

    unfoldable pub load_resource_intent :
        (String → String → Option (Secret Bytes))
        → WriteOwner
        → Rendered Content
        → String
        → Fallible Loaded
    load_resource_intent get owner live configuration =
        let name = value_at annotation_resource_intent live.annotations in
        if name == ""
        then ok nothing
        else load_read owner live configuration (get owner.namespace name)

-- setIntentPointer
unfoldable pub set_intent_pointer :
    {Content : Type 0} → Rendered Content → String → Rendered Content
set_intent_pointer o name = record o {
  annotations = insert annotation_resource_intent name o.annotations;
}
