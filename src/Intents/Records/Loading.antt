-- ===== src/Intents/Records/Loading.antt =====
-- A prepared record is what loading finds (internal/k8s/resource_intent.go).
use opensaola.Base.{
  ℕ, String, ◌==◌, eq_refl, Bool, true, false, List, [], ◌∷◌, Option, some, Dict, lookup, insert,
  lookup-insert, value_at, ◌≡◌, refl, sym, ap, subst, ◌∙◌, inl, inr, Bool-cases, arith,
}
use opensaola.Configuration.{OwnerReference, GetControllerOf}
use opensaola.Intents.{
  ok-eq, bind-ok, require-ok, WriteOwner, Rendered, ResourceIntent, Secret, ok,
  annotation_resource_intent,
}
use opensaola.Intents.Objects.{intent_object, clean_apply_object}
use opensaola.Intents.Identity.{intent_owner_reference, is_supported_kind}
use opensaola.Intents.Codec.{
  Codecs, IsInverse, encode_resource_intent, decode_resource_intent, decode-encode,
}
use opensaola.Intents.Records.{
  same_reference, secret_of, build_resource_intent_secret, intent_record, prepare_resource_intent,
  loaded, is_intent_of, is_rendered_intent, is_record_secret, load_from_secret,
  load_resource_intent, set_intent_pointer,
}

-- metav1.GetControllerOf returns the one reference of an object that is marked as its controller.
abbrev pub FindsController : GetControllerOf → Type 0
FindsController meta =
    (r : OwnerReference) → r.controller ≡ true → meta.controller_of (r ∷ []) ≡ some r

-- The server stores a Secret as it is sent, under a name, a UID, a version and a time of its own.
abbrev pub stored : {Bytes : Type 0} → Secret Bytes → String → String → String → ℕ → Secret Bytes
stored s name uid resource_version created = record s {
  name = name;
  uid = uid;
  resource_version = resource_version;
  created = created;
}

-- A reference equals itself in the fields that are compared.
pub same_reference_refl : (r : OwnerReference) → same_reference (some r) r ≡ true
same_reference_refl r =
    ground (arith, eq_refl r.uid, eq_refl r.name, eq_refl r.kind, eq_refl r.api_version)

value_at-insert : (k v : String) (m : Dict String) → value_at k (insert k v m) ≡ v
unfolding value_at
value_at-insert k v m = rw (lookup-insert k k v m, eq_refl k) refl

module _ {Content Overrides Bytes : Type 0}
    (codecs : Codecs (ResourceIntent Content Overrides) Bytes) (base64 : String → String)
    (same_object : Rendered Content → Rendered Content → Bool) (meta : GetControllerOf) where
  -- What is sent, in terms of what is encoded.
  pub build-ok :
      (owner : WriteOwner) (r : ResourceIntent Content Overrides) (s : Secret Bytes)
      → build_resource_intent_secret codecs owner r ≡ ok s
      → (d : Dict Bytes) × (ref : OwnerReference) × (encode_resource_intent codecs r ≡ ok d)
        × (intent_owner_reference owner ≡ ok ref)
        × (s ≡ secret_of codecs owner ref d)
  unfolding build_resource_intent_secret
  build-ok owner r s e =
      let one = bind-ok (encode_resource_intent codecs r) _ s e in
      let two = bind-ok (intent_owner_reference owner) _ s one.2 in
      (one.0, two.0, one.1, two.1, sym (ok-eq two.2))

  pub reference_controls :
      (owner : WriteOwner) (ref : OwnerReference)
      → intent_owner_reference owner ≡ ok ref
      → ref.controller ≡ true
  unfolding intent_owner_reference
  reference_controls owner ref e = elim (Bool-cases (is_supported_kind owner.kind)) [
    | inl h ↦ sym (ap (λ r. r.controller) (ok-eq (rw h at e)))
    | inr h ↦ absurd (ground (arith, h, e))
  ]

  -- The checks on the Secret pass for what was sent, whatever the server adds to it.
  load-secret :
      (owner : WriteOwner) (live : Rendered Content) (configuration : String)
      (r : ResourceIntent Content Overrides) (ref : OwnerReference) (d : Dict Bytes)
      (name uid rv : String) (created : ℕ)
      → FindsController meta
      → intent_owner_reference owner ≡ ok ref
      → decode_resource_intent codecs d ≡ ok r
      → is_rendered_intent codecs r ≡ true
      → is_intent_of codecs owner live configuration r ≡ true
      → load_from_secret codecs meta owner live configuration
          (stored (secret_of codecs owner ref d) name uid rv created)
        ≡ ok (loaded r (stored (secret_of codecs owner ref d) name uid rv created))
  unfolding load_from_secret is_record_secret value_at lookup
  load-secret owner live configuration r ref d name uid rv created finds e decoded rendered is_of =
      rw
        (
          eq_refl owner.uid,
          e,
          finds ref (reference_controls owner ref e),
          same_reference_refl ref,
          decoded,
          rendered,
          is_of,
        )
        refl

  -- With a pointer, loading checks the Secret of that name.
  pointer_read :
      (o : Rendered Content) (name : String) (owner : WriteOwner) (configuration : String)
      (get : String → String → Option (Secret Bytes)) (s : Secret Bytes)
      → (name == "") ≡ false
      → value_at annotation_resource_intent o.annotations ≡ name
      → get owner.namespace name ≡ some s
      → load_resource_intent codecs meta get owner o configuration
        ≡ load_from_secret codecs meta owner o configuration s
  unfolding load_resource_intent
  pointer_read o name owner configuration get s named at read = rw (at, named, read) refl

  module _ (owner : WriteOwner) (live desired : Rendered Content)
      (configuration schema_hash : String) (preserved : List String)
      (effective : Option (Rendered Content)) where
    -- The record that `prepare_resource_intent` sends.
    abbrev prepared_record : ResourceIntent Content Overrides
    prepared_record =
        intent_record codecs base64 same_object owner live desired configuration schema_hash
          preserved effective

    prepared_record-of :
        (o : Rendered Content)
        → o.uid ≡ live.uid
        → o.gvk ≡ desired.gvk
        → o.namespace ≡ desired.namespace
        → o.name ≡ desired.name
        → is_intent_of codecs owner o configuration prepared_record ≡ true
    unfolding is_intent_of intent_record intent_object clean_apply_object
    prepared_record-of o u g n m =
        rw
          (
            u,
            g,
            n,
            m,
            eq_refl owner.uid,
            eq_refl live.uid,
            eq_refl configuration,
            eq_refl desired.gvk.group,
            eq_refl desired.gvk.version,
            eq_refl desired.gvk.kind,
            eq_refl desired.namespace,
            eq_refl desired.name,
          )
          refl

    -- A record that was prepared against `live` is what is loaded by the pointer to it: where its
    -- Secret is stored as it was sent, under a name that is not empty, and the object that
    -- carries the pointer has the UID of `live` and the kind, namespace and name of what is
    -- desired.
    pub load-prepare :
        (committed : Rendered Content) (name uid rv : String) (created : ℕ)
        (get : String → String → Option (Secret Bytes)) (s : Secret Bytes)
        → IsInverse codecs
        → FindsController meta
        → (name == "") ≡ false
        → prepare_resource_intent codecs base64 same_object
            (λ t. some (stored t name uid rv created))
            owner
            live
            desired
            configuration
            schema_hash
            preserved
            effective
          ≡ ok s
        → get owner.namespace name ≡ some s
        → committed.uid ≡ live.uid
        → committed.gvk ≡ desired.gvk
        → committed.namespace ≡ desired.namespace
        → committed.name ≡ desired.name
        → load_resource_intent codecs meta get owner
            (set_intent_pointer committed name)
            configuration
          ≡ ok (loaded prepared_record s)
    unfolding prepare_resource_intent set_intent_pointer is_rendered_intent intent_record
    load-prepare committed name uid rv created get s inv finds named e read u g n m =
        let sent = bind-ok _ _ s (require-ok _ _ _ s e) in
        let built = build-ok owner prepared_record sent.0 sent.1 in
        let whole = sym (ok-eq sent.2) ∙ ap (λ t. stored t name uid rv created) built.4 in
        let pointer = set_intent_pointer committed name in
        pointer_read pointer name owner configuration get s named
          (value_at-insert annotation_resource_intent name committed.annotations) read
        ∙ subst
            (λ t.
              load_from_secret codecs meta owner pointer configuration t
              ≡ ok (loaded prepared_record t))
            (sym whole)
            (load-secret owner pointer configuration prepared_record built.1 built.0 name uid rv
              created finds built.3 (decode-encode codecs prepared_record built.0 inv built.2) refl
              (prepared_record-of pointer u g n m))
