-- ===== src/Intents/Snapshots/Captured.antt =====
-- What is captured passes the checks of the loading (internal/k8s/reconcile_pause_snapshot.go).
use opensaola.Base.{
  ℕ, String, ◌==◌, eq_iff, eq_refl, Bool, true, false, not, ◌&&◌, Option, none, some, Dict, lookup,
  value_at, eqb_refl, ◌≡◌, refl, ap, ◌∙◌, inl, inr, Option-cases, arith,
}
use opensaola.Configuration.{OwnerReference, GetControllerOf}
use opensaola.Intents.{
  snapshot_invalid, WriteError, WriteOwner, Rendered, ResourceIntent, Fallible, ok, ok-eq,
  require-ok, require-true,
}
use opensaola.Intents.Identity.{intent_owner_reference, verify_managed_identity}
use opensaola.Intents.Codec.{Codecs, IsInverse, encode_resource_intent, decode-encode}
use opensaola.Intents.Records.{secret_of}
use opensaola.Intents.Records.Loading.{
  FindsController, stored, same_reference_refl, reference_controls,
}
use opensaola.Intents.Snapshots.{
  SnapshotTools, found, pause_record_hash, is_snapshot_secret, is_snapshot_record,
  is_snapshot_target, load_record_from,
}
use opensaola.Intents.Snapshots.Prepare.{
  unless, snapshot_record, snapshot_status, spec_or_empty, can_capture,
}

-- Reading a spec undoes writing it; a hash and a name made of it are not empty.
pub record IsFaithful {Content Overrides : Type 0} (tools : SnapshotTools Content Overrides)
    : Type 0 where
  pub spec : (c : Content) → tools.nested_spec (tools.only_spec c) ≡ found c
  pub named : (h : String) → (tools.name_of h == "") ≡ false
  pub hashed :
      (r : ResourceIntent Content Overrides) (h : String)
      → tools.hash r ≡ some h
      → (h == "") ≡ false

pub same_text : (a b : String) → (a == b) ≡ true → a ≡ b
same_text a b h = ground (arith, eq_iff a b)

neither : (a b : Bool) → (not a && not b) ≡ true → (a ≡ false) × (b ≡ false)
neither a b h = ground arith

same_texts : (a b c d : String) → (a == b && c == d) ≡ true → (a ≡ b) × (c ≡ d)
same_texts a b c d h = ground (arith, eq_iff a b, eq_iff c d)

unless-none :
    {A : Type 0} (o : Option WriteError) (x : Fallible A) (a : A)
    → unless o x ≡ ok a
    → (o ≡ none) × (x ≡ ok a)
unless-none none x a e = (refl, e)
unless-none (some w) x a e = absurd (ground arith)

module _ {Content Overrides Bytes : Type 0}
    (codecs : Codecs (ResourceIntent Content Overrides) Bytes)
    (tools : SnapshotTools Content Overrides) (meta : GetControllerOf)
    (parse_group : String → Option String) where
  -- What was verified before the capture.
  pub record IsVerified (owner : WriteOwner) (live : Rendered Content) : Type 0 where
    pub owner_uid : (owner.uid == "") ≡ false
    pub version : (owner.resource_version == "") ≡ false
    pub live_uid : (live.uid == "") ≡ false
    pub name : live.name ≡ owner.name
    pub namespace : live.namespace ≡ owner.namespace
    pub api : (live.gvk.version == "") ≡ false
    pub kind : (live.gvk.kind == "") ≡ false

  live_has_uid :
      (owner : WriteOwner) (live : Rendered Content)
      → verify_managed_identity parse_group meta owner live ≡ none
      → (live.uid == "") ≡ false
  unfolding verify_managed_identity
  live_has_uid owner live e = ground arith

  pub capture-IsVerified :
      (owner : WriteOwner) (live : Rendered Content) (spec : Content)
      → can_capture codecs tools meta parse_group owner live ≡ ok spec
      → IsVerified owner live
  unfolding can_capture
  capture-IsVerified owner live spec e =
      let ids =
        require-true (not (owner.uid == "") && not (owner.resource_version == "")) _ _ spec e in
      let verified =
        unless-none (verify_managed_identity parse_group meta owner live) _ spec
          (require-ok _ _ _ spec e) in
      let target =
        require-true (live.name == owner.name && live.namespace == owner.namespace) _ _ spec
          verified.1 in
      let kinds =
        require-true (not (live.gvk.version == "") && not (live.gvk.kind == "")) _ _ spec
          (require-ok _ _ _ spec verified.1) in
      record {
        owner_uid = (neither _ _ ids).0;
        version = (neither _ _ ids).1;
        live_uid = live_has_uid owner live verified.0;
        name = (same_texts _ _ _ _ target).0;
        namespace = (same_texts _ _ _ _ target).1;
        api = (neither _ _ kinds).0;
        kind = (neither _ _ kinds).1;
      }

  pub capture-spec :
      (owner : WriteOwner) (live : Rendered Content) (spec : Content)
      → can_capture codecs tools meta parse_group owner live ≡ ok spec
      → spec_or_empty codecs tools meta (tools.nested_spec live.content) ≡ ok spec
  unfolding can_capture
  capture-spec owner live spec e =
      let verified =
        unless-none (verify_managed_identity parse_group meta owner live) _ spec
          (require-ok _ _ _ spec e) in
      require-ok (not (live.gvk.version == "") && not (live.gvk.kind == "")) snapshot_invalid _ spec
        (require-ok (live.name == owner.name && live.namespace == owner.namespace) snapshot_invalid
          _ spec verified.1)

  pub hash-some :
      (r : ResourceIntent Content Overrides) (h : String)
      → pause_record_hash codecs tools meta r ≡ ok h
      → tools.hash r ≡ some h
  unfolding pause_record_hash
  hash-some r h e = elim (Option-cases (tools.hash r)) [
    | inl n ↦ absurd (ground (arith, rw n at e))
    | inr (x, n) ↦ n ∙ ap some (ok-eq (rw n at e))
  ]

  module _ (owner : WriteOwner) (overrides : Option Overrides) (live : Rendered Content)
      (spec : Content) where
    abbrev pub captured : ResourceIntent Content Overrides
    captured = snapshot_record codecs tools meta owner overrides live spec

    captured-IsRecord :
        (hash : String)
        → IsVerified owner live
        → is_snapshot_record codecs tools meta owner
            (snapshot_status codecs tools meta owner live hash)
            captured
          ≡ true
    unfolding is_snapshot_record
    captured-IsRecord hash c =
        rw (eq_refl owner.uid, eq_refl live.uid, eqb_refl owner.generation, c.version) refl

    captured-IsTarget :
        (hash : String)
        → IsVerified owner live
        → is_snapshot_target codecs tools meta owner
            (snapshot_status codecs tools meta owner live hash)
            captured.desired
          ≡ true
    unfolding is_snapshot_target
    captured-IsTarget hash c =
        rw
          (
            c.name,
            c.namespace,
            eq_refl owner.name,
            eq_refl owner.namespace,
            eq_refl live.gvk.group,
            eq_refl live.gvk.version,
            eq_refl live.gvk.kind,
          )
          refl

    sent-IsSecret :
        (ref : OwnerReference) (d : Dict Bytes) (name uid version : String) (time : ℕ)
        → FindsController meta
        → intent_owner_reference owner ≡ ok ref
        → is_snapshot_secret codecs tools meta owner
            (stored (secret_of codecs owner ref d) name uid version time)
            ref
          ≡ true
    unfolding is_snapshot_secret value_at lookup
    sent-IsSecret ref d name uid version time finds e =
        rw
          (
            finds ref (reference_controls codecs (λ x. x) (λ a b. true) meta owner ref e),
            eq_refl owner.uid,
            same_reference_refl ref,
          )
          refl

    -- The prepared record passes every check of the loading.
    pub record-loads :
        (ref : OwnerReference) (d : Dict Bytes) (hash uid version : String) (time : ℕ)
        → IsInverse codecs
        → FindsController meta
        → IsVerified owner live
        → intent_owner_reference owner ≡ ok ref
        → encode_resource_intent codecs captured ≡ ok d
        → pause_record_hash codecs tools meta captured ≡ ok hash
        → load_record_from codecs tools meta owner
            (snapshot_status codecs tools meta owner live hash)
            (stored (secret_of codecs owner ref d) (tools.name_of hash) uid version time)
          ≡ ok captured
    unfolding load_record_from
    record-loads ref d hash uid version time inv finds c e encoded hashed =
        rw
          (
            e,
            sent-IsSecret ref d (tools.name_of hash) uid version time finds e,
            decode-encode codecs captured d inv encoded,
            captured-IsRecord hash c,
            captured-IsTarget hash c,
            hashed,
            eq_refl hash,
          )
          refl
