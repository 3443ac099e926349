-- ===== src/Intents/Snapshots.antt =====
-- internal/k8s/reconcile_pause_snapshot.go: the baseline of a paused Middleware, kept in a record.
-- The API server's answers, the hash of a record, and unstructured.NestedMap are parameters.

pub mod Prepare
pub mod Publish
pub mod Captured
pub mod Roundtrip
pub mod Exclusion
use opensaola.Base.{
  ℕ, String, ◌==◌, Bool, true, false, not, ◌&&◌, ◌||◌, List, [], ◌∷◌, Option, none, some, is_none,
  is_some, Dict, value_at, eqb, if◌then◌else◌,
}
use opensaola.Api.{annotation_resume_policy, is_reconcile_suspended}
use opensaola.Configuration.{Gvk, OwnerReference, GetControllerOf}
use opensaola.Intents.{
  WriteOwner, Rendered, PauseData, ResourceIntent, Secret, WriteError, Fallible, ok, err, ◌>>=◌,
  require, blocked, read_failed, write_failed, snapshot_invalid, conflict, not_found,
  encoding_failed, intent_record_label, intent_publication_protocol,
}
use opensaola.Intents.Answers.{
  Answer, present, absent, failed, Creation, created, exists, refused, Deletion, delete_record,
}
use opensaola.Intents.Identity.{intent_owner_reference, verify_managed_identity}
use opensaola.Intents.Codec.{Codecs, decode_resource_intent}
use opensaola.Intents.Records.{same_gvk, is_true, same_reference, build_resource_intent_secret}

-- v1.ReconcilePauseStatus, without the time of the capture
pub record PauseStatus : Type 0 where
  pub snapshot_secret : String
  pub gvk : Gvk
  pub namespace : String
  pub name : String
  pub resource_uid : String
  pub generation : ℕ
  pub hash : String
  pub adopted_live_spec_hash : String

-- The status of a Middleware: `rest` stands for its other fields.
pub record MidStatus (Rest : Type 0) : Type 0 where
  pub reconcile_pause : Option PauseStatus
  pub rest : Rest

-- A Middleware, as far as a pause reads and writes it.
pub record Mid (Overrides Rest : Type 0) : Type 0 where
  pub owner : WriteOwner
  pub annotations : Dict String
  pub overrides : Option Overrides
  pub status : MidStatus Rest

-- ReconcilePauseSnapshotData
pub record SnapshotData (Content Overrides : Type 0) : Type 0 where
  pub actual_spec : Content
  pub previous_overrides : Option Overrides

-- unstructured.NestedMap(object, "spec")
pub data SpecRead (Content : Type 0) : Type 0 where
  found : Content → SpecRead Content
  missing malformed : SpecRead Content

-- `nested_spec` reads the spec of an object, `only_spec` is an object with a spec alone, `empty` the
-- empty spec; `hash` is the SHA-256 of a record's canonical JSON, `name_of` the name made of it.
pub record SnapshotTools (Content Overrides : Type 0) : Type 0 where
  pub nested_spec : Content → SpecRead Content
  pub only_spec : Content → Content
  pub empty : Content
  pub hash : ResourceIntent Content Overrides → Option String
  pub name_of : String → String

module _ {Content Overrides Bytes : Type 0}
    (codecs : Codecs (ResourceIntent Content Overrides) Bytes)
    (tools : SnapshotTools Content Overrides) (meta : GetControllerOf) where
  -- pauseRecordHash
  unfoldable pub pause_record_hash : ResourceIntent Content Overrides → Fallible String
  pause_record_hash r = hashed (tools.hash r)
    where
      hashed : Option String → Fallible String
      hashed none = err snapshot_invalid
      hashed (some h) = ok h

  unfoldable pub is_loadable : WriteOwner → PauseStatus → Bool
  is_loadable owner p =
      not (owner.uid == "")
      && not (p.snapshot_secret == "")
      && not (p.hash == "")
      && not (p.resource_uid == "")
      && not (p.name == "")
      && not (p.gvk.version == "")
      && not (p.gvk.kind == "")

  unfoldable pub is_snapshot_secret : WriteOwner → Secret Bytes → OwnerReference → Bool
  is_snapshot_secret owner s expected =
      s.is_opaque
      && is_true s.immutable
      && not s.deleting
      && value_at intent_record_label s.labels == owner.uid
      && same_reference (meta.controller_of s.owner_references) expected

  abbrev is_at_generation : Option (PauseData Overrides) → ℕ → Bool
  is_at_generation none n = false
  is_at_generation (some p) n = eqb p.generation n

  abbrev no_paths : List String → Bool
  no_paths [] = true
  no_paths (p ∷ ps) = false

  -- A record of a pause, of this owner and this object.
  unfoldable pub is_snapshot_record :
      WriteOwner → PauseStatus → ResourceIntent Content Overrides → Bool
  is_snapshot_record owner p r =
      eqb r.version 1
      && not (is_none r.desired)
      && r.owner_uid == owner.uid
      && r.resource_uid == p.resource_uid
      && is_at_generation r.pause p.generation
      && eqb r.publication_protocol intent_publication_protocol
      && not (r.base_resource_version == "")
      && r.configuration == ""
      && r.schema_hash == ""
      && is_none r.effective
      && no_paths r.preserved

  unfoldable pub is_snapshot_target : WriteOwner → PauseStatus → Option (Rendered Content) → Bool
  is_snapshot_target owner p none = false
  is_snapshot_target owner p (some d) =
      same_gvk d.gvk p.gvk
      && d.namespace == p.namespace
      && d.name == p.name
      && p.namespace == owner.namespace
      && p.name == owner.name

  abbrev pub or_invalid : {A : Type 0} → Fallible A → Fallible A
  or_invalid (ok a) = ok a
  or_invalid (err e) = err snapshot_invalid

  unfoldable pub load_record_from :
      WriteOwner → PauseStatus → Secret Bytes → Fallible (ResourceIntent Content Overrides)
  load_record_from owner p s = intent_owner_reference owner >>= λ expected.
      require (is_snapshot_secret owner s expected) snapshot_invalid (
        or_invalid (decode_resource_intent codecs s.data_) >>= λ r.
        require (is_snapshot_record owner p r) snapshot_invalid (
          require (is_snapshot_target owner p r.desired) snapshot_invalid (
            or_invalid (pause_record_hash r) >>= λ h.
            require (h == p.hash) snapshot_invalid (ok r))))

  abbrev pub load_record_read :
      WriteOwner
      → PauseStatus
      → Answer (Secret Bytes)
      → Fallible (ResourceIntent Content Overrides × Secret Bytes)
  load_record_read owner p absent = err not_found
  load_record_read owner p failed = err read_failed
  load_record_read owner p (present s) = load_record_from owner p s >>= λ r. ok (r, s)

  module _ (get : String → String → Answer (Secret Bytes)) where
    -- loadReconcilePauseSnapshot; an absent Secret gives an error that is both
    -- ErrReconcilePauseSnapshotInvalid and a NotFound error, here `not_found`.
    unfoldable pub load_snapshot_record :
        WriteOwner → PauseStatus → Fallible (ResourceIntent Content Overrides × Secret Bytes)
    load_snapshot_record owner p =
        require (is_loadable owner p) snapshot_invalid
          (load_record_read owner p (get owner.namespace p.snapshot_secret))

    abbrev spec_of : Option (Rendered Content) → Fallible Content
    spec_of none = err snapshot_invalid
    spec_of (some d) = found_spec (tools.nested_spec d.content)
      where
        found_spec : SpecRead Content → Fallible Content
        found_spec (found spec) = ok spec
        found_spec missing = err snapshot_invalid
        found_spec malformed = err snapshot_invalid

    abbrev overrides_of : Option (PauseData Overrides) → Option Overrides
    overrides_of none = none
    overrides_of (some p) = p.previous_overrides

    unfoldable pub load_reconcile_pause_snapshot :
        WriteOwner → PauseStatus → Fallible (SnapshotData Content Overrides)
    load_reconcile_pause_snapshot owner p = load_snapshot_record owner p >>= λ (r, s).
        spec_of r.desired >>= λ spec.
        ok (record { actual_spec = spec; previous_overrides = overrides_of r.pause })
