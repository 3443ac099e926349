-- ===== src/Intents/Snapshots/Prepare.antt =====
-- PrepareReconcilePauseSnapshot (internal/k8s/reconcile_pause_snapshot.go): the capture of the
-- observed spec before the reference to it is published.
use opensaola.Base.{String, ◌==◌, false, not, ◌&&◌, [], Option, none, some}
use opensaola.Configuration.{GetControllerOf}
use opensaola.Intents.{
  WriteOwner, Rendered, ResourceIntent, Secret, WriteError, Fallible, ok, err, ◌>>=◌, require,
  write_failed, snapshot_invalid, intent_publication_protocol,
}
use opensaola.Intents.Answers.{Answer, Creation, created, exists, refused}
use opensaola.Intents.Identity.{verify_managed_identity}
use opensaola.Intents.Codec.{Codecs}
use opensaola.Intents.Records.{build_resource_intent_secret}
use opensaola.Intents.Snapshots.{
  PauseStatus, SpecRead, found, missing, malformed, SnapshotTools, pause_record_hash,
  load_snapshot_record,
}

abbrev pub unless : {A : Type 0} → Option WriteError → Fallible A → Fallible A
unless none r = r
unless (some e) r = err e

module _ {Content Overrides Bytes : Type 0}
    (codecs : Codecs (ResourceIntent Content Overrides) Bytes)
    (tools : SnapshotTools Content Overrides) (meta : GetControllerOf) where
  -- PrepareReconcilePauseSnapshot, from what it reads of the object to the record it sends
  abbrev actual_object : Rendered Content → Content → Rendered Content
  actual_object live spec = record {
    gvk = live.gvk;
    namespace = live.namespace;
    name = live.name;
    uid = "";
    resource_version = "";
    generation = 0;
    deleting = false;
    finalizers = [];
    labels = [];
    annotations = [];
    owner_references = [];
    system = none;
    lifecycle = none;
    status = none;
    string_data = none;
    data_ = none;
    content = tools.only_spec spec;
  }

  abbrev pub snapshot_record :
      WriteOwner → Option Overrides → Rendered Content → Content → ResourceIntent Content Overrides
  snapshot_record owner overrides live spec = record {
    version = 1;
    publication_protocol = intent_publication_protocol;
    base_resource_version = owner.resource_version;
    owner_uid = owner.uid;
    resource_uid = live.uid;
    configuration = "";
    schema_hash = "";
    desired = some (actual_object live spec);
    effective = none;
    preserved = [];
    pause = some (record { generation = owner.generation; previous_overrides = overrides });
  }

  abbrev pub snapshot_status : WriteOwner → Rendered Content → String → PauseStatus
  snapshot_status owner live hash = record {
    snapshot_secret = tools.name_of hash;
    gvk = live.gvk;
    namespace = live.namespace;
    name = live.name;
    resource_uid = live.uid;
    generation = owner.generation;
    hash = hash;
    adopted_live_spec_hash = "";
  }

  -- A missing spec is an empty one.
  abbrev pub spec_or_empty : SpecRead Content → Fallible Content
  spec_or_empty (found spec) = ok spec
  spec_or_empty missing = ok tools.empty
  spec_or_empty malformed = err snapshot_invalid

  module _ (parse_group : String → Option String) where
    unfoldable pub can_capture : WriteOwner → Rendered Content → Fallible Content
    can_capture owner live =
        require (not (owner.uid == "") && not (owner.resource_version == "")) snapshot_invalid (
          unless (verify_managed_identity parse_group meta owner live) (
            require (live.name == owner.name && live.namespace == owner.namespace) snapshot_invalid
              (require (not (live.gvk.version == "") && not (live.gvk.kind == "")) snapshot_invalid
                (spec_or_empty (tools.nested_spec live.content)))))

    -- Where the Secret exists, it is reused once it loads.
    abbrev pub created_or_reused :
        (String → String → Answer (Secret Bytes))
        → WriteOwner
        → PauseStatus
        → Creation (Secret Bytes)
        → Fallible PauseStatus
    created_or_reused get owner p (created s) = ok p
    created_or_reused get owner p exists =
        load_snapshot_record codecs tools meta get owner p >>= λ r. ok p
    created_or_reused get owner p refused = err write_failed

    unfoldable pub prepare_reconcile_pause_snapshot :
        (String → String → Answer (Secret Bytes))
        → (Secret Bytes → Creation (Secret Bytes))
        → WriteOwner
        → Option Overrides
        → Rendered Content
        → Fallible PauseStatus
    prepare_reconcile_pause_snapshot get create owner overrides live =
        can_capture owner live >>= λ spec.
        pause_record_hash codecs tools meta (snapshot_record owner overrides live spec) >>= λ hash.
        build_resource_intent_secret codecs owner (snapshot_record owner overrides live spec)
        >>= λ s.
            created_or_reused get owner (snapshot_status owner live hash)
              (create (record s { name = tools.name_of hash }))
