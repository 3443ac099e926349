-- ===== src/Intents/Collect/Decide.antt =====
-- `collect` of internal/k8s/resource_intent_gc.go: what it decides from what it reads, and the call
-- that carries the decision out. The API server's answers are parameters, and so is the REST mapping.
use opensaola.Base.{ℕ, String, ◌==◌, Bool, false, not, ◌&&◌, Option, none, some, eqb, if◌then◌else◌}
use opensaola.Configuration.{Gvk, OwnerReference, GetControllerOf}
use opensaola.Intents.{
  WriteOwner, Rendered, PauseData, ResourceIntent, Secret, Fallible, ok, err, ◌>>=◌, require,
  blocked, read_failed, snapshot_invalid, intent_publication_protocol,
}
use opensaola.Intents.Answers.{Answer, present, absent, failed, Deletion, delete_record}
use opensaola.Intents.Identity.{verify_intent_identity}
use opensaola.Intents.Codec.{Codecs, decode_resource_intent}
use opensaola.Intents.Snapshots.{
  PauseStatus, SnapshotTools, pause_record_hash, load_reconcile_pause_snapshot,
}
use opensaola.Intents.Collect.{
  Verdict, keep_record, delete_now, fence_first, judge, FencePatch, DeepEqual, fence_publication,
}
use opensaola.Intents.Collect.Reads.{
  Mapping, TargetRead, FoundOwner, owner_of, Reads, is_due, is_collectable_secret,
  is_collectable_record, is_owned_record, kind_of, blocked_unless_some, or_blocked,
  read_unless_some, keep_unless, is_of_target, refers, there, missing, unread, found_middleware,
  found_operator,
}

module _ {Content Overrides Rest Bytes : Type 0}
    (codecs : Codecs (ResourceIntent Content Overrides) Bytes)
    (tools : SnapshotTools Content Overrides) (meta : GetControllerOf)
    (parse_group : String → Option String) (reads : Reads Content Overrides Rest Bytes) where
  abbrev pub judge_read :
      WriteOwner
      → String
      → ResourceIntent Content Overrides
      → Rendered Content
      → Mapping
      → TargetRead Content
      → Fallible (Verdict Content)
  judge_read owner name r d m unread = err read_failed
  judge_read owner name r d m (missing details) =
      require (is_of_target details d m) read_failed (ok delete_now)
  judge_read owner name r d m (there target) =
      judge name r target (verify_intent_identity parse_group meta owner target r.configuration)

  abbrev same_scope : Mapping → Rendered Content → Bool
  same_scope m d = if m.namespaced then not (d.namespace == "") else d.namespace == ""

  unfoldable pub decide_target :
      WriteOwner
      → String
      → ResourceIntent Content Overrides
      → Rendered Content
      → Fallible (Verdict Content)
  decide_target owner name r d =
      require (not (d.gvk.version == "") && not (d.gvk.kind == "") && not (d.name == "")) blocked (
        read_unless_some (reads.mapping d.gvk) >>= λ m.
        require (same_scope m d) blocked
          (judge_read owner name r d m (reads.target d.gvk d.namespace d.name)))

  abbrev middleware_gvk : Gvk
  middleware_gvk = record { group = "middleware.cn"; version = "v1"; kind = "Middleware" }

  abbrev pub pause_status_of :
      String
      → ResourceIntent Content Overrides
      → Rendered Content
      → PauseData Overrides
      → String
      → PauseStatus
  pause_status_of name r d p hash = record {
    snapshot_secret = name;
    gvk = d.gvk;
    namespace = d.namespace;
    name = d.name;
    resource_uid = r.resource_uid;
    generation = p.generation;
    hash = hash;
    adopted_live_spec_hash = "";
  }

  -- The object is read again before its version is fenced.
  abbrev fence_mid : WriteOwner → TargetRead Content → Fallible (Verdict Content)
  fence_mid owner unread = err read_failed
  fence_mid owner (missing e) = err read_failed
  fence_mid owner (there target) =
      require (target.uid == owner.uid && target.resource_version == owner.resource_version)
        snapshot_invalid (ok (fence_first target))

  -- collectPauseSnapshot
  unfoldable pub decide_pause :
      FoundOwner Overrides Rest
      → String
      → ResourceIntent Content Overrides
      → Rendered Content
      → PauseData Overrides
      → Fallible (Verdict Content)
  decide_pause (found_operator owner) name r d p = err snapshot_invalid
  decide_pause (found_middleware mid) name r d p =
      require (not (mid.owner.resource_version == "")) snapshot_invalid (
        pause_record_hash codecs tools meta r >>= λ hash.
        load_reconcile_pause_snapshot codecs tools meta reads.secret mid.owner
          (pause_status_of name r d p hash)
        >>= λ snapshot.
            if refers mid.status.reconcile_pause name
            then ok keep_record
            else if mid.owner.resource_version == r.base_resource_version
            then fence_mid mid.owner
                (reads.target middleware_gvk mid.owner.namespace mid.owner.name)
            else ok delete_now)

  abbrev pub decide_desired :
      FoundOwner Overrides Rest
      → String
      → ResourceIntent Content Overrides
      → Rendered Content
      → Option (PauseData Overrides)
      → Fallible (Verdict Content)
  decide_desired owner name r d (some p) = decide_pause owner name r d p
  decide_desired owner name r d none = decide_target (owner_of owner) name r d

  -- From the owner's read on.
  abbrev pub decide_owned :
      Secret Bytes
      → ResourceIntent Content Overrides
      → OwnerReference
      → Rendered Content
      → Answer (FoundOwner Overrides Rest)
      → Fallible (Verdict Content)
  decide_owned s r ref d absent = ok keep_record
  decide_owned s r ref d failed = err read_failed
  decide_owned s r ref d (present owner) =
      keep_unless ((owner_of owner).uid == ref.uid && not (owner_of owner).deleting) (
        keep_unless
          (eqb r.publication_protocol intent_publication_protocol
            && not (r.base_resource_version == ""))
          (decide_desired owner s.name r d r.pause))

  unfoldable pub decide : ℕ → ℕ → Secret Bytes → Fallible (Verdict Content)
  decide min_age now s = keep_unless (is_due min_age now s) (
      require (is_collectable_secret s) blocked (
        or_blocked (decode_resource_intent codecs s.data_) >>= λ r.
        require (is_collectable_record r) blocked (
          blocked_unless_some r.desired >>= λ d.
          blocked_unless_some (meta.controller_of s.owner_references) >>= λ ref.
          require (is_owned_record s r ref) blocked (
            kind_of ref.kind >>= λ kind.
            decide_owned s r ref d (reads.owner kind s.namespace ref.name)))))

  module _ (deep_equal : DeepEqual Content) (base64 : String → String)
      (patch : Bool → FencePatch → Rendered Content → Option (Rendered Content))
      (delete : Secret Bytes → Deletion) where
    abbrev pub carry_out : Secret Bytes → Verdict Content → Fallible Bool
    carry_out s keep_record = ok false
    carry_out s delete_now = delete_record delete s
    carry_out s (fence_first target) =
        fence_publication deep_equal base64 patch target s >>= λ fenced. delete_record delete s

    unfoldable pub collect : ℕ → ℕ → Secret Bytes → Fallible Bool
    collect min_age now s = decide min_age now s >>= λ v. carry_out s v
