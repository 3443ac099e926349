-- ===== src/Intents/Snapshots/Publish.antt =====
-- PublishReconcilePauseSnapshot and CleanupReconcilePauseSnapshot
-- (internal/k8s/reconcile_pause_snapshot.go).
use opensaola.Base.{
  String, ◌==◌, Bool, false, not, ◌&&◌, ◌||◌, Option, none, some, is_none, value_at, if◌then◌else◌,
}
use opensaola.Api.{annotation_resume_policy, is_reconcile_suspended}
use opensaola.Configuration.{GetControllerOf}
use opensaola.Intents.{
  WriteOwner, ResourceIntent, Secret, Fallible, ok, err, ◌>>=◌, require, read_failed, conflict,
  not_found,
}
use opensaola.Intents.Answers.{Answer, present, absent, failed, Deletion, delete_record}
use opensaola.Intents.Codec.{Codecs}
use opensaola.Intents.Snapshots.{PauseStatus, MidStatus, Mid, SnapshotTools, load_snapshot_record}

abbrev refers_to : Option PauseStatus → String → Bool
refers_to none name = false
refers_to (some p) name = p.snapshot_secret == name

module _ {Content Overrides Bytes : Type 0}
    (codecs : Codecs (ResourceIntent Content Overrides) Bytes)
    (tools : SnapshotTools Content Overrides) (meta : GetControllerOf) where
  module _ {Rest : Type 0} (get : String → String → Answer (Secret Bytes)) where
    abbrev read_mid : Answer (Mid Overrides Rest) → Fallible (Mid Overrides Rest)
    read_mid (present m) = ok m
    read_mid absent = err not_found
    read_mid failed = err read_failed

    -- The Middleware is as it was when the record was prepared, suspended and without a policy.
    unfoldable pub may_publish :
        WriteOwner → ResourceIntent Content Overrides → Mid Overrides Rest → Bool
    may_publish owner r now =
        now.owner.uid == owner.uid
        && not now.owner.deleting
        && is_none now.status.reconcile_pause
        && now.owner.resource_version == r.base_resource_version
        && owner.resource_version == r.base_resource_version
        && is_reconcile_suspended now.annotations
        && value_at annotation_resume_policy now.annotations == ""

    abbrev with_snapshot :
        (MidStatus Rest → MidStatus Rest) → PauseStatus → Mid Overrides Rest → Mid Overrides Rest
    with_snapshot mutate p now = record now {
      status = mutate (record now.status { reconcile_pause = some p });
    }

    -- `update` is the write of the status, `now` what the Reader gives.
    unfoldable pub publish_reconcile_pause_snapshot :
        Answer (Mid Overrides Rest)
        → (Mid Overrides Rest → Fallible (Mid Overrides Rest))
        → WriteOwner
        → PauseStatus
        → (MidStatus Rest → MidStatus Rest)
        → Fallible (Mid Overrides Rest)
    publish_reconcile_pause_snapshot now update owner p mutate =
        load_snapshot_record codecs tools meta get owner p >>= λ (r, s). read_mid now >>= λ m.
        require (may_publish owner r m) conflict (update (with_snapshot mutate p m))

    -- Kept: what is still referred to, and what may still be published.
    unfoldable pub must_keep :
        WriteOwner → ResourceIntent Content Overrides → Secret Bytes → Mid Overrides Rest → Bool
    must_keep owner r s now =
        not (now.owner.uid == owner.uid)
        || now.owner.deleting
        || now.owner.resource_version == r.base_resource_version
        || refers_to now.status.reconcile_pause s.name

    -- Whether a Secret was deleted; an absent one is no error.
    unfoldable pub cleanup_reconcile_pause_snapshot :
        Answer (Mid Overrides Rest)
        → (Secret Bytes → Deletion)
        → WriteOwner
        → Option PauseStatus
        → Fallible Bool
    cleanup_reconcile_pause_snapshot now delete owner none = ok false
    cleanup_reconcile_pause_snapshot now delete owner (some p) =
        if p.snapshot_secret == ""
        then ok false
        else cleaned (load_snapshot_record codecs tools meta get owner p)
      where
        cleaned : Fallible (ResourceIntent Content Overrides × Secret Bytes) → Fallible Bool
        cleaned (err not_found) = ok false
        cleaned (err e) = err e
        cleaned (ok (r, s)) =
            read_mid now >>= λ m. if must_keep owner r s m then ok false else delete_record delete s
