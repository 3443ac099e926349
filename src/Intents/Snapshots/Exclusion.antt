-- ===== src/Intents/Snapshots/Exclusion.antt =====
-- What is published is not cleaned up (internal/k8s/reconcile_pause_snapshot.go).
use opensaola.Base.{
  String, ◌==◌, eq_iff, true, false, none, some, ◌≡◌, refl, inl, inr, Bool-cases, arith,
}
use opensaola.Configuration.{GetControllerOf}
use opensaola.Intents.{
  WriteOwner, ResourceIntent, Secret, Fallible, ok, bind-ok, require-ok, require-true,
}
use opensaola.Intents.Answers.{Answer, present, Deletion}
use opensaola.Intents.Codec.{Codecs}
use opensaola.Intents.Snapshots.{PauseStatus, MidStatus, Mid, SnapshotTools, load_snapshot_record}
use opensaola.Intents.Snapshots.Publish.{
  may_publish, must_keep, publish_reconcile_pause_snapshot, cleanup_reconcile_pause_snapshot,
}

module _ {Content Overrides Bytes : Type 0}
    (codecs : Codecs (ResourceIntent Content Overrides) Bytes)
    (tools : SnapshotTools Content Overrides) (meta : GetControllerOf) {Rest : Type 0}
    (get : String → String → Answer (Secret Bytes)) where
  publishable-kept :
      (owner : WriteOwner) (r : ResourceIntent Content Overrides) (s : Secret Bytes)
      (now : Mid Overrides Rest)
      → may_publish codecs tools meta get owner r now ≡ true
      → must_keep codecs tools meta get owner r s now ≡ true
  unfolding may_publish must_keep
  publishable-kept owner r s now e =
      ground (arith, e, eq_iff now.owner.resource_version r.base_resource_version)

  publishable-none :
      (owner : WriteOwner) (r : ResourceIntent Content Overrides) (now : Mid Overrides Rest)
      → may_publish codecs tools meta get owner r now ≡ true
      → now.status.reconcile_pause ≡ none
  unfolding may_publish
  publishable-none owner r now e = ground (arith, e)

  -- Where a snapshot is published, the Middleware had none, what is written is the Middleware
  -- with the status that the caller makes of its own with this one, and a cleanup of this
  -- snapshot that reads the Middleware as the publication did deletes nothing.
  pub publish-cleanup :
      (now : Mid Overrides Rest) (owner : WriteOwner) (p : PauseStatus)
      (update : Mid Overrides Rest → Fallible (Mid Overrides Rest))
      (delete : Secret Bytes → Deletion) (mutate : MidStatus Rest → MidStatus Rest)
      (after : Mid Overrides Rest)
      → publish_reconcile_pause_snapshot codecs tools meta get (present now) update owner p mutate
        ≡ ok after
      → (now.status.reconcile_pause ≡ none)
        × (update (record now { status = mutate (record now.status { reconcile_pause = some p }) })
            ≡ ok after)
        × (cleanup_reconcile_pause_snapshot codecs tools meta get
              (present now)
              delete
              owner
              (some p)
            ≡ ok false)
  unfolding publish_reconcile_pause_snapshot cleanup_reconcile_pause_snapshot
  publish-cleanup now owner p update delete mutate after e =
      let read = bind-ok (load_snapshot_record codecs tools meta get owner p) _ after e in
      let may =
        require-true (may_publish codecs tools meta get owner read.0.0 now) _ _ after read.2 in
      let sent =
        require-ok (may_publish codecs tools meta get owner read.0.0 now) _ _ after read.2 in
      (
        publishable-none owner read.0.0 now may,
        sent,
        elim (Bool-cases (p.snapshot_secret == "")) [
          | inl h ↦ rw h refl
          | inr h ↦ rw (h, read.1, publishable-kept owner read.0.0 read.0.1 now may) refl
        ],
      )
