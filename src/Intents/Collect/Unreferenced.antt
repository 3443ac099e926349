-- ===== src/Intents/Collect/Unreferenced.antt =====
-- What a verdict against a record says of the references to it (internal/k8s/resource_intent_gc.go).
use opensaola.Base.{
  String, ◌==◌, Bool, true, false, Option, none, some, value_at, ◌≡◌, refl, ap, if◌then◌else◌,
  arith,
}
use opensaola.Configuration.{GetControllerOf}
use opensaola.Intents.{
  WriteError, Rendered, PauseData, ResourceIntent, Fallible, ok, err, ok-eq, bind-ok, require-ok,
  require-true, annotation_resource_intent,
}
use opensaola.Intents.Codec.{Codecs}
use opensaola.Intents.Snapshots.{
  SnapshotTools, pause_record_hash, load_reconcile_pause_snapshot, Mid,
}
use opensaola.Intents.Collect.{Verdict, keep_record, delete_now, fence_first, judge}
use opensaola.Intents.Collect.Judged.{judge-delete_now, judge-fence_first}
use opensaola.Intents.Collect.Reads.{
  Mapping, TargetRead, there, missing, unread, FoundOwner, found_middleware, found_operator,
  owner_of, read_unless_some, blocked_unless_some, or_blocked, keep_unless, is_of_target, refers,
  Reads,
}
use opensaola.Intents.Collect.Decide.{judge_read, pause_status_of, decide_target, decide_pause}

-- The verdict is not to keep.
abbrev pub deletes : {Content : Type 0} → Verdict Content → Bool
deletes keep_record = false
deletes delete_now = true
deletes (fence_first t) = true

module _ {Content Overrides Rest Bytes : Type 0}
    (codecs : Codecs (ResourceIntent Content Overrides) Bytes)
    (tools : SnapshotTools Content Overrides) (meta : GetControllerOf)
    (parse_group : String → Option String) (reads : Reads Content Overrides Rest Bytes) where
  -- Nothing that was read refers to the record of that name: the target carries another pointer or
  -- is known to be gone, or the record is of a pause and the Middleware has another one or none.
  pub data IsUnreferenced (name : String) (d : Rendered Content) (owner : FoundOwner Overrides Rest)
      : Type 0 where
    repointed :
        (target : Rendered Content)
        → reads.target d.gvk d.namespace d.name ≡ there target
        → (value_at annotation_resource_intent target.annotations == name) ≡ false
        → IsUnreferenced name d owner
    gone :
        (m : Mapping) (details : Option _)
        → reads.mapping d.gvk ≡ some m
        → reads.target d.gvk d.namespace d.name ≡ missing details
        → is_of_target details d m ≡ true
        → IsUnreferenced name d owner
    unpaused :
        (mid : Mid Overrides Rest)
        → owner ≡ found_middleware mid
        → refers mid.status.reconcile_pause name ≡ false
        → IsUnreferenced name d owner

  judge-repointed :
      (name : String) (r : ResourceIntent Content Overrides) (target : Rendered Content)
      (identity : Option WriteError) (v : Verdict Content)
      → judge name r target identity ≡ ok v
      → deletes v ≡ true
      → (value_at annotation_resource_intent target.annotations == name) ≡ false
  judge-repointed name r target identity keep_record e d = absurd (ground (arith, d))
  judge-repointed name r target identity delete_now e d =
      (judge-delete_now name r target identity e).0
  judge-repointed name r target identity (fence_first t) e d =
      (judge-fence_first name r target identity t e).0

  read-some : {A : Type 0} (o : Option A) (a : A) → read_unless_some o ≡ ok a → o ≡ some a
  read-some none a e = absurd (ground arith)
  read-some (some x) a e = ap some (ok-eq e)

  pub blocked-some : {A : Type 0} (o : Option A) (a : A) → blocked_unless_some o ≡ ok a → o ≡ some a
  blocked-some none a e = absurd (ground arith)
  blocked-some (some x) a e = ap some (ok-eq e)

  pub or_blocked-ok : {A : Type 0} (o : Fallible A) (a : A) → or_blocked o ≡ ok a → o ≡ ok a
  or_blocked-ok (ok x) a e = e
  or_blocked-ok (err x) a e = absurd (ground arith)

  pub keep_unless-deletes :
      {Content : Type 0} (b : Bool) (x : Fallible (Verdict Content)) (v : Verdict Content)
      → keep_unless b x ≡ ok v
      → deletes v ≡ true
      → (b ≡ true) × (x ≡ ok v)
  keep_unless-deletes true x v e d = (refl, e)
  keep_unless-deletes false x v e d = absurd (ground (arith, ap deletes (ok-eq e), d))

  read_target-IsUnreferenced :
      (owner : FoundOwner Overrides Rest) (name : String) (r : ResourceIntent Content Overrides)
      (d : Rendered Content) (v : Verdict Content) (m : Mapping) (t : TargetRead Content)
      → reads.mapping d.gvk ≡ some m
      → reads.target d.gvk d.namespace d.name ≡ t
      → judge_read codecs tools meta parse_group reads (owner_of owner) name r d m t ≡ ok v
      → deletes v ≡ true
      → IsUnreferenced name d owner
  read_target-IsUnreferenced owner name r d v m (there target) mapped read e del =
      repointed target read (judge-repointed name r target _ v e del)
  read_target-IsUnreferenced owner name r d v m (missing details) mapped read e del =
      gone m details mapped read (require-true _ _ _ v e)
  read_target-IsUnreferenced owner name r d v m unread mapped read e del = absurd (ground arith)

  pub decide_target-IsUnreferenced :
      (owner : FoundOwner Overrides Rest) (name : String) (r : ResourceIntent Content Overrides)
      (d : Rendered Content) (v : Verdict Content)
      → decide_target codecs tools meta parse_group reads (owner_of owner) name r d ≡ ok v
      → deletes v ≡ true
      → IsUnreferenced name d owner
  unfolding decide_target
  decide_target-IsUnreferenced owner name r d v e del =
      let mapped = bind-ok (read_unless_some (reads.mapping d.gvk)) _ v (require-ok _ _ _ v e) in
      read_target-IsUnreferenced owner name r d v mapped.0 _ (read-some _ mapped.0 mapped.1) refl
        (require-ok _ _ _ v mapped.2) del

  kept_if :
      {Content : Type 0} (b : Bool) (x : Fallible (Verdict Content)) (v : Verdict Content)
      → (if b then ok keep_record else x) ≡ ok v
      → deletes v ≡ true
      → b ≡ false
  kept_if true x v e d = absurd (ground (arith, ap deletes (ok-eq e), d))
  kept_if false x v e d = refl

  pub decide_pause-IsUnreferenced :
      (owner : FoundOwner Overrides Rest) (name : String) (r : ResourceIntent Content Overrides)
      (d : Rendered Content) (p : PauseData Overrides) (v : Verdict Content)
      → decide_pause codecs tools meta parse_group reads owner name r d p ≡ ok v
      → deletes v ≡ true
      → IsUnreferenced name d owner
  unfolding decide_pause
  decide_pause-IsUnreferenced (found_operator o) name r d p v e del = absurd (ground arith)
  decide_pause-IsUnreferenced (found_middleware mid) name r d p v e del =
      let hashed = bind-ok (pause_record_hash codecs tools meta r) _ v (require-ok _ _ _ v e) in
      let read =
        bind-ok
          (load_reconcile_pause_snapshot codecs tools meta reads.secret mid.owner
            (pause_status_of codecs tools meta parse_group reads name r d p hashed.0))
          _ v hashed.2 in
      unpaused mid refl (kept_if (refers mid.status.reconcile_pause name) _ v read.2 del)
