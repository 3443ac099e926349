-- ===== src/Intents/Snapshots/Roundtrip.antt =====
-- A prepared snapshot is what is loaded (internal/k8s/reconcile_pause_snapshot.go).
use opensaola.Base.{
  ℕ, String, ◌==◌, Bool, true, false, Option, some, ◌≡◌, refl, sym, ap, ◌∙◌, subst, arith,
}
use opensaola.Configuration.{GetControllerOf}
use opensaola.Intents.{
  snapshot_invalid, WriteError, WriteOwner, Rendered, ResourceIntent, Secret, Fallible, ok, err,
  ok-eq, ◌>>=◌, require, bind-ok, require-ok, require-true,
}
use opensaola.Intents.Answers.{Answer, present, absent, failed, Creation, created, exists, refused}
use opensaola.Intents.Identity.{intent_owner_reference}
use opensaola.Intents.Codec.{Codecs, IsInverse, decode_resource_intent}
use opensaola.Intents.Records.{build_resource_intent_secret}
use opensaola.Intents.Records.Loading.{FindsController, stored, build-ok}
use opensaola.Intents.Snapshots.{
  or_invalid, load_record_read, PauseStatus, SnapshotTools, pause_record_hash, is_loadable,
  is_snapshot_record, is_snapshot_target, load_record_from, load_snapshot_record,
  load_reconcile_pause_snapshot,
}
use opensaola.Intents.Snapshots.Prepare.{
  snapshot_status, spec_or_empty, can_capture, created_or_reused, prepare_reconcile_pause_snapshot,
}
use opensaola.Intents.Snapshots.Captured.{
  IsVerified, capture-IsVerified, capture-spec, hash-some, captured, record-loads, IsFaithful,
  same_text,
}

module _ {Content Overrides Bytes : Type 0}
    (codecs : Codecs (ResourceIntent Content Overrides) Bytes)
    (tools : SnapshotTools Content Overrides) (meta : GetControllerOf)
    (parse_group : String → Option String) where
  or_invalid-ok :
      {A : Type 0} (o : Fallible A) (a : A) → or_invalid codecs tools meta o ≡ ok a → o ≡ ok a
  or_invalid-ok (ok x) a e = e
  or_invalid-ok (err x) a e = absurd (ground arith)

  -- The last three checks of the loading.
  checked-hash :
      (q r : ResourceIntent Content Overrides) (o : Fallible String) (hash : String) (b c : Bool)
      (x y z : WriteError)
      → require b x
          (require c y (or_invalid codecs tools meta o >>= λ h. require (h == hash) z (ok q)))
        ≡ ok r
      → (o ≡ ok hash) × (q ≡ r)
  checked-hash q r (ok h) hash true true x y z e = (
    ap ok (same_text h hash (require-true (h == hash) z (ok q) r e)),
    ok-eq (require-ok (h == hash) z (ok q) r e),
  )
  checked-hash q r (err w) hash true true x y z e = absurd (ground arith)
  checked-hash q r o hash true false x y z e = absurd (ground arith)
  checked-hash q r o hash false c x y z e = absurd (ground arith)

  -- What loads was decoded, and has the hash that was asked for.
  loaded-hash :
      (owner : WriteOwner) (p : PauseStatus) (s : Secret Bytes)
      (r : ResourceIntent Content Overrides)
      → load_record_from codecs tools meta owner p s ≡ ok r
      → (decode_resource_intent codecs s.data_ ≡ ok r)
        × (pause_record_hash codecs tools meta r ≡ ok p.hash)
  unfolding load_record_from
  loaded-hash owner p s r e =
      let ref = bind-ok (intent_owner_reference owner) _ r e in
      let read =
        bind-ok (or_invalid codecs tools meta (decode_resource_intent codecs s.data_)) _ r
          (require-ok _ _ _ r ref.2) in
      let hashed =
        checked-hash read.0 r (pause_record_hash codecs tools meta read.0) p.hash
          (is_snapshot_record codecs tools meta owner p read.0)
          (is_snapshot_target codecs tools meta owner p read.0.desired) snapshot_invalid
          snapshot_invalid snapshot_invalid read.2 in
      (
        or_invalid-ok _ read.0 read.1 ∙ ap ok hashed.1,
        subst (λ x. pause_record_hash codecs tools meta x ≡ ok p.hash) hashed.1 hashed.0,
      )

  module _ (get : String → String → Answer (Secret Bytes)) where
    loaded_record-stored :
        (owner : WriteOwner) (p : PauseStatus) (r : ResourceIntent Content Overrides)
        (s : Secret Bytes)
        → load_snapshot_record codecs tools meta get owner p ≡ ok (r, s)
        → (get owner.namespace p.snapshot_secret ≡ present s)
          × (load_record_from codecs tools meta owner p s ≡ ok r)
    unfolding load_snapshot_record
    loaded_record-stored owner p r s e =
        read_stored (get owner.namespace p.snapshot_secret) refl (require-ok _ _ _ (r, s) e)
      where
        read_stored :
            (a : Answer (Secret Bytes))
            → get owner.namespace p.snapshot_secret ≡ a
            → load_record_read codecs tools meta owner p a ≡ ok (r, s)
            → (get owner.namespace p.snapshot_secret ≡ present s)
              × (load_record_from codecs tools meta owner p s ≡ ok r)
        read_stored absent g x = absurd (ground arith)
        read_stored failed g x = absurd (ground arith)
        read_stored (present t) g x =
            let from = bind-ok (load_record_from codecs tools meta owner p t) _ (r, s) x in
            let same = ap (λ y. y.1) (ok-eq from.2) in
            (
              g ∙ ap present same,
              subst (λ y. load_record_from codecs tools meta owner p y ≡ ok r) same
                  (from.1 ∙ ap ok (ap (λ y. y.0) (ok-eq from.2))),
            )

    -- No other record of the store has the hash of this one.
    abbrev pub NoCollision : ResourceIntent Content Overrides → Type 0
    NoCollision c =
        (namespace name hash : String) (t : Secret Bytes) (r : ResourceIntent Content Overrides)
        → get namespace name ≡ present t
        → decode_resource_intent codecs t.data_ ≡ ok r
        → tools.hash r ≡ some hash
        → tools.hash c ≡ some hash
        → r ≡ c

    loads-data :
        (owner : WriteOwner) (overrides : Option Overrides) (live : Rendered Content)
        (spec : Content) (p : PauseStatus) (r : ResourceIntent Content Overrides) (s : Secret Bytes)
        → IsFaithful tools
        → load_snapshot_record codecs tools meta get owner p ≡ ok (r, s)
        → r ≡ captured codecs tools meta parse_group owner overrides live spec
        → load_reconcile_pause_snapshot codecs tools meta get owner p
          ≡ ok (record { actual_spec = spec; previous_overrides = overrides })
    unfolding load_reconcile_pause_snapshot
    loads-data owner overrides live spec p r s faithful e same =
        rw (e, same, faithful.spec spec) refl

    -- The API server keeps the Secret of this record as it is sent, under its name.
    pub record IsStore (create : Secret Bytes → Creation (Secret Bytes)) (owner : WriteOwner)
        (r : ResourceIntent Content Overrides) : Type 0 where
      pub uid : String
      pub version : String
      pub time : ℕ
      pub keeps :
          (s t : Secret Bytes) (hash : String)
          → build_resource_intent_secret codecs owner r ≡ ok s
          → pause_record_hash codecs tools meta r ≡ ok hash
          → create (record s { name = tools.name_of hash }) ≡ created t
          → get owner.namespace (tools.name_of hash)
            ≡ present (stored s (tools.name_of hash) uid version time)

    created-loads :
        (owner : WriteOwner) (overrides : Option Overrides) (live : Rendered Content)
        (spec : Content) (create : Secret Bytes → Creation (Secret Bytes)) (hash : String)
        (s t : Secret Bytes)
        (store : IsStore create owner
          (captured codecs tools meta parse_group owner overrides live spec))
        → IsInverse codecs
        → FindsController meta
        → IsFaithful tools
        → IsVerified codecs tools meta parse_group owner live
        → (live.name == "") ≡ false
        → pause_record_hash codecs tools meta
            (captured codecs tools meta parse_group owner overrides live spec)
          ≡ ok hash
        → build_resource_intent_secret codecs owner
            (captured codecs tools meta parse_group owner overrides live spec)
          ≡ ok s
        → create (record s { name = tools.name_of hash }) ≡ created t
        → load_snapshot_record codecs tools meta get owner
            (snapshot_status codecs tools meta owner live hash)
          ≡ ok (
            captured codecs tools meta parse_group owner overrides live spec,
            stored s (tools.name_of hash) store.uid store.version store.time,
          )
    unfolding load_snapshot_record is_loadable
    created-loads owner overrides live spec create hash s t store inv finds faithful c named hashed
          built sent =
        let kept = store.keeps s t hash built hashed sent in
        let b =
          build-ok codecs (λ x. x) (λ x y. true) meta owner
            (captured codecs tools meta parse_group owner overrides live spec) s built in
        let from =
          subst
            (λ x.
              load_record_from codecs tools meta owner
                (snapshot_status codecs tools meta owner live hash)
                (stored x (tools.name_of hash) store.uid store.version store.time)
              ≡ ok (captured codecs tools meta parse_group owner overrides live spec))
            (sym b.4)
            (record-loads codecs tools meta parse_group owner overrides live spec b.1 b.0 hash
              store.uid store.version store.time inv finds c b.3 b.2 hashed) in
        rw
          (
            c.owner_uid,
            faithful.named hash,
            faithful.hashed _ hash (hash-some codecs tools meta parse_group _ hash hashed),
            c.live_uid,
            named,
            c.api,
            c.kind,
            kept,
            from,
          )
          refl

    prepared-loads :
        (owner : WriteOwner) (overrides : Option Overrides) (live : Rendered Content)
        (spec : Content) (create : Secret Bytes → Creation (Secret Bytes)) (hash : String)
        (s : Secret Bytes) (p : PauseStatus) (a : Creation (Secret Bytes))
        → IsStore create owner (captured codecs tools meta parse_group owner overrides live spec)
        → IsInverse codecs
        → FindsController meta
        → IsFaithful tools
        → NoCollision (captured codecs tools meta parse_group owner overrides live spec)
        → IsVerified codecs tools meta parse_group owner live
        → (live.name == "") ≡ false
        → pause_record_hash codecs tools meta
            (captured codecs tools meta parse_group owner overrides live spec)
          ≡ ok hash
        → build_resource_intent_secret codecs owner
            (captured codecs tools meta parse_group owner overrides live spec)
          ≡ ok s
        → create (record s { name = tools.name_of hash }) ≡ a
        → created_or_reused codecs tools meta parse_group get owner
            (snapshot_status codecs tools meta owner live hash)
            a
          ≡ ok p
        → load_reconcile_pause_snapshot codecs tools meta get owner p
          ≡ ok (record { actual_spec = spec; previous_overrides = overrides })
    prepared-loads owner overrides live spec create hash s p (created t) store inv finds faithful
          unique c named hashed built sent e =
        subst
          (λ q.
            load_reconcile_pause_snapshot codecs tools meta get owner q
            ≡ ok (record { actual_spec = spec; previous_overrides = overrides }))
          (ok-eq e)
          (loads-data owner overrides live spec _ _ _ faithful
            (created-loads owner overrides live spec create hash s t store inv finds faithful c
              named hashed built sent)
            refl)
    prepared-loads owner overrides live spec create hash s p exists store inv finds faithful unique
          c named hashed built sent e =
        let reused =
          bind-ok
            (load_snapshot_record codecs tools meta get owner
              (snapshot_status codecs tools meta owner live hash))
            _ p e in
        let at =
          loaded_record-stored owner (snapshot_status codecs tools meta owner live hash) reused.0.0
            reused.0.1 reused.1 in
        let from =
          loaded-hash owner (snapshot_status codecs tools meta owner live hash) reused.0.1
            reused.0.0 at.1 in
        subst
          (λ q.
            load_reconcile_pause_snapshot codecs tools meta get owner q
            ≡ ok (record { actual_spec = spec; previous_overrides = overrides }))
          (ok-eq reused.2)
          (loads-data owner overrides live spec _ reused.0.0 reused.0.1 faithful reused.1 (
            unique owner.namespace (tools.name_of hash) hash reused.0.1 reused.0.0 at.0 from.0
              (hash-some codecs tools meta parse_group _ hash from.1)
              (hash-some codecs tools meta parse_group _ hash hashed)))
    prepared-loads owner overrides live spec create hash s p refused store inv finds faithful unique
          c named hashed built sent e =
        absurd (ground arith)

    -- A snapshot that was prepared, in a Secret that is created or in one that exists already,
    -- loads as the spec of the object, or the empty one where it has none, and the overrides:
    -- where the store keeps what is created and holds no other record of the same hash, the codec
    -- and the hash are faithful, and the object has a name.
    pub load-prepare_pause_snapshot :
        (owner : WriteOwner) (overrides : Option Overrides) (live : Rendered Content)
        (spec : Content) (create : Secret Bytes → Creation (Secret Bytes)) (p : PauseStatus)
        → IsStore create owner (captured codecs tools meta parse_group owner overrides live spec)
        → IsInverse codecs
        → FindsController meta
        → IsFaithful tools
        → NoCollision (captured codecs tools meta parse_group owner overrides live spec)
        → (live.name == "") ≡ false
        → spec_or_empty codecs tools meta (tools.nested_spec live.content) ≡ ok spec
        → prepare_reconcile_pause_snapshot codecs tools meta parse_group get create owner overrides
            live
          ≡ ok p
        → load_reconcile_pause_snapshot codecs tools meta get owner p
          ≡ ok (record { actual_spec = spec; previous_overrides = overrides })
    unfolding prepare_reconcile_pause_snapshot
    load-prepare_pause_snapshot owner overrides live spec create p store inv finds faithful unique
          named is_spec e =
        let read = bind-ok (can_capture codecs tools meta parse_group owner live) _ p e in
        prepared_with read.0 read.1
          (ok-eq
            (sym is_spec ∙ capture-spec codecs tools meta parse_group owner live read.0 read.1))
          read.2
      where
        prepared_with :
            (found_ : Content)
            → can_capture codecs tools meta parse_group owner live ≡ ok found_
            → spec ≡ found_
            → (pause_record_hash codecs tools meta
                  (captured codecs tools meta parse_group owner overrides live found_)
                >>= λ hash.
                    build_resource_intent_secret codecs owner
                      (captured codecs tools meta parse_group owner overrides live found_)
                    >>= λ s.
                        created_or_reused codecs tools meta parse_group get owner
                          (snapshot_status codecs tools meta owner live hash)
                          (create (record s { name = tools.name_of hash })))
              ≡ ok p
            → load_reconcile_pause_snapshot codecs tools meta get owner p
              ≡ ok (record { actual_spec = spec; previous_overrides = overrides })
        prepared_with found_ can same rest =
            let hashed =
              bind-ok
                (pause_record_hash codecs tools meta
                  (captured codecs tools meta parse_group owner overrides live found_))
                _ p rest in
            let built =
              bind-ok
                (build_resource_intent_secret codecs owner
                  (captured codecs tools meta parse_group owner overrides live found_))
                _ p hashed.2 in
            subst
              (λ x.
                load_reconcile_pause_snapshot codecs tools meta get owner p
                ≡ ok (record { actual_spec = x; previous_overrides = overrides }))
              (sym same)
              (prepared-loads owner overrides live found_ create hashed.0 built.0 p _
                (subst
                  (λ x.
                    IsStore create owner
                      (captured codecs tools meta parse_group owner overrides live x))
                  same store)
                inv finds faithful
                (subst
                  (λ x. NoCollision (captured codecs tools meta parse_group owner overrides live x))
                  same unique)
                (capture-IsVerified codecs tools meta parse_group owner live found_ can) named
                hashed.1 built.1 refl built.2)
