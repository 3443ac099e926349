-- ===== src/Intents/Collect/Deletes.antt =====
-- What a record is when it is collected (internal/k8s/resource_intent_gc.go).
use opensaola.Base.{
  ℕ, String, ◌==◌, Bool, true, not, ◌&&◌, Option, none, some, eqb, ◌≡◌, refl, ap, arith,
}
use opensaola.Configuration.{OwnerReference, OwnerKind, GetControllerOf}
use opensaola.Intents.{
  Rendered, PauseData, ResourceIntent, Secret, ok, ok-eq, bind-ok, require-ok, require-true,
  intent_publication_protocol,
}
use opensaola.Intents.Answers.{Answer, present, absent, failed, Deletion}
use opensaola.Intents.Codec.{Codecs, decode_resource_intent}
use opensaola.Intents.Snapshots.{SnapshotTools}
use opensaola.Intents.Collect.{Verdict, keep_record, delete_now, fence_first, FencePatch, DeepEqual}
use opensaola.Intents.Collect.Reads.{
  FoundOwner, owner_of, blocked_unless_some, or_blocked, kind_of, Reads, is_due,
  is_collectable_secret, is_collectable_record, is_owned_record,
}
use opensaola.Intents.Collect.Decide.{decide_owned, decide_desired, carry_out, decide, collect}
use opensaola.Intents.Collect.Unreferenced.{
  deletes, or_blocked-ok, blocked-some, keep_unless-deletes, decide_target-IsUnreferenced,
  decide_pause-IsUnreferenced, IsUnreferenced,
}

module _ {Content Overrides Rest Bytes : Type 0}
    (codecs : Codecs (ResourceIntent Content Overrides) Bytes)
    (tools : SnapshotTools Content Overrides) (meta : GetControllerOf)
    (parse_group : String → Option String) (reads : Reads Content Overrides Rest Bytes) where
  -- A due record of an owner that is there and is not deleting, made under the present protocol,
  -- that nothing refers to.
  pub record IsCollectable (min_age now : ℕ) (s : Secret Bytes) : Type 0 where
    pub due : is_due min_age now s ≡ true
    pub secret : is_collectable_secret s ≡ true
    pub intent : ResourceIntent Content Overrides
    pub decoded : decode_resource_intent codecs s.data_ ≡ ok intent
    pub complete : is_collectable_record intent ≡ true
    pub desired : Rendered Content
    pub desires : intent.desired ≡ some desired
    pub controller : OwnerReference
    pub controlled : meta.controller_of s.owner_references ≡ some controller
    pub owned : is_owned_record s intent controller ≡ true
    pub kind : OwnerKind
    pub owner : FoundOwner Overrides Rest
    pub found : reads.owner kind s.namespace controller.name ≡ present owner
    pub same_owner :
        ((owner_of owner).uid == controller.uid && not (owner_of owner).deleting) ≡ true
    pub protocol :
        (eqb intent.publication_protocol intent_publication_protocol
          && not (intent.base_resource_version == ""))
        ≡ true
    pub unreferenced : IsUnreferenced codecs tools meta parse_group reads s.name desired owner

  abbrev Owned :
      ResourceIntent Content Overrides → OwnerReference → FoundOwner Overrides Rest → Type 0
  Owned r ref owner =
      (((owner_of owner).uid == ref.uid && not (owner_of owner).deleting) ≡ true)
      × ((eqb r.publication_protocol intent_publication_protocol
            && not (r.base_resource_version == ""))
          ≡ true)

  decide_owned-IsUnreferenced :
      (s : Secret Bytes) (r : ResourceIntent Content Overrides) (ref : OwnerReference)
      (d : Rendered Content) (a : Answer (FoundOwner Overrides Rest)) (v : Verdict Content)
      → decide_owned codecs tools meta parse_group reads s r ref d a ≡ ok v
      → deletes v ≡ true
      → (owner : FoundOwner Overrides Rest) × (a ≡ present owner)
        × Owned r ref owner
        × IsUnreferenced codecs tools meta parse_group reads s.name d owner
  decide_owned-IsUnreferenced s r ref d absent v e del =
      absurd (ground (arith, ap deletes (ok-eq e), del))
  decide_owned-IsUnreferenced s r ref d failed v e del = absurd (ground arith)
  decide_owned-IsUnreferenced s r ref d (present owner) v e del =
      let same = keep_unless-deletes codecs tools meta parse_group reads _ _ v e del in
      let current = keep_unless-deletes codecs tools meta parse_group reads _ _ v same.1 del in
      (owner, refl, (same.0, current.0), of_pause r.pause current.1)
    where
      of_pause :
          (p : Option (PauseData Overrides))
          → decide_desired codecs tools meta parse_group reads owner s.name r d p ≡ ok v
          → IsUnreferenced codecs tools meta parse_group reads s.name d owner
      of_pause none x =
          decide_target-IsUnreferenced codecs tools meta parse_group reads owner s.name r d v x del
      of_pause (some p) x =
          decide_pause-IsUnreferenced codecs tools meta parse_group reads owner s.name r d p v x del

  decide-IsCollectable :
      (min_age now : ℕ) (s : Secret Bytes) (v : Verdict Content)
      → decide codecs tools meta parse_group reads min_age now s ≡ ok v
      → deletes v ≡ true
      → IsCollectable min_age now s
  unfolding decide
  decide-IsCollectable min_age now s v e del =
      let ready =
        keep_unless-deletes codecs tools meta parse_group reads (is_due min_age now s) _ v e del in
      let read =
        bind-ok (or_blocked (decode_resource_intent codecs s.data_)) _ v
          (require-ok _ _ _ v ready.1) in
      let desired = bind-ok (blocked_unless_some read.0.desired) _ v (require-ok _ _ _ v read.2) in
      let ref =
        bind-ok (blocked_unless_some (meta.controller_of s.owner_references)) _ v desired.2 in
      let kind = bind-ok (kind_of ref.0.kind) _ v (require-ok _ _ _ v ref.2) in
      let owned = decide_owned-IsUnreferenced s read.0 ref.0 desired.0 _ v kind.2 del in
      record {
        due = ready.0;
        secret = require-true _ _ _ v ready.1;
        intent = read.0;
        decoded = or_blocked-ok codecs tools meta parse_group reads _ read.0 read.1;
        complete = require-true _ _ _ v read.2;
        desired = desired.0;
        desires = blocked-some codecs tools meta parse_group reads _ desired.0 desired.1;
        controller = ref.0;
        controlled = blocked-some codecs tools meta parse_group reads _ ref.0 ref.1;
        owned = require-true _ _ _ v ref.2;
        kind = kind.0;
        owner = owned.0;
        found = owned.1;
        same_owner = owned.2.0;
        protocol = owned.2.1;
        unreferenced = owned.3;
      }

  module _ (deep_equal : DeepEqual Content) (base64 : String → String)
      (patch : Bool → FencePatch → Rendered Content → Option (Rendered Content))
      (delete : Secret Bytes → Deletion) where
    carry_out-deletes :
        (s : Secret Bytes) (v : Verdict Content)
        → carry_out codecs tools meta parse_group reads deep_equal base64 patch delete s v ≡ ok true
        → deletes v ≡ true
    carry_out-deletes s keep_record e = absurd (ground (arith, ok-eq e))
    carry_out-deletes s delete_now e = refl
    carry_out-deletes s (fence_first t) e = refl

    -- A record that the collector deletes is due, complete and owned by an object that is there
    -- and is not deleting, was made under the present protocol, and nothing that was read refers
    -- to it.
    pub collect-IsCollectable :
        (min_age now : ℕ) (s : Secret Bytes)
        → collect codecs tools meta parse_group reads deep_equal base64 patch delete min_age now s
          ≡ ok true
        → IsCollectable min_age now s
    unfolding collect
    collect-IsCollectable min_age now s e =
        let decided = bind-ok (decide codecs tools meta parse_group reads min_age now s) _ true e in
        decide-IsCollectable min_age now s decided.0 decided.1
          (carry_out-deletes s decided.0 decided.2)
