-- ===== src/Intents/Protocol.antt =====
-- The writers and the collector of records over one live object, step by step: the calls that
-- internal/k8s/resource_intent.go and resource_intent_gc.go make, in any order and with any delay.
-- `version` gives the API server's resourceVersions, one for each write.
pub mod Invariant
pub mod Keeps
pub mod Dead
pub mod Others
pub mod Safety
use opensaola.Base.{
  ℕ, suc, String, ◌==◌, Bool, true, false, Option, none, some, List, [], Dict, lookup, insert,
  value_at, update, put, ◌≡◌, ◌⊎◌, ◌≤◌, if◌then◌else◌,
}
use opensaola.Intents.{
  WriteOwner, WriteError, Rendered, ResourceIntent, ok, annotation_resource_intent,
}
use opensaola.Intents.Codec.{Codecs}
use opensaola.Intents.Records.{intent_record}
use opensaola.Intents.Collect.{keep_record, delete_now, fence_first, judge}

abbrev pub pointer : {Content : Type 0} → Rendered Content → String
pointer o = value_at annotation_resource_intent o.annotations

abbrev pub pointer_of : {Content : Type 0} → Option (Rendered Content) → String
pointer_of none = ""
pointer_of (some o) = pointer o

-- A write that does not carry a pointer of its own keeps the stored one or drops it.
abbrev pub KeepsPointer :
    {Content : Type 0} → Option (Rendered Content) → Option (Rendered Content) → Type 0
KeepsPointer before after = (pointer_of after ≡ "") ⊎ (pointer_of after ≡ pointer_of before)

-- The object after each write, the records that were created, by name, those whose one publication
-- was answered, those that are to be deleted, and those that are.
pub record World (Content Overrides : Type 0) : Type 0 where
  pub clock : ℕ
  pub history : ℕ → Option (Rendered Content)
  pub issued : Dict (ResourceIntent Content Overrides)
  pub settled : String → Bool
  pub doomed : String → Bool
  pub deleted : String → Bool

module _ {Content Overrides : Type 0} where
  abbrev pub live : World Content Overrides → Option (Rendered Content)
  live w = w.history w.clock

  unfoldable pub advance :
      World Content Overrides → Option (Rendered Content) → World Content Overrides
  advance w next = record w { clock = suc w.clock; history = update w.history (suc w.clock) next }

  unfoldable pub issue :
      World Content Overrides → String → ResourceIntent Content Overrides → World Content Overrides
  issue w name r = record w { issued = insert name r w.issued }

  unfoldable pub settle : World Content Overrides → String → World Content Overrides
  settle w name = record w { settled = put w.settled name true }

  unfoldable pub doom : World Content Overrides → String → World Content Overrides
  doom w name = record w { doomed = put w.doomed name true }

  unfoldable pub erase : World Content Overrides → String → World Content Overrides
  erase w name = record w { deleted = put w.deleted name true }

  -- discardIntentRecord of the record that was pointed to before, if any
  unfoldable pub discard : World Content Overrides → Bool → String → World Content Overrides
  unfolding doom
  discard w discards name = if discards then if name == "" then w else doom w name else w

  module _ {Bytes : Type 0} (codecs : Codecs (ResourceIntent Content Overrides) Bytes)
      (base64 : String → String) (same_object : Rendered Content → Rendered Content → Bool)
      (version : ℕ → String) where
    -- What the server stores at the next write carries the next version.
    abbrev pub IsNext : World Content Overrides → Option (Rendered Content) → Type 0
    IsNext w next =
        (o : Rendered Content) → next ≡ some o → o.resource_version ≡ version (suc w.clock)

    -- The read of an object that an Apply carries still has the object's UID and resourceVersion.
    abbrev pub IsGuarded :
        World Content Overrides → ℕ → Rendered Content → Rendered Content → Type 0
    IsGuarded w k seen now =
        (k ≤ w.clock)
        × (w.history k ≡ some seen)
        × (live w ≡ some now)
        × (now.uid ≡ seen.uid)
        × (now.resource_version ≡ seen.resource_version)

    -- The object was read at some time, and with a pointer: another writer had committed its record.
    abbrev pub IsCommitted : World Content Overrides → ℕ → Rendered Content → Type 0
    IsCommitted w k seen =
        (k ≤ w.clock) × (w.history k ≡ some seen) × ((pointer seen == "") ≡ false)

    -- `write` is another's write, creation or removal that carries no pointer; `guarded_apply` an
    -- Apply of an edited copy of an object that was read at any earlier time, pointer included,
    -- under that read's UID and resourceVersion (prepareCustomResourceApply of customresource.go);
    -- `prepare` prepareResourceIntent against an object that may be out of date; `commit` a
    -- publication that passes its tests, and the decision to delete the record that it replaces;
    -- `reject` one that fails for good; `discard_prepared` one that was not applied, whose record
    -- is discarded because the object was read with a pointer already; `cleanup`
    -- cleanupUncommittedIntent. The collector finds the object gone, or judges it, at once or with
    -- a fence. Nobody else deletes a record.
    pub data Step : World Content Overrides → World Content Overrides → Type 0 where
      write :
          (w : World Content Overrides) (next : Option (Rendered Content))
          → IsNext w next
          → KeepsPointer (live w) next
          → Step w (advance w next)
      guarded_apply :
          (w : World Content Overrides) (k : ℕ) (seen now next : Rendered Content)
          → IsGuarded w k seen now
          → IsNext w (some next)
          → pointer next ≡ pointer seen
          → Step w (advance w (some next))
      prepare :
          (w : World Content Overrides) (k : ℕ) (name : String) (owner : WriteOwner)
          (seen desired : Rendered Content) (configuration schema_hash : String)
          (preserved : List String) (effective : Option (Rendered Content))
          → k ≤ w.clock
          → w.history k ≡ some seen
          → (name == "") ≡ false
          → lookup name w.issued ≡ none
          → Step w (
              issue w name (
                intent_record codecs base64 same_object owner seen desired configuration schema_hash
                  preserved effective))
      commit :
          (w : World Content Overrides) (name : String) (r : ResourceIntent Content Overrides)
          (now next : Rendered Content) (discards : Bool)
          → lookup name w.issued ≡ some r
          → w.settled name ≡ false
          → live w ≡ some now
          → now.uid ≡ r.resource_uid
          → now.resource_version ≡ r.base_resource_version
          → IsNext w (some next)
          → pointer next ≡ name
          → Step w (discard (advance (settle w name) (some next)) discards (pointer now))
      reject : (w : World Content Overrides) (name : String) → Step w (settle w name)
      discard_prepared :
          (w : World Content Overrides) (name : String) (r : ResourceIntent Content Overrides)
          (k : ℕ) (seen : Rendered Content)
          → lookup name w.issued ≡ some r
          → w.settled name ≡ false
          → IsCommitted w k seen
          → Step w (doom (settle w name) name)
      cleanup :
          (w : World Content Overrides) (name : String) (r : ResourceIntent Content Overrides)
          → lookup name w.issued ≡ some r
          → w.settled name ≡ true
          → (pointer_of (live w) == name) ≡ false
          → Step w (doom w name)
      collect_gone :
          (w : World Content Overrides) (name : String) (r : ResourceIntent Content Overrides)
          → lookup name w.issued ≡ some r
          → live w ≡ none
          → Step w (doom w name)
      collect_old :
          (w : World Content Overrides) (name : String) (r : ResourceIntent Content Overrides)
          (target : Rendered Content) (identity : Option WriteError)
          → lookup name w.issued ≡ some r
          → live w ≡ some target
          → judge name r target identity ≡ ok delete_now
          → Step w (doom w name)
      collect_fenced :
          (w : World Content Overrides) (name : String) (r : ResourceIntent Content Overrides)
          (k : ℕ) (seen target now next : Rendered Content) (identity : Option WriteError)
          → lookup name w.issued ≡ some r
          → k ≤ w.clock
          → w.history k ≡ some seen
          → judge name r seen identity ≡ ok (fence_first target)
          → live w ≡ some now
          → now.uid ≡ target.uid
          → now.resource_version ≡ target.resource_version
          → IsNext w (some next)
          → pointer next ≡ pointer now
          → Step w (doom (advance w (some next)) name)
      delete :
          (w : World Content Overrides) (name : String)
          → w.doomed name ≡ true
          → Step w (erase w name)

    pub data Reachable : World Content Overrides → World Content Overrides → Type 0 where
      start : (w : World Content Overrides) → Reachable w w
      next : (v w u : World Content Overrides) → Reachable v w → Step w u → Reachable v u
