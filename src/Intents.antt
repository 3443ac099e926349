-- ===== src/Intents.antt =====
-- The records of rendered intents and the objects that they describe: internal/k8s/resource_intent.go,
-- resource_intent_codec.go, resource_intent_gc.go, reconcile_pause_snapshot.go, managed_resource.go
-- and configuration_adoption.go. This file has the data and the errors. Objects has what a writer
-- authors, Identity which live object belongs to which owner, Codec the encoding of records, Records
-- their preparation and loading, Answers the API server's answers, Snapshots the snapshots of a
-- pause, Collect the collection of one record, Adoption the adoption of a configuration's object,
-- Writer the attempts at a write, and Protocol the writers and the collector on one object.
pub mod Objects
pub mod Identity
pub mod Codec
pub mod Records
pub mod Answers
pub mod Snapshots
pub mod Collect
pub mod Adoption
pub mod Writer
pub mod Protocol
use opensaola.Base.{
  ◌≡◌, refl, arith, ℕ, String, ◌==◌, Bool, true, false, List, Option, none, some, Dict,
}
use opensaola.Configuration.{Gvk, OwnerReference, OwnerKind}

-- A controller's object as the writer sees it.
pub record WriteOwner : Type 0 where
  pub kind : OwnerKind
  pub namespace : String
  pub name : String
  pub uid : String
  pub resource_version : String
  pub generation : ℕ
  pub deleting : Bool

-- An unstructured object: what the code reads of it, `system` for managedFields, the timestamps
-- and selfLink, `lifecycle` for the rest of its metadata, and `content` for the fields
-- beside metadata, status, data and stringData. A value that is no text is `none`.
pub record Rendered (Content : Type 0) : Type 0 where
  pub gvk : Gvk
  pub namespace : String
  pub name : String
  pub uid : String
  pub resource_version : String
  pub generation : ℕ
  pub deleting : Bool
  pub finalizers : List String
  pub labels : Dict String
  pub annotations : Dict String
  pub owner_references : List OwnerReference
  pub system : Option Content
  pub lifecycle : Option Content
  pub status : Option Content
  pub string_data : Option (Dict (Option String))
  pub data_ : Option (Dict String)
  pub content : Content

-- reconcilePauseData
pub record PauseData (Overrides : Type 0) : Type 0 where
  pub generation : ℕ
  pub previous_overrides : Option Overrides

-- resourceIntent; `desired` and `effective` are nil where they are `none`.
pub record ResourceIntent (Content Overrides : Type 0) : Type 0 where
  pub version : ℕ
  pub publication_protocol : ℕ
  pub base_resource_version : String
  pub owner_uid : String
  pub resource_uid : String
  pub configuration : String
  pub schema_hash : String
  pub desired : Option (Rendered Content)
  pub effective : Option (Rendered Content)
  pub preserved : List String
  pub pause : Option (PauseData Overrides)

-- A Secret, with the bytes of its data left open; `created` is 0 for no creation time.
pub record Secret (Bytes : Type 0) : Type 0 where
  pub namespace : String
  pub name : String
  pub uid : String
  pub resource_version : String
  pub created : ℕ
  pub deleting : Bool
  pub immutable : Option Bool
  pub is_opaque : Bool
  pub labels : Dict String
  pub owner_references : List OwnerReference
  pub data_ : Dict Bytes

abbrev pub annotation_resource_intent : String
annotation_resource_intent = "middleware.cn/resource-intent"

abbrev pub label_resource_intent_gc_fence : String
label_resource_intent_gc_fence = "middleware.cn/resource-intent-gc-fence"

abbrev pub intent_record_label : String
intent_record_label = "middleware.cn/resource-intent-record"

abbrev pub intent_publication_protocol : ℕ
intent_publication_protocol = 1

-- An error or nil: the errors of `managedIdentityError`, by what they complain of, and those of
-- `managedWriteBlocked`.
pub data WriteError : Type 0 where
  unsupported_owner invalid_identity no_controller owner_mismatch marker_mismatch : WriteError
  blocked read_failed write_failed encoding_failed : WriteError
  snapshot_invalid conflict not_found spec_changed : WriteError

pub data Fallible (A : Type 0) : Type 0 where
  ok : A → Fallible A
  err : WriteError → Fallible A

-- `if err != nil { return ..., err }`
infixl 10 ◌>>=◌
abbrev pub ◌>>=◌ : {A B : Type 0} → Fallible A → (A → Fallible B) → Fallible B
ok a >>= f = f a
err e >>= f = err e

-- An error where the test fails.
abbrev pub require : {A : Type 0} → Bool → WriteError → Fallible A → Fallible A
require true e r = r
require false e r = err e

pub ok-eq : {A : Type 0} {a b : A} → Fallible.ok a ≡ ok b → a ≡ b
ok-eq e = cc

-- What succeeds has passed each of its steps.
pub bind-ok :
    {A B : Type 0} (o : Fallible A) (f : A → Fallible B) (b : B)
    → o >>= f ≡ ok b
    → (a : A) × (o ≡ ok a) × (f a ≡ ok b)
bind-ok (ok a) f b e = (a, refl, e)
bind-ok (err x) f b e = absurd (ground arith)

pub require-ok :
    {A : Type 0} (b : Bool) (e : WriteError) (r : Fallible A) (a : A)
    → require b e r ≡ ok a
    → r ≡ ok a
require-ok true e r a p = p
require-ok false e r a p = absurd (ground arith)

pub require-true :
    {A : Type 0} (b : Bool) (e : WriteError) (r : Fallible A) (a : A)
    → require b e r ≡ ok a
    → b ≡ true
require-true true e r a p = refl
require-true false e r a p = absurd (ground arith)
