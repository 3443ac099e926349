-- ===== src/Intents/Collect/Reads.antt =====
-- What `collect` of internal/k8s/resource_intent_gc.go reads, and the tests that it makes before
-- it looks for references to a record.
use opensaola.Base.{
  ℕ, String, ◌==◌, Bool, true, false, not, ◌&&◌, ◌||◌, Option, none, some, is_none, value_at, eqb,
  ltb, ◌+◌, if◌then◌else◌,
}
use opensaola.Configuration.{Gvk, OwnerReference, OwnerKind, middleware, middleware_operator}
use opensaola.Intents.{
  WriteOwner, Rendered, ResourceIntent, Secret, Fallible, ok, err, blocked, read_failed,
  intent_record_label,
}
use opensaola.Intents.Answers.{Answer}
use opensaola.Intents.Identity.{group_version}
use opensaola.Intents.Records.{is_true}
use opensaola.Intents.Snapshots.{PauseStatus, Mid}
use opensaola.Intents.Collect.{Verdict, keep_record}

-- What the RESTMapper gives for a kind.
pub record Mapping : Type 0 where
  pub namespaced : Bool
  pub group : String
  pub resource : String

-- The details of a NotFound error.
pub record Details : Type 0 where
  pub group : String
  pub kind : String
  pub name : String

-- Reading the target: an error without a status, or with another status, is `unread`.
pub data TargetRead (Content : Type 0) : Type 0 where
  there : Rendered Content → TargetRead Content
  missing : Option Details → TargetRead Content
  unread : TargetRead Content

pub data FoundOwner (Overrides Rest : Type 0) : Type 0 where
  found_middleware : Mid Overrides Rest → FoundOwner Overrides Rest
  found_operator : WriteOwner → FoundOwner Overrides Rest

abbrev pub owner_of : {Overrides Rest : Type 0} → FoundOwner Overrides Rest → WriteOwner
owner_of (found_middleware m) = m.owner
owner_of (found_operator o) = o

-- The API server, as `collect` reads it.
pub record Reads (Content Overrides Rest Bytes : Type 0) : Type 0 where
  pub owner : OwnerKind → String → String → Answer (FoundOwner Overrides Rest)
  pub mapping : Gvk → Option Mapping
  pub target : Gvk → String → String → TargetRead Content
  pub secret : String → String → Answer (Secret Bytes)

-- Due: not deleting, created, and old enough.
unfoldable pub is_due : {Bytes : Type 0} → ℕ → ℕ → Secret Bytes → Bool
is_due min_age now s =
    not s.deleting && not (eqb s.created 0) && not (ltb now (s.created + min_age))

unfoldable pub is_collectable_secret : {Bytes : Type 0} → Secret Bytes → Bool
is_collectable_secret s =
    not (s.uid == "") && not (s.resource_version == "") && is_true s.immutable && s.is_opaque

unfoldable pub is_collectable_record :
    {Content Overrides : Type 0} → ResourceIntent Content Overrides → Bool
is_collectable_record r =
    eqb r.version 1
    && not (is_none r.desired)
    && not (r.owner_uid == "")
    && not (r.resource_uid == "")
    && (not (is_none r.pause) || not (r.schema_hash == ""))

-- The Secret's controller is the owner that the record and the label name.
unfoldable pub is_owned_record :
    {Content Overrides Bytes : Type 0}
    → Secret Bytes
    → ResourceIntent Content Overrides
    → OwnerReference
    → Bool
is_owned_record s r ref =
    ref.uid == r.owner_uid
    && value_at intent_record_label s.labels == r.owner_uid
    && ref.api_version == group_version
    && not (ref.name == "")

abbrev pub kind_of : String → Fallible OwnerKind
kind_of k =
    if k == "Middleware"
    then ok middleware
    else if k == "MiddlewareOperator"
    then ok middleware_operator
    else err blocked

abbrev pub blocked_unless_some : {A : Type 0} → Option A → Fallible A
blocked_unless_some none = err blocked
blocked_unless_some (some a) = ok a

abbrev pub or_blocked : {A : Type 0} → Fallible A → Fallible A
or_blocked (ok a) = ok a
or_blocked (err e) = err blocked

abbrev pub read_unless_some : {A : Type 0} → Option A → Fallible A
read_unless_some none = err read_failed
read_unless_some (some a) = ok a

-- `return false, nil` where the test fails.
abbrev pub keep_unless :
    {Content : Type 0} → Bool → Fallible (Verdict Content) → Fallible (Verdict Content)
keep_unless true v = v
keep_unless false v = ok keep_record

-- Only an error that names this very object tells that it is gone.
abbrev pub is_of_target : {Content : Type 0} → Option Details → Rendered Content → Mapping → Bool
is_of_target none d m = false
is_of_target (some e) d m = e.name == d.name && e.group == m.group && e.kind == m.resource

abbrev pub refers : Option PauseStatus → String → Bool
refers none name = false
refers (some p) name = p.snapshot_secret == name
