-- ===== src/Examples/Collections.antt =====
-- A record of a Deployment that was replaced is collected; the snapshot of a paused Redis instance
-- is prepared, published and loaded.
use opensaola.Base.{
  ℕ, String, ◌==◌, true, false, [], ◌∷◌, Option, none, some, Dict, lookup, value_at, ◌≡◌, refl, sym,
  ap, subst, ◌∙◌, arith,
}
use opensaola.Api.{annotation_suspend_reconcile, is_reconcile_suspended}
use opensaola.Intents.{ok-eq, Rendered, Secret, ok}
use opensaola.Intents.Answers.{Answer, present, absent, Creation, created, done, delete_record}
use opensaola.Intents.Codec.{
  encode_resource_intent, encode_raw, encode_with, decode_resource_intent, decode_entry, decode_raw,
  intent_json_key,
}
use opensaola.Intents.Records.{secret_of, build_resource_intent_secret, intent_record}
use opensaola.Intents.Identity.{intent_owner_reference, verify_managed_identity, verify_controller}
use opensaola.Intents.Objects.{intent_object}
use opensaola.Intents.Records.Loading.{stored}
use opensaola.Intents.Snapshots.{
  PauseStatus, Mid, SnapshotTools, found, pause_record_hash, is_loadable, is_snapshot_secret,
  is_snapshot_record, is_snapshot_target, load_record_from, load_snapshot_record,
  load_reconcile_pause_snapshot,
}
use opensaola.Intents.Snapshots.Prepare.{
  can_capture, snapshot_record, snapshot_status, prepare_reconcile_pause_snapshot,
}
use opensaola.Intents.Snapshots.Captured.{IsFaithful}
use opensaola.Intents.Snapshots.Roundtrip.{IsStore, load-prepare_pause_snapshot}
use opensaola.Intents.Snapshots.Publish.{
  may_publish, publish_reconcile_pause_snapshot, cleanup_reconcile_pause_snapshot,
}
use opensaola.Intents.Snapshots.Exclusion.{publish-cleanup}
use opensaola.Intents.Collect.{judge, DeepEqual}
use opensaola.Intents.Collect.Reads.{
  Reads, there, found_middleware, is_due, is_collectable_secret, is_collectable_record,
  is_owned_record,
}
use opensaola.Intents.Collect.Decide.{decide_target, decide, collect}
use opensaola.Intents.Collect.Deletes.{IsCollectable, collect-IsCollectable}
use opensaola.Examples.Intents.{
  Record, plain, plain-IsInverse, first_controller, redis, redis_reference, deployment,
  identity_text, redis_record,
}

abbrev group_of : String → Option String
group_of s = some "middleware.cn"

abbrev suspended : Mid ℕ ℕ
suspended = record {
  owner = redis;
  annotations = (annotation_suspend_reconcile, "true") ∷ [];
  overrides = some 8;
  status = record { reconcile_pause = none; rest = 0 };
}

-- A number is its own spec.
abbrev hash_of : Option (Rendered ℕ) → Option String
hash_of none = none
hash_of (some d) = some "a hash"

abbrev tools : SnapshotTools ℕ ℕ
tools = record {
  nested_spec = found;
  only_spec = λ c. c;
  empty = 0;
  hash = λ r. hash_of r.desired;
  name_of = λ h. "opensaola-pause-1";
}

abbrev redis_object : Rendered ℕ
redis_object = deployment "o-1" "5" [] 4

abbrev snapshot : Record
snapshot = snapshot_record plain tools first_controller redis (some 8) redis_object 4

abbrev snapshot_secret : Secret Record
snapshot_secret =
    stored (secret_of plain redis redis_reference ((intent_json_key, snapshot) ∷ []))
      "opensaola-pause-1" "s-2" "71" 100

abbrev holds_snapshot : String → String → Answer (Secret Record)
holds_snapshot namespace name = present snapshot_secret

abbrev paused : PauseStatus
paused = snapshot_status plain tools first_controller redis redis_object "a hash"

publish-cleanup_example :
    (suspended.status.reconcile_pause ≡ none)
    × (ok (record suspended { status = record { reconcile_pause = some paused; rest = 0 } })
        ≡ ok (record suspended { status = record { reconcile_pause = some paused; rest = 0 } }))
    × (cleanup_reconcile_pause_snapshot plain tools first_controller holds_snapshot
          (present suspended)
          (λ s. done)
          redis
          (some paused)
        ≡ ok false)
unfolding publish_reconcile_pause_snapshot load_snapshot_record is_loadable load_record_from
    is_snapshot_secret is_snapshot_record is_snapshot_target pause_record_hash
    intent_owner_reference decode_resource_intent decode_entry decode_raw lookup value_at
    may_publish is_reconcile_suspended
publish-cleanup_example =
    publish-cleanup plain tools first_controller holds_snapshot suspended redis paused ok
      (λ s. done) (λ s. s)
      (record suspended { status = record { reconcile_pause = some paused; rest = 0 } }) refl

abbrev data_of : Answer (Secret Record) → Dict Record
data_of (present s) = s.data_
data_of _ = []

abbrev creates : Secret Record → Creation (Secret Record)
creates s = created (stored s s.name "s-2" "71" 100)

abbrev or_none : Option String → String
or_none none = ""
or_none (some s) = s

hashes : (d : Option (Rendered ℕ)) (h : String) → hash_of d ≡ some h → (h == "") ≡ false
hashes none h e = absurd (ground arith)
hashes (some d) h e = subst (λ x. (or_none x == "") ≡ false) e refl

plain_secret : Secret Record
plain_secret = secret_of plain redis redis_reference ((intent_json_key, snapshot) ∷ [])

kept_secret :
    (s : Secret Record) (hash : String)
    → ok plain_secret ≡ ok s
    → ok "a hash" ≡ ok hash
    → present snapshot_secret ≡ present (stored s (tools.name_of hash) "s-2" "71" 100)
unfolding plain_secret
kept_secret s hash e h = ap (λ x. present (stored x "opensaola-pause-1" "s-2" "71" 100)) (ok-eq e)

store : IsStore plain tools first_controller group_of holds_snapshot creates redis snapshot
unfolding plain_secret build_resource_intent_secret encode_resource_intent encode_raw encode_with
    intent_owner_reference pause_record_hash
store = record {
  uid = "s-2";
  version = "71";
  time = 100;
  keeps = λ s t hash built hashed sent. kept_secret s hash built hashed;
}

faithful : IsFaithful tools
faithful = record { spec = λ c. refl; named = λ h. refl; hashed = λ r h e. hashes r.desired h e }

decoded_same :
    (t : Secret Record) (r : Record)
    → present snapshot_secret ≡ present t
    → decode_resource_intent plain t.data_ ≡ ok r
    → r ≡ snapshot
unfolding decode_resource_intent decode_entry decode_raw lookup
decoded_same t r g d = sym (ok-eq (ap (λ a. decode_resource_intent plain (data_of a)) g ∙ d))

load-prepare_pause_snapshot_example :
    load_reconcile_pause_snapshot plain tools first_controller holds_snapshot redis paused
    ≡ ok (record { actual_spec = 4; previous_overrides = some 8 })
unfolding prepare_reconcile_pause_snapshot can_capture verify_managed_identity verify_controller
    pause_record_hash build_resource_intent_secret encode_resource_intent encode_raw encode_with
    intent_owner_reference
load-prepare_pause_snapshot_example =
    load-prepare_pause_snapshot plain tools first_controller group_of holds_snapshot redis (some 8)
      redis_object 4 creates paused store plain-IsInverse (λ r e. refl) faithful
      (λ namespace name hash t r g d h i. decoded_same t r g d) refl refl refl

-- The record of a Deployment with another UID than the one that is there.
abbrev old_secret : Secret Record
old_secret =
    stored
      (secret_of plain redis redis_reference
        ((intent_json_key, redis_record (deployment "o-0" "3" [] 4)) ∷ []))
      "opensaola-intent-x" "s-1" "9" 100

abbrev reads : Reads ℕ ℕ ℕ Record
reads = record {
  owner = λ kind namespace name. present (found_middleware suspended);
  mapping = λ gvk. some (record { namespaced = true; group = "apps"; resource = "deployments" });
  target = λ gvk namespace name. there redis_object;
  secret = λ namespace name. absent;
}

abbrev always : DeepEqual ℕ
always = record {
  objects = λ a b. true;
  references = λ a b. true;
  texts = λ a b. true;
  statuses = λ a b. true;
}

collect-IsCollectable_example :
    IsCollectable plain tools first_controller group_of reads 30 200 old_secret
unfolding collect decide is_due is_collectable_secret is_collectable_record is_owned_record
    decide_target judge delete_record intent_object decode_resource_intent decode_entry decode_raw
    lookup value_at intent_record
collect-IsCollectable_example =
    collect-IsCollectable plain tools first_controller group_of reads always identity_text
      (λ dry fence o. none) (λ s. done) 30 200 old_secret refl
