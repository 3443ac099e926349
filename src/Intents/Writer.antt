-- ===== src/Intents/Writer.antt =====
-- internal/k8s/managed_resource.go: the check of the owner before a write, what is to be done with
-- the live object, and the retries of Reconcile; verifyObservedSpecForWrite of
-- observed_spec_changes.go. What the API server answers and what an action comes to are parameters.
pub mod Permits
pub mod Observed
pub mod Chosen
pub mod Attempts
use opensaola.Base.{
  ℕ, zero, suc, ◌+◌, String, ◌==◌, Bool, true, false, not, ◌&&◌, ◌||◌, List, [], ◌∷◌, Option, none,
  some, Dict, eqb, if◌then◌else◌,
}
use opensaola.Api.{
  Condition, ReconcileResumePolicy, merge, same_policy, is_reconcile_suspended,
  reconcile_resume_policy_for, is_middleware_reconcile_write_suspended,
}
use opensaola.Configuration.{
  Gvk, OwnerKind, middleware, middleware_operator, unsupported, GetControllerOf,
}
use opensaola.Intents.{
  WriteOwner, Rendered, WriteError, Fallible, ok, err, ◌>>=◌, require, blocked, read_failed,
  not_found, spec_changed, conflict,
}
use opensaola.Intents.Answers.{Answer, present, absent, failed}
use opensaola.Intents.Identity.{verify_managed_identity}
use opensaola.Intents.Records.{same_gvk}
use opensaola.Intents.Snapshots.{PauseStatus}
use opensaola.Intents.Adoption.{Owners, configuration_needs_adoption}

-- An owner as the Reader gives it.
pub record FreshOwner : Type 0 where
  pub owner : WriteOwner
  pub annotations : Dict String
  pub conditions : List Condition
  pub reconcile_pause : Option PauseStatus

abbrev pub is_write_suspended : OwnerKind → FreshOwner → Bool
is_write_suspended middleware f = is_middleware_reconcile_write_suspended f.annotations f.conditions
is_write_suspended middleware_operator f = is_reconcile_suspended f.annotations
is_write_suspended unsupported f = false

abbrev pub is_same_owner : WriteOwner → WriteOwner → Bool
is_same_owner owner fresh =
    fresh.uid == owner.uid && eqb fresh.generation owner.generation && not fresh.deleting

unfoldable pub fresh_write_owner : WriteOwner → Answer FreshOwner → Fallible FreshOwner
fresh_write_owner owner absent = err not_found
fresh_write_owner owner failed = err read_failed
fresh_write_owner owner (present f) =
    require (is_same_owner owner f.owner) blocked
      (require (not (is_write_suspended f.owner.kind f)) blocked (ok f))

-- The list of isImmutableResource (internal/k8s/customresource.go)
unfoldable pub is_immutable_resource : Gvk → Bool
is_immutable_resource gvk =
    gvk.group == "batch"
    && ((gvk.version == "v1" && gvk.kind == "Job")
        || (gvk.version == "v1beta1" && gvk.kind == "CronJob"))

abbrev pub is_merge : Option ReconcileResumePolicy → Bool
is_merge none = false
is_merge (some p) = same_policy p merge

abbrev pub is_middleware : OwnerKind → Bool
is_middleware middleware = true
is_middleware _ = false

-- What Reconcile does with the live object; `nothing` is for an immutable one.
pub data Action : Type 0 where
  create_resource apply_new nothing adopt_resource merge_intent overwrite : Action

-- What it comes to: `completed` is without an error.
pub data Outcome : Type 0 where
  completed conflicted : Outcome
  refused : WriteError → Outcome

module _ {Content : Type 0} (spec_hash : Content → Option String) (owners : Owners)
    (parse_group : String → Option String) (meta : GetControllerOf) (has_schemas : Bool) where
  -- `spec_hash` is the SHA-256 of the JSON of the live spec.
  abbrev has_hash : String → Option String → Bool
  has_hash adopted none = false
  has_hash adopted (some h) = not (adopted == "") && adopted == h

  abbrev pub is_observed : PauseStatus → Option (Rendered Content) → Bool
  is_observed p none = false
  is_observed p (some live) =
      not (p.resource_uid == "")
      && live.uid == p.resource_uid
      && not live.deleting
      && live.name == p.name
      && live.namespace == p.namespace
      && same_gvk live.gvk p.gvk
      && has_hash p.adopted_live_spec_hash (spec_hash live.content)

  abbrev observed_or_changed :
      Bool → Option PauseStatus → Option (Rendered Content) → Option WriteError
  observed_or_changed applies none live = none
  observed_or_changed applies (some p) live =
      if applies && not (is_observed p live) then some spec_changed else none

  unfoldable pub verify_observed_spec_for_write :
      FreshOwner → Option (Rendered Content) → String → Option WriteError
  verify_observed_spec_for_write f live configuration =
      observed_or_changed
        (is_middleware f.owner.kind
          && configuration == ""
          && is_merge (reconcile_resume_policy_for f.annotations))
        f.reconcile_pause live

  abbrev pub stop_at : {A : Type 0} → Option WriteError → Fallible A → Fallible A
  stop_at none r = r
  stop_at (some e) r = err e

  abbrev act_on : Rendered Content → Bool → Action
  act_on live adopt =
      if is_immutable_resource live.gvk
      then nothing
      else if adopt
      then adopt_resource
      else if has_schemas
      then merge_intent
      else overwrite

  abbrev pub needs_adoption :
      FreshOwner → Rendered Content → Rendered Content → String → Fallible Bool
  needs_adoption f live desired configuration =
      if configuration == ""
      then stop_at (verify_managed_identity parse_group meta f.owner live) (ok false)
      else configuration_needs_adoption owners parse_group meta f.owner live desired configuration

  unfoldable pub choose_action :
      FreshOwner → Answer (Rendered Content) → Rendered Content → String → Fallible Action
  choose_action f failed desired configuration = err read_failed
  choose_action f absent desired configuration =
      stop_at (verify_observed_spec_for_write f none configuration)
        (ok (if is_immutable_resource desired.gvk then create_resource else apply_new))
  choose_action f (present live) desired configuration =
      stop_at (verify_observed_spec_for_write f (some live) configuration)
        (needs_adoption f live desired configuration >>= λ adopt. ok (act_on live adopt))

  -- One turn of the loop: what it reads, and what an action comes to.
  pub record Attempt : Type 0 where
    pub owner_read : Answer FreshOwner
    pub live_read : Answer (Rendered Content)
    pub perform : FreshOwner → Action → Outcome

  abbrev pub decide_attempt :
      WriteOwner → Rendered Content → String → Attempt → Fallible (FreshOwner × Action)
  decide_attempt owner desired configuration a = fresh_write_owner owner a.owner_read >>= λ f.
      choose_action f a.live_read desired configuration >>= λ action. ok (f, action)

  -- The result, and the actions that were performed, each with the number of its attempt.
  abbrev pub Run : Type 0
  Run = Fallible Action × List (ℕ × FreshOwner × Action)

  abbrev pub logged : ℕ → FreshOwner → Action → Run → Run
  logged i f action (result, log) = (result, (i, f, action) ∷ log)

  abbrev pub after_outcome : ℕ → FreshOwner → Action → Outcome → Run → Run
  after_outcome i f action completed rest = (ok action, (i, f, action) ∷ [])
  after_outcome i f action (refused e) rest = (err e, (i, f, action) ∷ [])
  after_outcome i f action conflicted rest = logged i f action rest

  abbrev pub after_decision : ℕ → Attempt → Fallible (FreshOwner × Action) → Run → Run
  after_decision i a (err e) rest = (err e, [])
  after_decision i a (ok (f, action)) rest = after_outcome i f action (a.perform f action) rest

  unfoldable pub reconcile_from :
      (ℕ → Attempt) → WriteOwner → Rendered Content → String → ℕ → ℕ → Run
  reconcile_from attempts owner desired configuration i zero = (err conflict, [])
  reconcile_from attempts owner desired configuration i (suc n) =
      after_decision i (attempts i) (decide_attempt owner desired configuration (attempts i))
        (reconcile_from attempts owner desired configuration (suc i) n)

  -- Reconcile makes five attempts; its early return for a nil object is left out.
  unfoldable pub reconcile : (ℕ → Attempt) → WriteOwner → Rendered Content → String → Run
  reconcile attempts owner desired configuration =
      reconcile_from attempts owner desired configuration 0 5
