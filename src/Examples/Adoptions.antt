-- ===== src/Examples/Adoptions.antt =====
-- A Deployment of an earlier lifecycle of a Redis instance is adopted in the second attempt.
use opensaola.Base.{
  ℕ, zero, suc, ◌≤◌, String, true, false, [], ◌∷◌, Option, none, some, length, All, any, lookup,
  value_at, refl,
}
use opensaola.Configuration.Ownership.{label_app, label_configurations, owner_uid_annotation}
use opensaola.Intents.{Rendered}
use opensaola.Intents.Answers.{present}
use opensaola.Intents.Identity.{verify_intent_identity, verify_markers}
use opensaola.Intents.Adoption.{
  Claimant, Owners, claims_directly, check_claimant, check_all, check_configuration_claimants,
  is_adoptable, configuration_needs_adoption,
}
use opensaola.Intents.Adoption.Claims.{IsAdoption, adoption-IsAdoption}
use opensaola.Intents.Writer.{Outcome, completed, conflicted, Attempt, Run, reconcile}
use opensaola.Intents.Writer.Attempts.{IsAllowed, Accounts, reconcile-IsAllowed}
use opensaola.Examples.Intents.{first_controller, redis, deployment}

abbrev group_of : String → Option String
group_of s = some "middleware.cn"

abbrev hash_of : ℕ → Option String
hash_of n = some "a hash"

abbrev other_instance : Claimant
other_instance = record {
  uid = "u-9";
  name = "mysql";
  configurations = "redis-conf" ∷ [];
  inventory = [];
  baseline = "mysql-8";
  is_operator = false;
}

abbrev this_instance : Claimant
this_instance = record other_instance { uid = "u-1"; name = "redis" }

abbrev owners : Owners
owners = record {
  middlewares = some (other_instance ∷ this_instance ∷ []);
  operators = some [];
  baseline = λ operator name. none;
}

-- It carries the UID of an owner that is not there any more.
abbrev left_behind : Rendered ℕ
left_behind =
    record (deployment "o-1" "5"
      ((label_configurations, "redis-conf") ∷ (owner_uid_annotation, "u-0") ∷ []) 4) {
        labels = (label_app, "redis") ∷ [];
        owner_references = [];
      }

adoption-IsAdoption_example :
    IsAdoption owners redis left_behind "redis-conf" group_of first_controller left_behind
unfolding configuration_needs_adoption verify_intent_identity verify_markers value_at lookup
    is_adoptable check_configuration_claimants check_all check_claimant claims_directly any
adoption-IsAdoption_example =
    adoption-IsAdoption owners redis left_behind "redis-conf" group_of first_controller left_behind
      refl

abbrev outcome_at : ℕ → Outcome
outcome_at zero = conflicted
outcome_at (suc n) = completed

abbrev attempt_at : ℕ → Attempt hash_of owners group_of first_controller true
attempt_at i = record {
  owner_read =
      present (record { owner = redis; annotations = []; conditions = []; reconcile_pause = none });
  live_read = present left_behind;
  perform = λ f action. outcome_at i;
}

abbrev run : Run hash_of owners group_of first_controller true
run =
    reconcile hash_of owners group_of first_controller true attempt_at redis left_behind
      "redis-conf"

reconcile-IsAllowed_example :
    All
      (IsAllowed hash_of owners group_of first_controller true attempt_at redis left_behind
        "redis-conf")
      run.1
    × (length run.1 ≤ 5)
    × Accounts hash_of owners group_of first_controller true attempt_at redis left_behind
        "redis-conf" run.0 run.1
reconcile-IsAllowed_example =
    reconcile-IsAllowed hash_of owners group_of first_controller true attempt_at redis left_behind
      "redis-conf"
