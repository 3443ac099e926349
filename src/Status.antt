-- ===== src/Status.antt =====
-- Status conditions: internal/service/status/condition.go. A `*Condition` that the source gets from
-- a slice is the slice with an index into it, and a write through it is a write at that index.
pub mod Get
use text.Mathlib.Text.{starts_with}
use opensaola.Base.{
  ℕ, String, ◌==◌, Bool, true, false, List, Option, none, some, ◌≡◌, ◌≢◌, ◌++◌, ◌∷◌, [], All,
  get_elem?, eqb, if◌then◌else◌,
}
use opensaola.Api.{Condition, ConditionStatus, condition_true, condition_false, condition_unknown}

-- The `switch` of `Failed` on the condition's type; `none` where no case applies.
abbrev failed_reason : String → Option String
failed_reason t =
    if t == "Checked"
    then some "CheckedFailed"
    else if t == "BuildExtraResource"
    then some "BuildExtraResourceFailed"
    else if t == "ApplyRBAC"
    then some "ApplyRBACFailed"
    else if t == "ApplyOperator"
    then some "ApplyOperatorFailed"
    else if t == "ApplyCluster"
    then some "ApplyClusterFailed"
    else if t == "MapCueFields"
    then some "MapCueFieldsFailed"
    else if t == "ExecuteAction"
    then some "ExecuteActionFailed"
    else if t == "ExecuteCue"
    then some "ExecuteCueFailed"
    else if t == "ExecuteCmd"
    then some "ExecuteCmdFailed"
    else if t == "Running"
    then some "RunningFailed"
    else if t == "Updating"
    then some "UpdatingFailed"
    else if t == "TemplateParseWithBaseline"
    then some "TemplateParseWithBaselineFailed"
    else none

abbrev success_reason : String → Option String
success_reason t =
    if t == "Checked"
    then some "CheckedSuccess"
    else if t == "BuildExtraResource"
    then some "BuildExtraResourceSuccess"
    else if t == "ApplyRBAC"
    then some "ApplyRBACSuccess"
    else if t == "ApplyOperator"
    then some "ApplyOperatorSuccess"
    else if t == "ApplyCluster"
    then some "ApplyClusterSuccess"
    else if t == "MapCueFields"
    then some "MapCueFieldsSuccess"
    else if t == "ExecuteAction"
    then some "ExecuteActionSuccess"
    else if t == "ExecuteCue"
    then some "ExecuteCueSuccess"
    else if t == "ExecuteCmd"
    then some "ExecuteCmdSuccess"
    else if t == "Running"
    then some "RunningSuccess"
    else if t == "Updating"
    then some "UpdatingSuccess"
    else if t == "TemplateParseWithBaseline"
    then some "TemplateParseWithBaselineSuccess"
    else none

abbrev reason_or : Option String → String → String
reason_or none old = old
reason_or (some new) old = new

pub failed : Condition → String → ℕ → ℕ → Condition
failed c message og now =
    let reason = reason_or (failed_reason c.type) c.reason in
    record c {
      status = condition_false;
      last_transition_time = now;
      observed_generation = og;
      message = message;
      reason = if starts_with c.type "STEP-" then "ExecuteActionFailed" else reason;
    }

pub success : Condition → ℕ → ℕ → Condition
success c og now = record c {
  status = condition_true;
  last_transition_time = now;
  observed_generation = og;
  message = "Succeeded";
  reason = reason_or (success_reason c.type) c.reason;
}

pub success_with_msg : Condition → String → ℕ → ℕ → Condition
success_with_msg c msg og now =
    let reason =
      if c.type == "ExecuteCmd"
      then "ExecuteCmdSuccess"
      else if c.type == "ExecuteCue"
      then "ExecuteCueSuccess"
      else c.reason in
    record c {
      status = condition_true;
      last_transition_time = now;
      observed_generation = og;
      message = msg;
      reason = if starts_with c.type "STEP-" then "ExecuteActionSuccess" else reason;
    }

unfoldable pub condition_init : String → ℕ → ℕ → Condition
condition_init t og now = record {
  type = t;
  status = condition_unknown;
  observed_generation = og;
  last_transition_time = now;
  reason = "Initing";
  message = "Initializing";
}

-- A zero transition time is replaced by the clock's.
abbrev pub stamped : ℕ → Condition → Condition
stamped clock c = record c {
  last_transition_time = if eqb c.last_transition_time 0 then clock else c.last_transition_time;
}

-- What the source uses of k8s.io/apimachinery/pkg/api/meta, with its documented behaviour:
-- FindStatusCondition points at a condition of the type, and is nil only where there is none;
-- SetStatusCondition appends a condition whose type is not there yet, and sets its time where that
-- is zero.
pub record MetaConditions : Type 0 where
  pub find_status_condition : List Condition → String → Option ℕ
  pub set_status_condition : List Condition → Condition → List Condition
  pub find_sound :
      (cs : List Condition) (t : String) (i : ℕ)
      → find_status_condition cs t ≡ some i
      → (c : Condition) × (get_elem? cs i ≡ some c) × (c.type ≡ t)
  pub find_complete :
      (cs : List Condition) (t : String)
      → find_status_condition cs t ≡ none
      → All (λ c. c.type ≢ t) cs
  pub set_appends :
      (cs : List Condition) (c : Condition)
      → find_status_condition cs c.type ≡ none
      → (clock : ℕ) × (set_status_condition cs c ≡ cs ++ stamped clock c ∷ [])

module _ (meta : MetaConditions) where
  open meta use {find_status_condition, set_status_condition}

  -- The slice after the call, and the index of the returned condition; `none` is a nil pointer.
  unfoldable pub get_condition : List Condition → String → ℕ → List Condition × Option ℕ
  get_condition conditions t now = elim (find_status_condition conditions t) [
    | some i ↦ (conditions, some i)
    | none ↦
        let added = set_status_condition conditions (condition_init t 1 now) in
        (added, find_status_condition added t)
  ]
