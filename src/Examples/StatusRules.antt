-- ===== src/Examples/StatusRules.antt =====
-- Status rules over a concrete language of values and a concrete engine.
use opensaola.Base.{
  ℕ, String, ◌==◌, Bool, true, false, List, [], ◌∷◌, Option, none, some, if◌then◌else◌, All, ◌≡◌,
  ◌⊎◌, refl,
}
use opensaola.Api.{Phase}
use opensaola.StatusRule.{
  CelValues, GoValue, Outcome, ok, fail, RuleError, CustomResources, latest_true_condition,
  is_true_condition,
}
use opensaola.StatusRule.Latest.{Newest, latest-Newest}
use opensaola.StatusRule.Compile.{Engine}
use opensaola.StatusRule.Cache.{IsSound, empty-IsSound}
use opensaola.StatusRule.Evaluate.{evaluate}
use opensaola.StatusRule.Evaluate.Reference.{evaluate_uncached, evaluate-uncached}
use opensaola.StatusRule.Declared.{
  OperatorBaselineRef, Primary, DeclaredGvk, apply_declared_status_rules,
}
use opensaola.StatusRule.Declared.Overlay.{Preserves, declared_overlay}

data Value : Type 0 where
  nothing conditions ready : Value
  text : String → Value
  number : ℕ → Value
  condition : String → String → Value

abbrev found : Value → Value → Option Value
found (condition s t) (text k) =
    if k == "status"
    then some (text s)
    else if k == "lastTransitionTime"
    then some (text t)
    else none
found ready (text k) = if k == "replicas" then some (number 3) else some (text "Running")
found _ _ = none

abbrev is_nothing : Value → Bool
is_nothing nothing = true
is_nothing _ = false

abbrev value_of : Value → GoValue
value_of (text s) = GoValue.go_string s
value_of (number n) = GoValue.go_int64 n
value_of _ = GoValue.go_other

abbrev keys : Value → Option (List Value)
keys ready = some (text "phase" ∷ text "replicas" ∷ [])
keys (condition s t) = some (text "status" ∷ text "lastTransitionTime" ∷ [])
keys _ = none

abbrev elements : Value → Option (List Value)
elements conditions =
    some (condition "False" "late" ∷ condition "True" "early" ∷ condition "True" "late" ∷ [])
elements _ = none

abbrev values : CelValues Value
values = record {
  is_null = λ v. is_nothing v;
  is_error = λ v. false;
  value = value_of;
  mapper = keys;
  find = found;
  lister = elements;
  string = text;
  null = nothing;
}

abbrev parse_time : String → Option ℕ
parse_time s = if s == "early" then some 1 else if s == "late" then some 2 else none

abbrev engine : Engine Unit String String Unit Value Unit Unit
engine = record {
  environment = ok tt;
  compile = λ env s. ok s;
  program = λ env s. if s == "(" then fail (RuleError.engine "syntax") else ok s;
  context_eval =
      λ ctx p object previous. if p == "null" then ok (some nothing) else ok (some ready);
}

abbrev status : CustomResources Unit
status = record { phase = Phase.creating; reason = ""; replicas = 1; rest = tt }

abbrev as_map : CustomResources Unit → Outcome Unit
as_map c = ok tt

abbrev example_rules : List String
example_rules = " null " ∷ "ready" ∷ []

abbrev example_conditions : List Value
example_conditions =
    condition "False" "late" ∷ condition "True" "early" ∷ condition "True" "late" ∷ []

latest-Newest_example :
    (All (λ u. is_true_condition values parse_time u ≡ false) example_conditions
      × (latest_true_condition values parse_time conditions ≡ nothing))
    ⊎ Newest values parse_time example_conditions
        (latest_true_condition values parse_time conditions)
latest-Newest_example = latest-Newest values parse_time conditions example_conditions refl

evaluate-uncached_example :
    IsSound engine (evaluate engine values as_map tt [] example_rules tt status).0
    × ((evaluate engine values as_map tt [] example_rules tt status).1
        ≡ evaluate_uncached engine values as_map tt example_rules tt status)
evaluate-uncached_example =
    evaluate-uncached engine values as_map tt [] example_rules tt status (empty-IsSound engine)

abbrev baselines : String → Option (List DeclaredGvk)
baselines name = some (
    record {
      name = "redis";
      group = "g";
      version = "v1";
      kind = "Redis";
      status_rules = example_rules;
    }
    ∷ [])

abbrev primary : Primary Unit
primary = record { group = "g"; version = "v1"; kind = "Redis"; object = tt }

abbrev baseline_ref : Option OperatorBaselineRef
baseline_ref = some (record { name = "base"; gvk_name = "redis" })

declared_overlay_example :
    Preserves engine values as_map status
      (apply_declared_status_rules engine values as_map baselines tt [] baseline_ref primary status
        status).1
declared_overlay_example =
    declared_overlay engine values as_map baselines tt [] baseline_ref primary status status
      (empty-IsSound engine)
