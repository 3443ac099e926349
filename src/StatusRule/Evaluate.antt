-- ===== src/StatusRule/Evaluate.antt =====
-- internal/service/statusrule/statusrule.go: `Validate` and `Evaluate`, and their overlay on the
-- projected status (internal/service/synchronizer/status_rules.go). The JSON round trip of the
-- previous status and the API server's operator baselines are parameters.
pub mod Reference
use opensaola.Base.{
  ℕ, suc, String, ◌==◌, Bool, true, false, trim_space, ltb, length, List, [], ◌∷◌, Option, none,
  some, ◌||◌, ◌&&◌, not, if◌then◌else◌,
}
use opensaola.StatusRule.{
  Outcome, ok, fail, handle, RuleError, too_many, at_rule, in_evaluation, in_result, Result,
  CelValues, decode_result, CustomResources, apply,
}
use opensaola.StatusRule.Compile.{Engine, ProgramCache, compile, max_rules_per_gvk}

module _ {Env Ast Program Context Val Object Previous : Type 0}
    (engine : Engine Env Ast Program Context Val Object Previous) (cel : CelValues Val) where
  -- The loop of `Validate` from `index` on; `none` where every rule compiles.
  unfoldable pub validate_from :
      ProgramCache engine → ℕ → List String → ProgramCache engine × Option RuleError
  validate_from cache index [] = (cache, none)
  validate_from cache index (rule ∷ rules) =
      let (cache', compiled) = compile engine cache rule in
      handle compiled (λ e. (cache', some (at_rule index e)))
        (λ p. validate_from cache' (suc index) rules)

  unfoldable pub validate :
      ProgramCache engine → List String → ProgramCache engine × Option RuleError
  validate cache rules =
      if ltb max_rules_per_gvk (length rules)
      then (cache, some (too_many (length rules)))
      else validate_from cache 0 rules

  -- One rule on the activation: `ok none` where it did not apply.
  unfoldable pub run_program : Context → ℕ → Program → Object → Previous → Outcome (Option Result)
  run_program ctx index p object previous =
      handle (engine.context_eval ctx p object previous) (λ e. fail (in_evaluation index e))
        (λ v. handle (decode_result cel v) (λ e. fail (in_result index e)) ok)

  -- The loop of `Evaluate` from `index` on.
  unfoldable pub evaluate_from :
      Context
      → ProgramCache engine
      → ℕ
      → List String
      → Object
      → Previous
      → ProgramCache engine × Outcome (Option Result)
  evaluate_from ctx cache index [] object previous = (cache, ok none)
  evaluate_from ctx cache index (rule ∷ rules) object previous =
      let (cache', compiled) = compile engine cache rule in
      handle compiled (λ e. (cache', fail (at_rule index e)))
        (λ p.
          handle (run_program ctx index p object previous) (λ e. (cache', fail e))
            (λ result. elim result [
              | none ↦ evaluate_from ctx cache' (suc index) rules object previous
              | some r ↦ (cache', ok (some r))
            ]))

  module _ {Rest : Type 0} (as_map : CustomResources Rest → Outcome Previous) where
    unfoldable pub evaluate_validated :
        Context
        → Option RuleError
        → ProgramCache engine
        → List String
        → Object
        → CustomResources Rest
        → ProgramCache engine × Outcome (Option Result)
    evaluate_validated ctx (some e) cache rules object previous = (cache, fail e)
    evaluate_validated ctx none cache rules object previous =
        handle (as_map previous) (λ e. (cache, fail e))
          (λ m. evaluate_from ctx cache 0 rules object m)

    unfoldable pub evaluate :
        Context
        → ProgramCache engine
        → List String
        → Object
        → CustomResources Rest
        → ProgramCache engine × Outcome (Option Result)
    evaluate ctx cache [] object previous = (cache, ok none)
    evaluate ctx cache (rule ∷ rules) object previous =
        let (cache', e) = validate cache (rule ∷ rules) in
        evaluate_validated ctx e cache' (rule ∷ rules) object previous
