-- ===== src/StatusRule/Evaluate/Reference.antt =====
-- `Evaluate` against its reading without a cache (internal/service/statusrule/statusrule.go).
use opensaola.Base.{
  ℕ, suc, String, ltb, length, List, [], ◌∷◌, Option, none, some, if◌then◌else◌, ◌≡◌, ◌⊎◌, refl, ap,
  ◌∙◌, inl, inr, Bool-cases,
}
use opensaola.StatusRule.{
  Outcome, ok, fail, handle, RuleError, too_many, at_rule, Result, CelValues, CustomResources,
}
use opensaola.StatusRule.Compile.{
  Engine, ProgramCache, compile, compile_uncached, max_rules_per_gvk,
}
use opensaola.StatusRule.Cache.{IsSound, compile-uncached}
use opensaola.StatusRule.Evaluate.{
  validate_from, validate, run_program, evaluate_from, evaluate_validated, evaluate,
}

pub Outcome-cases :
    {A : Type 0} (o : Outcome A) → ((e : RuleError) × (o ≡ fail e)) ⊎ ((a : A) × (o ≡ ok a))
Outcome-cases (fail e) = inl (e, refl)
Outcome-cases (ok a) = inr (a, refl)

module _ {Env Ast Program Context Val Object Previous : Type 0}
    (engine : Engine Env Ast Program Context Val Object Previous) (cel : CelValues Val) where
  -- The error of the first rule that does not compile.
  unfoldable pub first_failure : ℕ → List String → Option RuleError
  first_failure index [] = none
  first_failure index (rule ∷ rules) =
      handle (compile_uncached engine rule) (λ e. some (at_rule index e))
        (λ p. first_failure (suc index) rules)

  -- The outcome of the first rule that applies or fails.
  unfoldable pub first_applying :
      Context → ℕ → List String → Object → Previous → Outcome (Option Result)
  first_applying ctx index [] object previous = ok none
  first_applying ctx index (rule ∷ rules) object previous =
      handle (compile_uncached engine rule) (λ e. fail (at_rule index e))
        (λ p.
          handle (run_program engine cel ctx index p object previous) (λ e. fail e)
            (λ result. elim result [
              | none ↦ first_applying ctx (suc index) rules object previous
              | some r ↦ ok (some r)
            ]))

  unfoldable pub validate_uncached : List String → Option RuleError
  validate_uncached rules =
      if ltb max_rules_per_gvk (length rules)
      then some (too_many (length rules))
      else first_failure 0 rules

  module _ {Rest : Type 0} (as_map : CustomResources Rest → Outcome Previous) where
    unfoldable pub after_validation :
        Context
        → Option RuleError
        → List String
        → Object
        → CustomResources Rest
        → Outcome (Option Result)
    after_validation ctx (some e) rules object previous = fail e
    after_validation ctx none rules object previous =
        handle (as_map previous) (λ e. fail e) (λ m. first_applying ctx 0 rules object m)

    -- Nothing for no rules; the error where there are too many rules or one does not compile; and
    -- else the first rule that applies or fails decides.
    unfoldable pub evaluate_uncached :
        Context → List String → Object → CustomResources Rest → Outcome (Option Result)
    evaluate_uncached ctx [] object previous = ok none
    evaluate_uncached ctx (rule ∷ rules) object previous =
        after_validation ctx (validate_uncached (rule ∷ rules)) (rule ∷ rules) object previous

  validate_from-reference :
      (cache : ProgramCache engine) (index : ℕ) (rules : List String)
      → IsSound engine cache
      → IsSound engine (validate_from engine cel cache index rules).0
        × ((validate_from engine cel cache index rules).1 ≡ first_failure index rules)
  unfolding validate_from first_failure
  validate_from-reference cache index [] s = (s, refl)
  validate_from-reference cache index (rule ∷ rules) s =
      let h = compile-uncached engine cache rule s in
      elim (Outcome-cases (compile_uncached engine rule)) [
        | inl (e, f) ↦ rw (h.1 ∙ f, f) (h.0, refl)
        | inr (p, f) ↦
            rw (h.1 ∙ f, f)
              (validate_from-reference (compile engine cache rule).0 (suc index) rules h.0)
      ]

  validate-reference :
      (cache : ProgramCache engine) (rules : List String)
      → IsSound engine cache
      → IsSound engine (validate engine cel cache rules).0
        × ((validate engine cel cache rules).1 ≡ validate_uncached rules)
  unfolding validate validate_uncached
  validate-reference cache rules s = elim (Bool-cases (ltb max_rules_per_gvk (length rules))) [
    | inl e ↦ rw e (s, refl)
    | inr e ↦ rw e (validate_from-reference cache 0 rules s)
  ]

  evaluate_from-reference :
      (ctx : Context) (cache : ProgramCache engine) (index : ℕ) (rules : List String)
      (object : Object) (previous : Previous)
      → IsSound engine cache
      → IsSound engine (evaluate_from engine cel ctx cache index rules object previous).0
        × ((evaluate_from engine cel ctx cache index rules object previous).1
            ≡ first_applying ctx index rules object previous)
  unfolding evaluate_from first_applying
  evaluate_from-reference ctx cache index [] object previous s = (s, refl)
  evaluate_from-reference ctx cache index (rule ∷ rules) object previous s =
      let h = compile-uncached engine cache rule s in
      elim (Outcome-cases (compile_uncached engine rule)) [
        | inl (e, f) ↦ rw (h.1 ∙ f, f) (h.0, refl)
        | inr (p, f) ↦ elim (Outcome-cases (run_program engine cel ctx index p object previous)) [
          | inl (e, g) ↦ rw (h.1 ∙ f, f, g) (h.0, refl)
          | inr (none, g) ↦
              rw (h.1 ∙ f, f, g)
                (evaluate_from-reference ctx (compile engine cache rule).0 (suc index) rules object
                  previous h.0)
          | inr (some r, g) ↦ rw (h.1 ∙ f, f, g) (h.0, refl)
        ]
      ]

  module _ {Rest : Type 0} (as_map : CustomResources Rest → Outcome Previous) where
    evaluate_validated-reference :
        (ctx : Context) (e : Option RuleError) (cache : ProgramCache engine) (rules : List String)
        (object : Object) (previous : CustomResources Rest)
        → IsSound engine cache
        → IsSound engine (evaluate_validated engine cel as_map ctx e cache rules object previous).0
          × ((evaluate_validated engine cel as_map ctx e cache rules object previous).1
              ≡ after_validation as_map ctx e rules object previous)
    unfolding evaluate_validated after_validation
    evaluate_validated-reference ctx (some e) cache rules object previous s = (s, refl)
    evaluate_validated-reference ctx none cache rules object previous s =
        elim (Outcome-cases (as_map previous)) [
          | inl (e, f) ↦ rw f (s, refl)
          | inr (m, f) ↦ rw f (evaluate_from-reference ctx cache 0 rules object m s)
        ]

    -- With a cache that is sound, Evaluate returns what it returns without one, and leaves a
    -- sound cache of at most 256 programs.
    pub evaluate-uncached :
        (ctx : Context) (cache : ProgramCache engine) (rules : List String) (object : Object)
        (previous : CustomResources Rest)
        → IsSound engine cache
        → IsSound engine (evaluate engine cel as_map ctx cache rules object previous).0
          × ((evaluate engine cel as_map ctx cache rules object previous).1
              ≡ evaluate_uncached as_map ctx rules object previous)
    unfolding evaluate evaluate_uncached
    evaluate-uncached ctx cache [] object previous s = (s, refl)
    evaluate-uncached ctx cache (rule ∷ rules) object previous s =
        let h = validate-reference cache (rule ∷ rules) s in
        let g =
          evaluate_validated-reference ctx (validate engine cel cache (rule ∷ rules)).1
            (validate engine cel cache (rule ∷ rules)).0 (rule ∷ rules) object previous h.0 in
        (g.0, g.1 ∙ ap (λ e. after_validation as_map ctx e (rule ∷ rules) object previous) h.1)
