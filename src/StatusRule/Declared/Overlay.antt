-- ===== src/StatusRule/Declared/Overlay.antt =====
-- What an overlay can change, and the range of the replica count that it sets
-- (internal/service/statusrule/statusrule.go, internal/service/synchronizer/status_rules.go).
use opensaola.Base.{
  ℕ, ◌≤◌, suc, String, Bool, true, false, not, ◌||◌, List, [], ◌∷◌, Option, none, some, is_none,
  is_some, ◌≡◌, refl, sym, subst, inl, inr, Bool-cases, arith,
}
use opensaola.StatusRule.{
  Outcome, ok, fail, RuleError, Result, CelValues, CustomResources, apply, max_int, decode_result,
}
use opensaola.StatusRule.Compile.{Engine, ProgramCache}
use opensaola.StatusRule.Evaluate.{run_program}
use opensaola.StatusRule.Declared.{
  OperatorBaselineRef, Primary, DeclaredGvk, Applied, overlay, apply_declared_status_rules,
  status_rules_for_custom_resource,
}
use opensaola.StatusRule.Compile.{compile_uncached}
use opensaola.StatusRule.Decode.{Fits, OptionFits, decode-fits}
use opensaola.StatusRule.Cache.{IsSound}
use opensaola.StatusRule.Evaluate.Reference.{
  Outcome-cases, first_applying, after_validation, validate_uncached, evaluate_uncached,
  evaluate-uncached,
}

module _ {Env Ast Program Context Val Object Previous : Type 0}
    (engine : Engine Env Ast Program Context Val Object Previous) (cel : CelValues Val) where
  applies-fits :
      (ctx : Context) (index : ℕ) (rules : List String) (object : Object) (previous : Previous)
      → OptionFits (first_applying engine cel ctx index rules object previous)
  unfolding first_applying run_program
  applies-fits ctx index [] object previous = tt
  applies-fits ctx index (rule ∷ rules) object previous =
      elim (Outcome-cases (compile_uncached engine rule)) [
        | inl (e, f) ↦ rw f tt
        | inr (p, f) ↦ elim (Outcome-cases (engine.context_eval ctx p object previous)) [
          | inl (e, g) ↦ rw (f, g) tt
          | inr (v, g) ↦ elim (Outcome-cases (decode_result cel v)) [
            | inl (e, h) ↦ rw (f, g, h) tt
            | inr (none, h) ↦ rw (f, g, h) (applies-fits ctx (suc index) rules object previous)
            | inr (some r, h) ↦ rw (f, g, h) (subst OptionFits h (decode-fits cel v))
          ]
        ]
      ]

  module _ {Rest : Type 0} (as_map : CustomResources Rest → Outcome Previous) where
    after-fits :
        (ctx : Context) (e : Option RuleError) (rules : List String) (object : Object)
        (previous : CustomResources Rest)
        → OptionFits (after_validation engine cel as_map ctx e rules object previous)
    unfolding after_validation
    after-fits ctx (some e) rules object previous = tt
    after-fits ctx none rules object previous = elim (Outcome-cases (as_map previous)) [
      | inl (e, f) ↦ rw f tt
      | inr (m, f) ↦ rw f (applies-fits ctx 0 rules object m)
    ]

    uncached-fits :
        (ctx : Context) (rules : List String) (object : Object) (previous : CustomResources Rest)
        → OptionFits (evaluate_uncached engine cel as_map ctx rules object previous)
    unfolding evaluate_uncached
    uncached-fits ctx [] object previous = tt
    uncached-fits ctx (rule ∷ rules) object previous =
        after-fits ctx (validate_uncached engine cel (rule ∷ rules)) (rule ∷ rules) object previous

    -- How the status that is left relates to the projected one.
    pub record Preserves (target : CustomResources Rest) (a : Applied Rest) : Type 0 where
      pub rest : a.target.rest ≡ target.rest
      pub failed : is_some a.error ≡ true → a.target ≡ target
      pub undeclared : a.declared ≡ false → a.target ≡ target
      pub replicas : target.replicas ≤ max_int → a.target.replicas ≤ max_int

    same :
        (target : CustomResources Rest) (d : Bool) (e : _)
        → Preserves target (record { declared = d; error = e; target = target })
    same target d e = record {
      rest = refl;
      failed = λ x. refl;
      undeclared = λ x. refl;
      replicas = λ x. x;
    }

    applied-Fits :
        (o : Option ℕ) (n : ℕ) → Fits o → n ≤ max_int → (elim o [ none ↦ n | some m ↦ m ]) ≤ max_int
    applied-Fits none n f h = h
    applied-Fits (some m) n f h = f

    module _ (get : String → Option (List DeclaredGvk)) where
      overlay-Preserves :
          (o : Outcome (Option Result)) (target : CustomResources Rest)
          → OptionFits o
          → Preserves target (overlay engine cel as_map get o target)
      unfolding overlay apply
      overlay-Preserves (fail e) target f = same target true _
      overlay-Preserves (ok none) target f = same target true _
      overlay-Preserves (ok (some r)) target f = record {
        rest = refl;
        failed = λ x. absurd (ground arith);
        undeclared = λ x. absurd (ground arith);
        replicas = applied-Fits r.replicas target.replicas f;
      }

      -- With a sound cache, the declared rules change no field but phase, reason and replicas;
      -- they change nothing where they are not declared or an error is returned; and a replica
      -- count within the range of int stays within it.
      pub declared_overlay :
          (ctx : Context) (cache : ProgramCache engine) (mid : Option OperatorBaselineRef)
          (cr : Primary Object) (previous target : CustomResources Rest)
          → IsSound engine cache
          → Preserves target
              (apply_declared_status_rules engine cel as_map get ctx cache mid cr previous target).1
      unfolding apply_declared_status_rules
      declared_overlay ctx cache mid cr previous target s =
          let found = status_rules_for_custom_resource get mid (some cr) in
          let h = evaluate-uncached engine cel as_map ctx cache found.rules cr.object previous s in
          elim (Bool-cases (not (is_none found.error) || not found.declared)) [
            | inl e ↦ rw e (same target found.declared found.error)
            | inr e ↦ rw e (
                overlay-Preserves _ target
                  (subst OptionFits (sym h.1) (uncached-fits ctx found.rules cr.object previous)))
          ]
