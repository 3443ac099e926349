-- ===== src/StatusRule/Declared.antt =====
-- internal/service/synchronizer/status_rules.go: the rules that the active operator baseline declares
-- for the primary custom resource, and their overlay on the projected status. The read of the
-- operator baseline is a parameter.
pub mod Overlay
use opensaola.Base.{
  is_none, String, ◌==◌, Bool, true, false, trim_space, ltb, length, List, [], ◌∷◌, Option, none,
  some, ◌||◌, ◌&&◌, not, if◌then◌else◌,
}
use opensaola.StatusRule.{
  Outcome, ok, fail, handle, RuleError, Result, CelValues, CustomResources, apply,
}
use opensaola.StatusRule.Compile.{Engine, ProgramCache}
use opensaola.StatusRule.Evaluate.{evaluate}

-- v1.GVK of an operator baseline
pub record DeclaredGvk : Type 0 where
  pub name : String
  pub group : String
  pub version : String
  pub kind : String
  pub status_rules : List String

-- The primary resource: its group, version and kind, and cr.Object.
pub record Primary (Object : Type 0) : Type 0 where
  pub group : String
  pub version : String
  pub kind : String
  pub object : Object

-- mid.Spec.OperatorBaseline
pub record OperatorBaselineRef : Type 0 where
  pub name : String
  pub gvk_name : String

pub data DeclarationError : Type 0 where
  get_failed other_gvk undefined_gvk : DeclarationError
  rule_failed : RuleError → DeclarationError

-- The rules and whether they are declared, with the error.
pub record Rules : Type 0 where
  pub rules : List String
  pub declared : Bool
  pub error : Option DeclarationError

abbrev undeclared : Option DeclarationError → Rules
undeclared e = record { rules = []; declared = false; error = e }

-- The loop over operatorBaseline.Spec.GVKs.
unfoldable pub find_rules : {Object : Type 0} → String → Primary Object → List DeclaredGvk → Rules
find_rules gvk_name cr [] = undeclared (some undefined_gvk)
find_rules gvk_name cr (g ∷ gs) =
    let rest = find_rules gvk_name cr gs in
    if not (g.name == gvk_name) then rest else elim g.status_rules [
      | [] ↦ undeclared none
      | rule ∷ rules ↦
          if not (g.group == cr.group) || not (g.version == cr.version) || not (g.kind == cr.kind)
          then record { rules = []; declared = true; error = some other_gvk }
          else record { rules = rule ∷ rules; declared = true; error = none }
    ]

-- k8s.GetMiddlewareOperatorBaseline of a name: its GVKs, or `none` where it fails.
unfoldable pub status_rules_for_custom_resource :
    {Object : Type 0}
    → (String → Option (List DeclaredGvk))
    → Option OperatorBaselineRef
    → Option (Primary Object)
    → Rules
status_rules_for_custom_resource get none cr = undeclared none
status_rules_for_custom_resource get (some mid) none = undeclared none
status_rules_for_custom_resource get (some mid) (some cr) =
    let name = trim_space mid.name in
    let gvk_name = trim_space mid.gvk_name in
    if name == "" || gvk_name == "" then undeclared none else elim (get name) [
      | none ↦ undeclared (some get_failed)
      | some gvks ↦ find_rules gvk_name cr gvks
    ]

-- The boolean and the error that applyDeclaredStatusRules returns, and the status it leaves.
pub record Applied (Rest : Type 0) : Type 0 where
  pub declared : Bool
  pub error : Option DeclarationError
  pub target : CustomResources Rest

module _ {Env Ast Program Context Val Object Previous Rest : Type 0}
    (engine : Engine Env Ast Program Context Val Object Previous) (cel : CelValues Val)
    (as_map : CustomResources Rest → Outcome Previous)
    (get : String → Option (List DeclaredGvk)) where
  -- What is left to do with the outcome of the evaluation.
  unfoldable pub overlay : Outcome (Option Result) → CustomResources Rest → Applied Rest
  overlay (fail e) target = record {
    declared = true;
    error = some (rule_failed e);
    target = target;
  }
  overlay (ok none) target = record { declared = true; error = none; target = target }
  overlay (ok (some r)) target = record { declared = true; error = none; target = apply r target }

  unfoldable pub apply_declared_status_rules :
      Context
      → ProgramCache engine
      → Option OperatorBaselineRef
      → Primary Object
      → CustomResources Rest
      → CustomResources Rest
      → ProgramCache engine × Applied Rest
  apply_declared_status_rules ctx cache mid cr previous target =
      let found = status_rules_for_custom_resource get mid (some cr) in
      if not (is_none found.error) || not found.declared
      then (cache, record { declared = found.declared; error = found.error; target = target })
      else let (cache', outcome) =
          evaluate engine cel as_map ctx cache found.rules cr.object previous in
        (cache', overlay outcome target)
