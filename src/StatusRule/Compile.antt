-- ===== src/StatusRule/Compile.antt =====
-- internal/service/statusrule/statusrule.go: the compilation of a rule through the cache of compiled
-- programs. `statusRuleProgramCache` is passed on as a state; its two locked sections are
-- `lookup_program` and `publish`. The CEL environment is a parameter.
use Prim.Native.String.{len}
use opensaola.Base.{
  ℕ, String, ◌==◌, trim_space, ltb, leb, length, Dict, lookup, insert, [], Option, none, some,
  if◌then◌else◌,
}
use opensaola.StatusRule.{Outcome, ok, fail, empty, too_long}

abbrev pub max_rules_per_gvk : ℕ
max_rules_per_gvk = 32

abbrev pub max_rule_source_length : ℕ
max_rule_source_length = 8192

abbrev pub max_cached_rule_programs : ℕ
max_cached_rule_programs = 256

-- cel-go: cel.NewEnv with what `sync.Once` keeps of it, env.Compile, env.Program with its options,
-- and program.ContextEval of a program on `object` and `previous`.
pub record Engine (Env Ast Program Context Val Object Previous : Type 0) : Type 0 where
  pub environment : Outcome Env
  pub compile : Env → String → Outcome Ast
  pub program : Env → Ast → Outcome Program
  pub context_eval : Context → Program → Object → Previous → Outcome (Option Val)

module _ {Env Ast Program Context Val Object Previous : Type 0}
    (engine : Engine Env Ast Program Context Val Object Previous) where
  -- compiledRule: the program or the error
  abbrev pub ProgramCache : Type 0
  ProgramCache = Dict (Outcome Program)

  -- What `compile` does between its two locked sections.
  unfoldable pub build : String → Outcome Program
  build source = elim engine.environment [
    | fail e ↦ fail e
    | ok env ↦ elim (engine.compile env source) [
      | fail e ↦ fail e
      | ok ast ↦ engine.program env ast
    ]
  ]

  unfoldable pub lookup_program : ProgramCache → String → Option (Outcome Program)
  lookup_program cache source = lookup source cache

  unfoldable pub publish : ProgramCache → String → Outcome Program → ProgramCache
  publish cache source cached =
      if leb max_cached_rule_programs (length cache)
      then insert source cached []
      else insert source cached cache

  unfoldable pub compile : ProgramCache → String → ProgramCache × Outcome Program
  compile cache rule =
      let source = trim_space rule in
      if source == ""
      then (cache, fail empty)
      else if ltb max_rule_source_length (len source)
      then (cache, fail (too_long (len source)))
      else elim (lookup_program cache source) [
        | some cached ↦ (cache, cached)
        | none ↦ (publish cache source (build source), build source)
      ]

  -- The compilation with no cache.
  unfoldable pub compile_uncached : String → Outcome Program
  compile_uncached rule =
      let source = trim_space rule in
      if source == ""
      then fail empty
      else if ltb max_rule_source_length (len source)
      then fail (too_long (len source))
      else build source
