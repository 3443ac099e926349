-- ===== src/StatusRule/Cache.antt =====
-- The bound and the entries of the cache of compiled rules (internal/service/statusrule/statusrule.go).
use Prim.Native.String.{len}
use opensaola.Base.{
  ◌+◌, ◌≤◌, String, ◌==◌, eq_iff, trim_space, ltb, leb, length, Dict, lookup, insert, lookup-insert,
  [], ◌∷◌, some, ◌≡◌, refl, inl, inr, Bool-cases, Option-cases, arith,
}
use opensaola.StatusRule.{Outcome}
use opensaola.StatusRule.Compile.{
  Engine, ProgramCache, build, lookup_program, publish, compile, compile_uncached,
  max_cached_rule_programs, max_rule_source_length,
}

length-insert-le :
    {V : Type 0} (k : String) (v : V) (m : Dict V) → length (insert k v m) ≤ 1 + length m
unfolding insert
length-insert-le k v [] = omega arith
length-insert-le k v ((j, w) ∷ m) = ground (arith, length-insert-le k v m)

module _ {Env Ast Program Context Val Object Previous : Type 0}
    (engine : Engine Env Ast Program Context Val Object Previous) where
  -- Every entry is what the environment makes of its source, and there are at most 256.
  pub record IsSound (cache : ProgramCache engine) : Type 0 where
    pub entries :
        (source : String) (cached : Outcome Program)
        → lookup source cache ≡ some cached
        → cached ≡ build engine source
    pub bound : length cache ≤ max_cached_rule_programs

  pub empty-IsSound : IsSound []
  unfolding lookup
  empty-IsSound = record { entries = λ s c e. absurd (ground arith); bound = omega arith }

  some-eq : {A : Type 0} {a b : A} → some a ≡ some b → a ≡ b
  some-eq e = cc

  insert-entries :
      (cache : ProgramCache engine) (source : String)
      → ((s : String) (c : Outcome Program) → lookup s cache ≡ some c → c ≡ build engine s)
      → (s : String) (c : Outcome Program)
      → lookup s (insert source (build engine source) cache) ≡ some c
      → c ≡ build engine s
  insert-entries cache source h s c e =
      ground (arith, eq_iff source s, lookup-insert source s (build engine source) cache, h s c)

  -- Whatever the other goroutines did to the cache since the lookup, a publication keeps it sound.
  pub publish-IsSound :
      (cache : ProgramCache engine) (source : String)
      → IsSound cache
      → IsSound (publish engine cache source (build engine source))
  unfolding publish
  publish-IsSound cache source s = elim (Bool-cases (leb max_cached_rule_programs (length cache))) [
    | inl e ↦ rw e (record {
      entries = insert-entries [] source empty-IsSound.entries;
      bound = omega (arith, length-insert-le source (build engine source) []);
    })
    | inr e ↦ rw e (record {
      entries = insert-entries cache source s.entries;
      bound = ground (arith, length-insert-le source (build engine source) cache);
    })
  ]

  -- A compilation, from the outcome of each test on the trimmed rule.
  Compiles : ProgramCache engine → String → ProgramCache engine × Outcome Program → Type 0
  Compiles cache rule r = IsSound r.0 × (r.1 ≡ compile_uncached engine rule)

  pub compile-uncached :
      (cache : ProgramCache engine) (rule : String)
      → IsSound cache
      → IsSound ((compile engine cache rule).0)
        × ((compile engine cache rule).1 ≡ compile_uncached engine rule)
  unfolding compile compile_uncached lookup_program
  compile-uncached cache rule s = elim (Bool-cases (trim_space rule == "")) [
    | inl e ↦ rw e (s, refl)
    | inr e ↦ elim (Bool-cases (ltb max_rule_source_length (len (trim_space rule)))) [
      | inl f ↦ rw (e, f) (s, refl)
      | inr f ↦ elim (Option-cases (lookup (trim_space rule) cache)) [
        | inl g ↦ rw (e, f, g) (publish-IsSound cache (trim_space rule) s, refl)
        | inr (cached, g) ↦ rw (e, f, g) (s, s.entries (trim_space rule) cached g)
      ]
    ]
  ]
