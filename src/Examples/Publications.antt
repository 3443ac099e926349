-- ===== src/Examples/Publications.antt =====
-- Two writes of a Deployment, of which the second is published and the first is collected.
use opensaola.Base.{
  ℕ, zero, suc, String, Bool, true, false, [], ◌∷◌, Option, none, some, lookup, value_at, insert,
  ◌≡◌, ◌⊎◌, ◌≤◌, refl, sym, ap, ◌∙◌, arith,
}
use opensaola.Intents.{Rendered, annotation_resource_intent}
use opensaola.Intents.Records.{intent_record}
use opensaola.Intents.Protocol.{
  pointer, World, advance, issue, settle, discard, prepare, commit, Reachable, start, next,
}
use opensaola.Intents.Protocol.Invariant.{IsInitial}
use opensaola.Intents.Protocol.Safety.{pointer-safe, publication-safe}
use opensaola.Examples.Intents.{
  Record, plain, redis, deployment, identity_text, never_same, redis_record,
}

-- One stroke for each write.
strokes : ℕ → String
strokes zero = String.[]
strokes (suc n) = String.◌∷◌ "v" (strokes n)

without_stroke : String → String
without_stroke String.[] = String.[]
without_stroke (String.◌∷◌ c s) = s

is_void : String → Bool
is_void String.[] = true
is_void (String.◌∷◌ c s) = false

strokes_once : (a b : ℕ) → strokes a ≡ strokes b → a ≡ b
unfolding strokes without_stroke is_void
strokes_once zero zero e = refl
strokes_once (suc a) (suc b) e = ap (λ n. suc n) (strokes_once a b (ap without_stroke e))
strokes_once zero (suc b) e = absurd (ground (arith, ap is_void e))
strokes_once (suc a) zero e = absurd (ground (arith, ap is_void e))

some_same : {A : Type 0} {a b : A} → Option.some a ≡ some b → a ≡ b
some_same e = cc

no_more : (k : ℕ) → k ≤ 0 → 0 ≡ k
no_more k h = omega arith

abbrev before : World ℕ ℕ
before = record {
  clock = 0;
  history = λ k. some (deployment "o-1" "" [] 4);
  issued = [];
  settled = λ n. false;
  doomed = λ n. false;
  deleted = λ n. false;
}

before-IsInitial : IsInitial strokes before
unfolding value_at lookup strokes
before-IsInitial = record {
  versions = λ k o h e. ap (λ x. x.resource_version) (sym (some_same e)) ∙ ap strokes (no_more k h);
  no_pointer = refl;
  no_records = refl;
  none_doomed = λ n. refl;
  none_deleted = λ n. refl;
}

abbrev prepared : World ℕ ℕ
prepared = issue before "r-1" (redis_record (deployment "o-1" "" [] 4))

prepares : Reachable plain identity_text never_same strokes before prepared
unfolding lookup
prepares = next before before prepared (start before) (
    prepare before 0 "r-1" redis (deployment "o-1" "" [] 4) (deployment "" "" [] 5) "" "schema" []
      none (omega arith) refl refl refl)

publication-safe_example : (prepared.doomed "r-1" ≡ false) × (prepared.deleted "r-1" ≡ false)
unfolding issue lookup insert intent_record
publication-safe_example =
    publication-safe strokes strokes_once plain identity_text never_same before prepared
      before-IsInitial prepares (deployment "o-1" "" [] 4) "r-1"
      (redis_record (deployment "o-1" "" [] 4)) refl refl refl refl

abbrev pointed : Rendered ℕ
pointed = deployment "o-1" "v" ((annotation_resource_intent, "r-1") ∷ []) 5

abbrev published : World ℕ ℕ
published = discard (advance (settle prepared "r-1") (some pointed)) true ""

publishes : Reachable plain identity_text never_same strokes before published
unfolding issue lookup insert intent_record value_at strokes
publishes = next before prepared published prepares (
    commit prepared "r-1" (redis_record (deployment "o-1" "" [] 4)) (deployment "o-1" "" [] 4)
      pointed true refl refl refl refl refl
      (λ o e. ap (λ x. x.resource_version) (sym (some_same e))) refl)

pointer-safe_example :
    (pointer pointed ≡ "")
    ⊎ ((r : Record) × (lookup "r-1" published.issued ≡ some r) × (published.deleted "r-1" ≡ false))
unfolding discard advance settle issue lookup insert value_at
pointer-safe_example =
    pointer-safe strokes strokes_once plain identity_text never_same before published
      before-IsInitial publishes pointed refl
