-- ===== src/StatusRule/Decode.antt =====
-- The range of the replica count that a rule returns (internal/service/statusrule/statusrule.go).
use opensaola.Base.{
  ℕ, ◌≤◌, String, ◌==◌, ltb, List, [], ◌∷◌, Option, none, some, inl, inr, Bool-cases, ltb-false→le,
  arith,
}
use opensaola.StatusRule.{
  Outcome, ok, fail, handle, RuleError, Result, CelValues, GoValue, max_int, no_result, int_value,
  decode_found, decode_key, decode_object, string_value, replicas_value, decode_field, decode_entry,
  decode_entries, decode_result,
}

-- The replica count is absent or fits an int.
abbrev pub Fits : Option ℕ → Type 0
Fits none = Unit
Fits (some n) = n ≤ max_int

abbrev ResultFits : Outcome Result → Type 0
ResultFits (ok r) = Fits r.replicas
ResultFits (fail e) = Unit

abbrev pub OptionFits : Outcome (Option Result) → Type 0
OptionFits (ok none) = Unit
OptionFits (ok (some r)) = Fits r.replicas
OptionFits (fail e) = Unit

abbrev NumberFits : Outcome ℕ → Type 0
NumberFits (ok n) = n ≤ max_int
NumberFits (fail e) = Unit

number-fits : (v : GoValue) → NumberFits (int_value v)
unfolding int_value
number-fits (GoValue.go_string s) = tt
number-fits (GoValue.go_int64 n) = elim (Bool-cases (ltb max_int n)) [
  | inl e ↦ rw e tt
  | inr e ↦ rw e (omega (arith, ltb-false→le max_int n e))
]
number-fits (GoValue.go_negative_int64 n) = tt
number-fits (GoValue.go_uint64 n) = elim (Bool-cases (ltb max_int n)) [
  | inl e ↦ rw e tt
  | inr e ↦ rw e (omega (arith, ltb-false→le max_int n e))
]
number-fits GoValue.go_other = tt

handle-Fits :
    {A B : Type 0} (P : Outcome A → Type 0) (Q : Outcome B → Type 0) (o : Outcome A)
    (g : A → Outcome B)
    → ((a : A) → P (ok a) → Q (g a))
    → ((e : RuleError) → Q (fail e))
    → P o
    → Q (handle o fail g)
handle-Fits P Q (ok a) g f h p = f a p
handle-Fits P Q (fail e) g f h p = h e

abbrev Anything : Outcome String → Type 0
Anything o = Unit

module _ {Val : Type 0} (cel : CelValues Val) where
  replicas-fits : (v : Val) → NumberFits (replicas_value cel v)
  unfolding replicas_value
  replicas-fits v = elim (Bool-cases (cel.is_error v)) [
    | inl e ↦ rw e tt
    | inr e ↦ rw e (number-fits (cel.value v))
  ]

  field-Fits :
      (key : String) (v : Val) (r : Result)
      → Fits r.replicas
      → ResultFits (decode_field cel key v r)
  unfolding decode_field
  field-Fits key v r h = elim (Bool-cases (key == "phase")) [
    | inl e ↦
        rw e (handle-Fits Anything ResultFits (string_value cel v key) _ (λ s u. h) (λ e. tt) tt)
    | inr e ↦ elim (Bool-cases (key == "reason")) [
      | inl f ↦
          rw (e, f)
            (handle-Fits Anything ResultFits (string_value cel v key) _ (λ s u. h) (λ e. tt) tt)
      | inr f ↦ elim (Bool-cases (key == "replicas")) [
        | inl g ↦
            rw (e, f, g)
              (handle-Fits NumberFits ResultFits (replicas_value cel v) _ (λ n p. p) (λ e. tt)
                (replicas-fits v))
        | inr g ↦ rw (e, f, g) tt
      ]
    ]
  ]

  found-Fits :
      (key : String) (o : Option Val) (r : Result)
      → Fits r.replicas
      → ResultFits (decode_found cel key o r)
  unfolding decode_found
  found-Fits key none r h = tt
  found-Fits key (some v) r h = field-Fits key v r h

  key-Fits :
      (object key_value : Val) (v : GoValue) (r : Result)
      → Fits r.replicas
      → ResultFits (decode_key cel object key_value v r)
  unfolding decode_key
  key-Fits object k (GoValue.go_string key) r h = found-Fits key (cel.find object k) r h
  key-Fits object k (GoValue.go_int64 n) r h = tt
  key-Fits object k (GoValue.go_negative_int64 n) r h = tt
  key-Fits object k (GoValue.go_uint64 n) r h = tt
  key-Fits object k GoValue.go_other r h = tt

  entries-fit :
      (object : Val) (keys : List Val) (r : Result)
      → Fits r.replicas
      → ResultFits (decode_entries cel object keys r)
  unfolding decode_entries decode_entry
  entries-fit object [] r h = h
  entries-fit object (k ∷ ks) r h =
      handle-Fits ResultFits ResultFits (decode_entry cel object k r) _
        (λ r' p. entries-fit object ks r' p) (λ e. tt) (key-Fits object k (cel.value k) r h)

  object-fits : (v : Val) (keys : Option (List Val)) → OptionFits (decode_object cel v keys)
  unfolding decode_object
  object-fits v none = tt
  object-fits v (some keys) =
      handle-Fits ResultFits OptionFits (decode_entries cel v keys no_result) _ (λ r p. p) (λ e. tt)
        (entries-fit v keys no_result tt)

  pub decode-fits : (v : Option Val) → OptionFits (decode_result cel v)
  unfolding decode_result
  decode-fits none = tt
  decode-fits (some v) = elim (Bool-cases (cel.is_null v)) [
    | inl e ↦ rw e tt
    | inr e ↦ elim (Bool-cases (cel.is_error v)) [
      | inl f ↦ rw (e, f) tt
      | inr f ↦ rw (e, f) (object-fits v (cel.mapper v))
    ]
  ]
