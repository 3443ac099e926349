-- ===== src/StatusRule.antt =====
-- internal/service/statusrule/statusrule.go: what a CEL rule may return, how it is decoded and
-- overlaid on the projected status, and the `latestTrueCondition` function of the rules' environment.
-- The values of cel-go and `time.Parse` are parameters.
pub mod Latest
pub mod Decode
pub mod Compile
pub mod Cache
pub mod Evaluate
pub mod Declared
use opensaola.Base.{
  ℕ, String, ◌==◌, Bool, true, false, ◌||◌, ◌&&◌, not, List, [], ◌∷◌, Option, none, some, ltb,
  if◌then◌else◌,
}
use opensaola.Api.{Phase, phase_of}

-- The projected status, with the fields that no rule can set as one value `rest`.
pub record CustomResources (Rest : Type 0) : Type 0 where
  pub phase : Phase
  pub reason : String
  pub replicas : ℕ
  pub rest : Rest

pub record Result : Type 0 where
  pub phase : Option String
  pub reason : Option String
  pub replicas : Option ℕ

abbrev pub no_result : Result
no_result = record { phase = none; reason = none; replicas = none }

unfoldable pub apply : {Rest : Type 0} → Result → CustomResources Rest → CustomResources Rest
apply r target = record target {
  phase = elim r.phase [ none ↦ target.phase | some p ↦ phase_of p ];
  reason = elim r.reason [ none ↦ target.reason | some s ↦ s ];
  replicas = elim r.replicas [ none ↦ target.replicas | some n ↦ n ];
}

pub data RuleError : Type 0 where
  empty lost_key key_not_a_string not_an_object failed_value : RuleError
  too_many too_long : ℕ → RuleError
  field_failed field_type unsupported_key : String → RuleError
  engine : String → RuleError
  at_rule in_evaluation in_result : ℕ → RuleError → RuleError

pub data Outcome (A : Type 0) : Type 0 where
  ok : A → Outcome A
  fail : RuleError → Outcome A

-- `if err != nil { ... }` and what comes after it.
abbrev pub handle : {A B : Type 0} → Outcome A → (RuleError → B) → (A → B) → B
handle (ok a) f g = g a
handle (fail e) f g = f e

-- The Go value in a CEL value: `value.Value()` with its dynamic type. A negative number is one
-- below minus the number kept.
pub data GoValue : Type 0 where
  go_string : String → GoValue
  go_int64 go_negative_int64 go_uint64 : ℕ → GoValue
  go_other : GoValue

-- int64(^uint(0) >> 1) where an int has 64 bits
abbrev pub max_int : ℕ
max_int = 9223372036854775807

-- The `switch` of replicasValue on the type of the Go value.
unfoldable pub int_value : GoValue → Outcome ℕ
int_value (go_int64 n) = if ltb max_int n then fail (field_type "replicas") else ok n
int_value (go_uint64 n) = if ltb max_int n then fail (field_type "replicas") else ok n
int_value _ = fail (field_type "replicas")

-- cel-go's values: Type() == NullType, IsError, Value(), the keys of a traits.Mapper and Find, the
-- elements of a traits.Lister, types.String and types.NullValue.
pub record CelValues (Val : Type 0) : Type 0 where
  pub is_null : Val → Bool
  pub is_error : Val → Bool
  pub value : Val → GoValue
  pub mapper : Val → Option (List Val)
  pub find : Val → Val → Option Val
  pub lister : Val → Option (List Val)
  pub string : String → Val
  pub null : Val

-- (!latestHasTime && hasTime) || (hasTime && latestHasTime && transitionTime.After(latestTime))
abbrev pub is_newer : Option ℕ → Option ℕ → Bool
is_newer none old = false
is_newer (some t) none = true
is_newer (some t) (some u) = ltb u t

module _ {Val : Type 0} (cel : CelValues Val) where
  unfoldable pub string_value : Val → String → Outcome String
  string_value v name =
      if cel.is_error v
      then fail (field_failed name)
      else elim (cel.value v) [ go_string s ↦ ok s | _ ↦ fail (field_type name) ]

  unfoldable pub replicas_value : Val → Outcome ℕ
  unfolding int_value
  replicas_value v =
      if cel.is_error v then fail (field_failed "replicas") else int_value (cel.value v)

  -- The `switch` on a key of the result object.
  unfoldable pub decode_field : String → Val → Result → Outcome Result
  decode_field key v r =
      if key == "phase"
      then handle (string_value v key) fail (λ s. ok (record r { phase = some s }))
      else if key == "reason"
      then handle (string_value v key) fail (λ s. ok (record r { reason = some s }))
      else if key == "replicas"
      then handle (replicas_value v) fail (λ n. ok (record r { replicas = some n }))
      else fail (unsupported_key key)

  unfoldable pub decode_found : String → Option Val → Result → Outcome Result
  decode_found key none r = fail lost_key
  decode_found key (some v) r = decode_field key v r

  unfoldable pub decode_key : Val → Val → GoValue → Result → Outcome Result
  decode_key object key_value (go_string key) r = decode_found key (cel.find object key_value) r
  decode_key object key_value _ r = fail key_not_a_string

  -- One round of the loop over the keys of `object`.
  unfoldable pub decode_entry : Val → Val → Result → Outcome Result
  decode_entry object key_value r = decode_key object key_value (cel.value key_value) r

  unfoldable pub decode_entries : Val → List Val → Result → Outcome Result
  decode_entries object [] r = ok r
  decode_entries object (k ∷ ks) r =
      handle (decode_entry object k r) fail (λ r'. decode_entries object ks r')

  unfoldable pub decode_object : Val → Option (List Val) → Outcome (Option Result)
  decode_object v none = fail not_an_object
  decode_object v (some keys) = handle (decode_entries v keys no_result) fail (λ r. ok (some r))

  -- A nil value is `none`; `ok none` is a rule that did not apply.
  unfoldable pub decode_result : Option Val → Outcome (Option Result)
  decode_result none = ok none
  decode_result (some v) =
      if cel.is_null v
      then ok none
      else if cel.is_error v
      then fail failed_value
      else decode_object v (cel.mapper v)

  -- The empty text where the field cannot be read.
  unfoldable pub condition_field : Val → String → String
  condition_field condition field = elim (cel.mapper condition) [
    | none ↦ ""
    | some keys ↦ elim (cel.find condition (cel.string field)) [
      | none ↦ ""
      | some v ↦ if cel.is_error v then "" else elim (cel.value v) [ go_string s ↦ s | _ ↦ "" ]
    ]
  ]

  -- time.Parse(time.RFC3339Nano, ...), an instant as a number on one scale.
  module _ (parse_time : String → Option ℕ) where
    unfoldable pub is_true_condition : Val → Bool
    is_true_condition c = condition_field c "status" == "True"

    unfoldable pub transition_time : Val → Option ℕ
    transition_time c = parse_time (condition_field c "lastTransitionTime")

    -- latest, latestTime, latestHasTime; `none` where !found
    abbrev pub Found : Type 0
    Found = Option (Val × Option ℕ)

    unfoldable pub consider : Val → Found → Found
    consider c found =
        if is_true_condition c
        then elim found [
          | none ↦ some (c, transition_time c)
          | some (l, t) ↦
              if is_newer (transition_time c) t then some (c, transition_time c) else some (l, t)
        ]
        else found

    unfoldable pub latest : List Val → Found → Found
    latest [] found = found
    latest (c ∷ cs) found = latest cs (consider c found)

    -- Null where the argument is no list, or no condition is found.
    unfoldable pub picked : Found → Val
    picked none = cel.null
    picked (some (c, t)) = c

    unfoldable pub latest_of : Option (List Val) → Val
    latest_of none = cel.null
    latest_of (some cs) = picked (latest cs none)

    unfoldable pub latest_true_condition : Val → Val
    latest_true_condition argument = latest_of (cel.lister argument)
