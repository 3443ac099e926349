-- ===== src/Readiness/Messages.antt =====
-- internal/service/synchronizer/readiness_diagnostic.go: whether a scheduler message, in lower case
-- and trimmed, names unbound volume claims and nothing else; with what it uses of Go's `strings`.
use Prim.Native.Char.{Char, code}
use text.Mathlib.Text.{starts_with}
use opensaola.Base.{
  String, ◌==◌, Bool, true, false, not, ◌||◌, List, [], ◌∷◌, Option, none, some, keep, eqb,
  if◌then◌else◌,
}

-- strings.Contains
abbrev contains : String → String → Bool
contains String.[] t = t == ""
contains (String.◌∷◌ c s) t = starts_with (String.◌∷◌ c s) t || contains s t

-- The text after a prefix.
abbrev after_prefix : String → String → String
after_prefix s String.[] = s
after_prefix String.[] (String.◌∷◌ d t) = String.[]
after_prefix (String.◌∷◌ c s) (String.◌∷◌ d t) = after_prefix s t

abbrev prepend : Char → Option (String × String) → Option (String × String)
prepend c none = none
prepend c (some (a, b)) = some (String.◌∷◌ c a, b)

-- strings.Cut at a separator that is not empty
abbrev cut : String → String → Option (String × String)
cut String.[] sep = none
cut (String.◌∷◌ c s) sep =
    let rest = cut s sep in
    if starts_with (String.◌∷◌ c s) sep
    then some (String.[], after_prefix (String.◌∷◌ c s) sep)
    else prepend c rest

abbrev push : Char → List String → List String
push c [] = String.◌∷◌ c String.[] ∷ []
push c (s ∷ ss) = String.◌∷◌ c s ∷ ss

-- The pieces between commas and semicolons, and those of them that are not empty: strings.FieldsFunc.
abbrev pieces : String → List String
pieces String.[] = String.[] ∷ []
pieces (String.◌∷◌ c s) =
    let rest = pieces s in
    if eqb (code c) 44 || eqb (code c) 59 then String.[] ∷ rest else push c rest

abbrev fields : String → List String
unfolding keep
fields s = keep (λ x. not (x == "")) (pieces s)

abbrev pvc_binding_reason : String
pvc_binding_reason = "pod has unbound immediate persistentvolumeclaims"

-- The loop over the reasons, with `hasPVCBindingReason`.
abbrev are_pvc_binding : List String → Bool → Bool
are_pvc_binding [] has = has
are_pvc_binding (r ∷ rs) has =
    if not (contains r pvc_binding_reason) then false else are_pvc_binding rs true

abbrev after_colon : String → String
after_colon message = elim (cut message ":") [ none ↦ message | some (a, b) ↦ b ]

abbrev before_preemption : String → String
before_preemption message = elim (cut message ". preemption:") [ none ↦ message | some (a, b) ↦ a ]

unfoldable pub is_pvc_binding_only : String → Bool
unfolding fields
is_pvc_binding_only message =
    if not (contains message pvc_binding_reason)
    then false
    else are_pvc_binding (fields (before_preemption (after_colon message))) false
