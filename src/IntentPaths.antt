-- ===== src/IntentPaths.antt =====
-- internal/k8s/intent_merge.go: how a path relates to a set of paths, and what of a path may be
-- shown. The sets of structured-merge-diff are a parameter: a set has members, one element long, and
-- a child set under an element.
pub mod Overlap
pub mod Contains
pub mod Redaction
use Prim.Native.String.{◌++◌ as ◌⁀◌}
use opensaola.Base.{
  ℕ, String, Bool, true, false, not, ◌&&◌, List, [], ◌∷◌, Option, none, some, if◌then◌else◌, ◌≡◌,
  ◌↔◌,
}

-- fieldpath.PathElement; a key is the list of its fields' names and values.
pub data PathElement (Value : Type 0) : Type 0 where
  field_name : String → PathElement Value
  key : List (String × Value) → PathElement Value
  set_item : Value → PathElement Value
  index : ℕ → PathElement Value

abbrev pub Path_ : Type 0 → Type 0
Path_ Value = List (PathElement Value)

-- fieldpath.Set: Members.Has, Children.Get and Empty; `Contains` is the set of paths that it stands
-- for, all of them with at least one element.
pub record FieldSets (Value : Type 0) : Type 1 where
  pub Set : Type 0
  pub has : Set → PathElement Value → Bool
  pub child : Set → PathElement Value → Option Set
  pub is_empty : Set → Bool
  pub Contains : Set → Path_ Value → Type 0
  pub has_iff : (s : Set) (e : PathElement Value) → (has s e ≡ true) ↔ Contains s (e ∷ [])
  pub child-some :
      (s c : Set) (e f : PathElement Value) (p : Path_ Value)
      → child s e ≡ some c
      → Contains s (e ∷ f ∷ p) ↔ Contains c (f ∷ p)
  pub child-none :
      (s : Set) (e f : PathElement Value) (p : Path_ Value)
      → child s e ≡ none
      → Contains s (e ∷ f ∷ p)
      → ⊥
  pub no_root : (s : Set) → Contains s [] → ⊥
  pub empty_iff : (s : Set) → (is_empty s ≡ false) ↔ ((p : Path_ Value) × Contains s p)

module _ {Value : Type 0} (sets : FieldSets Value) where
  -- The loop over the path, from the set on that it has reached.
  unfoldable pub overlaps_from : sets.Set → Path_ Value → Bool
  overlaps_from s [] = not (sets.is_empty s)
  overlaps_from s (e ∷ p) =
      if sets.has s e
      then true
      else elim (sets.child s e) [ none ↦ false | some c ↦ overlaps_from c p ]

  -- A nil set is `none`.
  unfoldable pub intent_paths_overlap : Option sets.Set → Path_ Value → Bool
  intent_paths_overlap none p = false
  intent_paths_overlap (some s) p = overlaps_from s p

  abbrev pub is_last : Path_ Value → Bool
  is_last [] = true
  is_last (e ∷ p) = false

  unfoldable pub contains_from : sets.Set → Path_ Value → Bool
  contains_from s [] = not (sets.is_empty s)
  contains_from s (e ∷ p) =
      if is_last p && sets.has s e
      then true
      else elim (sets.child s e) [ none ↦ false | some c ↦ contains_from c p ]

  unfoldable pub intent_contains_path : Option sets.Set → Path_ Value → Bool
  intent_contains_path none p = false
  intent_contains_path (some s) p = contains_from s p

-- A value is its text here, as a writer would print it.
module _ (decimal : ℕ → String) where
  -- The names of a key's fields, each with its value redacted.
  redacted_fields : List (String × String) → String
  redacted_fields [] = ""
  redacted_fields ((name, v) ∷ []) = ◌⁀◌ name "=<redacted>"
  redacted_fields ((name, v) ∷ f ∷ fs) =
      ◌⁀◌ name (◌⁀◌ "=<redacted>" (◌⁀◌ "," (redacted_fields (f ∷ fs))))

  unfoldable pub safe_element : PathElement String → String
  unfolding redacted_fields
  safe_element (field_name name) = ◌⁀◌ "." name
  safe_element (key fields) = ◌⁀◌ "[" (◌⁀◌ (redacted_fields fields) "]")
  safe_element (set_item v) = "[set-item]"
  safe_element (index i) = ◌⁀◌ "[" (◌⁀◌ (decimal i) "]")

  unfoldable pub intent_safe_path : Path_ String → String
  intent_safe_path [] = ""
  intent_safe_path (e ∷ p) = ◌⁀◌ (safe_element e) (intent_safe_path p)
