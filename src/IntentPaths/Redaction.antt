-- ===== src/IntentPaths/Redaction.antt =====
-- What the text of a path shows of set items and associative keys (internal/k8s/intent_merge.go).
use Prim.Native.String.{◌++◌ as ◌⁀◌}
use opensaola.Base.{ℕ, String, List, [], ◌∷◌, map, ◌≡◌, refl, ap}
use opensaola.IntentPaths.{PathElement, Path_, safe_element, redacted_fields, intent_safe_path}

module _ (f : String → String) where
  abbrev replaced_fields : List (String × String) → List (String × String)
  replaced_fields [] = []
  replaced_fields ((name, v) ∷ fs) = (name, f v) ∷ replaced_fields fs

  -- The path with every value of a key or a set item replaced, and its names and indices kept.
  abbrev pub replaced : PathElement String → PathElement String
  replaced (PathElement.field_name name) = PathElement.field_name name
  replaced (PathElement.key fields) = PathElement.key (replaced_fields fields)
  replaced (PathElement.set_item v) = PathElement.set_item (f v)
  replaced (PathElement.index i) = PathElement.index i

  redacted-replaced :
      (decimal : ℕ → String) (fs : List (String × String))
      → redacted_fields decimal (replaced_fields fs) ≡ redacted_fields decimal fs
  unfolding redacted_fields
  redacted-replaced decimal [] = refl
  redacted-replaced decimal ((name, v) ∷ []) = refl
  redacted-replaced decimal ((name, v) ∷ (n, w) ∷ fs) =
      ap (λ s. ◌⁀◌ name (◌⁀◌ "=<redacted>" (◌⁀◌ "," s))) (redacted-replaced decimal ((n, w) ∷ fs))

  element-replaced :
      (decimal : ℕ → String) (e : PathElement String)
      → safe_element decimal (replaced e) ≡ safe_element decimal e
  unfolding safe_element
  element-replaced decimal (PathElement.field_name name) = refl
  element-replaced decimal (PathElement.key fields) =
      ap (λ s. ◌⁀◌ "[" (◌⁀◌ s "]")) (redacted-replaced decimal fields)
  element-replaced decimal (PathElement.set_item v) = refl
  element-replaced decimal (PathElement.index i) = refl

  -- intentSafePath does not show the values of keys and set items: replacing the text of every
  -- one of them by its image under any function on texts leaves the written path as it is.
  pub safe_path-replaced :
      (decimal : ℕ → String) (p : Path_ String)
      → intent_safe_path decimal (map replaced p) ≡ intent_safe_path decimal p
  unfolding intent_safe_path
  safe_path-replaced decimal [] = refl
  safe_path-replaced decimal (e ∷ p) =
      rw (element-replaced decimal e, safe_path-replaced decimal p) refl
