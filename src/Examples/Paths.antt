-- ===== src/Examples/Paths.antt =====
-- Paths of intents over concrete sets: the set of a number has all the paths of that length.
use opensaola.Base.{
  ℕ, zero, suc, ◌≤◌, String, true, false, [], ◌∷◌, map, length, Option, none, some, eqb, ◌≡◌, ◌↔◌,
  refl, arith,
}
use opensaola.IntentPaths.{
  PathElement, Path_, FieldSets, intent_paths_overlap, intent_contains_path, intent_safe_path,
}
use opensaola.IntentPaths.Overlap.{Meets, Reaches, overlap_iff}
use opensaola.IntentPaths.Contains.{contains_iff}
use opensaola.IntentPaths.Redaction.{replaced, safe_path-replaced}

abbrev HasLength : ℕ → Path_ String → Type 0
HasLength n p = (length p ≡ n) × (1 ≤ n)

abbrev child_of : ℕ → PathElement String → Option ℕ
child_of (suc (suc n)) e = some (suc n)
child_of n e = none

child_of-some :
    (s c : ℕ) (e f : PathElement String) (p : Path_ String)
    → child_of s e ≡ some c
    → HasLength s (e ∷ f ∷ p) ↔ HasLength c (f ∷ p)
child_of-some zero c e f p k = absurd (ground arith)
child_of-some (suc zero) c e f p k = absurd (ground arith)
child_of-some (suc (suc n)) c e f p k =
    let d = some-eq k in
    (λ h. (omega (arith, h.0, d), omega (arith, d)), λ h. (omega (arith, h.0, d), omega arith))
  where
    some-eq : some (suc n) ≡ some c → suc n ≡ c
    some-eq x = cc

child_of-none :
    (s : ℕ) (e f : PathElement String) (p : Path_ String)
    → child_of s e ≡ none
    → HasLength s (e ∷ f ∷ p)
    → ⊥
child_of-none zero e f p k h = omega (arith, h.1)
child_of-none (suc zero) e f p k h = omega (arith, h.0)
child_of-none (suc (suc n)) e f p k h = ground arith

path_of : (n : ℕ) → (p : Path_ String) × (length p ≡ n)
path_of zero = ([], refl)
path_of (suc n) = let (p, e) = path_of n in (PathElement.index 0 ∷ p, omega (arith, e))

nonempty_iff : (s : ℕ) → (eqb s 0 ≡ false) ↔ ((p : Path_ String) × HasLength s p)
nonempty_iff s = (
  λ h. let (p, e) = path_of s in (p, (e, ground arith)),
  λ (p, h). let (e, l) = h in ground arith,
)

member_iff : (s : ℕ) (e : PathElement String) → (eqb s 1 ≡ true) ↔ HasLength s (e ∷ [])
member_iff s e = (λ h. (ground arith, ground arith), λ h. ground (arith, h.0))

rootless : (s : ℕ) → HasLength s [] → ⊥
rootless s h = omega (arith, h.0, h.1)

abbrev lengths : FieldSets String
lengths = record {
  Set = ℕ;
  has = λ s e. eqb s 1;
  child = child_of;
  is_empty = λ s. eqb s 0;
  Contains = HasLength;
  has_iff = member_iff;
  child-some = child_of-some;
  child-none = child_of-none;
  no_root = rootless;
  empty_iff = nonempty_iff;
}

abbrev example_path : Path_ String
example_path = PathElement.field_name "env" ∷ PathElement.key (("name", "PASSWORD") ∷ []) ∷ []

overlap_iff_example :
    (intent_paths_overlap lengths (some 3) example_path ≡ true) ↔ Meets lengths 3 example_path
overlap_iff_example = overlap_iff lengths 3 example_path

contains_iff_example :
    (intent_contains_path lengths (some 3) example_path ≡ true) ↔ Reaches lengths 3 example_path
contains_iff_example = contains_iff lengths 3 example_path

abbrev hide : String → String
hide v = "x"

abbrev no_digits : ℕ → String
no_digits n = "n"

safe_path-replaced_example :
    intent_safe_path no_digits (map (replaced hide) example_path)
    ≡ intent_safe_path no_digits example_path
safe_path-replaced_example = safe_path-replaced hide no_digits example_path
