-- ===== src/Base/Assoc.antt =====
-- Go's `map[string]V` as an association list: reads, writes and deletions by key.
use Prim.Native.String.{String}
use mathlib.Core.Bool.{false}
use mathlib.Core.Path.{◌≡◌, refl}
use text.Mathlib.TextPositions.{eq_refl}
use mathlib.Core.Option.{Option, none, some}
use mathlib.Core.List.{List, [], ◌∷◌}
use native.Mathlib.Omega.{arith}
use text.Mathlib.Text.{◌==◌}
use text.Mathlib.TextEquality.{eq_iff}
use opensaola.Base.Tests.{if◌then◌else◌}

abbrev pub Dict {ℓ} : Type ℓ → Type ℓ
Dict V = List (String × V)

module _ {ℓ} {V : Type ℓ} where
  -- `v, ok := m[key]`
  unfoldable pub lookup : String → Dict V → Option V
  lookup key [] = none
  lookup key ((at, x) ∷ rest) = let later = lookup key rest in if at == key then some x else later

  -- `m[key] = x`
  unfoldable pub insert : String → V → Dict V → Dict V
  insert key x [] = (key, x) ∷ []
  insert key x ((at, y) ∷ rest) =
      let later = insert key x rest in if at == key then (key, x) ∷ rest else (at, y) ∷ later

  unfoldable pub delete : String → Dict V → Dict V
  delete key [] = []
  delete key ((at, x) ∷ rest) =
      let later = delete key rest in if at == key then later else (at, x) ∷ later

  pub lookup-insert :
      (written read : String) (x : V) (d : Dict V)
      → lookup read (insert written x d) ≡ (if written == read then some x else lookup read d)
  unfolding lookup insert
  lookup-insert written read x [] = refl
  lookup-insert written read x ((at, y) ∷ rest) =
      let same = eq_iff at in
      ground
        (arith, lookup-insert written read x rest, same written, same read, eq_iff written read)

  pub lookup-delete :
      (deleted read : String) (d : Dict V)
      → lookup read (delete deleted d) ≡ (if deleted == read then none else lookup read d)
  unfolding lookup delete
  lookup-delete deleted read [] = ground arith
  lookup-delete deleted read ((at, x) ∷ rest) = ground (
    arith,
    eq_iff at deleted,
    eq_iff at read,
    eq_iff deleted read,
    lookup-delete deleted read rest,
  )

abbrev pub or_empty : Option String → String
or_empty none = ""
or_empty (some v) = v

-- `m[k]` of a `map[string]string`: the empty text where the key is missing.
unfoldable pub value_at : String → Dict String → String
value_at k m = or_empty (lookup k m)

-- A deleted key reads as the empty text, and no other key is touched.
pub value_at-delete_self : (k : String) (m : Dict String) → value_at k (delete k m) ≡ ""
unfolding value_at
value_at-delete_self k m = rw (lookup-delete k k m, eq_refl k) refl

pub value_at-delete_other :
    (k j : String) (m : Dict String) → (k == j) ≡ false → value_at j (delete k m) ≡ value_at j m
unfolding value_at
value_at-delete_other k j m h = rw (lookup-delete k j m, h) refl
