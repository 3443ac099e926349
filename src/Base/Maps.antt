-- ===== src/Base/Maps.antt =====
-- Total maps as functions, with a write at one key.
use Prim.Native.Nat.{ℕ}
use Prim.Native.String.{String}
use text.Mathlib.Text.{◌==◌}
use opensaola.Base.Tests.{eqb, if◌then◌else◌}

module _ {ℓ} {V : Type ℓ} where
  -- A map by numbers: thread ids, addresses.
  abbrev pub update : (ℕ → V) → ℕ → V → ℕ → V
  update f i v j = if eqb i j then v else f j

  -- A map by texts.
  abbrev pub put : (String → V) → String → V → String → V
  put f k v j = if k == j then v else f j
