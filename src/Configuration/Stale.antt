-- ===== src/Configuration/Stale.antt =====
-- Which entries of the previous inventory are collected for cleanup
-- (internal/service/middlewareconfiguration/inventory.go).
use mathlib.Core.List.{Memᴰ}
use opensaola.Base.{
  String, ◌==◌, eq_iff, eq_refl, Bool, true, false, List, [], ◌∷◌, Option, none, some, Dict, lookup,
  lookup-insert, ◌≡◌, ◌≢◌, ◌⊎◌, inl, inr, refl, sym, subst, All, Option-cases, arith,
}
use opensaola.Configuration.{RenderedResource}
use opensaola.Configuration.Inventory.{
  rendered_configuration_resource_key, current_keys, add_stale, collect_stale,
}

-- `none` in the map of current keys: no currently rendered resource has the key.
pub current_keys-none :
    (k : String) (rs : List RenderedResource)
    → lookup k (current_keys rs) ≡ none
    → k ≢ ""
    → All (λ r. rendered_configuration_resource_key r ≢ k) rs
unfolding current_keys
current_keys-none k [] h n = tt
current_keys-none k (r ∷ rs) h n = (
  ground (
    arith,
    lookup-insert (rendered_configuration_resource_key r) k r (current_keys rs),
    eq_iff (rendered_configuration_resource_key r) k,
    eq_iff (rendered_configuration_resource_key r) "",
  ),
  current_keys-none k rs
      (ground (arith, lookup-insert (rendered_configuration_resource_key r) k r (current_keys rs)))
      n,
)

abbrev key_of : RenderedResource → String
key_of = rendered_configuration_resource_key

-- What every collected entry is: one of the previous inventory, under its own key, which is not
-- empty and is not rendered any more.
pub record IsStale (current : Dict RenderedResource) (previous : List RenderedResource) (k : String)
    (r : RenderedResource) : Type 0 where
  pub listed : Memᴰ r previous
  pub keyed : rendered_configuration_resource_key r ≡ k
  pub valid : (k == "") ≡ false
  pub gone : lookup k current ≡ none

-- There is an entry, and it opted into deletion.
abbrev pub is_opted : Option RenderedResource → Bool
is_opted none = false
is_opted (some r) = r.disable_policy == "delete"

module _ (current : Dict RenderedResource) where
  -- A round leaves an entry as it was, or puts the new one under its key.
  add_stale-cases :
      (stale : Dict RenderedResource) (r : RenderedResource) (k : String) (x : RenderedResource)
      → lookup k (add_stale current stale r) ≡ some x
      → (lookup k stale ≡ some x)
        ⊎ ((x ≡ r) × (key_of r ≡ k) × ((k == "") ≡ false) × (lookup k current ≡ none))
  unfolding add_stale
  add_stale-cases stale r k x e = ground (
    arith,
    lookup-insert (key_of r) k r stale,
    eq_iff (key_of r) k,
    Option-cases (lookup (key_of r) current),
  )

  module _ (Q : String → RenderedResource → Type 0) where
    collect_keeps :
        (stale : Dict RenderedResource) (rs : List RenderedResource)
        → ((k : String) (x : RenderedResource) → lookup k stale ≡ some x → Q k x)
        → All
            (λ r. ((key_of r == "") ≡ false) → lookup (key_of r) current ≡ none → Q (key_of r) r)
            rs
        → (k : String) (x : RenderedResource) → lookup k (collect_stale current stale rs) ≡ some x
        → Q k x
    unfolding collect_stale
    collect_keeps stale [] q a k x e = q k x e
    collect_keeps stale (r ∷ rs) q a k x e =
        collect_keeps (add_stale current stale r) rs
          (λ j y f. elim (add_stale-cases stale r j y f) [
            | inl old ↦ q j y old
            | inr (p, p', v, g) ↦ subst (Q j) (sym p) (
                subst (λ z. Q z r) p'
                  (a.0 (subst (λ z. (z == "") ≡ false) (sym p') v)
                    (subst (λ z. lookup z current ≡ none) (sym p') g)))
          ])
          a.1 k x e

  each_member :
      (previous rs : List RenderedResource)
      → ((r : RenderedResource) → Memᴰ r rs → Memᴰ r previous)
      → All
          (λ r.
            ((key_of r == "") ≡ false)
            → lookup (key_of r) current ≡ none
            → IsStale current previous (key_of r) r)
          rs
  each_member previous [] m = tt
  each_member previous (r ∷ rs) m = (
    λ v g. record { listed = m r (Memᴰ.head refl); keyed = refl; valid = v; gone = g },
    each_member previous rs (λ x h. m x (Memᴰ.tail h)),
  )

  pub collect-IsStale :
      (previous : List RenderedResource) (k : String) (r : RenderedResource)
      → lookup k (collect_stale current [] previous) ≡ some r
      → IsStale current previous k r
  unfolding lookup
  collect-IsStale previous k r e =
      collect_keeps (IsStale current previous) [] previous (λ j y f. cc)
        (each_member previous previous (λ x h. h)) k r e

  add_stale-keeps :
      (k : String) (stale : Dict RenderedResource) (r : RenderedResource)
      → is_opted (lookup k stale) ≡ true
      → is_opted (lookup k (add_stale current stale r)) ≡ true
  unfolding add_stale
  add_stale-keeps k stale r o =
      ground (arith, lookup-insert (key_of r) k r stale, eq_iff (key_of r) k)

  add_stale-opts :
      (stale : Dict RenderedResource) (r : RenderedResource)
      → (key_of r == "") ≡ false
      → lookup (key_of r) current ≡ none
      → (r.disable_policy == "delete") ≡ true
      → is_opted (lookup (key_of r) (add_stale current stale r)) ≡ true
  unfolding add_stale
  add_stale-opts stale r v g d =
      ground (arith, lookup-insert (key_of r) (key_of r) r stale, eq_refl (key_of r))

  collect-keeps_opted :
      (k : String) (stale : Dict RenderedResource) (rs : List RenderedResource)
      → is_opted (lookup k stale) ≡ true
      → is_opted (lookup k (collect_stale current stale rs)) ≡ true
  unfolding collect_stale
  collect-keeps_opted k stale [] o = o
  collect-keeps_opted k stale (r ∷ rs) o =
      collect-keeps_opted k (add_stale current stale r) rs (add_stale-keeps k stale r o)

  collect_opted :
      (stale : Dict RenderedResource) (rs : List RenderedResource) (r : RenderedResource)
      → Memᴰ r rs
      → (key_of r == "") ≡ false
      → lookup (key_of r) current ≡ none
      → (r.disable_policy == "delete") ≡ true
      → is_opted (lookup (key_of r) (collect_stale current stale rs)) ≡ true
  unfolding collect_stale
  collect_opted stale [] r m v g d = elim m [ ]
  collect_opted stale (x ∷ rs) r (Memᴰ.head p) v g d =
      collect-keeps_opted (key_of r) (add_stale current stale x) rs (
        subst (λ y. is_opted (lookup (key_of r) (add_stale current stale y)) ≡ true) p
          (add_stale-opts stale r v g d))
  collect_opted stale (x ∷ rs) r (Memᴰ.tail m) v g d =
      collect_opted (add_stale current stale x) rs r m v g d

-- Every entry of the previous inventory that opted into deletion, has a complete identity and is
-- not rendered any more is collected, under its key, with a delete policy, whatever duplicates of
-- it with other policies the inventory has.
pub stale_complete :
    (currently_rendered previous : List RenderedResource) (r : RenderedResource)
    → Memᴰ r previous
    → (rendered_configuration_resource_key r == "") ≡ false
    → lookup (rendered_configuration_resource_key r) (current_keys currently_rendered) ≡ none
    → (r.disable_policy == "delete") ≡ true
    → is_opted (
        lookup
          (rendered_configuration_resource_key r)
          (collect_stale (current_keys currently_rendered) [] previous))
      ≡ true
stale_complete currently_rendered previous r m v g d =
    collect_opted (current_keys currently_rendered) [] previous r m v g d
