-- ===== src/IntentPaths/Overlap.antt =====
-- What the two tests of a path against a set say (internal/k8s/intent_merge.go).
use opensaola.Base.{
  Bool, true, false, not, List, [], ◌∷◌, none, some, ◌≡◌, ◌⊎◌, ◌↔◌, refl, sym, subst, inl, inr,
  Bool-cases, Option-cases, arith,
}
use opensaola.IntentPaths.{PathElement, Path_, FieldSets, overlaps_from, intent_paths_overlap}

abbrev pub IsPrefix : {A : Type 0} → List A → List A → Type 0
IsPrefix [] q = Unit
IsPrefix (x ∷ p) [] = ⊥
IsPrefix (x ∷ p) (y ∷ q) = (x ≡ y) × IsPrefix p q

pub not-true : (b : Bool) → (not b ≡ true) ↔ (b ≡ false)
not-true true = (λ e. absurd (ground arith), λ e. absurd (ground arith))
not-true false = (λ e. refl, λ e. refl)

no-some : {A : Type 0} {a : A} → (none ≡ some a) → ⊥
no-some e = ground arith

module _ {Value : Type 0} (sets : FieldSets Value) where
  -- A path of the set leads to `p`, or `p` leads to a path of the set.
  abbrev pub Meets : sets.Set → Path_ Value → Type 0
  Meets s p = (q : Path_ Value) × sets.Contains s q × (IsPrefix q p ⊎ IsPrefix p q)

  -- `p` leads to a path of the set.
  abbrev pub Reaches : sets.Set → Path_ Value → Type 0
  Reaches s p = (q : Path_ Value) × sets.Contains s q × IsPrefix p q

  same_head :
      (x e : PathElement Value) (q p : Path_ Value)
      → IsPrefix (x ∷ q) (e ∷ p) ⊎ IsPrefix (e ∷ p) (x ∷ q)
      → x ≡ e
  same_head x e q p (inl (d, r)) = d
  same_head x e q p (inr (d, r)) = sym d

  tails :
      (x e : PathElement Value) (q p : Path_ Value)
      → IsPrefix (x ∷ q) (e ∷ p) ⊎ IsPrefix (e ∷ p) (x ∷ q)
      → IsPrefix q p ⊎ IsPrefix p q
  tails x e q p (inl (d, r)) = inl r
  tails x e q p (inr (d, r)) = inr r

  heads :
      (e : PathElement Value) (q p : Path_ Value)
      → IsPrefix q p ⊎ IsPrefix p q
      → IsPrefix (e ∷ q) (e ∷ p) ⊎ IsPrefix (e ∷ p) (e ∷ q)
  heads e q p (inl r) = inl (refl, r)
  heads e q p (inr r) = inr (refl, r)

  no_member :
      (s : sets.Set) (e x : PathElement Value)
      → sets.has s e ≡ false
      → x ≡ e
      → sets.Contains s (x ∷ [])
      → ⊥
  no_member s e x h d m =
      let t = (sets.has_iff s e).1 (subst (λ y. sets.Contains s (y ∷ [])) d m) in ground arith

  -- Under an element that is no member, the paths of the child set decide.
  descend :
      (s c : sets.Set) (e : PathElement Value) (p : Path_ Value)
      → sets.child s e ≡ some c
      → Meets c p
      → Meets s (e ∷ p)
  descend s c e p k ([], m, r) = absurd (sets.no_root c m)
  descend s c e p k (f ∷ q, m, r) =
      (e ∷ f ∷ q, (sets.child-some s c e f q k).1 m, heads e (f ∷ q) p r)

  ascend :
      (s c : sets.Set) (e : PathElement Value) (p : Path_ Value)
      → sets.has s e ≡ false
      → sets.child s e ≡ some c
      → Meets s (e ∷ p)
      → Meets c p
  ascend s c e p h k ([], m, r) = absurd (sets.no_root s m)
  ascend s c e p h k (x ∷ [], m, r) = absurd (no_member s e x h (same_head x e [] p r) m)
  ascend s c e p h k (x ∷ f ∷ q, m, r) = (
    f ∷ q,
    (sets.child-some s c e f q k).0
        (subst (λ y. sets.Contains s (y ∷ f ∷ q)) (same_head x e (f ∷ q) p r) m),
    tails x e (f ∷ q) p r,
  )

  childless :
      (s : sets.Set) (e : PathElement Value) (p : Path_ Value)
      → sets.has s e ≡ false
      → sets.child s e ≡ none
      → Meets s (e ∷ p)
      → ⊥
  childless s e p h k ([], m, r) = sets.no_root s m
  childless s e p h k (x ∷ [], m, r) = no_member s e x h (same_head x e [] p r) m
  childless s e p h k (x ∷ f ∷ q, m, r) =
      sets.child-none s e f q k
        (subst (λ y. sets.Contains s (y ∷ f ∷ q)) (same_head x e (f ∷ q) p r) m)

  overlaps-Meets : (s : sets.Set) (p : Path_ Value) → overlaps_from sets s p ≡ true → Meets s p
  unfolding overlaps_from
  overlaps-Meets s [] h =
      let (q, m) = (sets.empty_iff s).0 ((not-true (sets.is_empty s)).0 h) in (q, m, inr tt)
  overlaps-Meets s (e ∷ p) h = elim (Bool-cases (sets.has s e)) [
    | inl t ↦ (e ∷ [], (sets.has_iff s e).0 t, inl (refl, tt))
    | inr t ↦ elim (Option-cases (sets.child s e)) [
      | inl k ↦ absurd (ground arith)
      | inr (c, k) ↦ descend s c e p k (overlaps-Meets c p (ground arith))
    ]
  ]

  Meets-overlaps : (s : sets.Set) (p : Path_ Value) → Meets s p → overlaps_from sets s p ≡ true
  unfolding overlaps_from
  Meets-overlaps s [] (q, m, r) = (not-true (sets.is_empty s)).1 ((sets.empty_iff s).1 (q, m))
  Meets-overlaps s (e ∷ p) h = elim (Bool-cases (sets.has s e)) [
    | inl t ↦ rw t refl
    | inr t ↦ elim (Option-cases (sets.child s e)) [
      | inl k ↦ absurd (childless s e p t k h)
      | inr (c, k) ↦ rw (t, k) (Meets-overlaps c p (ascend s c e p t k h))
    ]
  ]

  -- intentPathsOverlap holds of a set and a path exactly when a path of the set is a prefix of
  -- the path, or the path is a prefix of a path of the set.
  pub overlap_iff :
      (s : sets.Set) (p : Path_ Value) → (intent_paths_overlap sets (some s) p ≡ true) ↔ Meets s p
  unfolding intent_paths_overlap
  overlap_iff s p = (overlaps-Meets s p, Meets-overlaps s p)
