-- ===== src/IntentPaths/Contains.antt =====
-- When a set of paths has a path or leads below it (internal/k8s/intent_merge.go).
use opensaola.Base.{
  true, ◌&&◌, [], ◌∷◌, some, ◌≡◌, ◌↔◌, refl, sym, subst, inl, inr, Bool-cases, Option-cases, arith,
}
use opensaola.IntentPaths.{
  PathElement, Path_, FieldSets, is_last, contains_from, intent_contains_path,
}
use opensaola.IntentPaths.Overlap.{IsPrefix, Reaches, not-true}

module _ {Value : Type 0} (sets : FieldSets Value) where
  descend :
      (s c : sets.Set) (e : PathElement Value) (p : Path_ Value)
      → sets.child s e ≡ some c
      → Reaches sets c p
      → Reaches sets s (e ∷ p)
  descend s c e p k ([], m, r) = absurd (sets.no_root c m)
  descend s c e p k (f ∷ q, m, r) = (e ∷ f ∷ q, (sets.child-some s c e f q k).1 m, (refl, r))

  -- A path of the set below `e ∷ p` that is longer than one element.
  abbrev Below : sets.Set → PathElement Value → Path_ Value → Type 0
  Below s e p =
      (f : PathElement Value) × (q : Path_ Value) × sets.Contains s (e ∷ f ∷ q) × IsPrefix p (f ∷ q)

  below :
      (s : sets.Set) (e : PathElement Value) (p : Path_ Value)
      → (sets.has s e ≡ true → is_last sets p ≡ true → ⊥)
      → Reaches sets s (e ∷ p)
      → Below s e p
  below s e p h ([], m, r) = absurd (sets.no_root s m)
  below s e [] h (x ∷ [], m, (d, r)) =
      absurd (h ((sets.has_iff s e).1 (subst (λ y. sets.Contains s (y ∷ [])) (sym d) m)) refl)
  below s e (g ∷ p) h (x ∷ [], m, (d, r)) = absurd r
  below s e p h (x ∷ f ∷ q, m, (d, r)) =
      (f, q, subst (λ y. sets.Contains s (y ∷ f ∷ q)) (sym d) m, r)

  contains-Reaches :
      (s : sets.Set) (p : Path_ Value) → contains_from sets s p ≡ true → Reaches sets s p
  unfolding contains_from
  contains-Reaches s [] h =
      let (q, m) = (sets.empty_iff s).0 ((not-true (sets.is_empty s)).0 h) in (q, m, tt)
  contains-Reaches s (e ∷ []) h = elim (Bool-cases (sets.has s e)) [
    | inl t ↦ (e ∷ [], (sets.has_iff s e).0 t, (refl, tt))
    | inr t ↦ elim (Option-cases (sets.child s e)) [
      | inl k ↦ absurd (ground arith)
      | inr (c, k) ↦ descend s c e [] k (contains-Reaches c [] (ground arith))
    ]
  ]
  contains-Reaches s (e ∷ f ∷ p) h = elim (Option-cases (sets.child s e)) [
    | inl k ↦ absurd (ground arith)
    | inr (c, k) ↦ descend s c e (f ∷ p) k (contains-Reaches c (f ∷ p) (ground arith))
  ]

  Reaches-contains :
      (s : sets.Set) (p : Path_ Value) → Reaches sets s p → contains_from sets s p ≡ true
  unfolding contains_from
  Reaches-contains s [] (q, m, r) = (not-true (sets.is_empty s)).1 ((sets.empty_iff s).1 (q, m))
  Reaches-contains s (e ∷ p) h = elim (Bool-cases (is_last sets p && sets.has s e)) [
    | inl t ↦ rw t refl
    | inr t ↦
        let (f, q, m, r) = below s e p (λ a b. ground arith) h in
        elim (Option-cases (sets.child s e)) [
          | inl k ↦ absurd (sets.child-none s e f q k m)
          | inr (c, k) ↦
              rw (t, k) (Reaches-contains c p (f ∷ q, (sets.child-some s c e f q k).0 m, r))
        ]
  ]

  -- intentContainsPath holds of a set and a path exactly when the path is a prefix of a path of
  -- the set.
  pub contains_iff :
      (s : sets.Set) (p : Path_ Value)
      → (intent_contains_path sets (some s) p ≡ true) ↔ Reaches sets s p
  unfolding intent_contains_path
  contains_iff s p = (contains-Reaches s p, Reaches-contains s p)
