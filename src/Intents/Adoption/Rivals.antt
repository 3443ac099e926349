-- ===== src/Intents/Adoption/Rivals.antt =====
-- A claimant that passes the check is no rival (internal/k8s/configuration_adoption.go).
use opensaola.Base.{
  String, ◌==◌, eq_iff, ◌≢◌, any, Bool, true, false, not, ◌&&◌, List, [], ◌∷◌, Option, none, some,
  All, ◌≡◌, ◌⊎◌, inl, inr, refl, Bool-cases, if◌then◌else◌, arith,
}
use opensaola.Configuration.{RenderedResource}
use opensaola.Intents.{WriteOwner, Rendered, WriteError, owner_mismatch, ok}
use opensaola.Intents.Adoption.{
  Claimant, Owners, references_source, claims_directly, read_claim, check_claimant, first_error,
  check_all, check_lists, unclaimed, is_entry_of,
}

abbrev names_source : String → Option (List String) → Bool
names_source configuration none = true
names_source configuration (some cs) = references_source configuration cs

-- No element has a property that the test detects.
any-none :
    {A : Type 0} (p : A → Bool) (P : A → Type 0)
    → ((x : A) → P x → p x ≡ true)
    → (xs : List A) → any p xs ≡ false
    → All (λ x. ¬ P x) xs
unfolding any
any-none p P f [] e = tt
any-none p P f (x ∷ xs) e = (λ h. ground (arith, f x h), any-none p P f xs (ground arith))

no_claim :
    (direct named : Bool) (configuration : String) (o : Option (List String))
    → (if direct then some owner_mismatch else if named then read_claim configuration o else none)
      ≡ none
    → (direct ≡ false) × ((named && names_source configuration o) ≡ false)
no_claim true named configuration o e = absurd (ground arith)
no_claim false false configuration o e = (refl, refl)
no_claim false true configuration none e = absurd (ground arith)
no_claim false true configuration (some cs) e =
    elim (Bool-cases (references_source configuration cs)) [
      | inl h ↦ absurd (ground (arith, rw h at e))
      | inr h ↦ (refl, h)
    ]

both-none : (a b : Option WriteError) → first_error a b ≡ none → (a ≡ none) × (b ≡ none)
both-none none b e = (refl, e)
both-none (some x) b e = absurd (ground arith)

module _ {Content : Type 0} (owners : Owners) (owner : WriteOwner) (live : Rendered Content)
    (configuration : String) where
  abbrev IsEntryOf : RenderedResource → Type 0
  IsEntryOf e =
      (e.gvk.group ≡ live.gvk.group)
      × (e.gvk.kind ≡ live.gvk.kind)
      × (e.namespace ≡ live.namespace)
      × (e.name ≡ live.name)

  -- No configuration among them is the one in question.
  abbrev IsAbsent : List String → Type 0
  IsAbsent = All (λ name. name ≢ configuration)

  -- The configurations of a claimant's baseline, which it may lack.
  abbrev pub HasNoBaselineClaim : Claimant → Type 0
  HasNoBaselineClaim c =
      (c.baseline ≡ "")
      ⊎ ((names : List String) × (owners.baseline c.is_operator c.baseline ≡ some names)
          × IsAbsent names)

  -- The owner itself; or an owner that is not of the old lifecycle, whose inventory does not list the
  -- object, and which has another name, or neither names the configuration nor has a baseline that
  -- does, the baseline having been read.
  abbrev pub IsNoRival : String → Claimant → Type 0
  IsNoRival old_uid c =
      (c.uid ≡ owner.uid)
      ⊎ (((old_uid ≡ "") ⊎ (c.uid ≢ old_uid))
          × All (λ e. ¬ IsEntryOf e) c.inventory
          × ((c.name ≢ owner.name) ⊎ (IsAbsent c.configurations × HasNoBaselineClaim c)))

  unreferenced :
      (names : List String) → references_source configuration names ≡ false → IsAbsent names
  unreferenced names =
      any-none _ (λ name. name ≡ configuration) (λ x. (eq_iff x configuration).1) names

  unlisted :
      (es : List RenderedResource) → any (is_entry_of live) es ≡ false → All (λ e. ¬ IsEntryOf e) es
  unlisted = any-none _ IsEntryOf (λ e h. ground (
    arith,
    eq_iff e.gvk.group live.gvk.group,
    eq_iff e.gvk.kind live.gvk.kind,
    eq_iff e.namespace live.namespace,
    eq_iff e.name live.name,
  ))

  baseline-unread :
      (c : Claimant) (o : Option (List String))
      → owners.baseline c.is_operator c.baseline ≡ o
      → names_source configuration o ≡ false
      → HasNoBaselineClaim c
  baseline-unread c none r e = absurd (ground arith)
  baseline-unread c (some names) r e = inr (names, r, unreferenced names e)

  no_direct :
      (old_uid : String) (c : Claimant)
      → claims_directly owner live configuration old_uid c ≡ false
      → (((c.uid == old_uid) && not (old_uid == "")) ≡ false)
        × (any (is_entry_of live) c.inventory ≡ false)
        × (((c.name == owner.name) && references_source configuration c.configurations) ≡ false)
  unfolding claims_directly
  no_direct old_uid c e = (ground arith, ground arith, ground arith)

  unclaimed-IsNoRival :
      (old_uid : String) (c : Claimant)
      → claims_directly owner live configuration old_uid c ≡ false
      → (((c.name == owner.name) && not (c.baseline == ""))
          && names_source configuration (owners.baseline c.is_operator c.baseline))
        ≡ false
      → IsNoRival old_uid c
  unclaimed-IsNoRival old_uid c d b =
      let (lifecycle, listed, named) = no_direct old_uid c d in
      inr (
        elim (Bool-cases (old_uid == "")) [
          | inl e ↦ inl ((eq_iff old_uid "").0 e)
          | inr e ↦ inr (λ x. ground (arith, eq_iff c.uid old_uid))
        ],
        unlisted c.inventory listed,
        elim (Bool-cases (c.name == owner.name)) [
          | inr e ↦ inl (λ x. ground (arith, eq_iff c.name owner.name))
          | inl e ↦ inr (
            unreferenced c.configurations (ground arith),
            elim (Bool-cases (c.baseline == "")) [
              | inl f ↦ inl ((eq_iff c.baseline "").0 f)
              | inr f ↦ baseline-unread c _ refl (ground arith)
            ],
          )
        ],
      )

  claimant-IsNoRival :
      (old_uid : String) (c : Claimant)
      → check_claimant owners owner live configuration old_uid c ≡ none
      → IsNoRival old_uid c
  unfolding check_claimant
  claimant-IsNoRival old_uid c e = elim (Bool-cases (c.uid == owner.uid)) [
    | inl same ↦ inl ((eq_iff c.uid owner.uid).0 same)
    | inr other ↦
        let (d, b) =
          no_claim (claims_directly owner live configuration old_uid c)
            (c.name == owner.name && not (c.baseline == "")) configuration
            (owners.baseline c.is_operator c.baseline) (rw other at e) in
        unclaimed-IsNoRival old_uid c d b
  ]

  every-IsNoRival :
      (old_uid : String) (cs : List Claimant)
      → check_all owners owner live configuration old_uid cs ≡ none
      → All (IsNoRival old_uid) cs
  unfolding check_all
  every-IsNoRival old_uid [] e = tt
  every-IsNoRival old_uid (c ∷ cs) e =
      let (first, rest) =
        both-none (check_claimant owners owner live configuration old_uid c) _ e in
      (claimant-IsNoRival old_uid c first, every-IsNoRival old_uid cs rest)

  pub lists-IsNoRival :
      (old_uid : String) (a b : Option (List Claimant))
      → check_lists owners owner live configuration old_uid a b ≡ none
      → (mids : List Claimant) × (mos : List Claimant) × (a ≡ some mids)
        × (b ≡ some mos)
        × All (IsNoRival old_uid) mids
        × All (IsNoRival old_uid) mos
  lists-IsNoRival old_uid none b e = absurd (ground arith)
  lists-IsNoRival old_uid (some mids) none e = absurd (ground arith)
  lists-IsNoRival old_uid (some mids) (some mos) e =
      let (m, o) = both-none (check_all owners owner live configuration old_uid mids) _ e in
      (mids, mos, refl, refl, every-IsNoRival old_uid mids m, every-IsNoRival old_uid mos o)

  pub unclaimed-none : (o : Option WriteError) → unclaimed o ≡ ok true → o ≡ none
  unclaimed-none none e = refl
  unclaimed-none (some x) e = absurd (ground arith)
