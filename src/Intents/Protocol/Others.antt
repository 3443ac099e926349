-- ===== src/Intents/Protocol/Others.antt =====
-- The discard of an unpublished record, and an Apply under the UID and the resourceVersion of a read
-- (internal/k8s/resource_intent.go, internal/k8s/customresource.go).
use opensaola.Base.{
  ℕ, String, ◌==◌, eq_iff, false, some, lookup, ◌≡◌, inl, inr, ◌≤◌, refl, sym, ap, ◌∙◌, Bool-cases,
  arith,
}
use opensaola.Intents.{Rendered, ResourceIntent}
use opensaola.Intents.Protocol.{pointer, pointer_of, World, live, settle}
use opensaola.Intents.Protocol.Invariant.{IsDead, Invariant, named}
use opensaola.Intents.Protocol.Dead.{settled_now}

module _ {Content Overrides : Type 0} (version : ℕ → String)
    (once : (a b : ℕ) → version a ≡ version b → a ≡ b) where
  -- A record that was not published yet is not pointed to.
  pub unpublished :
      (w : World Content Overrides) (name : String) (r : ResourceIntent Content Overrides)
      → Invariant version w
      → lookup name w.issued ≡ some r
      → w.settled name ≡ false
      → (pointer_of (live w) == name) ≡ false
  unpublished w name r inv found open_ = elim inv.answered [
    | inl e ↦ ap (λ n. n == name) e ∙ named version w name r inv found
    | inr s ↦ elim (Bool-cases (pointer_of (live w) == name)) [
      | inr d ↦ d
      | inl same ↦
          absurd (ground (arith, ap w.settled ((eq_iff (pointer_of (live w)) name).0 same), s))
    ]
  ]

  -- A discarded record whose publication was not applied is dead.
  pub discarded_dead :
      (w : World Content Overrides) (name : String) (r : ResourceIntent Content Overrides)
      → Invariant version w
      → lookup name w.issued ≡ some r
      → w.settled name ≡ false
      → IsDead version (settle w name) name
  unfolding settle
  discarded_dead w name r inv found open_ = (
    r,
    found,
    unpublished w name r inv found open_,
    inl (settled_now version once w name name refl),
  )

  -- An Apply under the UID and the resourceVersion of a read is an Apply of the present object.
  pub guarded_pointer :
      (w : World Content Overrides) (k : ℕ) (seen now after : Rendered Content)
      → Invariant version w
      → k ≤ w.clock
      → w.history k ≡ some seen
      → live w ≡ some now
      → now.resource_version ≡ seen.resource_version
      → pointer after ≡ pointer seen
      → pointer after ≡ pointer_of (live w)
  guarded_pointer w k seen now after inv le was at rv same =
      let current =
        once k w.clock (
          sym (inv.versions k seen le was) ∙ sym rv ∙ inv.versions w.clock now (ground arith) at) in
      same ∙ ap pointer_of (sym was ∙ ap w.history current)
