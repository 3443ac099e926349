-- ===== src/Intents/Protocol/Safety.antt =====
-- No step of the protocol leaves the object pointing to a deleted record
-- (internal/k8s/resource_intent.go, resource_intent_gc.go).
use opensaola.Base.{
  ℕ, String, ◌==◌, eq_refl, Bool, true, false, some, lookup, ◌≡◌, ◌⊎◌, inl, inr, refl, sym, ap, ◌∙◌,
  Bool-cases, arith,
}
use opensaola.Intents.{Rendered, ResourceIntent}
use opensaola.Intents.Codec.{Codecs}
use opensaola.Intents.Records.{intent_record}
use opensaola.Intents.Protocol.{
  pointer, pointer_of, World, live, doom, discard, Step, settle, write, guarded_apply,
  discard_prepared, prepare, commit, reject, cleanup, collect_gone, collect_old, collect_fenced,
  delete, Reachable, start, next,
}
use opensaola.Intents.Protocol.Invariant.{IsDead, Invariant, IsInitial, initial-Invariant}
use opensaola.Intents.Protocol.Keeps.{
  write_keeps, settle_keeps, doom_keeps, erase_keeps, issue_keeps,
}
use opensaola.Intents.Protocol.Dead.{
  alive, publish_keeps, replaced, gone_dead, old_dead, fence_dead,
}
use opensaola.Intents.Protocol.Others.{guarded_pointer, discarded_dead}

module _ {Content Overrides : Type 0} (version : ℕ → String)
    (once : (a b : ℕ) → version a ≡ version b → a ≡ b) where
  of_deleted :
      (w : World Content Overrides) (o : Rendered Content)
      → Invariant version w
      → live w ≡ some o
      → w.deleted (pointer o) ≡ false
  of_deleted w o inv at = elim (Bool-cases (w.deleted (pointer o))) [
    | inr d ↦ d
    | inl d ↦
        let (r, found, off, why) = inv.dead (pointer o) (inv.doomed_first (pointer o) d) in
        absurd
          (ground (arith, eq_refl (pointer o), sym (ap (λ x. pointer_of x == pointer o) at) ∙ off))
  ]

  present_pointer :
      (w : World Content Overrides) (o : Rendered Content)
      → Invariant version w
      → live w ≡ some o
      → (pointer o ≡ "")
        ⊎ ((r : ResourceIntent Content Overrides) × (lookup (pointer o) w.issued ≡ some r)
            × (w.deleted (pointer o) ≡ false))
  present_pointer w o inv at = elim inv.pointed [
    | inl e ↦ inl (sym (ap pointer_of at) ∙ e)
    | inr (r, e, p) ↦
        inr (r, ap (λ x. lookup (pointer_of x) w.issued) (sym at) ∙ e, of_deleted w o inv at)
  ]

  open_record :
      (w : World Content Overrides) (o : Rendered Content)
      → Invariant version w
      → live w ≡ some o
      → (name : String) (r : ResourceIntent Content Overrides) → lookup name w.issued ≡ some r
      → w.settled name ≡ false
      → o.resource_version ≡ r.base_resource_version
      → (w.doomed name ≡ false) × (w.deleted name ≡ false)
  open_record w o inv at name r found open_ base =
      (not_doomed (Bool-cases (w.doomed name)), not_deleted (Bool-cases (w.deleted name)))
    where
      clash : w.doomed name ≡ true → true ≡ false
      clash d = sym (eq_refl name) ∙ alive version once w name name r o inv found open_ at base d

      not_doomed : (w.doomed name ≡ true) ⊎ (w.doomed name ≡ false) → w.doomed name ≡ false
      not_doomed (inl d) = absurd (ground (arith, clash d))
      not_doomed (inr d) = d

      not_deleted : (w.deleted name ≡ true) ⊎ (w.deleted name ≡ false) → w.deleted name ≡ false
      not_deleted (inl d) = absurd (ground (arith, clash (inv.doomed_first name d)))
      not_deleted (inr d) = d

  discard_keeps :
      (w : World Content Overrides) (discards : Bool) (name : String)
      → Invariant version w
      → ((name == "") ≡ false → IsDead version w name)
      → Invariant version (discard w discards name)
  unfolding discard doom
  discard_keeps w false name inv dead = inv
  discard_keeps w true name inv dead = elim (Bool-cases (name == "")) [
    | inl e ↦ rw e inv
    | inr e ↦ rw e (doom_keeps version w name inv (dead e))
  ]

  module _ {Bytes : Type 0} (codecs : Codecs (ResourceIntent Content Overrides) Bytes)
      (base64 : String → String) (same_object : Rendered Content → Rendered Content → Bool) where
    pub step_keeps :
        (w u : World Content Overrides)
        → Invariant version w
        → Step codecs base64 same_object version w u
        → Invariant version u
    unfolding intent_record
    step_keeps _ _ inv (write w after is_next keeps) = write_keeps version w after inv is_next keeps
    step_keeps _ _ inv (guarded_apply w k seen now after (le, was, at, uid, rv) is_next same) =
        write_keeps version w (some after) inv is_next
          (inr (guarded_pointer version once w k seen now after inv le was at rv same))
    step_keeps _ _ inv (discard_prepared w name r k seen found open_ committed) =
        doom_keeps version (settle w name) name (settle_keeps version w name inv)
          (discarded_dead version once w name r inv found open_)
    step_keeps _ _ inv (prepare w k name owner seen desired c h p e le was named_ new) =
        issue_keeps version w name _ inv named_ new
          (k, le, (seen, was, inv.versions k seen le was, refl))
    step_keeps _ _ inv (commit w name r now after discards found open_ at uid base is_next points) =
        discard_keeps _ discards (pointer now)
          (publish_keeps version once w name r now after inv found open_ at base is_next points)
          (replaced version once w name r now after inv found at base points)
    step_keeps _ _ inv (reject w name) = settle_keeps version w name inv
    step_keeps _ _ inv (cleanup w name r found answered off) =
        doom_keeps version w name inv (r, found, off, inl answered)
    step_keeps _ _ inv (collect_gone w name r found gone) =
        doom_keeps version w name inv (gone_dead version once w name r inv found gone)
    step_keeps _ _ inv (collect_old w name r target identity found at verdict) =
        doom_keeps version w name inv
          (old_dead version once w name r target identity inv found at verdict)
    step_keeps _ _ inv
          (collect_fenced w name r k seen target now after identity found le was verdict at uid rv
            is_next same) =
        doom_keeps version _ name
          (write_keeps version w (some after) inv is_next (inr (same ∙ sym (ap pointer_of at))))
          (fence_dead version once w name r k seen target now after identity inv found le was
            verdict at rv same)
    step_keeps _ _ inv (delete w name doomed) = erase_keeps version w name inv doomed

    reachable_keeps :
        (w u : World Content Overrides)
        → Invariant version w
        → Reachable codecs base64 same_object version w u
        → Invariant version u
    reachable_keeps _ _ inv (start w) = inv
    reachable_keeps _ _ inv (next v w u reached step) =
        step_keeps w u (reachable_keeps v w inv reached) step

    -- From a state with no records and no pointer, in whatever order and with whatever delay the
    -- steps of the writers, the collector and others come: the object points to nothing, or to a
    -- record that was prepared and is not deleted. A write of others carries no pointer of its
    -- own, so that it keeps the stored one or drops it, or is an Apply of what was read at any
    -- earlier time, under that read's UID and resourceVersion; records are deleted by these steps
    -- only. The resourceVersions are all different.
    pub pointer-safe :
        (w u : World Content Overrides)
        → IsInitial version w
        → Reachable codecs base64 same_object version w u
        → (o : Rendered Content) → live u ≡ some o
        → (pointer o ≡ "")
          ⊎ ((r : ResourceIntent Content Overrides) × (lookup (pointer o) u.issued ≡ some r)
              × (u.deleted (pointer o) ≡ false))
    pointer-safe w u initial reached o at =
        present_pointer u o (reachable_keeps w u (initial-Invariant version w initial) reached) at

    -- In every state that is reached in this way: a record whose publication is still open and
    -- would pass the test of the resourceVersion is not deleted, and nothing has decided to
    -- delete it.
    pub publication-safe :
        (w u : World Content Overrides)
        → IsInitial version w
        → Reachable codecs base64 same_object version w u
        → (o : Rendered Content) (name : String) (r : ResourceIntent Content Overrides)
        → live u ≡ some o
        → lookup name u.issued ≡ some r
        → u.settled name ≡ false
        → o.resource_version ≡ r.base_resource_version
        → (u.doomed name ≡ false) × (u.deleted name ≡ false)
    publication-safe w u initial reached o name r at found open_ base =
        open_record u o (reachable_keeps w u (initial-Invariant version w initial) reached) at name
          r found open_ base
