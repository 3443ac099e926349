-- ===== src/Intents/Protocol/Keeps.antt =====
-- The invariant of the protocol under each change of the state (internal/k8s/resource_intent.go,
-- resource_intent_gc.go).
use opensaola.Base.{
  ℕ, suc, String, ◌==◌, eq_iff, true, false, Option, none, some, lookup, insert, lookup-insert, ◌≡◌,
  ◌⊎◌, inl, inr, ◌≤◌, refl, sym, ap, ◌∙◌, subst, Bool-cases, arith,
}
use opensaola.Intents.{Rendered, ResourceIntent}
use opensaola.Intents.Protocol.{
  pointer_of, KeepsPointer, World, live, advance, issue, settle, doom, erase,
}
use opensaola.Intents.Protocol.Invariant.{
  MadeAt, IsPast, IsDead, Invariant, IsAnswered, Points, named, advance_keeps,
}

module _ {Content Overrides : Type 0} (version : ℕ → String) where
  -- Another's write points to what was pointed to, or to nothing.
  pub write_keeps :
      (w : World Content Overrides) (next : Option (Rendered Content))
      → Invariant version w
      → ((o : Rendered Content) → next ≡ some o → o.resource_version ≡ version (suc w.clock))
      → KeepsPointer (live w) next
      → Invariant version (advance w next)
  write_keeps w next inv is_next keeps =
      advance_keeps version w next inv is_next (points keeps inv.pointed)
        (answers keeps inv.answered) (spares keeps)
    where
      answers :
          KeepsPointer (live w) next → IsAnswered version w (live w) → IsAnswered version w next
      answers (inl e) before = inl e
      answers (inr e) (inl b) = inl (e ∙ b)
      answers (inr e) (inr s) = inr (ap w.settled e ∙ s)

      points :
          KeepsPointer (live w) next
          → (pointer_of (live w) ≡ "")
            ⊎ ((r : ResourceIntent Content Overrides) × (lookup (pointer_of (live w)) w.issued
                  ≡ some r)
                × IsPast version w r)
          → Points version w next
      points (inl e) before = inl e
      points (inr e) (inl b) = inl (e ∙ b)
      points (inr e) (inr (r, b, p)) = inr (r, ap (λ n. lookup n w.issued) e ∙ b)

      spares :
          KeepsPointer (live w) next
          → (name : String) → w.doomed name ≡ true
          → (pointer_of next == name) ≡ false
      spares (inl e) name d =
          let (r, found, off, why) = inv.dead name d in
          ap (λ n. n == name) e ∙ named version w name r inv found
      spares (inr e) name d =
          let (r, found, off, why) = inv.dead name d in ap (λ n. n == name) e ∙ off

  pub settle_keeps :
      (w : World Content Overrides) (name : String)
      → Invariant version w
      → Invariant version (settle w name)
  unfolding settle
  settle_keeps w name inv = record {
    versions = inv.versions;
    unnamed = inv.unnamed;
    made = inv.made;
    pointed = inv.pointed;
    answered = elim inv.answered [ inl e ↦ inl e | inr s ↦ inr (ground arith) ];
    dead = λ n e. settled_too n (inv.dead n e);
    doomed_first = inv.doomed_first;
  }
    where
      settled_too : (n : String) → IsDead version w n → IsDead version (settle w name) n
      settled_too n (r, e, off, why) =
          (r, e, off, elim why [ inl t ↦ inl (ground arith) | inr p ↦ inr p ])

  pub doom_keeps :
      (w : World Content Overrides) (name : String)
      → Invariant version w
      → IsDead version w name
      → Invariant version (doom w name)
  unfolding doom
  doom_keeps w name inv d = record {
    versions = inv.versions;
    unnamed = inv.unnamed;
    made = inv.made;
    pointed = inv.pointed;
    answered = inv.answered;
    dead = λ n e. dead_of n (Bool-cases (name == n)) e;
    doomed_first = λ n e. ground (arith, inv.doomed_first n e);
  }
    where
      same : (n : String) → (name == n) ≡ true → name ≡ n
      same n h = ground (arith, eq_iff name n)

      dead_of :
          (n : String)
          → ((name == n) ≡ true) ⊎ ((name == n) ≡ false)
          → (doom w name).doomed n ≡ true
          → IsDead version (doom w name) n
      dead_of n (inl h) e = subst (λ m. IsDead version (doom w name) m) (same n h) d
      dead_of n (inr h) e = inv.dead n (rw h at e)

  pub erase_keeps :
      (w : World Content Overrides) (name : String)
      → Invariant version w
      → w.doomed name ≡ true
      → Invariant version (erase w name)
  unfolding erase
  erase_keeps w name inv d = record {
    versions = inv.versions;
    unnamed = inv.unnamed;
    made = inv.made;
    pointed = inv.pointed;
    answered = inv.answered;
    dead = inv.dead;
    doomed_first = λ n e. ground (arith, inv.doomed_first n, eq_iff name n);
  }

  still_issued :
      (w : World Content Overrides) (name n : String) (r q : ResourceIntent Content Overrides)
      → lookup name w.issued ≡ none
      → lookup n w.issued ≡ some q
      → lookup n (insert name r w.issued) ≡ some q
  still_issued w name n r q new e =
      ground (arith, lookup-insert name n r w.issued, eq_iff name n, new, e)

  pub issue_keeps :
      (w : World Content Overrides) (name : String) (r : ResourceIntent Content Overrides)
      → Invariant version w
      → (name == "") ≡ false
      → lookup name w.issued ≡ none
      → (k : ℕ) × (k ≤ w.clock) × MadeAt version w r k
      → Invariant version (issue w name r)
  unfolding issue
  issue_keeps w name r inv not_empty new made_now = record {
    versions = inv.versions;
    unnamed = lookup-insert name "" r w.issued ∙ (rw not_empty inv.unnamed);
    made = λ n q e. made_of n q (Bool-cases (name == n)) e;
    pointed = pointed_too inv.pointed;
    answered = inv.answered;
    dead = λ n e. dead_too n (inv.dead n e);
    doomed_first = inv.doomed_first;
  }
    where
      same_record :
          (n : String) (q : ResourceIntent Content Overrides)
          → (name == n) ≡ true
          → lookup n (insert name r w.issued) ≡ some q
          → r ≡ q
      same_record n q h e = ground (arith, lookup-insert name n r w.issued, h, e)

      made_of :
          (n : String) (q : ResourceIntent Content Overrides)
          → ((name == n) ≡ true) ⊎ ((name == n) ≡ false)
          → lookup n (insert name r w.issued) ≡ some q
          → (k : ℕ) × (k ≤ w.clock) × MadeAt version w q k
      made_of n q (inl h) e =
          subst (λ x. (k : ℕ) × (k ≤ w.clock) × MadeAt version w x k) (same_record n q h e) made_now
      made_of n q (inr h) e = inv.made n q (sym (lookup-insert name n r w.issued ∙ (rw h refl)) ∙ e)

      pointed_too :
          (pointer_of (live w) ≡ "")
            ⊎ ((q : ResourceIntent Content Overrides) × (lookup (pointer_of (live w)) w.issued
                  ≡ some q)
                × IsPast version w q)
          → (pointer_of (live w) ≡ "")
            ⊎ ((q : ResourceIntent Content Overrides) × (lookup
                    (pointer_of (live w))
                    (insert name r w.issued)
                  ≡ some q)
                × IsPast version w q)
      pointed_too (inl e) = inl e
      pointed_too (inr (q, e, p)) = inr (q, still_issued w name _ r q new e, p)

      dead_too : (n : String) → IsDead version w n → IsDead version (issue w name r) n
      dead_too n (q, e, off, why) = (q, still_issued w name n r q new e, off, why)
