-- ===== src/Intents/Protocol/Invariant.antt =====
-- What every step of the protocol keeps (internal/k8s/resource_intent.go, resource_intent_gc.go).
use opensaola.Base.{
  ℕ, suc, String, ◌==◌, eq_iff, true, false, Option, none, some, [], lookup, eqb, eqb_refl, eqb→eq,
  ◌≡◌, ◌⊎◌, inl, inr, ◌≤◌, ◌<◌, refl, ap, ◌∙◌, Bool-cases, arith,
}
use opensaola.Intents.{Rendered, ResourceIntent}
use opensaola.Intents.Protocol.{pointer_of, World, live, advance}

module _ {Content Overrides : Type 0} (version : ℕ → String) where
  -- The record was made against the object as it was at that time.
  abbrev pub MadeAt : World Content Overrides → ResourceIntent Content Overrides → ℕ → Type 0
  MadeAt w r k =
      (o : Rendered Content) × (w.history k ≡ some o)
      × (r.base_resource_version ≡ version k)
      × (r.resource_uid ≡ o.uid)

  -- It was made before the object's last write, so no publication of it passes.
  abbrev pub IsPast : World Content Overrides → ResourceIntent Content Overrides → Type 0
  IsPast w r = (k : ℕ) × (k < w.clock) × MadeAt w r k

  -- A record that is never to be pointed to again, and is not now.
  abbrev pub IsDead : World Content Overrides → String → Type 0
  IsDead w name =
      (r : ResourceIntent Content Overrides) × (lookup name w.issued ≡ some r)
      × ((pointer_of (live w) == name) ≡ false)
      × ((w.settled name ≡ true) ⊎ IsPast w r)

  -- What is pointed to was published, so its one publication was answered.
  abbrev pub IsAnswered : World Content Overrides → Option (Rendered Content) → Type 0
  IsAnswered w o = (pointer_of o ≡ "") ⊎ (w.settled (pointer_of o) ≡ true)

  pub record Invariant (w : World Content Overrides) : Type 0 where
    pub versions :
        (k : ℕ) (o : Rendered Content)
        → k ≤ w.clock
        → w.history k ≡ some o
        → o.resource_version ≡ version k
    pub unnamed : lookup "" w.issued ≡ none
    pub made :
        (name : String) (r : ResourceIntent Content Overrides)
        → lookup name w.issued ≡ some r
        → (k : ℕ) × (k ≤ w.clock) × MadeAt w r k
    pub pointed :
        (pointer_of (live w) ≡ "")
        ⊎ ((r : ResourceIntent Content Overrides) × (lookup (pointer_of (live w)) w.issued ≡ some r)
            × IsPast w r)
    pub answered : IsAnswered w (live w)
    pub dead : (name : String) → w.doomed name ≡ true → IsDead w name
    pub doomed_first : (name : String) → w.deleted name ≡ true → w.doomed name ≡ true

  -- A write leaves the past as it is.
  history_before :
      (w : World Content Overrides) (next : Option (Rendered Content)) (k : ℕ)
      → k ≤ w.clock
      → (advance w next).history k ≡ w.history k
  unfolding advance
  history_before w next k h = ground arith

  pub live_after :
      (w : World Content Overrides) (next : Option (Rendered Content))
      → live (advance w next) ≡ next
  unfolding advance
  live_after w next = rw (eqb_refl (suc w.clock)) refl

  pub made_after :
      (w : World Content Overrides) (next : Option (Rendered Content))
      (r : ResourceIntent Content Overrides) (k : ℕ)
      → k ≤ w.clock
      → MadeAt w r k
      → MadeAt (advance w next) r k
  made_after w next r k h (o, was, base, uid) = (o, history_before w next k h ∙ was, base, uid)

  pub past_after :
      (w : World Content Overrides) (next : Option (Rendered Content))
      (r : ResourceIntent Content Overrides)
      → (k : ℕ) × (k ≤ w.clock) × MadeAt w r k
      → IsPast (advance w next) r
  unfolding advance
  past_after w next r (k, h, m) = (k, ground arith, made_after w next r k h m)

  versions_after :
      (w : World Content Overrides) (next : Option (Rendered Content))
      → Invariant w
      → ((o : Rendered Content) → next ≡ some o → o.resource_version ≡ version (suc w.clock))
      → (k : ℕ) (o : Rendered Content) → k ≤ suc w.clock
      → (advance w next).history k ≡ some o
      → o.resource_version ≡ version k
  unfolding advance
  versions_after w next inv is_next k o h e = elim (Bool-cases (eqb (suc w.clock) k)) [
    | inl now ↦ is_next o (rw now at e) ∙ ap version (eqb→eq (suc w.clock) k now)
    | inr before ↦ inv.versions k o (ground arith) (rw before at e)
  ]

  -- No record has the empty name.
  pub named :
      (w : World Content Overrides) (name : String) (r : ResourceIntent Content Overrides)
      → Invariant w
      → lookup name w.issued ≡ some r
      → ("" == name) ≡ false
  named w name r inv e = ground (arith, eq_iff "" name, inv.unnamed, e)

  made_later :
      (w : World Content Overrides) (next : Option (Rendered Content))
      (r : ResourceIntent Content Overrides)
      → (k : ℕ) × (k ≤ w.clock) × MadeAt w r k
      → (k : ℕ) × (k ≤ suc w.clock) × MadeAt (advance w next) r k
  made_later w next r (k, h, m) = (k, ground arith, made_after w next r k h m)

  pub past_later :
      (w : World Content Overrides) (next : Option (Rendered Content))
      (r : ResourceIntent Content Overrides)
      → IsPast w r
      → IsPast (advance w next) r
  past_later w next r (k, h, m) = past_after w next r (k, ground arith, m)

  pub dead_later :
      (w : World Content Overrides) (next : Option (Rendered Content)) (name : String)
      → IsDead w name
      → (pointer_of next == name) ≡ false
      → IsDead (advance w next) name
  unfolding advance
  dead_later w next name (r, e, off, why) spared = (
    r,
    e,
    ap (λ o. pointer_of o == name) (live_after w next) ∙ spared,
    elim why [ inl s ↦ inl s | inr p ↦ inr (past_later w next r p) ],
  )

  abbrev pub Points : World Content Overrides → Option (Rendered Content) → Type 0
  Points w next =
      (pointer_of next ≡ "")
      ⊎ ((r : ResourceIntent Content Overrides) × (lookup (pointer_of next) w.issued ≡ some r))

  pointed_after :
      (w : World Content Overrides) (next : Option (Rendered Content))
      → Invariant w
      → Points w next
      → (pointer_of (live (advance w next)) ≡ "")
        ⊎ ((r : ResourceIntent Content Overrides) × (lookup
                (pointer_of (live (advance w next)))
                w.issued
              ≡ some r)
            × IsPast (advance w next) r)
  pointed_after w next inv (inl e) = inl (ap pointer_of (live_after w next) ∙ e)
  pointed_after w next inv (inr (r, e)) = inr (
    r,
    ap (λ o. lookup (pointer_of o) w.issued) (live_after w next) ∙ e,
    past_after w next r (inv.made _ r e),
  )

  settled_after :
      (w : World Content Overrides) (next : Option (Rendered Content))
      → IsAnswered w next
      → IsAnswered (advance w next) (live (advance w next))
  unfolding advance
  settled_after w next (inl e) = inl (ap pointer_of (live_after w next) ∙ e)
  settled_after w next (inr s) = inr (ap (λ o. w.settled (pointer_of o)) (live_after w next) ∙ s)

  pub advance_keeps :
      (w : World Content Overrides) (next : Option (Rendered Content))
      → Invariant w
      → ((o : Rendered Content) → next ≡ some o → o.resource_version ≡ version (suc w.clock))
      → Points w next
      → IsAnswered w next
      → ((name : String) → w.doomed name ≡ true → (pointer_of next == name) ≡ false)
      → Invariant (advance w next)
  unfolding advance
  advance_keeps w next inv is_next points answered spares = record {
    versions = versions_after w next inv is_next;
    unnamed = inv.unnamed;
    made = λ name r e. made_later w next r (inv.made name r e);
    pointed = pointed_after w next inv points;
    answered = settled_after w next answered;
    dead = λ name e. dead_later w next name (inv.dead name e) (spares name e);
    doomed_first = inv.doomed_first;
  }

  -- No record, no pointer, and the versions are the server's.
  pub record IsInitial (w : World Content Overrides) : Type 0 where
    pub versions :
        (k : ℕ) (o : Rendered Content)
        → k ≤ w.clock
        → w.history k ≡ some o
        → o.resource_version ≡ version k
    pub no_pointer : pointer_of (live w) ≡ ""
    pub no_records : w.issued ≡ []
    pub none_doomed : (name : String) → w.doomed name ≡ false
    pub none_deleted : (name : String) → w.deleted name ≡ false

  pub initial-Invariant : (w : World Content Overrides) → IsInitial w → Invariant w
  unfolding lookup
  initial-Invariant w i = record {
    versions = i.versions;
    unnamed = ap (lookup "") i.no_records;
    made = λ name r e. absurd (ground (arith, ap (lookup name) i.no_records, e));
    pointed = inl i.no_pointer;
    answered = inl i.no_pointer;
    dead = λ name e. absurd (ground (arith, i.none_doomed name, e));
    doomed_first = λ name e. absurd (ground (arith, i.none_deleted name, e));
  }
