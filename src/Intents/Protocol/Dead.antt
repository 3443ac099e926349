-- ===== src/Intents/Protocol/Dead.antt =====
-- Which records no publication can point to again (internal/k8s/resource_intent.go,
-- resource_intent_gc.go).
use opensaola.Base.{
  ℕ, suc, String, ◌==◌, eq_iff, true, false, Option, none, some, lookup, eqb, eqb→eq, ◌≡◌, ◌⊎◌, inl,
  inr, ◌≤◌, sym, ap, ◌∙◌, subst, Bool-cases, arith,
}
use opensaola.Intents.{WriteError, Rendered, ResourceIntent, ok}
use opensaola.Intents.Collect.{delete_now, fence_first, judge}
use opensaola.Intents.Collect.Judged.{judge-delete_now, judge-fence_first}
use opensaola.Intents.Protocol.{pointer, pointer_of, World, live, advance, settle}
use opensaola.Intents.Protocol.Invariant.{
  MadeAt, IsPast, IsDead, Invariant, past_after, past_later, live_after, named, advance_keeps,
}
use opensaola.Intents.Protocol.Keeps.{settle_keeps}

some-eq : {A : Type 0} {a b : A} → Option.some a ≡ some b → a ≡ b
some-eq e = cc

module _ {Content Overrides : Type 0} (version : ℕ → String)
    (once : (a b : ℕ) → version a ≡ version b → a ≡ b) where
  -- A record made against another object or another version was made before the last write.
  pub older :
      (w : World Content Overrides) (name : String) (r : ResourceIntent Content Overrides)
      → Invariant version w
      → lookup name w.issued ≡ some r
      → ((o : Rendered Content)
          → live w ≡ some o
          → ((o.uid == r.resource_uid) ≡ false)
            ⊎ ((o.resource_version == r.base_resource_version) ≡ false))
      → IsPast version w r
  older w name r inv found differs = past (inv.made name r found)
    where
      past : (k : ℕ) × (k ≤ w.clock) × MadeAt version w r k → IsPast version w r
      past (k, h, (o, was, base, uid)) = elim (Bool-cases (eqb k w.clock)) [
        | inl now ↦ elim (differs o (ap w.history (sym (eqb→eq k w.clock now)) ∙ was)) [
          | inl d ↦ absurd (ground (arith, eq_iff o.uid r.resource_uid))
          | inr d ↦ absurd (
              ground
                (arith, eq_iff o.resource_version r.base_resource_version, inv.versions k o h was))
        ]
        | inr before ↦ (k, ground arith, (o, was, base, uid))
      ]

  one_record :
      (w : World Content Overrides) (name n : String) (r q : ResourceIntent Content Overrides)
      → (name == n) ≡ true
      → lookup name w.issued ≡ some r
      → lookup n w.issued ≡ some q
      → q ≡ r
  one_record w name n r q same found other = ground (arith, eq_iff name n)

  -- A record that can be published now is not one of those made before the last write.
  past_other :
      (w : World Content Overrides) (name n : String) (r q : ResourceIntent Content Overrides)
      (now : Rendered Content)
      → Invariant version w
      → lookup name w.issued ≡ some r
      → live w ≡ some now
      → now.resource_version ≡ r.base_resource_version
      → lookup n w.issued ≡ some q
      → IsPast version w q
      → (name == n) ≡ false
  past_other w name n r q now inv found at base other (k, h, (o, was, made, uid)) =
      elim (Bool-cases (name == n)) [
        | inr d ↦ d
        | inl same ↦
            let again =
              sym made
              ∙ ap (λ x. x.base_resource_version) (one_record w name n r q same found other)
              ∙ sym base
              ∙ inv.versions w.clock now (ground arith) at in
            absurd (ground (arith, once k w.clock again))
      ]

  -- Nor is it one that is to be deleted.
  pub alive :
      (w : World Content Overrides) (name n : String) (r : ResourceIntent Content Overrides)
      (now : Rendered Content)
      → Invariant version w
      → lookup name w.issued ≡ some r
      → w.settled name ≡ false
      → live w ≡ some now
      → now.resource_version ≡ r.base_resource_version
      → w.doomed n ≡ true
      → (name == n) ≡ false
  alive w name n r now inv found open_ at base doomed = of_dead (inv.dead n doomed)
    where
      of_dead : IsDead version w n → (name == n) ≡ false
      of_dead (q, other, off, inl s) = ground (arith, eq_iff name n)
      of_dead (q, other, off, inr past) = past_other w name n r q now inv found at base other past

  pub settled_now :
      (w : World Content Overrides) (name n : String) → n ≡ name → (settle w n).settled name ≡ true
  unfolding settle
  settled_now w name n e = ground (arith, eq_iff n name)

  pub publish_keeps :
      (w : World Content Overrides) (name : String) (r : ResourceIntent Content Overrides)
      (now after : Rendered Content)
      → Invariant version w
      → lookup name w.issued ≡ some r
      → w.settled name ≡ false
      → live w ≡ some now
      → now.resource_version ≡ r.base_resource_version
      → ((o : Rendered Content) → some after ≡ some o → o.resource_version ≡ version (suc w.clock))
      → pointer after ≡ name
      → Invariant version (advance (settle w name) (some after))
  unfolding settle
  publish_keeps w name r now after inv found open_ at base is_next points =
      advance_keeps version (settle w name) (some after) (settle_keeps version w name inv) is_next
        (inr (r, ap (λ n. lookup n w.issued) points ∙ found))
        (inr (settled_now w (pointer after) name (sym points)))
        (λ n d. ap (λ p. p == n) points ∙ alive w name n r now inv found open_ at base d)

  -- The record that was pointed to before is dead once another is.
  pub replaced :
      (w : World Content Overrides) (name : String) (r : ResourceIntent Content Overrides)
      (now after : Rendered Content)
      → Invariant version w
      → lookup name w.issued ≡ some r
      → live w ≡ some now
      → now.resource_version ≡ r.base_resource_version
      → pointer after ≡ name
      → (pointer now == "") ≡ false
      → IsDead version (advance (settle w name) (some after)) (pointer now)
  unfolding settle advance
  replaced w name r now after inv found at base points some_pointer = of_pointed inv.pointed
    where
      of_pointed :
          (pointer_of (live w) ≡ "")
            ⊎ ((q : ResourceIntent Content Overrides) × (lookup (pointer_of (live w)) w.issued
                  ≡ some q)
                × IsPast version w q)
          → IsDead version (advance (settle w name) (some after)) (pointer now)
      of_pointed (inl e) =
          absurd (ground (arith, sym (ap pointer_of at) ∙ e, eq_iff (pointer now) ""))
      of_pointed (inr (q, e, p)) =
          let here = ap (λ n. lookup n w.issued) (sym (ap pointer_of at)) ∙ e in
          (
            q,
            here,
            ap (λ o. pointer_of o == pointer now) (live_after version (settle w name) (some after))
                ∙ ap (λ n. n == pointer now) points
                ∙ past_other w name (pointer now) r q now inv found at base here p,
            inr (past_later version (settle w name) (some after) q p),
          )

  pub gone_dead :
      (w : World Content Overrides) (name : String) (r : ResourceIntent Content Overrides)
      → Invariant version w
      → lookup name w.issued ≡ some r
      → live w ≡ none
      → IsDead version w name
  gone_dead w name r inv found gone = (
    r,
    found,
    ap (λ o. pointer_of o == name) gone ∙ named version w name r inv found,
    inr (older w name r inv found (λ o e. absurd (ground (arith, gone, e)))),
  )

  pub old_dead :
      (w : World Content Overrides) (name : String) (r : ResourceIntent Content Overrides)
      (target : Rendered Content) (identity : Option WriteError)
      → Invariant version w
      → lookup name w.issued ≡ some r
      → live w ≡ some target
      → judge name r target identity ≡ ok delete_now
      → IsDead version w name
  old_dead w name r target identity inv found at verdict =
      let (off, why) = judge-delete_now name r target identity verdict in
      (
        r,
        found,
        ap (λ o. pointer_of o == name) at ∙ off,
        inr (
            older w name r inv found (λ o e.
              subst
                (λ x.
                  ((x.uid == r.resource_uid) ≡ false)
                  ⊎ ((x.resource_version == r.base_resource_version) ≡ false))
                (some-eq (sym at ∙ e)) why)),
      )

  -- What passes the tests of the fence is the object that was judged.
  pub fence_dead :
      (w : World Content Overrides) (name : String) (r : ResourceIntent Content Overrides) (k : ℕ)
      (seen target now after : Rendered Content) (identity : Option WriteError)
      → Invariant version w
      → lookup name w.issued ≡ some r
      → k ≤ w.clock
      → w.history k ≡ some seen
      → judge name r seen identity ≡ ok (fence_first target)
      → live w ≡ some now
      → now.resource_version ≡ target.resource_version
      → pointer after ≡ pointer now
      → IsDead version (advance w (some after)) name
  unfolding advance
  fence_dead w name r k seen target now after identity inv found le was verdict at rv same =
      let (off, based, is_target) = judge-fence_first name r seen identity target verdict in
      let current = once k w.clock (
        sym (inv.versions k seen le was)
        ∙ ap (λ o. o.resource_version) is_target
        ∙ sym rv
        ∙ inv.versions w.clock now (ground arith) at) in
      let same_object = some-eq (sym was ∙ ap w.history current ∙ at) in
      (
        r,
        found,
        ap (λ o. pointer_of o == name) (live_after version w (some after))
            ∙ ap (λ n. n == name) (same ∙ ap pointer (sym same_object))
            ∙ off,
        inr (past_after version w (some after) r (inv.made name r found)),
      )
