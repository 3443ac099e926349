-- ===== src/Pause/Marker.antt =====
-- The pause marker over its life: set, refreshed, read and cleared
-- (internal/controller/reconcile_suspension.go).
use opensaola.Base.{
  ℕ, zero, suc, String, ◌==◌, eq_iff, Bool, true, false, List, some, ◌≡◌, ◌≢◌, ◌⊎◌, inl, inr, refl,
  ap, ◌∙◌, ◌++◌, ◌∷◌, [], All, get_elem?, set, keep, any, Bool-cases, arith,
}
use opensaola.Api.{Condition, is_condition_true, cond_type_reconcile_paused}
use opensaola.Status.{MetaConditions, condition_init, stamped}
use opensaola.Status.Get.{get_condition-Gets}
use opensaola.Pause.{
  mark_reconcile_paused, has_reconcile_paused, without, clear_reconcile_paused, paused, update_at,
  is_marked,
}

-- A condition of the type is dropped wherever it stands, so a write at its index is not seen.
without-set :
    (t : String) (cs : List Condition) (i : ℕ) (c d : Condition)
    → get_elem? cs i ≡ some c
    → c.type ≡ t
    → d.type ≡ t
    → without t (set cs i d) ≡ without t cs
unfolding without keep
without-set t [] i c d at p q = cc
without-set t (x ∷ cs) zero c d at p q = ground (arith, eq_iff x.type t, eq_iff d.type t)
without-set t (x ∷ cs) (suc i) c d at p q = ground (arith, without-set t cs i c d at p q)

without-append_own :
    (t : String) (cs : List Condition) (d : Condition)
    → d.type ≡ t
    → without t (cs ++ d ∷ []) ≡ without t cs
unfolding without keep
without-append_own t [] d q = ground (arith, eq_iff d.type t)
without-append_own t (x ∷ cs) d q = ground (arith, without-append_own t cs d q)

has-set :
    (cs : List Condition) (i : ℕ) (c d : Condition)
    → get_elem? cs i ≡ some c
    → d.type ≡ cond_type_reconcile_paused
    → is_condition_true d.status ≡ true
    → has_reconcile_paused (set cs i d) ≡ true
unfolding has_reconcile_paused any
has-set [] i c d at p s = cc
has-set (x ∷ cs) zero c d at p s = ground (arith, eq_iff d.type cond_type_reconcile_paused)
has-set (x ∷ cs) (suc i) c d at p s = ground (arith, has-set cs i c d at p s)

has-at :
    (cs : List Condition) (i : ℕ) (c : Condition)
    → get_elem? cs i ≡ some c
    → c.type ≡ cond_type_reconcile_paused
    → is_condition_true c.status ≡ true
    → has_reconcile_paused cs ≡ true
unfolding has_reconcile_paused any
has-at [] i c at p s = cc
has-at (x ∷ cs) zero c at p s = ground (arith, eq_iff c.type cond_type_reconcile_paused)
has-at (x ∷ cs) (suc i) c at p s = ground (arith, has-at cs i c at p s)

get_elem?-set :
    (cs : List Condition) (i : ℕ) (c d : Condition)
    → get_elem? cs i ≡ some c
    → get_elem? (set cs i d) i ≡ some d
get_elem?-set [] i c d at = cc
get_elem?-set (x ∷ cs) zero c d at = refl
get_elem?-set (x ∷ cs) (suc i) c d at = get_elem?-set cs i c d at

-- A slice that carries the marker and is otherwise the slice before it.
pub record IsMarked (before after : List Condition) : Type 0 where
  pub has : has_reconcile_paused after ≡ true
  pub rest : without cond_type_reconcile_paused after ≡ without cond_type_reconcile_paused before

update-IsMarked :
    (cs : List Condition) (i : ℕ) (c : Condition) (generation now : ℕ)
    → get_elem? cs i ≡ some c
    → c.type ≡ cond_type_reconcile_paused
    → (after : List Condition) × (changed : Bool) × (update_at
          (λ d. is_marked d generation)
          (λ d. paused d generation now)
          (cs, some i)
        ≡ some (after, changed))
      × IsMarked cs after
unfolding paused
update-IsMarked cs i c generation now at t = elim (Bool-cases (is_marked c generation)) [
  | inl e ↦
      (cs, false, ground arith, record { has = has-at cs i c at t (ground arith); rest = refl })
  | inr e ↦ (
    set cs i (paused c generation now),
    true,
    ground arith,
    record {
      has = has-set cs i c (paused c generation now) at t refl;
      rest = without-set cond_type_reconcile_paused cs i c (paused c generation now) at t t;
    },
  )
]

slice_rest :
    {cs : List Condition} (now : ℕ) (cs' : List Condition)
    → (cs' ≡ cs)
      ⊎ ((clock : ℕ) × (cs'
            ≡ cs ++ stamped clock (condition_init cond_type_reconcile_paused 1 now) ∷ [])
          × All (λ d. d.type ≢ cond_type_reconcile_paused) cs)
    → without cond_type_reconcile_paused cs' ≡ without cond_type_reconcile_paused cs
unfolding condition_init
slice_rest now cs' (inl e) = ap (without cond_type_reconcile_paused) e
slice_rest {cs} now cs' (inr (clock, e, _)) =
    ap (without cond_type_reconcile_paused) e
    ∙ without-append_own cond_type_reconcile_paused cs
        (stamped clock (condition_init cond_type_reconcile_paused 1 now)) refl

module _ (meta : MetaConditions) (cs : List Condition) (generation now : ℕ) where
  -- markReconcilePaused never meets a nil pointer; the slice that it leaves has the marker, and
  -- its conditions of other types are those of before, in their order.
  pub mark-IsMarked :
      (after : List Condition) × (changed : Bool) × (mark_reconcile_paused meta cs generation now
        ≡ some (after, changed))
      × IsMarked cs after
  unfolding mark_reconcile_paused
  mark-IsMarked =
      let (cs', i, c, g) = get_condition-Gets meta cs cond_type_reconcile_paused now in
      let (after, changed, e, m) = update-IsMarked cs' i c generation now g.at g.type in
      (
        after,
        changed,
        cc (
          ap (update_at (λ d. is_marked d generation) (λ d. paused d generation now)) g.result,
          e,
        ),
        record { has = m.has; rest = m.rest ∙ slice_rest now cs' g.slice },
      )

has-without :
    (cs : List Condition) → has_reconcile_paused (without cond_type_reconcile_paused cs) ≡ false
unfolding has_reconcile_paused without any keep
has-without [] = refl
has-without (c ∷ cs) = ground (arith, has-without cs)

-- Where no condition is of the type, `without` changes nothing.
without-none :
    (t : String) (cs : List Condition)
    → any (λ (c : Condition). c.type == t) cs ≡ false
    → without t cs ≡ cs
unfolding without any keep
without-none t [] h = refl
without-none t (c ∷ cs) h = ground (arith, without-none t cs)

pub clear_lem :
    (cs : List Condition)
    → (clear_reconcile_paused (some cs)).0 ≡ some (without cond_type_reconcile_paused cs)
unfolding clear_reconcile_paused
clear_lem cs = ground (arith, without-none cond_type_reconcile_paused cs)

-- Clearing the marker right after it was set gives what clearing gives at once: pause and resume
-- leave no trace in the conditions, and no marker is read afterwards.
pub clear-mark :
    (meta : MetaConditions) (cs : List Condition) (generation now : ℕ)
    → (after : List Condition) × (changed : Bool) × (final : List Condition)
      × (mark_reconcile_paused meta cs generation now ≡ some (after, changed))
      × ((clear_reconcile_paused (some after)).0 ≡ some final)
      × ((clear_reconcile_paused (some cs)).0 ≡ some final)
      × (has_reconcile_paused final ≡ false)
clear-mark meta cs generation now =
    let (after, changed, e, m) = mark-IsMarked meta cs generation now in
    (
      after,
      changed,
      without cond_type_reconcile_paused cs,
      e,
      clear_lem after ∙ ap some m.rest,
      clear_lem cs,
      has-without cs,
    )
