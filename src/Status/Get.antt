-- ===== src/Status/Get.antt =====
-- Which condition the pointer of GetCondition (internal/service/status/condition.go) points to.
use opensaola.Base.{
  ℕ, String, List, none, some, ◌≡◌, ◌≢◌, ◌⊎◌, inl, inr, refl, ◌++◌, ◌∷◌, [], All, get_elem?,
  Option-cases, arith,
}
use opensaola.Api.{Condition}
use opensaola.Status.{MetaConditions, get_condition, condition_init, stamped}

not-All-append :
    (cs : List Condition) (c : Condition) (t : String)
    → c.type ≡ t
    → ¬ (All (λ d. d.type ≢ t) (cs ++ c ∷ []))
not-All-append [] c t e h = h.0 e
not-All-append (d ∷ cs) c t e h = not-All-append cs c t e h.1

module _ (meta : MetaConditions) where
  open meta use {find_status_condition, find_sound, find_complete, set_appends}

  -- What GetCondition returns: a condition of the type asked for, in the old slice or in the old
  -- slice with one initial condition appended, whose time SetStatusCondition may have set.
  pub record Gets (cs : List Condition) (t : String) (now : ℕ) (cs' : List Condition) (i : ℕ)
      (c : Condition) : Type 0 where
    pub result : get_condition meta cs t now ≡ (cs', some i)
    pub at : get_elem? cs' i ≡ some c
    pub type : c.type ≡ t
    pub slice :
        (cs' ≡ cs)
        ⊎ ((clock : ℕ) × (cs' ≡ cs ++ stamped clock (condition_init t 1 now) ∷ [])
            × All (λ d. d.type ≢ t) cs)

  module _ (cs : List Condition) (t : String) (now : ℕ) where
    init_type : (clock : ℕ) → (stamped clock (condition_init t 1 now)).type ≡ t
    unfolding condition_init
    init_type clock = refl

    set_init :
        find_status_condition cs t ≡ none
        → (clock : ℕ) × (meta.set_status_condition cs (condition_init t 1 now)
            ≡ cs ++ stamped clock (condition_init t 1 now) ∷ [])
    unfolding condition_init
    set_init e = set_appends cs (condition_init t 1 now) e

    found_again :
        (c : Condition) → c.type ≡ t → (i : ℕ) × (find_status_condition (cs ++ c ∷ []) t ≡ some i)
    found_again c type = elim (Option-cases (find_status_condition (cs ++ c ∷ []) t)) [
      | inl e ↦ absurd (not-All-append cs c t type (find_complete _ t e))
      | inr e ↦ e
    ]

    pub get_condition-Gets :
        (cs' : List Condition) × (i : ℕ) × (c : Condition) × Gets cs t now cs' i c
    unfolding get_condition
    get_condition-Gets = elim (Option-cases (find_status_condition cs t)) [
      | inr (i, e) ↦
          let (c, at, type) = find_sound cs t i e in
          (cs, i, c, record { result = ground arith; at = at; type = type; slice = inl refl })
      | inl e ↦
          let (clock, set_) = set_init e in
          let added = stamped clock (condition_init t 1 now) in
          let (i, found) = found_again added (init_type clock) in
          let (c, at, type) = find_sound _ t i found in
          (
            cs ++ added ∷ [],
            i,
            c,
            record {
              result = ground (arith, set_, found);
              at = at;
              type = type;
              slice = inr (clock, refl, find_complete cs t e);
            },
          )
    ]
