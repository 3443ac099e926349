-- ===== src/Examples/Conditions.antt =====
-- The pause marker at a concrete slice, over a concrete FindStatusCondition and
-- SetStatusCondition.
use opensaola.Base.{
  ℕ, zero, suc, String, ◌==◌, eq_iff, Bool, false, List, [], ◌∷◌, ◌++◌, Option, none, some,
  get_elem?, All, ◌≡◌, ◌≢◌, refl, if◌then◌else◌, arith,
}
use opensaola.Api.{Condition, condition_true}
use opensaola.Status.{MetaConditions, stamped}
use opensaola.Pause.{mark_reconcile_paused, clear_reconcile_paused, has_reconcile_paused}
use opensaola.Pause.Marker.{IsMarked, mark-IsMarked, clear-mark}

abbrev next : Option ℕ → Option ℕ
next none = none
next (some i) = some (suc i)

find_first : List Condition → String → Option ℕ
find_first [] t = none
find_first (c ∷ cs) t = let rest = next (find_first cs t) in if c.type == t then some 0 else rest

next_sound : (o : Option ℕ) (i : ℕ) → next o ≡ some (suc i) → o ≡ some i
next_sound none i e = cc
next_sound (some j) i e = ground arith

find_first_sound :
    (cs : List Condition) (t : String) (i : ℕ)
    → find_first cs t ≡ some i
    → (c : Condition) × (get_elem? cs i ≡ some c) × (c.type ≡ t)
unfolding find_first
find_first_sound [] t i e = absurd (ground arith)
find_first_sound (c ∷ cs) t zero e = (c, refl, ground (arith, eq_iff c.type t))
find_first_sound (c ∷ cs) t (suc i) e =
    find_first_sound cs t i (ground (arith, next_sound (find_first cs t) i))

find_first_complete :
    (cs : List Condition) (t : String) → find_first cs t ≡ none → All (λ c. c.type ≢ t) cs
unfolding find_first
find_first_complete [] t e = tt
find_first_complete (c ∷ cs) t e =
    (λ p. ground (arith, eq_iff c.type t), find_first_complete cs t (ground arith))

set_or_append : List Condition → Condition → List Condition
set_or_append cs c = elim (find_first cs c.type) [ none ↦ cs ++ stamped 7 c ∷ [] | some i ↦ cs ]

set_or_append-appends :
    (cs : List Condition) (c : Condition)
    → find_first cs c.type ≡ none
    → (clock : ℕ) × (set_or_append cs c ≡ cs ++ stamped clock c ∷ [])
unfolding set_or_append
set_or_append-appends cs c e = (7, ground arith)

abbrev first_match : MetaConditions
first_match = record {
  find_status_condition = find_first;
  set_status_condition = set_or_append;
  find_sound = find_first_sound;
  find_complete = find_first_complete;
  set_appends = set_or_append-appends;
}

abbrev checked : Condition
checked = record {
  type = "Checked";
  status = condition_true;
  observed_generation = 3;
  last_transition_time = 10;
  reason = "CheckedSuccess";
  message = "Succeeded";
}

clear-mark_example :
    (after : List Condition) × (changed : Bool) × (final : List Condition) × (mark_reconcile_paused
        first_match
        (checked ∷ [])
        3
        50
      ≡ some (after, changed))
    × ((clear_reconcile_paused (some after)).0 ≡ some final)
    × ((clear_reconcile_paused (some (checked ∷ []))).0 ≡ some final)
    × (has_reconcile_paused final ≡ false)
clear-mark_example = clear-mark first_match (checked ∷ []) 3 50

mark-IsMarked_example :
    (after : List Condition) × (changed : Bool) × (mark_reconcile_paused first_match
        (checked ∷ [])
        3
        50
      ≡ some (after, changed))
    × IsMarked (checked ∷ []) after
mark-IsMarked_example = mark-IsMarked first_match (checked ∷ []) 3 50
