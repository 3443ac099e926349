-- ===== src/Pause.antt =====
-- The durable pause marker and the adoption condition: internal/controller/reconcile_suspension.go.
-- Each function that updates a condition through the pointer of GetCondition returns the new slice
-- and its Boolean result; `none` is a panic at a nil pointer.
pub mod Marker
use opensaola.Base.{
  ℕ, String, ◌==◌, Bool, true, false, not, ◌&&◌, List, Option, none, some, get_elem?, set, keep,
  any, eqb, if◌then◌else◌,
}
use opensaola.Api.{
  Condition, ConditionStatus, condition_true, is_condition_true, same_status,
  cond_type_reconcile_paused, cond_type_reconcile_adoption,
}
use opensaola.Status.{MetaConditions, get_condition}

abbrev pub reconcile_paused_message : String
reconcile_paused_message = "reconciliation is suspended by middleware.cn/suspend-reconcile=true"

abbrev is_marked : Condition → ℕ → Bool
is_marked c generation =
    is_condition_true c.status
    && eqb c.observed_generation generation
    && c.reason == "ReconcilePaused"
    && c.message == reconcile_paused_message

paused : Condition → ℕ → ℕ → Condition
paused c generation now = record c {
  status = condition_true;
  observed_generation = generation;
  last_transition_time = if is_condition_true c.status then c.last_transition_time else now;
  reason = "ReconcilePaused";
  message = reconcile_paused_message;
}

-- The body of a function after `condition := status.GetCondition(...)`: `keeps` is the test that
-- returns early, `new` the condition after the assignments.
abbrev update_at :
    (Condition → Bool)
    → (Condition → Condition)
    → List Condition × Option ℕ
    → Option (List Condition × Bool)
update_at keeps new (cs, none) = none
update_at keeps new (cs, some i) = elim (get_elem? cs i) [
  | none ↦ none
  | some c ↦ if keeps c then some (cs, false) else some (set cs i (new c), true)
]

abbrev adopted_same : ConditionStatus → String → String → ℕ → Condition → Bool
adopted_same status reason message generation c =
    same_status c.status status
    && eqb c.observed_generation generation
    && c.reason == reason
    && c.message == message

adopted : ConditionStatus → String → String → ℕ → ℕ → Condition → Condition
adopted status reason message generation now c = record c {
  last_transition_time = if same_status c.status status then c.last_transition_time else now;
  status = status;
  observed_generation = generation;
  reason = reason;
  message = message;
}

module _ (meta : MetaConditions) where
  unfoldable pub mark_reconcile_paused : List Condition → ℕ → ℕ → Option (List Condition × Bool)
  unfolding paused
  mark_reconcile_paused conditions generation now =
      update_at (λ c. is_marked c generation) (λ c. paused c generation now)
        (get_condition meta conditions cond_type_reconcile_paused now)

  unfoldable pub set_reconcile_adoption_condition :
      List Condition → ConditionStatus → String → String → ℕ → ℕ → Option (List Condition × Bool)
  unfolding adopted
  set_reconcile_adoption_condition conditions status reason message generation now =
      update_at (adopted_same status reason message generation)
        (adopted status reason message generation now)
        (get_condition meta conditions cond_type_reconcile_adoption now)

unfoldable pub has_reconcile_paused : List Condition → Bool
has_reconcile_paused = any (λ c. c.type == cond_type_reconcile_paused && is_condition_true c.status)

-- `filtered` and `removed` after the loop of the two `clear` functions.
unfoldable pub without : String → List Condition → List Condition
without t = keep (λ c. not (c.type == t))

abbrev clear : String → Option (List Condition) → Option (List Condition) × Bool
clear t none = (none, false)
clear t (some conditions) =
    let removed = any (λ (c : Condition). c.type == t) conditions in
    (some (if removed then without t conditions else conditions), removed)

-- `none` is the nil pointer.
unfoldable pub clear_reconcile_paused : Option (List Condition) → Option (List Condition) × Bool
unfolding without
clear_reconcile_paused = clear cond_type_reconcile_paused

unfoldable pub clear_reconcile_adoption_condition :
    Option (List Condition) → Option (List Condition) × Bool
unfolding without
clear_reconcile_adoption_condition = clear cond_type_reconcile_adoption
