-- ===== src/Readiness/Diagnosed.antt =====
-- What the absence of a diagnostic means (internal/service/synchronizer/readiness_diagnostic.go).
use opensaola.Base.{
  ℕ, String, Bool, true, false, not, ◌||◌, ◌&&◌, List, [], ◌∷◌, Option, none, some, All, All-map,
  if◌then◌else◌, ◌≡◌, refl, subst, inl, inr, Bool-cases, arith,
}
use opensaola.Api.{Phase, is_condition_true}
use opensaola.Readiness.{
  PrimaryMeta, Pod, PodCondition, PodConditionType, VolumeClaim, Diagnostic, described,
  is_scheduling, is_readiness, has_transient_middleware_waiting_container,
  is_initial_pvc_binding_pending_condition, first, or_else, is_stuck, is_reported_condition,
  first_middleware_waiting_container, waiting_of, pod_condition_of,
  middleware_pod_waiting_diagnostic, middleware_pod_condition_diagnostic,
  middleware_pvc_pending_diagnostic, derive_middleware_readiness_diagnostic_at,
  is_within_initial_readiness_grace,
}

first-none :
    {A : Type 0} (p : A → Bool) (xs : List A) → first p xs ≡ none → All (λ x. p x ≡ false) xs
unfolding first
first-none p [] h = tt
first-none p (x ∷ xs) h = elim (Bool-cases (p x)) [
  | inl e ↦ absurd (ground arith)
  | inr e ↦ (e, first-none p xs (ground arith))
]

or_else-none : {A : Type 0} (a b : Option A) → or_else a b ≡ none → (a ≡ none) × (b ≡ none)
unfolding or_else
or_else-none none b h = (refl, h)
or_else-none (some x) b h = absurd (ground arith)

described-none : {A : Type 0} (f : A → Diagnostic) (o : Option A) → described f o ≡ none → o ≡ none
unfolding described
described-none f none h = refl
described-none f (some x) h = absurd (ground arith)

-- No container of the pod waits for a reason other than being created.
pub record IsUnstuck (pod : Pod) : Type 0 where
  pub init_containers : All (λ c. is_stuck c ≡ false) pod.init_container_statuses
  pub containers : All (λ c. is_stuck c ≡ false) pod.container_statuses

waiting-none : (pod : Pod) → waiting_of pod ≡ none → IsUnstuck pod
unfolding waiting_of first_middleware_waiting_container
waiting-none pod h =
    let f =
      or_else-none (first is_stuck pod.init_container_statuses)
        (first is_stuck pod.container_statuses) (described-none _ _ h) in
    record {
      init_containers = first-none is_stuck pod.init_container_statuses f.0;
      containers = first-none is_stuck pod.container_statuses f.1;
    }

waitings-none :
    (pods : List Pod) → middleware_pod_waiting_diagnostic pods ≡ none → All IsUnstuck pods
unfolding middleware_pod_waiting_diagnostic
waitings-none [] h = tt
waitings-none (pod ∷ pods) h =
    let f = or_else-none (waiting_of pod) (middleware_pod_waiting_diagnostic pods) h in
    (waiting-none pod f.0, waitings-none pods f.1)

abbrev skips : Bool → Bool → Bool → Bool → Bool → Bool → Bool
skips t s r creating within binding =
    if t
    then false
    else if not (s || r)
    then false
    else if not s && (creating || within)
    then false
    else not (within && binding)

scheduling-skipped :
    (t s r creating within binding : Bool)
    → skips t s r creating within binding ≡ false
    → t ≡ false
    → s ≡ true
    → (within ≡ true) × (binding ≡ true)
scheduling-skipped t s r creating within binding h f g = ground arith

readiness-skipped :
    (t s r creating within binding : Bool)
    → skips t s r creating within binding ≡ false
    → t ≡ false
    → r ≡ true
    → s ≡ false
    → (creating || within) ≡ true
readiness-skipped t s r creating within binding h f g k = ground arith

readiness-unscheduled : (t : PodConditionType) → is_readiness t ≡ true → is_scheduling t ≡ false
readiness-unscheduled PodConditionType.pod_scheduled h = absurd (ground arith)
readiness-unscheduled PodConditionType.containers_ready h = refl
readiness-unscheduled PodConditionType.pod_ready h = refl
readiness-unscheduled (PodConditionType.other_type s) h = refl

module _ (to_lower : String → String) where
  conditions-none :
      (within : Bool) (pods : List Pod)
      → middleware_pod_condition_diagnostic to_lower within pods ≡ none
      → All
          (λ pod. All (λ c. is_reported_condition to_lower within pod c ≡ false) pod.conditions)
          pods
  unfolding middleware_pod_condition_diagnostic pod_condition_of
  conditions-none within [] h = tt
  conditions-none within (pod ∷ pods) h =
      let f =
        or_else-none (pod_condition_of to_lower within pod)
          (middleware_pod_condition_diagnostic to_lower within pods) h in
      (first-none _ pod.conditions (described-none _ _ f.0), conditions-none within pods f.1)

  -- A condition that is not True and draws no diagnostic: a readiness condition of a pod that is
  -- still being created or within the grace period, an unscheduled pod that waits for its volume
  -- claims within the grace period, or a condition of another type.
  abbrev pub IsExcused : Bool → Pod → PodCondition → Type 0
  IsExcused within pod c =
      is_condition_true c.status ≡ false
      → ((is_scheduling c.type ≡ true)
          → (within ≡ true) × (is_initial_pvc_binding_pending_condition to_lower c ≡ true))
        × ((is_readiness c.type ≡ true)
            → (has_transient_middleware_waiting_container pod || within) ≡ true)

  unreported-IsExcused :
      (within : Bool) (pod : Pod) (c : PodCondition)
      → is_reported_condition to_lower within pod c ≡ false
      → IsExcused within pod c
  unfolding is_reported_condition
  unreported-IsExcused within pod c h f = (
    λ s. scheduling-skipped (is_condition_true c.status) (is_scheduling c.type) _ _ within _ h f s,
    λ r.
        readiness-skipped (is_condition_true c.status) (is_scheduling c.type) (is_readiness c.type)
          _ within _ h f r (readiness-unscheduled c.type r),
  )

  pub record IsQuiet (within : Bool) (pods : List Pod) (pvcs : List VolumeClaim) : Type 0 where
    pub containers : All IsUnstuck pods
    pub conditions : All (λ pod. All (IsExcused within pod) pod.conditions) pods
    pub claims : within ≡ false → All (λ v. v.is_pending ≡ false) pvcs

  claims-none :
      (pvcs : List VolumeClaim)
      → middleware_pvc_pending_diagnostic false pvcs ≡ none
      → All (λ v. v.is_pending ≡ false) pvcs
  unfolding middleware_pvc_pending_diagnostic
  claims-none [] h = tt
  claims-none (v ∷ vs) h = elim (Bool-cases v.is_pending) [
    | inl e ↦ absurd (ground arith)
    | inr e ↦ (e, claims-none vs (ground arith))
  ]

  -- Where no diagnostic is derived, no container of any pod waits for a reason other than being
  -- created; every pod condition that is not True is excused by the grace period, by a container
  -- that is being created or by its type; and outside the grace period no volume claim is
  -- pending.
  pub undiagnosed-IsQuiet :
      (phase : Option Phase) (cr : Option PrimaryMeta) (pods : List Pod) (pvcs : List VolumeClaim)
      (now : ℕ)
      → derive_middleware_readiness_diagnostic_at to_lower phase cr pods pvcs now ≡ none
      → IsQuiet (is_within_initial_readiness_grace phase cr now) pods pvcs
  unfolding derive_middleware_readiness_diagnostic_at
  undiagnosed-IsQuiet phase cr pods pvcs now h =
      let within = is_within_initial_readiness_grace phase cr now in
      let f = or_else-none (middleware_pod_waiting_diagnostic pods) _ h in
      let g = or_else-none (middleware_pod_condition_diagnostic to_lower within pods) _ f.1 in
      record {
        containers = waitings-none pods f.0;
        conditions =
            All-map (λ pod. All-map (unreported-IsExcused within pod) pod.conditions) pods
              (conditions-none within pods g.0);
        claims = λ e.
            claims-none pvcs (subst (λ w. middleware_pvc_pending_diagnostic w pvcs ≡ none) e g.1);
      }
