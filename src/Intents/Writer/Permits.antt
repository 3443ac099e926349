-- ===== src/Intents/Writer/Permits.antt =====
-- What an action that the writer chose says of the owner and of the object that it read
-- (internal/k8s/managed_resource.go, internal/k8s/observed_spec_changes.go).
use opensaola.Base.{
  ◌&&◌, String, ◌==◌, eq_iff, true, false, not, any, List, [], ◌∷◌, Option, none, some, All, Dict,
  value_at, ◌≡◌, ◌≢◌, ◌⊎◌, inl, inr, Bool-cases, arith,
}
use opensaola.Api.{
  Condition, is_condition_true, cond_type_reconcile_paused, is_reconcile_suspended,
  has_paused_condition, reconcile_resume_policy_for, is_middleware_reconcile_write_suspended,
}
use opensaola.Configuration.{
  Gvk, OwnerKind, OwnerReference, middleware, middleware_operator, unsupported, GetControllerOf,
}
use opensaola.Configuration.Ownership.{kind_name, label_configurations}
use opensaola.Intents.{WriteOwner, Rendered}
use opensaola.Intents.Answers.{Answer, present, absent, failed}
use opensaola.Intents.Snapshots.{PauseStatus}
use opensaola.Intents.Writer.{
  is_immutable_resource, nothing, FreshOwner, is_write_suspended, Action, create_resource,
  apply_new, adopt_resource,
}

-- No condition says that the reconciliation is paused.
abbrev IsUnpaused : List Condition → Type 0
IsUnpaused = All (λ c. (c.type ≢ cond_type_reconcile_paused) ⊎ (is_condition_true c.status ≡ false))

abbrev IsPolicy : String → Type 0
IsPolicy policy = (policy ≡ "merge") ⊎ (policy ≡ "apply")

-- The owner does not ask for suspension; a Middleware has a policy to resume, or no condition that it
-- is paused.
abbrev pub IsActive : OwnerKind → FreshOwner → Type 0
IsActive middleware f =
    (value_at "middleware.cn/suspend-reconcile" f.annotations ≢ "true")
    × (IsPolicy (value_at "middleware.cn/resume-policy" f.annotations) ⊎ IsUnpaused f.conditions)
IsActive middleware_operator f = value_at "middleware.cn/suspend-reconcile" f.annotations ≢ "true"
IsActive unsupported f = Unit

unpaused : (cs : List Condition) → has_paused_condition cs ≡ false → IsUnpaused cs
unfolding has_paused_condition any
unpaused [] e = tt
unpaused (c ∷ cs) e = (
  elim (Bool-cases (c.type == cond_type_reconcile_paused)) [
    | inl t ↦ inr (ground arith)
    | inr t ↦ inl (λ x. ground (arith, eq_iff c.type cond_type_reconcile_paused))
  ],
  unpaused cs (ground arith),
)

middleware-IsActive :
    (annotations : Dict String) (conditions : List Condition)
    → not (is_middleware_reconcile_write_suspended annotations conditions) ≡ true
    → (value_at "middleware.cn/suspend-reconcile" annotations ≢ "true")
      × (IsPolicy (value_at "middleware.cn/resume-policy" annotations) ⊎ IsUnpaused conditions)
unfolding is_middleware_reconcile_write_suspended is_reconcile_suspended reconcile_resume_policy_for
middleware-IsActive annotations conditions h =
    let policy = value_at "middleware.cn/resume-policy" annotations in
    (
      λ e. ground (arith, eq_iff (value_at "middleware.cn/suspend-reconcile" annotations) "true"),
      elim (Bool-cases (policy == "merge")) [
        | inl m ↦ inl (inl ((eq_iff policy "merge").0 m))
        | inr m ↦ elim (Bool-cases (policy == "apply")) [
          | inl a ↦ inl (inr ((eq_iff policy "apply").0 a))
          | inr a ↦ inr (unpaused conditions (ground arith))
        ]
      ],
    )

pub unsuspended-IsActive :
    (kind : OwnerKind) (f : FreshOwner) → not (is_write_suspended kind f) ≡ true → IsActive kind f
unfolding is_middleware_reconcile_write_suspended is_reconcile_suspended reconcile_resume_policy_for
unsuspended-IsActive unsupported f h = tt
unsuspended-IsActive middleware_operator f h =
    λ e. ground (arith, eq_iff (value_at "middleware.cn/suspend-reconcile" f.annotations) "true")
unsuspended-IsActive middleware f h = middleware-IsActive f.annotations f.conditions h

-- A Job of batch/v1 or a CronJob of batch/v1beta1.
abbrev pub IsImmutable : Gvk → Type 0
IsImmutable gvk =
    (gvk.group ≡ "batch")
    × (((gvk.version ≡ "v1") × (gvk.kind ≡ "Job"))
        ⊎ ((gvk.version ≡ "v1beta1") × (gvk.kind ≡ "CronJob")))

pub listed-IsImmutable : (gvk : Gvk) → is_immutable_resource gvk ≡ true → IsImmutable gvk
unfolding is_immutable_resource
listed-IsImmutable gvk h = (
  (eq_iff gvk.group "batch").0 (ground arith),
  elim (Bool-cases (gvk.kind == "Job" && gvk.version == "v1")) [
    | inl e ↦
        inl ((eq_iff gvk.version "v1").0 (ground arith), (eq_iff gvk.kind "Job").0 (ground arith))
    | inr e ↦ inr (
      (eq_iff gvk.version "v1beta1").0 (ground arith),
      (eq_iff gvk.kind "CronJob").0 (ground arith),
    )
  ],
)

pub unlisted-IsImmutable : (gvk : Gvk) → is_immutable_resource gvk ≡ false → ¬ IsImmutable gvk
unfolding is_immutable_resource
unlisted-IsImmutable gvk h i = ground (
  arith,
  eq_iff gvk.group "batch",
  eq_iff gvk.version "v1",
  eq_iff gvk.kind "Job",
  eq_iff gvk.version "v1beta1",
  eq_iff gvk.kind "CronJob",
  i,
)

module _ {Content : Type 0} (spec_hash : Content → Option String)
    (parse_group : String → Option String) (meta : GetControllerOf) where
  -- The object is controlled by the owner: group, kind, name, UID and namespace.
  pub record IsControlled (owner : WriteOwner) (live : Rendered Content) : Type 0 where
    pub ref : OwnerReference
    pub controller : meta.controller_of live.owner_references ≡ some ref
    pub group : parse_group ref.api_version ≡ some "middleware.cn"
    pub kind : ref.kind ≡ kind_name owner.kind
    pub name : ref.name ≡ owner.name
    pub uid : ref.uid ≡ owner.uid
    pub namespace : live.namespace ≡ owner.namespace
    pub owner_uid : owner.uid ≢ ""
    pub live_uid : live.uid ≢ ""
    pub live_stays : live.deleting ≡ false

  -- Under the merge policy, a Middleware whose pause was recorded has the recorded object before it:
  -- the UID, the name, the namespace and the hash of the spec that was adopted.
  abbrev pub IsRecorded : PauseStatus → Option (Rendered Content) → Type 0
  IsRecorded p none = ⊥
  IsRecorded p (some live) =
      (p.resource_uid ≢ "")
      × (live.uid ≡ p.resource_uid)
      × (live.deleting ≡ false)
      × (live.gvk.group ≡ p.gvk.group)
      × (live.gvk.version ≡ p.gvk.version)
      × (live.gvk.kind ≡ p.gvk.kind)
      × (live.name ≡ p.name)
      × (live.namespace ≡ p.namespace)
      × (spec_hash live.content ≡ some p.adopted_live_spec_hash)

  abbrev pub IsObserved : FreshOwner → Option (Rendered Content) → String → Type 0
  IsObserved f live configuration =
      (f.owner.kind ≢ middleware)
      ⊎ (configuration ≢ "")
      ⊎ (value_at "middleware.cn/resume-policy" f.annotations ≢ "merge")
      ⊎ (f.reconcile_pause ≡ none)
      ⊎ ((p : PauseStatus) × (f.reconcile_pause ≡ some p) × IsRecorded p live)

  -- Where no object was read, one of an immutable kind is created and any other is applied anew; an
  -- object that was read is left as it is if it is immutable, and it is the owner's, or carries the
  -- configuration and is not deleting.
  abbrev pub Permits :
      FreshOwner → Answer (Rendered Content) → Rendered Content → String → Action → Type 0
  Permits f failed desired configuration action = ⊥
  Permits f absent desired configuration action =
      ((IsImmutable desired.gvk × (action ≡ create_resource))
        ⊎ ((¬ IsImmutable desired.gvk) × (action ≡ apply_new)))
      × IsObserved f none configuration
  Permits f (present live) desired configuration action =
      (action ≢ create_resource)
      × (action ≢ apply_new)
      × ((IsImmutable live.gvk × (action ≡ nothing))
          ⊎ ((¬ IsImmutable live.gvk) × (action ≢ nothing)))
      × IsObserved f (some live) configuration
      × (((configuration ≡ "") × (action ≢ adopt_resource) × IsControlled f.owner live)
          ⊎ ((configuration ≢ "")
              × (live.deleting ≡ false)
              × (value_at label_configurations live.annotations ≡ configuration)))
