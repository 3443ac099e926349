-- ===== src/Intents/Writer/Observed.antt =====
-- What the identity check and the check of the observed spec say when they pass
-- (internal/k8s/managed_resource.go, internal/k8s/observed_spec_changes.go).
use opensaola.Base.{
  String, ◌==◌, eq_iff, Bool, true, false, ◌&&◌, Option, none, some, value_at, ◌≡◌, ◌≢◌, ◌⊎◌, inl,
  inr, refl, ap, sym, Bool-cases, arith,
}
use opensaola.Api.{reconcile_resume_policy_for}
use opensaola.Configuration.{OwnerReference, GetControllerOf}
use opensaola.Configuration.Ownership.{kind_name}
use opensaola.Intents.{WriteOwner, Rendered}
use opensaola.Intents.Identity.{is_group, verify_controller, verify_managed_identity}
use opensaola.Intents.Snapshots.{PauseStatus}
use opensaola.Intents.Adoption.{Owners}
use opensaola.Intents.Writer.{
  FreshOwner, is_observed, observed_or_changed, is_merge, is_middleware, has_hash,
  verify_observed_spec_for_write,
}
use opensaola.Intents.Writer.Permits.{IsControlled, IsRecorded, IsObserved}

module _ {Content : Type 0} (spec_hash : Content → Option String)
    (parse_group : String → Option String) (meta : GetControllerOf) where
  group-some : (o : Option String) → is_group o ≡ true → o ≡ some "middleware.cn"
  group-some none e = cc
  group-some (some g) e = ap some ((eq_iff g "middleware.cn").0 e)

  controller-IsControlled :
      (owner : WriteOwner) (live : Rendered Content) (o : Option OwnerReference)
      → meta.controller_of live.owner_references ≡ o
      → verify_controller parse_group meta owner live o ≡ none
      → owner.uid ≢ ""
      → live.uid ≢ ""
      → live.deleting ≡ false
      → IsControlled spec_hash parse_group meta owner live
  unfolding verify_controller
  controller-IsControlled owner live none r e u v d = absurd (ground arith)
  controller-IsControlled owner live (some x) r e u v d = record {
    ref = x;
    controller = r;
    group = group-some (parse_group x.api_version) (ground arith);
    kind = (eq_iff x.kind (kind_name owner.kind)).0 (ground arith);
    name = (eq_iff x.name owner.name).0 (ground arith);
    uid = (eq_iff x.uid owner.uid).0 (ground arith);
    namespace = (eq_iff live.namespace owner.namespace).0 (ground arith);
    owner_uid = u;
    live_uid = v;
    live_stays = d;
  }

  pub managed-IsControlled :
      (owner : WriteOwner) (live : Rendered Content)
      → verify_managed_identity parse_group meta owner live ≡ none
      → IsControlled spec_hash parse_group meta owner live
  unfolding verify_managed_identity
  managed-IsControlled owner live e =
      controller-IsControlled owner live (meta.controller_of live.owner_references) refl
        (ground arith) (λ h. ground (arith, eq_iff owner.uid ""))
        (λ h. ground (arith, eq_iff live.uid "")) (ground arith)

  has-hash :
      (owners : Owners) (has_schemas : Bool) (adopted : String) (o : Option String)
      → has_hash spec_hash owners parse_group meta has_schemas adopted o ≡ true
      → o ≡ some adopted
  has-hash owners s adopted none e = cc
  has-hash owners s adopted (some h) e = ap some (sym ((eq_iff adopted h).0 (ground arith)))

  observed-IsRecorded :
      (owners : Owners) (has_schemas : Bool) (p : PauseStatus) (live : Option (Rendered Content))
      → is_observed spec_hash owners parse_group meta has_schemas p live ≡ true
      → IsRecorded spec_hash parse_group meta p live
  observed-IsRecorded owners s p none e = absurd (ground arith)
  observed-IsRecorded owners s p (some live) e = (
    λ h. ground (arith, eq_iff p.resource_uid ""),
    (eq_iff live.uid p.resource_uid).0 (ground arith),
    ground arith,
    (eq_iff live.gvk.group p.gvk.group).0 (ground arith),
    (eq_iff live.gvk.version p.gvk.version).0 (ground arith),
    (eq_iff live.gvk.kind p.gvk.kind).0 (ground arith),
    (eq_iff live.name p.name).0 (ground arith),
    (eq_iff live.namespace p.namespace).0 (ground arith),
    has-hash owners s p.adopted_live_spec_hash (spec_hash live.content) (ground arith),
  )

  merges :
      (f : FreshOwner)
      → value_at "middleware.cn/resume-policy" f.annotations ≡ "merge"
      → is_merge (reconcile_resume_policy_for f.annotations) ≡ true
  unfolding reconcile_resume_policy_for
  merges f e =
      ground (arith, e, (eq_iff (value_at "middleware.cn/resume-policy" f.annotations) "merge").1 e)

  pause_or_object :
      (owners : Owners) (has_schemas : Bool) (applies : Bool) (o : Option PauseStatus)
      (live : Option (Rendered Content))
      → observed_or_changed spec_hash owners parse_group meta has_schemas applies o live ≡ none
      → (applies ≡ false)
        ⊎ ((o ≡ none)
            ⊎ ((p : PauseStatus) × (o ≡ some p) × IsRecorded spec_hash parse_group meta p live))
  pause_or_object owners s applies none live e = inr (inl refl)
  pause_or_object owners s false (some p) live e = inl refl
  pause_or_object owners s true (some p) live e =
      inr (inr (p, refl, observed-IsRecorded owners s p live (ground arith)))

  pub verified-IsObserved :
      (owners : Owners) (has_schemas : Bool) (f : FreshOwner) (live : Option (Rendered Content))
      (configuration : String)
      → verify_observed_spec_for_write spec_hash owners parse_group meta has_schemas f live
          configuration
        ≡ none
      → IsObserved spec_hash parse_group meta f live configuration
  unfolding verify_observed_spec_for_write
  verified-IsObserved owners s f live configuration e =
      elim (pause_or_object owners s
        (is_middleware f.owner.kind
          && configuration == ""
          && is_merge (reconcile_resume_policy_for f.annotations))
        f.reconcile_pause live e) [
          | inr r ↦ inr (inr (inr r))
          | inl a ↦ elim (Bool-cases (is_middleware f.owner.kind)) [
            | inr m ↦ inl (λ h. ground (arith, m, ap is_middleware h))
            | inl m ↦ elim (Bool-cases (configuration == "")) [
              | inr c ↦ inr (inl (λ h. ground (arith, eq_iff configuration "")))
              | inl c ↦ inr (inr (inl (λ h. ground (arith, merges f h, a, m, c))))
            ]
          ]
        ]
