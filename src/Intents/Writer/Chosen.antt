-- ===== src/Intents/Writer/Chosen.antt =====
-- Every action that the writer chooses is permitted by what it read
-- (internal/k8s/managed_resource.go, internal/k8s/observed_spec_changes.go).
use opensaola.Base.{
  String, ◌==◌, eq_iff, Bool, false, Option, none, some, value_at, ◌≡◌, ◌≢◌, ◌⊎◌, inl, inr, refl,
  sym, Bool-cases, arith,
}
use opensaola.Configuration.{GetControllerOf}
use opensaola.Configuration.Ownership.{label_configurations}
use opensaola.Intents.{WriteOwner, Rendered, WriteError, Fallible, ok, ok-eq, bind-ok, require-true}
use opensaola.Intents.Answers.{Answer, present, absent, failed}
use opensaola.Intents.Identity.{verify_intent_identity, verify_managed_identity}
use opensaola.Intents.Adoption.{Owners, adopt_unless, is_adoptable, configuration_needs_adoption}
use opensaola.Intents.Adoption.Claims.{adoptable-IsMarked}
use opensaola.Intents.Writer.{
  FreshOwner, Action, nothing, create_resource, apply_new, adopt_resource, is_immutable_resource,
  act_on, verify_observed_spec_for_write, needs_adoption, stop_at, choose_action,
}
use opensaola.Intents.Writer.Permits.{
  IsImmutable, listed-IsImmutable, unlisted-IsImmutable, Permits,
}
use opensaola.Intents.Writer.Observed.{managed-IsControlled, verified-IsObserved}

module _ {Content : Type 0} (spec_hash : Content → Option String)
    (parse_group : String → Option String) (meta : GetControllerOf) where
  stop_at-ok :
      {A : Type 0} (owners : Owners) (has_schemas : Bool) (o : Option WriteError) (r : Fallible A)
      (a : A)
      → stop_at spec_hash owners parse_group meta has_schemas o r ≡ ok a
      → (o ≡ none) × (r ≡ ok a)
  stop_at-ok owners s none r a e = (refl, e)
  stop_at-ok owners s (some x) r a e = absurd (ground arith)

  kept-source :
      (owner : WriteOwner) (live : Rendered Content) (configuration : String)
      → (configuration == "") ≡ false
      → verify_intent_identity parse_group meta owner live configuration ≡ none
      → (live.deleting ≡ false) × (value_at label_configurations live.annotations ≡ configuration)
  unfolding verify_intent_identity
  kept-source owner live configuration c e = (
    ground arith,
    (eq_iff (value_at label_configurations live.annotations) configuration).0 (ground arith),
  )

  identity-source :
      (owners : Owners) (owner : WriteOwner) (live desired : Rendered Content)
      (configuration : String) (adopt : Bool) (identity : Option WriteError)
      → (configuration == "") ≡ false
      → verify_intent_identity parse_group meta owner live configuration ≡ identity
      → adopt_unless owners parse_group meta owner live desired configuration identity ≡ ok adopt
      → (live.deleting ≡ false) × (value_at label_configurations live.annotations ≡ configuration)
  identity-source owners owner live desired configuration adopt none c v e =
      kept-source owner live configuration c v
  identity-source owners owner live desired configuration adopt (some x) c v e =
      let marked = adoptable-IsMarked owners owner live configuration parse_group meta desired (
        require-true (is_adoptable owners parse_group meta owner live desired configuration) _ _
          adopt e) in
      (marked.live_stays, marked.source)

  adopts-source :
      (owners : Owners) (owner : WriteOwner) (live desired : Rendered Content)
      (configuration : String) (adopt : Bool)
      → (configuration == "") ≡ false
      → configuration_needs_adoption owners parse_group meta owner live desired configuration
        ≡ ok adopt
      → (live.deleting ≡ false) × (value_at label_configurations live.annotations ≡ configuration)
  unfolding configuration_needs_adoption
  adopts-source owners owner live desired configuration adopt c e =
      identity-source owners owner live desired configuration adopt _ c refl e

  chosen_action :
      (owners : Owners) (has_schemas : Bool) (live : Rendered Content) (adopt : Bool)
      (action : Action)
      → act_on spec_hash owners parse_group meta has_schemas live adopt ≡ action
      → (action ≢ create_resource)
        × (action ≢ apply_new)
        × ((adopt ≡ false) → action ≢ adopt_resource)
  chosen_action owners s live adopt action e =
      (λ h. ground (arith, e, h), λ h. ground (arith, e, h), λ a h. ground (arith, e, h, a))

  fits :
      (owners : Owners) (has_schemas : Bool) (live : Rendered Content) (adopt : Bool)
      (action : Action)
      → act_on spec_hash owners parse_group meta has_schemas live adopt ≡ action
      → (IsImmutable live.gvk × (action ≡ nothing))
        ⊎ ((¬ IsImmutable live.gvk) × (action ≢ nothing))
  fits owners s live adopt action e = elim (Bool-cases (is_immutable_resource live.gvk)) [
    | inl i ↦ inl (listed-IsImmutable live.gvk i, sym (rw i at e))
    | inr i ↦ inr (unlisted-IsImmutable live.gvk i, λ h. ground (arith, e, h, i))
  ]

  pub chosen-Permits :
      (owners : Owners) (has_schemas : Bool) (f : FreshOwner) (a : Answer (Rendered Content))
      (desired : Rendered Content) (configuration : String) (action : Action)
      → choose_action spec_hash owners parse_group meta has_schemas f a desired configuration
        ≡ ok action
      → Permits spec_hash parse_group meta f a desired configuration action
  unfolding choose_action
  chosen-Permits owners s f failed desired configuration action e = absurd (ground arith)
  chosen-Permits owners s f absent desired configuration action e =
      let (verified, chosen) =
        stop_at-ok owners s
          (verify_observed_spec_for_write spec_hash owners parse_group meta s f none configuration)
          _ action e in
      (
        elim (Bool-cases (is_immutable_resource desired.gvk)) [
          | inl i ↦ inl (listed-IsImmutable desired.gvk i, sym (ok-eq (rw i at chosen)))
          | inr i ↦ inr (unlisted-IsImmutable desired.gvk i, sym (ok-eq (rw i at chosen)))
        ],
        verified-IsObserved spec_hash parse_group meta owners s f none configuration verified,
      )
  chosen-Permits owners s f (present live) desired configuration action e =
      let (verified, chosen) =
        stop_at-ok owners s
          (verify_observed_spec_for_write spec_hash owners parse_group meta s f (some live)
            configuration)
          _ action e in
      let (adopt, needs, acted) =
        bind-ok (needs_adoption spec_hash owners parse_group meta s f live desired configuration) _
          action chosen in
      let (not_created, not_applied, not_adopted) =
        chosen_action owners s live adopt action (ok-eq acted) in
      (
        not_created,
        not_applied,
        fits owners s live adopt action (ok-eq acted),
        verified-IsObserved spec_hash parse_group meta owners s f (some live) configuration
            verified,
        elim (Bool-cases (configuration == "")) [
          | inl c ↦
              let (managed, stays) =
                stop_at-ok owners s (verify_managed_identity parse_group meta f.owner live)
                  (ok false) adopt (rw c at needs) in
              inl (
                (eq_iff configuration "").0 c,
                not_adopted (sym (ok-eq stays)),
                managed-IsControlled spec_hash parse_group meta f.owner live managed,
              )
          | inr c ↦
              let (stays, source) =
                adopts-source owners f.owner live desired configuration adopt c (rw c at needs) in
              inr (λ h. ground (arith, eq_iff configuration ""), stays, source)
        ],
      )
