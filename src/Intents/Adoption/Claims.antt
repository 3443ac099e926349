-- ===== src/Intents/Adoption/Claims.antt =====
-- An object that another owner claims is not adopted (internal/k8s/configuration_adoption.go).
use opensaola.Base.{
  String, ◌==◌, eq_iff, ◌≢◌, ◌∙◌, ap, sym, true, false, List, Option, none, some, All, value_at,
  ◌≡◌, ◌⊎◌, inl, inr, refl, Bool-cases, arith,
}
use opensaola.Configuration.{OwnerReference, GetControllerOf}
use opensaola.Configuration.Ownership.{
  kind_name, label_app, label_configurations, owner_uid_annotation,
}
use opensaola.Intents.{
  WriteOwner, Rendered, WriteError, ok, require, ok-eq, bind-ok, require-ok, require-true,
}
use opensaola.Intents.Identity.{is_supported_kind, verify_intent_identity, intent_owner_reference}
use opensaola.Intents.Adoption.{
  Claimant, Owners, check_configuration_claimants, is_adoptable, old_owner_uid, adopt_unless,
  configuration_needs_adoption, is_middleware_group, is_old_controller,
}
use opensaola.Intents.Adoption.Rivals.{IsNoRival, lists-IsNoRival, unclaimed-none}

module _ {Content : Type 0} (owners : Owners) (owner : WriteOwner) (live : Rendered Content)
    (configuration : String) where
  module _ (parse_group : String → Option String) (meta : GetControllerOf)
      (desired : Rendered Content) where
    -- The old lifecycle: that of the annotation, or that of a controller of the owner's group, kind,
    -- name and namespace, which the annotation does not contradict.
    pub data IsOldLifecycle (old_uid : String) : Type 0 where
      orphaned :
          meta.controller_of live.owner_references ≡ none
          → old_uid ≡ value_at owner_uid_annotation live.annotations
          → IsOldLifecycle old_uid
      controlled :
          (ref : OwnerReference)
          → meta.controller_of live.owner_references ≡ some ref
          → parse_group ref.api_version ≡ some "middleware.cn"
          → ref.kind ≡ kind_name owner.kind
          → ref.name ≡ owner.name
          → live.namespace ≡ owner.namespace
          → ref.uid ≢ ""
          → old_uid ≡ ref.uid
          → (value_at owner_uid_annotation live.annotations ≡ "")
            ⊎ (value_at owner_uid_annotation live.annotations ≡ ref.uid)
          → IsOldLifecycle old_uid

    -- The object is the desired one, not deleting, and carries the owner's name and configuration.
    pub record IsMarked : Type 0 where
      pub owner_uid : owner.uid ≢ ""
      pub owner_stays : owner.deleting ≡ false
      pub live_uid : live.uid ≢ ""
      pub live_stays : live.deleting ≡ false
      pub group : live.gvk.group ≡ desired.gvk.group
      pub version : live.gvk.version ≡ desired.gvk.version
      pub kind : live.gvk.kind ≡ desired.gvk.kind
      pub namespace : live.namespace ≡ desired.namespace
      pub name : live.name ≡ desired.name
      pub app : value_at label_app live.labels ≡ owner.name
      pub source : value_at label_configurations live.annotations ≡ configuration

    pub adoptable-IsMarked :
        is_adoptable owners parse_group meta owner live desired configuration ≡ true → IsMarked
    unfolding is_adoptable
    adoptable-IsMarked h = record {
      owner_uid = λ e. ground (arith, eq_iff owner.uid "");
      owner_stays = ground arith;
      live_uid = λ e. ground (arith, eq_iff live.uid "");
      live_stays = ground arith;
      group = (eq_iff live.gvk.group desired.gvk.group).0 (ground arith);
      version = (eq_iff live.gvk.version desired.gvk.version).0 (ground arith);
      kind = (eq_iff live.gvk.kind desired.gvk.kind).0 (ground arith);
      namespace = (eq_iff live.namespace desired.namespace).0 (ground arith);
      name = (eq_iff live.name desired.name).0 (ground arith);
      app = (eq_iff (value_at label_app live.labels) owner.name).0 (ground arith);
      source =
          (eq_iff (value_at label_configurations live.annotations) configuration).0 (ground arith);
    }

    group-some : (o : Option String) → is_middleware_group o ≡ true → o ≡ some "middleware.cn"
    group-some none e = cc
    group-some (some g) e = ap some ((eq_iff g "middleware.cn").0 e)

    expected_names :
        (x : OwnerReference)
        → intent_owner_reference owner ≡ ok x
        → (x.kind ≡ kind_name owner.kind) × (x.name ≡ owner.name)
    unfolding intent_owner_reference
    expected_names x e = elim (Bool-cases (is_supported_kind owner.kind)) [
      | inl h ↦
          let same = ok-eq (rw h at e) in (ap (λ r. r.kind) (sym same), ap (λ r. r.name) (sym same))
      | inr h ↦ absurd (ground (arith, rw h at e))
    ]

    old-IsOldLifecycle :
        (x : WriteError) (o : Option OwnerReference) (old_uid : String)
        → meta.controller_of live.owner_references ≡ o
        → old_owner_uid owners parse_group meta owner live x
            (value_at owner_uid_annotation live.annotations)
            o
          ≡ ok old_uid
        → IsOldLifecycle old_uid
    old-IsOldLifecycle x none old_uid r e = orphaned r (sym (ok-eq e))
    old-IsOldLifecycle x (some ref) old_uid r e =
        let annotated = value_at owner_uid_annotation live.annotations in
        let (expected, made, checked) =
          bind-ok (intent_owner_reference owner)
            (λ expected.
              require (is_old_controller owners parse_group meta owner live annotated expected ref)
                x (ok ref.uid))
            old_uid e in
        let (kind, name) = expected_names expected made in
        let test = is_old_controller owners parse_group meta owner live annotated expected ref in
        let passed = require-true test x (ok ref.uid) old_uid checked in
        controlled ref r (group-some (parse_group ref.api_version) (ground arith))
          ((eq_iff ref.kind expected.kind).0 (ground arith) ∙ kind)
          ((eq_iff ref.name expected.name).0 (ground arith) ∙ name)
          ((eq_iff live.namespace owner.namespace).0 (ground arith))
          (λ n. ground (arith, eq_iff ref.uid ""))
          (sym (ok-eq (require-ok test x (ok ref.uid) old_uid checked)))
          (elim (Bool-cases (annotated == "")) [
            | inl f ↦ inl ((eq_iff annotated "").0 f)
            | inr f ↦ inr ((eq_iff annotated ref.uid).0 (ground arith))
          ])

    -- What is known of an object that is adopted, with the UID of its old lifecycle.
    pub record IsAdoption : Type 0 where
      pub refusal : WriteError
      pub refused : verify_intent_identity parse_group meta owner live configuration ≡ some refusal
      pub marked : IsMarked
      pub old_uid : String
      pub previous : IsOldLifecycle old_uid
      pub middlewares : List Claimant
      pub operators : List Claimant
      pub read_middlewares : owners.middlewares ≡ some middlewares
      pub read_operators : owners.operators ≡ some operators
      pub no_middleware : All (IsNoRival owners owner live configuration old_uid) middlewares
      pub no_operator : All (IsNoRival owners owner live configuration old_uid) operators

    adopted-IsAdoption :
        (identity : Option WriteError)
        → verify_intent_identity parse_group meta owner live configuration ≡ identity
        → adopt_unless owners parse_group meta owner live desired configuration identity ≡ ok true
        → IsAdoption
    unfolding check_configuration_claimants
    adopted-IsAdoption none v e = absurd (ground (arith, ok-eq e))
    adopted-IsAdoption (some x) v e =
        let previous =
          bind-ok
            (old_owner_uid owners parse_group meta owner live x
              (value_at owner_uid_annotation live.annotations)
              (meta.controller_of live.owner_references))
            _ true (require-ok _ _ _ true e) in
        let (mids, mos, m, o, no_mid, no_mo) =
          lists-IsNoRival owners owner live configuration previous.0 owners.middlewares
            owners.operators (unclaimed-none owners owner live configuration _ previous.2) in
        record {
          refusal = x;
          refused = v;
          marked = adoptable-IsMarked (require-true _ _ _ true e);
          old_uid = previous.0;
          previous = old-IsOldLifecycle x _ previous.0 refl previous.1;
          middlewares = mids;
          operators = mos;
          read_middlewares = m;
          read_operators = o;
          no_middleware = no_mid;
          no_operator = no_mo;
        }

    -- An object is adopted only where the identity check refuses it as the owner's; it has the
    -- desired group, version, kind, namespace and name, the owner's name as its label and the
    -- configuration as its annotation, and neither it nor the owner is deleting; its old
    -- lifecycle is that of its annotation, or that of a controller of the owner's group, kind,
    -- name and namespace that the annotation does not contradict; both lists of owners were read;
    -- and every owner in them is the owner itself, or is not of the old lifecycle, does not list
    -- the object in its inventory, and, if it has the owner's name, names the configuration
    -- neither itself nor in its baseline, which was read.
    pub adoption-IsAdoption :
        configuration_needs_adoption owners parse_group meta owner live desired configuration
          ≡ ok true
        → IsAdoption
    unfolding configuration_needs_adoption
    adoption-IsAdoption e =
        adopted-IsAdoption (verify_intent_identity parse_group meta owner live configuration) refl e
