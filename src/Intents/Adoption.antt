-- ===== src/Intents/Adoption.antt =====
-- internal/k8s/configuration_adoption.go: whether a configuration's object of another owner lifecycle
-- may be adopted. The lists of owners and the baselines that the Reader gives are parameters; `none`
-- is a failed read.
pub mod Rivals
pub mod Claims
use opensaola.Base.{
  String, ◌==◌, Bool, true, false, not, ◌&&◌, ◌||◌, List, [], ◌∷◌, Option, none, some, any,
  value_at, if◌then◌else◌,
}
use opensaola.Configuration.{OwnerReference, RenderedResource, GetControllerOf}
use opensaola.Configuration.Ownership.{label_app, label_configurations, owner_uid_annotation}
use opensaola.Intents.{
  WriteOwner, Rendered, WriteError, Fallible, ok, err, ◌>>=◌, require, owner_mismatch, read_failed,
}
use opensaola.Intents.Identity.{group_middleware, verify_intent_identity, intent_owner_reference}
use opensaola.Intents.Records.{same_gvk}

-- A Middleware or a MiddlewareOperator, as far as its claims go; a configuration is its name.
pub record Claimant : Type 0 where
  pub uid : String
  pub name : String
  pub configurations : List String
  pub inventory : List RenderedResource
  pub baseline : String
  pub is_operator : Bool

-- What the Reader gives: the Middlewares, the MiddlewareOperators, and the configurations of a
-- baseline by its name, for operators or not.
pub record Owners : Type 0 where
  pub middlewares : Option (List Claimant)
  pub operators : Option (List Claimant)
  pub baseline : Bool → String → Option (List String)

abbrev pub references_source : String → List String → Bool
references_source configuration = any (λ c. c == configuration)

abbrev pub read_claim : String → Option (List String) → Option WriteError
read_claim configuration none = some read_failed
read_claim configuration (some cs) =
    if references_source configuration cs then some owner_mismatch else none

abbrev pub first_error : Option WriteError → Option WriteError → Option WriteError
first_error none e = e
first_error (some x) e = some x

abbrev is_middleware_group : Option String → Bool
is_middleware_group none = false
is_middleware_group (some g) = g == group_middleware

abbrev pub unclaimed : Option WriteError → Fallible Bool
unclaimed none = ok true
unclaimed (some e) = err e

module _ {Content : Type 0} where
  abbrev pub is_entry_of : Rendered Content → RenderedResource → Bool
  is_entry_of live e =
      e.gvk.group == live.gvk.group
      && e.gvk.kind == live.gvk.kind
      && e.namespace == live.namespace
      && e.name == live.name

  -- The claims that need no read: the old lifecycle, the inventory, and a source of its own.
  unfoldable pub claims_directly : WriteOwner → Rendered Content → String → String → Claimant → Bool
  claims_directly owner live configuration old_uid c =
      (c.uid == old_uid && not (old_uid == ""))
      || any (is_entry_of live) c.inventory
      || (c.name == owner.name && references_source configuration c.configurations)

  module _ (owners : Owners) where
    -- The closure `check` of checkConfigurationClaimants
    unfoldable pub check_claimant :
        WriteOwner → Rendered Content → String → String → Claimant → Option WriteError
    check_claimant owner live configuration old_uid c =
        if c.uid == owner.uid
        then none
        else if claims_directly owner live configuration old_uid c
        then some owner_mismatch
        else if c.name == owner.name && not (c.baseline == "")
        then read_claim configuration (owners.baseline c.is_operator c.baseline)
        else none

    unfoldable pub check_all :
        WriteOwner → Rendered Content → String → String → List Claimant → Option WriteError
    check_all owner live configuration old_uid [] = none
    check_all owner live configuration old_uid (c ∷ cs) =
        first_error (check_claimant owner live configuration old_uid c)
          (check_all owner live configuration old_uid cs)

    abbrev pub check_lists :
        WriteOwner
        → Rendered Content
        → String
        → String
        → Option (List Claimant)
        → Option (List Claimant)
        → Option WriteError
    check_lists owner live configuration old_uid (some mids) (some mos) =
        first_error (check_all owner live configuration old_uid mids)
          (check_all owner live configuration old_uid mos)
    check_lists owner live configuration old_uid _ _ = some read_failed

    unfoldable pub check_configuration_claimants :
        WriteOwner → Rendered Content → String → String → Option WriteError
    check_configuration_claimants owner live configuration old_uid =
        check_lists owner live configuration old_uid owners.middlewares owners.operators

    module _ (parse_group : String → Option String) (meta : GetControllerOf) where
      -- The object is the desired one and carries the markers of the owner's name and configuration.
      unfoldable pub is_adoptable : WriteOwner → Rendered Content → Rendered Content → String → Bool
      is_adoptable owner live desired configuration =
          not (owner.uid == "")
          && not owner.deleting
          && not (live.uid == "")
          && not live.deleting
          && same_gvk live.gvk desired.gvk
          && live.namespace == desired.namespace
          && live.name == desired.name
          && value_at label_app live.labels == owner.name
          && value_at label_configurations live.annotations == configuration

      abbrev is_old_controller :
          WriteOwner → Rendered Content → String → OwnerReference → OwnerReference → Bool
      is_old_controller owner live old_uid expected ref =
          is_middleware_group (parse_group ref.api_version)
          && ref.kind == expected.kind
          && ref.name == expected.name
          && live.namespace == owner.namespace
          && not (ref.uid == "")
          && (old_uid == "" || old_uid == ref.uid)

      -- The UID of the old lifecycle: the annotation's, or the controller's where there is one.
      abbrev pub old_owner_uid :
          WriteOwner
          → Rendered Content
          → WriteError
          → String
          → Option OwnerReference
          → Fallible String
      old_owner_uid owner live e old_uid none = ok old_uid
      old_owner_uid owner live e old_uid (some ref) = intent_owner_reference owner >>= λ expected.
          require (is_old_controller owner live old_uid expected ref) e (ok ref.uid)

      abbrev pub adopt_unless :
          WriteOwner
          → Rendered Content
          → Rendered Content
          → String
          → Option WriteError
          → Fallible Bool
      adopt_unless owner live desired configuration none = ok false
      adopt_unless owner live desired configuration (some e) =
          require (is_adoptable owner live desired configuration) e (
            old_owner_uid owner live e (value_at owner_uid_annotation live.annotations)
              (meta.controller_of live.owner_references)
            >>= λ old_uid.
                unclaimed (check_configuration_claimants owner live configuration old_uid))

      unfoldable pub configuration_needs_adoption :
          WriteOwner → Rendered Content → Rendered Content → String → Fallible Bool
      configuration_needs_adoption owner live desired configuration =
          adopt_unless owner live desired configuration
            (verify_intent_identity parse_group meta owner live configuration)
