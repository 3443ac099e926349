-- ===== src/Configuration.antt =====
-- Resources rendered by MiddlewareConfigurations: internal/service/middlewareconfiguration. This
-- file has the data; the children have who owns a live object (ownership.go), the inventory of
-- rendered resources and its cleanup (inventory.go), and what the cleanup may delete.
-- An owner and an object are values: the nil owner and the nil object, for which the guards of
-- ownership.go return false, are passed by no caller.
pub mod Ownership
pub mod Inventory
pub mod Cleanup
pub mod Stale
use opensaola.Base.{String, ◌==◌, Bool, true, false, ◌&&◌, ◌||◌, List, Option, none, some, Dict}

-- schema.GroupVersionKind
pub record Gvk : Type 0 where
  pub group : String
  pub version : String
  pub kind : String

-- metav1.OwnerReference, with `Controller != nil && *Controller` as one Boolean
pub record OwnerReference : Type 0 where
  pub api_version : String
  pub kind : String
  pub name : String
  pub uid : String
  pub controller : Bool

-- An unstructured object, as far as ownership reads it.
pub record Object : Type 0 where
  pub gvk : Gvk
  pub namespace : String
  pub name : String
  pub uid : String
  pub labels : Dict String
  pub annotations : Dict String
  pub owner_references : List OwnerReference

pub data OwnerKind : Type 0 where
  middleware middleware_operator unsupported : OwnerKind

pub record Owner : Type 0 where
  pub kind : OwnerKind
  pub namespace : String
  pub name : String
  pub uid : String

pub record MiddlewareConfiguration : Type 0 where
  pub name : String
  pub uid : String
  pub annotations : Dict String

-- v1.RenderedConfigurationResource (api/v1/common.go)
pub record RenderedResource : Type 0 where
  pub configuration_name : String
  pub configuration_uid : String
  pub gvk : Gvk
  pub namespace : String
  pub name : String
  pub owner_uid : String
  pub resource_uid : String
  pub namespaced : Bool
  pub disable_policy : String

-- What the API server answers to a Get, as the callers tell the errors apart.
pub data GetResult : Type 0 where
  found : Object → GetResult
  not_found crd_not_installed failed : GetResult

pub data DeleteResult : Type 0 where
  deleted already_gone refused : DeleteResult

-- The API server behind `client.Client`. Nothing is assumed of what it answers.
pub record ApiServer : Type 1 where
  pub State : Type 0
  pub get : State → Gvk → String → String → GetResult
  pub delete : State → Object → State × DeleteResult

-- metav1.GetControllerOf. Nothing is assumed of it here.
pub record GetControllerOf : Type 0 where
  pub controller_of : List OwnerReference → Option OwnerReference
