-- ===== src/Api/Phases.antt =====
-- The lifecycle phases of api/v1/common.go. `v1.Phase` is a string type, so a value that is none
-- of the declared constants is kept as `other`.
use opensaola.Base.{String, ◌==◌, Bool, true, false, if◌then◌else◌}

pub data Phase : Type 0 where
  unknown checking checked creating updating running failed : Phase
  updating_custom_resources building_rbac building_deployment finished : Phase
  mapping_fields executing : Phase
  other : String → Phase

-- The conversion `v1.Phase(s)`.
unfoldable pub phase_of : String → Phase
phase_of s =
    if s == ""
    then unknown
    else if s == "Checking"
    then checking
    else if s == "Checked"
    then checked
    else if s == "Creating"
    then creating
    else if s == "Updating"
    then updating
    else if s == "Running"
    then running
    else if s == "Failed"
    then failed
    else if s == "UpdatingCustomResources"
    then updating_custom_resources
    else if s == "BuildingRBAC"
    then building_rbac
    else if s == "BuildingDeployment"
    then building_deployment
    else if s == "Finished"
    then finished
    else if s == "MappingFields"
    then mapping_fields
    else if s == "Executing"
    then executing
    else other s

-- previousPhase == PhaseRunning || previousPhase == PhaseUpdating
abbrev pub is_running_or_updating : Phase → Bool
is_running_or_updating running = true
is_running_or_updating updating = true
is_running_or_updating _ = false

-- mid.Status.CustomResources.Phase == PhaseCreating
abbrev pub is_creating : Phase → Bool
is_creating creating = true
is_creating _ = false
