-- ===== src/OperationPolicy.antt =====
-- src/protocol/shared-execution.ts, lines 42 to 142: what each operation requires of the binding of
-- its owner, and how it is journalled and recovered.
pub mod Classes
mod Tests
use hopper_pi.Prelude.{
  String, ◌≡◌, refl, sym, ap, subst, Bool, true, false, ◌&&◌, Option, none, some, List, [], ◌∷◌,
  ◌==◌, is_some, if◌then◌else◌, any, all, find, arith, eq_iff, Bool-cases, inl, inr, ◌↔◌,
}
use hopper_pi.SharedExecution.{TargetBinding, rhino, grasshopper}
use hopper_pi.OperationNames.{
  OperationClass, query, control, mutation, classify_operation, query_operations,
  control_operations, mutation_operations,
}

pub data BindingRequirement : Type 0 where
  lifecycle rhino_document grasshopper_document associated_pair either_document document_action :
      BindingRequirement

pub data DispatchJournal : Type 0 where
  no_journal host_only wire_mutation : DispatchJournal

pub data Recovery : Type 0 where
  revalidate_read retained_mutation_result runtime_postcondition cancelled_mutation_result
        authenticated_attachment :
      Recovery

pub record OperationPolicy : Type 0 where
  pub operation_class : OperationClass
  pub binding : BindingRequirement
  pub dispatch_journal : DispatchJournal
  pub recovery : Recovery

abbrev policy : OperationClass → BindingRequirement → DispatchJournal → Recovery → OperationPolicy
policy c b j r = record { operation_class = c; binding = b; dispatch_journal = j; recovery = r }

unfoldable pub shared_operation_policy : List (String × OperationPolicy)
shared_operation_policy =
    ("listRhinoDocuments", policy query lifecycle no_journal revalidate_read)
    ∷ ("getRhinoDocument", policy query rhino_document no_journal revalidate_read)
    ∷ ("getRhinoDocumentSettings", policy query rhino_document no_journal revalidate_read)
    ∷ ("listGrasshopperDocuments", policy query lifecycle no_journal revalidate_read)
    ∷ ("getGrasshopperDocument", policy query grasshopper_document no_journal revalidate_read)
    ∷ ("getGrasshopperDocumentSettings", policy query associated_pair no_journal revalidate_read)
    ∷ ("browseDocumentFiles", policy query lifecycle no_journal revalidate_read)
    ∷ ("getDocumentTransactionState", policy query either_document no_journal revalidate_read)
    ∷ ("getRuntimeStatus", policy query lifecycle no_journal revalidate_read)
    ∷ ("getOperationResult", policy query lifecycle no_journal revalidate_read)
    ∷ ("listAllComponents", policy query lifecycle no_journal revalidate_read)
    ∷ ("getCurrentCanvas", policy query grasshopper_document no_journal revalidate_read)
    ∷ ("getCanvasErrors", policy query grasshopper_document no_journal revalidate_read)
    ∷ ("getData", policy query grasshopper_document no_journal revalidate_read)
    ∷ ("listScriptParams", policy query grasshopper_document no_journal revalidate_read)
    ∷ ("getScriptCode", policy query grasshopper_document no_journal revalidate_read)
    ∷ ("queryRhinoObjects", policy query rhino_document no_journal revalidate_read)
    ∷ ("captureRhinoView", policy query rhino_document no_journal revalidate_read)
    ∷ ("getParamRhinoGeometry", policy query associated_pair no_journal revalidate_read)
    ∷ ("lifecycleHandshake", policy control lifecycle host_only authenticated_attachment)
    ∷ ("startGrasshopper", policy control lifecycle host_only runtime_postcondition)
    ∷ ("cancelOperation", policy control lifecycle host_only cancelled_mutation_result)
    ∷ (
      "manageRhinoDocument",
      policy mutation document_action wire_mutation retained_mutation_result,
    )
    ∷ (
      "manageGrasshopperDocument",
      policy mutation document_action wire_mutation retained_mutation_result,
    )
    ∷ ("applyGraph", policy mutation grasshopper_document wire_mutation retained_mutation_result)
    ∷ ("runRhinoScript", policy mutation rhino_document wire_mutation retained_mutation_result)
    ∷ ("controlRhinoView", policy mutation rhino_document wire_mutation retained_mutation_result)
    ∷ ("addComponent", policy mutation grasshopper_document wire_mutation retained_mutation_result)
    ∷ (
      "deleteComponent",
      policy mutation grasshopper_document wire_mutation retained_mutation_result,
    )
    ∷ ("connectWire", policy mutation grasshopper_document wire_mutation retained_mutation_result)
    ∷ (
      "disconnectWire",
      policy mutation grasshopper_document wire_mutation retained_mutation_result,
    )
    ∷ ("moveComponent", policy mutation grasshopper_document wire_mutation retained_mutation_result)
    ∷ (
      "renameComponent",
      policy mutation grasshopper_document wire_mutation retained_mutation_result,
    )
    ∷ (
      "setComponentLocked",
      policy mutation grasshopper_document wire_mutation retained_mutation_result,
    )
    ∷ (
      "setComponentHidden",
      policy mutation grasshopper_document wire_mutation retained_mutation_result,
    )
    ∷ ("addGroup", policy mutation grasshopper_document wire_mutation retained_mutation_result)
    ∷ (
      "removeFromGroup",
      policy mutation grasshopper_document wire_mutation retained_mutation_result,
    )
    ∷ ("deleteGroup", policy mutation grasshopper_document wire_mutation retained_mutation_result)
    ∷ (
      "changeGroupColor",
      policy mutation grasshopper_document wire_mutation retained_mutation_result,
    )
    ∷ ("renameGroup", policy mutation grasshopper_document wire_mutation retained_mutation_result)
    ∷ (
      "changeGroupStyle",
      policy mutation grasshopper_document wire_mutation retained_mutation_result,
    )
    ∷ ("createSlider", policy mutation grasshopper_document wire_mutation retained_mutation_result)
    ∷ (
      "editSliderRange",
      policy mutation grasshopper_document wire_mutation retained_mutation_result,
    )
    ∷ (
      "setSliderValue",
      policy mutation grasshopper_document wire_mutation retained_mutation_result,
    )
    ∷ ("createPanel", policy mutation grasshopper_document wire_mutation retained_mutation_result)
    ∷ (
      "setPanelParams",
      policy mutation grasshopper_document wire_mutation retained_mutation_result,
    )
    ∷ ("setPanelText", policy mutation grasshopper_document wire_mutation retained_mutation_result)
    ∷ ("createToggle", policy mutation grasshopper_document wire_mutation retained_mutation_result)
    ∷ (
      "setToggleValue",
      policy mutation grasshopper_document wire_mutation retained_mutation_result,
    )
    ∷ ("createSwatch", policy mutation grasshopper_document wire_mutation retained_mutation_result)
    ∷ (
      "setSwatchColor",
      policy mutation grasshopper_document wire_mutation retained_mutation_result,
    )
    ∷ (
      "createScribble",
      policy mutation grasshopper_document wire_mutation retained_mutation_result,
    )
    ∷ (
      "setScribbleText",
      policy mutation grasshopper_document wire_mutation retained_mutation_result,
    )
    ∷ (
      "createValueList",
      policy mutation grasshopper_document wire_mutation retained_mutation_result,
    )
    ∷ (
      "setValueListSelected",
      policy mutation grasshopper_document wire_mutation retained_mutation_result,
    )
    ∷ (
      "createScriptNode",
      policy mutation grasshopper_document wire_mutation retained_mutation_result,
    )
    ∷ ("setScriptCode", policy mutation grasshopper_document wire_mutation retained_mutation_result)
    ∷ (
      "syncScriptParams",
      policy mutation grasshopper_document wire_mutation retained_mutation_result,
    )
    ∷ (
      "addScriptInput",
      policy mutation grasshopper_document wire_mutation retained_mutation_result,
    )
    ∷ (
      "removeScriptInput",
      policy mutation grasshopper_document wire_mutation retained_mutation_result,
    )
    ∷ (
      "addScriptOutput",
      policy mutation grasshopper_document wire_mutation retained_mutation_result,
    )
    ∷ (
      "removeScriptOutput",
      policy mutation grasshopper_document wire_mutation retained_mutation_result,
    )
    ∷ (
      "editParamProps",
      policy mutation grasshopper_document wire_mutation retained_mutation_result,
    )
    ∷ (
      "beginAgentTransaction",
      policy mutation grasshopper_document wire_mutation retained_mutation_result,
    )
    ∷ (
      "commitAgentTransaction",
      policy mutation grasshopper_document wire_mutation retained_mutation_result,
    )
    ∷ (
      "cancelAgentTransaction",
      policy mutation grasshopper_document wire_mutation retained_mutation_result,
    )
    ∷ (
      "beginRhinoAgentTransaction",
      policy mutation rhino_document wire_mutation retained_mutation_result,
    )
    ∷ (
      "commitRhinoAgentTransaction",
      policy mutation rhino_document wire_mutation retained_mutation_result,
    )
    ∷ (
      "cancelRhinoAgentTransaction",
      policy mutation rhino_document wire_mutation retained_mutation_result,
    )
    ∷ ("exportRhinoArtifact", policy mutation rhino_document wire_mutation retained_mutation_result)
    ∷ ("importRhinoArtifact", policy mutation rhino_document wire_mutation retained_mutation_result)
    ∷ (
      "setParamRhinoGeometry",
      policy mutation associated_pair wire_mutation retained_mutation_result,
    )
    ∷ []

unfoldable pub policy_of : String → List (String × OperationPolicy) → Option OperationPolicy
policy_of name [] = none
policy_of name ((n, p) ∷ rest) = if n == name then some p else policy_of name rest

unfoldable pub binding_satisfies_requirement : TargetBinding → BindingRequirement → Bool
binding_satisfies_requirement binding lifecycle = true
binding_satisfies_requirement binding either_document = true
binding_satisfies_requirement (rhino l d) rhino_document = true
binding_satisfies_requirement (grasshopper l d a) rhino_document = is_some a
binding_satisfies_requirement (rhino l d) grasshopper_document = false
binding_satisfies_requirement (grasshopper l d a) grasshopper_document = true
binding_satisfies_requirement (rhino l d) associated_pair = false
binding_satisfies_requirement (grasshopper l d a) associated_pair = is_some a
binding_satisfies_requirement binding document_action = false
