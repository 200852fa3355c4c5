-- ===== src/OperationNames.antt =====
-- src/protocol/v2.ts, lines 5 to 85 and 320 to 329: the operations of the RPC protocol and their
-- classes.
use hopper_pi.Prelude.{String, Option, none, some, List, [], ◌∷◌, ◌==◌, if◌then◌else◌, any}

pub data OperationClass : Type 0 where
  query control mutation : OperationClass

unfoldable pub query_operations : List String
query_operations =
    "listRhinoDocuments" ∷ "getRhinoDocument" ∷ "getRhinoDocumentSettings"
    ∷ "listGrasshopperDocuments" ∷ "getGrasshopperDocument" ∷ "getGrasshopperDocumentSettings"
    ∷ "browseDocumentFiles" ∷ "getDocumentTransactionState" ∷ "getRuntimeStatus"
    ∷ "getOperationResult" ∷ "listAllComponents" ∷ "getCurrentCanvas" ∷ "getCanvasErrors"
    ∷ "listScriptParams" ∷ "getScriptCode" ∷ "queryRhinoObjects" ∷ "captureRhinoView"
    ∷ "getParamRhinoGeometry" ∷ "getData" ∷ []

unfoldable pub control_operations : List String
control_operations = "lifecycleHandshake" ∷ "startGrasshopper" ∷ "cancelOperation" ∷ []

unfoldable pub mutation_operations : List String
mutation_operations =
    "exportRhinoArtifact" ∷ "importRhinoArtifact" ∷ "manageRhinoDocument"
    ∷ "manageGrasshopperDocument" ∷ "applyGraph" ∷ "runRhinoScript" ∷ "controlRhinoView"
    ∷ "addComponent" ∷ "deleteComponent" ∷ "connectWire" ∷ "disconnectWire" ∷ "moveComponent"
    ∷ "renameComponent" ∷ "setComponentLocked" ∷ "setComponentHidden" ∷ "addGroup"
    ∷ "removeFromGroup" ∷ "deleteGroup" ∷ "changeGroupColor" ∷ "renameGroup" ∷ "changeGroupStyle"
    ∷ "createSlider" ∷ "editSliderRange" ∷ "setSliderValue" ∷ "createPanel" ∷ "setPanelParams"
    ∷ "setPanelText" ∷ "createToggle" ∷ "setToggleValue" ∷ "createSwatch" ∷ "setSwatchColor"
    ∷ "createScribble" ∷ "setScribbleText" ∷ "createValueList" ∷ "setValueListSelected"
    ∷ "createScriptNode" ∷ "setScriptCode" ∷ "syncScriptParams" ∷ "addScriptInput"
    ∷ "removeScriptInput" ∷ "addScriptOutput" ∷ "removeScriptOutput" ∷ "editParamProps"
    ∷ "beginAgentTransaction" ∷ "commitAgentTransaction" ∷ "cancelAgentTransaction"
    ∷ "beginRhinoAgentTransaction" ∷ "commitRhinoAgentTransaction" ∷ "cancelRhinoAgentTransaction"
    ∷ "setParamRhinoGeometry" ∷ []

unfoldable pub classify_operation : String → Option OperationClass
unfolding query_operations control_operations mutation_operations
classify_operation operation =
    if any (λ o. o == operation) query_operations
    then some query
    else if any (λ o. o == operation) control_operations
    then some control
    else if any (λ o. o == operation) mutation_operations
    then some mutation
    else none
