-- ===== src/OperationPolicy/Tests.antt =====
-- The policy of one operation, and one binding.
use hopper_pi.Prelude.{◌≡◌, refl, some, none, false, ◌&&◌}
use hopper_pi.SharedExecution.{grasshopper}
use hopper_pi.OperationNames.{
  mutation, classify_operation, query_operations, control_operations, mutation_operations,
}
use hopper_pi.OperationPolicy.{
  OperationPolicy, shared_operation_policy, policy_of, binding_satisfies_requirement,
  associated_pair, rhino_document, grasshopper_document, document_action, wire_mutation,
}
use hopper_pi.OperationPolicy.Classes.{policies_agree, pair_requirement}

policies_agree_example :
    (p : OperationPolicy) × (policy_of "applyGraph" shared_operation_policy ≡ some p)
    × (p.operation_class ≡ mutation)
    × (p.dispatch_journal ≡ wire_mutation)
unfolding classify_operation query_operations control_operations mutation_operations
policies_agree_example = policies_agree "applyGraph" mutation refl

pair_requirement_example :
    (binding_satisfies_requirement (grasshopper "l" "g" none) associated_pair ≡ (
      binding_satisfies_requirement (grasshopper "l" "g" none) rhino_document
      && binding_satisfies_requirement (grasshopper "l" "g" none) grasshopper_document))
    × (binding_satisfies_requirement (grasshopper "l" "g" none) document_action ≡ false)
pair_requirement_example = pair_requirement (grasshopper "l" "g" none)
