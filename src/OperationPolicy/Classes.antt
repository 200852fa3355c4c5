-- ===== src/OperationPolicy/Classes.antt =====
-- The operation policies of src/protocol/shared-execution.ts against the operation classes of
-- src/protocol/v2.ts.
use hopper_pi.Prelude.{
  String, ◌≡◌, refl, subst, Bool, true, false, ◌&&◌, none, some, List, [], ◌∷◌, ◌==◌, any, all,
  arith, eq_iff, Bool-cases, Option-cases, if◌then◌else◌, inl, inr,
}
use hopper_pi.SharedExecution.{TargetBinding}
use hopper_pi.OperationNames.{
  OperationClass, query, control, mutation, classify_operation, query_operations,
  control_operations, mutation_operations,
}
use hopper_pi.OperationPolicy.{
  OperationPolicy, DispatchJournal, no_journal, host_only, wire_mutation, associated_pair,
  rhino_document, grasshopper_document, shared_operation_policy, policy_of,
  binding_satisfies_requirement, document_action,
}

abbrev pub journal_of : OperationClass → DispatchJournal
journal_of query = no_journal
journal_of control = host_only
journal_of mutation = wire_mutation

class_agrees : OperationClass → OperationPolicy → Bool
class_agrees query p = elim p.operation_class [
  | query ↦ elim p.dispatch_journal [ no_journal ↦ true | _ ↦ false ]
  | _ ↦ false
]
class_agrees control p = elim p.operation_class [
  | control ↦ elim p.dispatch_journal [ host_only ↦ true | _ ↦ false ]
  | _ ↦ false
]
class_agrees mutation p = elim p.operation_class [
  | mutation ↦ elim p.dispatch_journal [ wire_mutation ↦ true | _ ↦ false ]
  | _ ↦ false
]

has_policy : OperationClass → String → Bool
unfolding class_agrees
has_policy c name = elim (policy_of name shared_operation_policy) [
  | none ↦ false
  | some p ↦ class_agrees c p
]

at_member :
    (p : String → Bool) (name : String) (xs : List String)
    → all p xs ≡ true
    → any (λ o. o == name) xs ≡ true
    → p name ≡ true
at_member p name [] h a = ground arith
at_member p name (x ∷ xs) h a = elim (Bool-cases (x == name)) [
  | inl e ↦
      let same : x ≡ name = ground (arith, eq_iff x name) in
      subst (λ y. p y ≡ true) same (ground arith)
  | inr e ↦ at_member p name xs (ground arith) (ground arith)
]

queries : all (has_policy query) query_operations ≡ true
unfolding has_policy class_agrees policy_of shared_operation_policy query_operations
queries = refl

controls : all (has_policy control) control_operations ≡ true
unfolding has_policy class_agrees policy_of shared_operation_policy control_operations
controls = refl

mutations : all (has_policy mutation) mutation_operations ≡ true
unfolding has_policy class_agrees policy_of shared_operation_policy mutation_operations
mutations = refl

chosen :
    (P : OperationClass → Bool) (a b e : Bool) (c : OperationClass)
    → (a ≡ true → P query ≡ true)
    → (b ≡ true → P control ≡ true)
    → (e ≡ true → P mutation ≡ true)
    → (if a then some query else if b then some control else if e then some mutation else none)
      ≡ some c
    → P c ≡ true
chosen P true b e query q k m h = q refl
chosen P false true e control q k m h = k refl
chosen P false false true mutation q k m h = m refl
chosen P a b e c q k m h = ground arith

classified :
    (name : String) (c : OperationClass)
    → classify_operation name ≡ some c
    → has_policy c name ≡ true
unfolding classify_operation
classified name c h =
    chosen (λ c. has_policy c name) _ _ _ c
      (at_member (has_policy query) name query_operations queries)
      (at_member (has_policy control) name control_operations controls)
      (at_member (has_policy mutation) name mutation_operations mutations) h

agrees :
    (c : OperationClass) (p : OperationPolicy)
    → class_agrees c p ≡ true
    → (p.operation_class ≡ c) × (p.dispatch_journal ≡ journal_of c)
unfolding class_agrees
agrees query p h = ground arith
agrees control p h = ground arith
agrees mutation p h = ground arith

-- Every operation that the protocol classifies has a policy, of the same class; queries are not
-- journalled, controls by the host only, mutations with an identity on the wire.
pub policies_agree :
    (name : String) (c : OperationClass)
    → classify_operation name ≡ some c
    → (p : OperationPolicy) × (policy_of name shared_operation_policy ≡ some p)
      × (p.operation_class ≡ c)
      × (p.dispatch_journal ≡ journal_of c)
unfolding has_policy
policies_agree name c h =
    let known = classified name c h in
    elim (Option-cases (policy_of name shared_operation_policy)) [
      | inl e ↦ ground arith
      | inr (p, e) ↦ let (same, journalled) = agrees c p (ground arith) in (p, e, same, journalled)
    ]

-- A binding serves for a pair of documents exactly if it serves for each of the two, and no binding
-- serves for a document action.
pub pair_requirement :
    (b : TargetBinding)
    → (binding_satisfies_requirement b associated_pair ≡ (
        binding_satisfies_requirement b rhino_document
        && binding_satisfies_requirement b grasshopper_document))
      × (binding_satisfies_requirement b document_action ≡ false)
unfolding binding_satisfies_requirement
pair_requirement (TargetBinding.rhino l d) = (refl, refl)
pair_requirement (TargetBinding.grasshopper l d a) = (ground arith, refl)
