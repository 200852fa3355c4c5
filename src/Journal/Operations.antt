-- ===== src/Journal/Operations.antt =====
-- src/host/shared/journal.ts, lines 1083 to 1253: native operations, the intent to dispatch one
-- and the destinations that it reserves.
pub mod Reserved
use hopper_pi.Prelude.{
  ℕ, String, Bool, true, false, ◌&&◌, ◌||◌, not, Option, none, some, List, [], ◌∷◌, ◌++◌, ◌==◌,
  if◌then◌else◌, is_none, is_some, any, find, map_where,
}
use hopper_pi.Prelude.Table.{get}
use hopper_pi.SharedExecution.{
  TargetBinding, ExecutionOwner, DocumentActionOwner, validate_execution_owner,
  validate_document_action_owner, binding_eq, owner_eq,
}
use hopper_pi.OperationNames.{OperationClass, query, control, mutation, classify_operation}
use hopper_pi.Journal.Rows.{
  running, suspending, state_eq, Task, Turn, Operation, OperationState, Owner, execution,
  document_action, Record, RecordKind, grant, grant_of, dispatch_of, text, task_keyed, turn_keyed,
  operation_keyed, reservation_keyed,
}
use hopper_pi.Journal.Database.{
  Tx, ◌>>=◌, ◌>>◌, pure, read, modify, check, required, Error, constraint_failed, same_record,
}
use hopper_pi.Journal.Events.{event, expect, is_cancelling, authorization_additions}
use hopper_pi.Journal.Turns.{is_turn_of}

pub record Destination : Type 0 where
  pub identity : String
  pub baseline : String

pub record DispatchRecord : Type 0 where
  pub kind : RecordKind
  pub id : String
  pub expected : String
  pub payload : String

pub record OperationRequest : Type 0 where
  pub task_id : String
  pub turn_id : String
  pub name : String
  pub operation_class : OperationClass
  pub arguments : String
  pub deadline : ℕ
  pub owner : Option Owner
  pub cleanup : Bool
  pub dispatch_record : Option DispatchRecord
  pub grant_id : Option String
  pub reservations : List Destination

class_eq : OperationClass → OperationClass → Bool
class_eq query query = true
class_eq control control = true
class_eq mutation mutation = true
class_eq _ _ = false

is_class : Option OperationClass → OperationClass → Bool
unfolding class_eq
is_class none c = false
is_class (some a) c = class_eq a c

is_mutation : OperationClass → Bool
is_mutation mutation = true
is_mutation _ = false

-- A mutation or a control operation, of the class that the protocol gives its name.
unfoldable pub is_dispatchable : OperationRequest → Bool
unfolding is_class
is_dispatchable input =
    not (class_eq input.operation_class query)
    && is_class (classify_operation input.name) input.operation_class

abbrev member : String → List String → Bool
member x names = any (λ n. n == x) names

cleanup_names : List String
cleanup_names =
    "commitAgentTransaction" ∷ "cancelAgentTransaction" ∷ "commitRhinoAgentTransaction"
    ∷ "cancelRhinoAgentTransaction" ∷ []

is_cleaning : Option Task → Bool
is_cleaning none = false
is_cleaning (some t) = state_eq t.state running || state_eq t.state suspending

is_running_turn : String → Option Turn → Bool
is_running_turn task_id none = false
is_running_turn task_id (some t) = t.task_id == task_id && state_eq t.state running

-- Cleanup may go on while the turn is suspending; other work needs a running turn, not cancelled.
unfoldable pub admit : Bool → OperationRequest → Tx (Unit {0})
unfolding is_cleaning is_running_turn cleanup_names
admit true input = do
  task ← read (λ d. get input.task_id d.tasks)
  turn ← read (λ d. get input.turn_id d.turns)
  check (member input.name cleanup_names && is_cleaning task && is_running_turn input.task_id turn)
      Error.invalid_cleanup
admit false input = do
  expect input.task_id input.turn_id running
  cancelling ← read (λ d. is_cancelling input.task_id d.tasks)
  check (not cancelling) Error.cancellation_requested

accepted_grant : String → String → Record → Bool
accepted_grant id task_id r =
    same_record grant id r && r.task_id == task_id && r.state == "accepted"

unfoldable pub use_grant : Option String → String → Tx (Unit {0})
unfolding accepted_grant
use_grant none task_id = pure tt
use_grant (some id) task_id = if id == "" then pure tt else do
  available ← read (λ d. any (accepted_grant id task_id) d.records)
  check available Error.grant_dispatched
  modify (λ d. record d {
    records =
        map_where (accepted_grant id task_id) (λ r. record r { state = "in_flight" }) d.records;
  })

owner_of_turn : Option Turn → Option ExecutionOwner
owner_of_turn none = none
owner_of_turn (some t) = t.owner

-- The turn keeps the owner that it started with.
keeps_owner : Option ExecutionOwner → ExecutionOwner → Bool
keeps_owner none o = true
keeps_owner (some captured) o = owner_eq captured o

access_of : Option Task → List TargetBinding
access_of none = []
access_of (some t) = t.payload.bindings

grant_in_flight : DocumentActionOwner → OperationRequest → Option Record → Bool
grant_in_flight action input none = false
grant_in_flight action input (some r) =
    r.task_id == input.task_id
    && r.state == "in_flight"
    && elim r.payload [ grant_of lifecycle ↦ lifecycle == action.lifecycle_instance_id | _ ↦ false ]

unfoldable pub authorize : Option Owner → OperationRequest → Tx (Unit {0})
unfolding owner_of_turn keeps_owner access_of grant_in_flight
authorize none input = pure tt
authorize (some (execution o)) input = do
  check (validate_execution_owner o) Error.owner_not_authorized
  captured ← read (λ d. owner_of_turn (get input.turn_id d.turns))
  check (keeps_owner captured o) Error.retarget
  task ← read (λ d. get input.task_id d.tasks)
  additions ← read (λ d. authorization_additions input.task_id d.records)
  check
      (o.task_id == input.task_id
        && o.turn_id == input.turn_id
        && any (λ b. binding_eq b o.binding) (access_of task ++ additions))
      Error.owner_not_authorized
authorize (some (document_action a)) input = do
  check
      (validate_document_action_owner a
        && a.task_id == input.task_id
        && a.turn_id == input.turn_id
        && member input.name ("manageRhinoDocument" ∷ "manageGrasshopperDocument" ∷ []))
      Error.owner_not_authorized
  row ← read (λ d. find (same_record grant a.grant_id) d.records)
  check (grant_in_flight a input row) Error.grant_not_in_flight

as_owner : Option ExecutionOwner → Option Owner
as_owner none = none
as_owner (some o) = some (execution o)

-- input.owner, or else what the turn has.
unfoldable pub effective_owner : Option Owner → Option Turn → Option Owner
unfolding as_owner owner_of_turn
effective_owner (some o) turn = some o
effective_owner none turn = as_owner (owner_of_turn turn)

same_wire : Option String → Operation → Bool
same_wire none o = false
same_wire (some w) o = elim o.wire_id [ none ↦ false | some v ↦ v == w ]

unfoldable pub insert_operation : Operation → Tx (Unit {0})
unfolding same_wire
insert_operation op = do
  operations ← read (λ d. d.operations)
  turn ← read (λ d. get op.turn_id d.turns)
  check
      (is_none (get op.id operations)
        && not (any (same_wire op.wire_id) operations)
        && is_turn_of op.task_id turn)
      constraint_failed
  modify (λ d. record d { operations = d.operations ++ op ∷ [] })

-- INSERT INTO reservations, in the order given: a destination is reserved once.
unfoldable pub insert_reservations : String → List Destination → Tx (Unit {0})
insert_reservations operation_id [] = pure tt
insert_reservations operation_id (x ∷ rest) = do
  required x.identity
  reservations ← read (λ d. d.reservations)
  check (is_none (get x.identity reservations)) constraint_failed
  modify (λ d. record d {
    reservations =
        d.reservations
        ++ record { destination = x.identity; operation_id = operation_id; baseline = x.baseline }
          ∷ [];
  })
  insert_reservations operation_id rest

expected_record : DispatchRecord → String → Record → Bool
expected_record x task_id r =
    same_record x.kind x.id r && r.task_id == task_id && r.state == x.expected

unfoldable pub dispatch_record : String → String → Option DispatchRecord → Tx (Unit {0})
unfolding expected_record
dispatch_record id task_id none = pure tt
dispatch_record id task_id (some x) = do
  held ← read (λ d. any (expected_record x task_id) d.records)
  check held Error.record_conflict
  modify (λ d. record d {
    records =
        map_where (expected_record x task_id)
          (λ r. record r { state = "dispatched"; payload = dispatch_of id x.payload }) d.records;
  })

unfoldable pub wire_of : OperationClass → String → Option String
wire_of mutation wire = some wire
wire_of _ wire = none

unfoldable pub reserve_for :
    (List Destination → List Destination) → Option Owner → String → List Destination → Tx (Unit {0})
reserve_for sort owner id [] = pure tt
reserve_for sort owner id (x ∷ rest) = do
  check (is_some owner) Error.no_process_ownership
  insert_reservations id (sort (x ∷ rest))

-- `sort` is the order of `localeCompare`; `id` and `wire` are the fresh identifiers.
module _ (sort : List Destination → List Destination) where
  unfoldable pub operation_intent : OperationRequest → String → String → Tx (Option String)
  unfolding is_dispatchable use_grant authorize effective_owner reserve_for dispatch_record wire_of
  operation_intent input id wire = do
    check (is_dispatchable input) Error.invalid_dispatch
    admit input.cleanup input
    use_grant input.grant_id input.task_id
    authorize input.owner input
    turn ← read (λ d. get input.turn_id d.turns)
    let owner = effective_owner input.owner turn
    insert_operation (record {
      id = id;
      task_id = input.task_id;
      turn_id = input.turn_id;
      owner = owner;
      name = input.name;
      operation_class = input.operation_class;
      arguments = input.arguments;
      wire_id = wire_of input.operation_class wire;
      deadline = input.deadline;
      state = OperationState.dispatched;
      result = none;
    })
    reserve_for sort owner id input.reservations
    dispatch_record id input.task_id input.dispatch_record
    event input.task_id "operation_dispatched"
        (("id", text id) ∷ ("turnId", text input.turn_id) ∷ [])
    pure (wire_of input.operation_class wire)
