-- ===== src/Journal/Refinement/Others.antt =====
-- The methods of Inputs, Operations, Outcomes, Handoffs and Records against the task machine.
use hopper_pi.Prelude.{
  ℕ, String, inl, inr, Bool, true, false, Option, none, some, List, [], ◌∷◌, ◌++◌, arith,
  Option-cases,
}
use hopper_pi.Prelude.Table.{get}
use hopper_pi.SharedExecution.{TargetBinding}
use hopper_pi.Journal.Rows.{
  State, running, suspending, state_eq_sound, Operation, Owner, execution, document_action,
  Attachment, RecordKind, Payload, Field, task_keyed, turn_keyed, question_keyed,
}
use hopper_pi.Journal.Database.{required, insert_turn, insert_record}
use hopper_pi.Journal.Events.{event, expect, retire_inputs}
use hopper_pi.Journal.TaskMachine.{suspend, act, continue}
use hopper_pi.Journal.Refinement.{Refines, KeepsTasks, keeps_tasks, one_move}
use hopper_pi.Journal.Inputs.{
  steer_work, mark_input, mark_input_not_applied, Delivery, delivers, applies,
}
use hopper_pi.Journal.Operations.{
  Destination, DispatchRecord, OperationRequest, operation_intent, insert_reservations,
  insert_operation, admit, use_grant, authorize, reserve_for, dispatch_record,
}
use hopper_pi.Journal.Outcomes.{
  Verdict, operation_result, reserve, mark_scope_uncertain, disposition_work,
}
use hopper_pi.Journal.Handoffs.{
  HandoffResult, begin_handoff, start_handoff_action, complete_handoff,
}
use hopper_pi.Journal.Records.{
  put_record_work, transition_record, complete_rhino_launch, complete_granted_action, attachment,
}
use hopper_pi.Journal.Conversations.{register_session}
use hopper_pi.Journal.Settlement.{record_usage, publish}
use hopper_pi.Journal.Requests.{Evidence}

pub steer_work-KeepsTasks : (k s u p : String) → KeepsTasks (steer_work k s u p)
unfolding steer_work expect event
steer_work-KeepsTasks k s u p = record { same = λ d d' a h. ground arith }

pub mark_input-KeepsTasks : (i : ℕ) (x : Delivery) → KeepsTasks (mark_input i x)
unfolding mark_input expect event
mark_input-KeepsTasks i delivers = record { same = λ d d' a h. ground arith }
mark_input-KeepsTasks i applies = record { same = λ d d' a h. ground arith }

pub mark_input_not_applied-KeepsTasks : (i : ℕ) → KeepsTasks (mark_input_not_applied i)
unfolding mark_input_not_applied event
mark_input_not_applied-KeepsTasks i = record { same = λ d d' a h. ground arith }

insert_reservations-KeepsTasks :
    (id : String) (xs : List Destination) → KeepsTasks (insert_reservations id xs)
unfolding insert_reservations required
insert_reservations-KeepsTasks id [] = record { same = λ d d' a h. ground arith }
insert_reservations-KeepsTasks id (x ∷ xs) = record {
  same = λ d d' a h. ground (
    arith,
    (insert_reservations-KeepsTasks id xs).same
        (record d {
          reservations =
              d.reservations
              ++ record { destination = x.identity; operation_id = id; baseline = x.baseline } ∷ [];
        })
        d' a,
  );
}

expect-KeepsTasks : (k u : String) (s : State) → KeepsTasks (expect k u s)
unfolding expect
expect-KeepsTasks k u s = record { same = λ d d' a h. ground arith }

admit-KeepsTasks : (b : Bool) (i : OperationRequest) → KeepsTasks (admit b i)
unfolding admit expect
admit-KeepsTasks true i = record { same = λ d d' a h. ground arith }
admit-KeepsTasks false i = record { same = λ d d' a h. ground arith }

use_grant-KeepsTasks : (g : Option String) (k : String) → KeepsTasks (use_grant g k)
unfolding use_grant
use_grant-KeepsTasks g k = record { same = λ d d' a h. ground arith }

authorize-KeepsTasks : (o : Option Owner) (i : OperationRequest) → KeepsTasks (authorize o i)
unfolding authorize
authorize-KeepsTasks none i = record { same = λ d d' a h. ground arith }
authorize-KeepsTasks (some (execution o)) i = record { same = λ d d' a h. ground arith }
authorize-KeepsTasks (some (document_action o)) i = record { same = λ d d' a h. ground arith }

insert_operation-KeepsTasks : (o : Operation) → KeepsTasks (insert_operation o)
unfolding insert_operation
insert_operation-KeepsTasks o = record { same = λ d d' a h. ground arith }

reserve_for-KeepsTasks :
    (sort : List Destination → List Destination) (o : Option Owner) (id : String)
    (xs : List Destination)
    → KeepsTasks (reserve_for sort o id xs)
unfolding reserve_for
reserve_for-KeepsTasks sort o id [] = search keeps_tasks
reserve_for-KeepsTasks sort o id (x ∷ xs) = search (keeps_tasks, insert_reservations-KeepsTasks)

dispatch_record-KeepsTasks :
    (id k : String) (x : Option DispatchRecord) → KeepsTasks (dispatch_record id k x)
unfolding dispatch_record
dispatch_record-KeepsTasks id k none = record { same = λ d d' a h. ground arith }
dispatch_record-KeepsTasks id k (some x) = record { same = λ d d' a h. ground arith }

ruleset intent_rules = (
  keeps_tasks, admit-KeepsTasks, use_grant-KeepsTasks, authorize-KeepsTasks,
  insert_operation-KeepsTasks, reserve_for-KeepsTasks, dispatch_record-KeepsTasks,
)

pub operation_intent-KeepsTasks :
    (sort : List Destination → List Destination) (i : OperationRequest) (id wire : String)
    → KeepsTasks (operation_intent sort i id wire)
unfolding operation_intent
operation_intent-KeepsTasks sort i id wire = search intent_rules depth 14

pub reserve-KeepsTasks :
    (sort : List Destination → List Destination) (id : String) (xs : List Destination)
    → KeepsTasks (reserve sort id xs)
unfolding reserve
reserve-KeepsTasks sort id xs = search (keeps_tasks, insert_reservations-KeepsTasks)

pub operation_result-KeepsTasks :
    (id : String) (v : Verdict) (r : String) → KeepsTasks (operation_result id v r)
unfolding operation_result event
operation_result-KeepsTasks id v r = record { same = λ d d' a h. ground arith }

pub mark_scope_uncertain-KeepsTasks :
    (k u e id : String) → KeepsTasks (mark_scope_uncertain k u e id)
unfolding mark_scope_uncertain insert_record event
mark_scope_uncertain-KeepsTasks k u e id = record { same = λ d d' a h. ground arith }

pub disposition_work-KeepsTasks :
    (f : Evidence → String) (k : String) (e : Evidence) (id : String)
    → KeepsTasks (disposition_work f k e id)
unfolding disposition_work event
disposition_work-KeepsTasks f k e id = record { same = λ d d' a h. ground arith }

pub put_record_work-KeepsTasks :
    (r : RecordKind) (id k : String) (p : Payload) (t : String)
    → KeepsTasks (put_record_work r id k p t)
unfolding put_record_work insert_record event
put_record_work-KeepsTasks r id k p t = record { same = λ d d' a h. ground arith }

pub transition_record-KeepsTasks :
    (r : RecordKind) (id x s : String) (p : Payload) (t : String)
    → KeepsTasks (transition_record r id x s p t)
unfolding transition_record event
transition_record-KeepsTasks r id x s p t = record { same = λ d d' a h. ground arith }

pub complete_rhino_launch-KeepsTasks :
    (id : String) (b : TargetBinding) (r : String) → KeepsTasks (complete_rhino_launch id b r)
unfolding complete_rhino_launch insert_record event
complete_rhino_launch-KeepsTasks id b r = record { same = λ d d' a h. ground arith }

pub complete_granted_action-KeepsTasks :
    (x : RecordKind) (id g : String) (b : TargetBinding) (r : String)
    → KeepsTasks (complete_granted_action x id g b r)
unfolding complete_granted_action insert_record event
complete_granted_action-KeepsTasks x id g b r = record { same = λ d d' a h. ground arith }

pub attachment-KeepsTasks : (a : Attachment) → KeepsTasks (attachment a)
unfolding attachment required
attachment-KeepsTasks x = record { same = λ d d' a h. ground arith }

pub register_session-KeepsTasks : (c s : String) → KeepsTasks (register_session c s)
unfolding register_session required
register_session-KeepsTasks c s = record { same = λ d d' a h. ground arith }

pub record_usage-KeepsTasks : (k u : String) (n : ℕ) → KeepsTasks (record_usage k u n)
unfolding record_usage event
record_usage-KeepsTasks k u n = record { same = λ d d' a h. ground arith }

pub publish-KeepsTasks :
    (k : String) (fields : List (String × Field)) → KeepsTasks (publish k fields)
unfolding publish event
publish-KeepsTasks k fields = record { same = λ d d' a h. ground arith }

pub begin_handoff-Refines : (k u g id : String) → Refines (begin_handoff k u g id)
unfolding begin_handoff expect insert_record event
begin_handoff-Refines k u g id = record {
  at = λ d d' a h. elim (Option-cases (get k d.tasks)) [
    | inl n ↦ absurd (ground arith)
    | inr (t, e) ↦
        one_move suspend k t e (state_eq_sound t.state running (ground arith)) (ground arith)
  ];
}

pub start_handoff_action-Refines : (k u x v : String) → Refines (start_handoff_action k u x v)
unfolding start_handoff_action insert_turn event retire_inputs
start_handoff_action-Refines k u x v = record {
  at = λ d d' a h. elim (Option-cases (get k d.tasks)) [
    | inl n ↦ absurd (ground arith)
    | inr (t, e) ↦
        one_move act k t e (state_eq_sound t.state suspending (ground arith)) (ground arith)
  ];
}

pub complete_handoff-Refines :
    (k u x : String) (r : HandoffResult) (v : String) → Refines (complete_handoff k u x r v)
unfolding complete_handoff expect insert_turn event
complete_handoff-Refines k u x r v = record {
  at = λ d d' a h. elim (Option-cases (get k d.tasks)) [
    | inl n ↦ absurd (ground arith)
    | inr (t, e) ↦
        one_move continue k t e (state_eq_sound t.state running (ground arith)) (ground arith)
  ];
}
