-- ===== src/Journal/Lasting/Unchanged.antt =====
-- The methods that leave questions, operations, inputs and requests alone
-- (src/host/shared/journal.ts).
use hopper_pi.Prelude.{
  ◌∙◌, ℕ, String, inl, inr, Bool, true, false, Option, none, some, List, [], ◌∷◌, ◌++◌, arith,
}
use hopper_pi.Prelude.Table.{put}
use hopper_pi.Journal.TaskMachine.{with_cancellation}
use hopper_pi.SharedExecution.{TargetBinding, ExecutionOwner}
use hopper_pi.Journal.Rows.{
  State, Owner, execution, document_action, Attachment, RecordKind, Submission, Payload, Field,
  task_keyed, turn_keyed, question_keyed,
}
use hopper_pi.Journal.Database.{Result-cases, required, insert_turn, insert_record, insert_task}
use hopper_pi.Journal.Events.{event, expect}
use hopper_pi.Journal.Lasting.{KeepsFrame, KeepsFrame-event, keeps_frame}
use hopper_pi.Journal.Operations.{
  Destination, DispatchRecord, OperationRequest, insert_reservations, admit, use_grant, authorize,
  reserve_for, dispatch_record,
}
use hopper_pi.Journal.Outcomes.{reserve, mark_scope_uncertain, disposition_work}
use hopper_pi.Journal.Handoffs.{HandoffResult, begin_handoff, complete_handoff}
use hopper_pi.Journal.Records.{
  put_record_work, transition_record, complete_rhino_launch, complete_granted_action, attachment,
}
use hopper_pi.Journal.Conversations.{
  insert_session, register_session, accept_work, label_target, assert_writable_conversation,
}
use hopper_pi.Journal.Settlement.{record_usage, publish, fail_queued, cancel_each, cancel_work}
use hopper_pi.Journal.Restart.{set_scheduling_block, finish_admission}
use hopper_pi.Journal.Turns.{start}
use hopper_pi.Journal.Delegation.{delegate_work}
use hopper_pi.Journal.Requests.{Evidence}

insert_reservations-KeepsFrame :
    (id : String) (xs : List Destination) → KeepsFrame (insert_reservations id xs)
unfolding insert_reservations required
insert_reservations-KeepsFrame id [] = record { same = λ d d' a h. ground arith }
insert_reservations-KeepsFrame id (x ∷ xs) = record {
  same = λ d d' a h. ground (
    arith,
    (insert_reservations-KeepsFrame id xs).same
        (record d {
          reservations =
              d.reservations
              ++ record { destination = x.identity; operation_id = id; baseline = x.baseline } ∷ [];
        })
        d' a,
  );
}

pub expect-KeepsFrame : (k u : String) (s : State) → KeepsFrame (expect k u s)
unfolding expect
expect-KeepsFrame k u s = record { same = λ d d' a h. ground arith }

pub admit-KeepsFrame : (b : Bool) (i : OperationRequest) → KeepsFrame (admit b i)
unfolding admit expect
admit-KeepsFrame true i = record { same = λ d d' a h. ground arith }
admit-KeepsFrame false i = record { same = λ d d' a h. ground arith }

pub use_grant-KeepsFrame : (g : Option String) (k : String) → KeepsFrame (use_grant g k)
unfolding use_grant
use_grant-KeepsFrame g k = record { same = λ d d' a h. ground arith }

pub authorize-KeepsFrame : (o : Option Owner) (i : OperationRequest) → KeepsFrame (authorize o i)
unfolding authorize
authorize-KeepsFrame none i = record { same = λ d d' a h. ground arith }
authorize-KeepsFrame (some (execution o)) i = record { same = λ d d' a h. ground arith }
authorize-KeepsFrame (some (document_action o)) i = record { same = λ d d' a h. ground arith }

pub reserve_for-KeepsFrame :
    (sort : List Destination → List Destination) (o : Option Owner) (id : String)
    (xs : List Destination)
    → KeepsFrame (reserve_for sort o id xs)
unfolding reserve_for
reserve_for-KeepsFrame sort o id [] = search keeps_frame
reserve_for-KeepsFrame sort o id (x ∷ xs) = search (keeps_frame, insert_reservations-KeepsFrame)

pub dispatch_record-KeepsFrame :
    (id k : String) (x : Option DispatchRecord) → KeepsFrame (dispatch_record id k x)
unfolding dispatch_record
dispatch_record-KeepsFrame id k none = record { same = λ d d' a h. ground arith }
dispatch_record-KeepsFrame id k (some x) = record { same = λ d d' a h. ground arith }

pub reserve-KeepsFrame :
    (sort : List Destination → List Destination) (id : String) (xs : List Destination)
    → KeepsFrame (reserve sort id xs)
unfolding reserve
reserve-KeepsFrame sort id xs = search (keeps_frame, insert_reservations-KeepsFrame)

pub mark_scope_uncertain-KeepsFrame :
    (k u e id : String) → KeepsFrame (mark_scope_uncertain k u e id)
unfolding mark_scope_uncertain insert_record event
mark_scope_uncertain-KeepsFrame k u e id = record { same = λ d d' a h. ground arith }

pub disposition_work-KeepsFrame :
    (f : Evidence → String) (k : String) (e : Evidence) (id : String)
    → KeepsFrame (disposition_work f k e id)
unfolding disposition_work event
disposition_work-KeepsFrame f k e id = record { same = λ d d' a h. ground arith }

pub put_record_work-KeepsFrame :
    (r : RecordKind) (id k : String) (p : Payload) (t : String)
    → KeepsFrame (put_record_work r id k p t)
unfolding put_record_work insert_record event
put_record_work-KeepsFrame r id k p t = record { same = λ d d' a h. ground arith }

pub transition_record-KeepsFrame :
    (r : RecordKind) (id x s : String) (p : Payload) (t : String)
    → KeepsFrame (transition_record r id x s p t)
unfolding transition_record event
transition_record-KeepsFrame r id x s p t = record { same = λ d d' a h. ground arith }

pub complete_rhino_launch-KeepsFrame :
    (id : String) (b : TargetBinding) (r : String) → KeepsFrame (complete_rhino_launch id b r)
unfolding complete_rhino_launch insert_record event
complete_rhino_launch-KeepsFrame id b r = record { same = λ d d' a h. ground arith }

pub complete_granted_action-KeepsFrame :
    (x : RecordKind) (id g : String) (b : TargetBinding) (r : String)
    → KeepsFrame (complete_granted_action x id g b r)
unfolding complete_granted_action insert_record event
complete_granted_action-KeepsFrame x id g b r = record { same = λ d d' a h. ground arith }

pub attachment-KeepsFrame : (a : Attachment) → KeepsFrame (attachment a)
unfolding attachment required
attachment-KeepsFrame x = record { same = λ d d' a h. ground arith }

pub register_session-KeepsFrame : (c s : String) → KeepsFrame (register_session c s)
unfolding register_session required
register_session-KeepsFrame c s = record { same = λ d d' a h. ground arith }

pub record_usage-KeepsFrame : (k u : String) (n : ℕ) → KeepsFrame (record_usage k u n)
unfolding record_usage event
record_usage-KeepsFrame k u n = record { same = λ d d' a h. ground arith }

pub publish-KeepsFrame :
    (k : String) (fields : List (String × Field)) → KeepsFrame (publish k fields)
unfolding publish event
publish-KeepsFrame k fields = record { same = λ d d' a h. ground arith }

pub begin_handoff-KeepsFrame : (k u g id : String) → KeepsFrame (begin_handoff k u g id)
unfolding begin_handoff expect insert_record event
begin_handoff-KeepsFrame k u g id = record { same = λ d d' a h. ground arith }

pub complete_handoff-KeepsFrame :
    (k u x : String) (r : HandoffResult) (v : String) → KeepsFrame (complete_handoff k u x r v)
unfolding complete_handoff expect insert_turn event
complete_handoff-KeepsFrame k u x r v = record { same = λ d d' a h. ground arith }

pub accept_work-KeepsFrame : (x : Submission) (k u : String) → KeepsFrame (accept_work x k u)
unfolding accept_work label_target insert_task insert_turn event assert_writable_conversation
accept_work-KeepsFrame x k u = record { same = λ d d' a h. ground arith }

pub set_scheduling_block-KeepsFrame :
    (c : List (String × Field) → String) (k : String) (r b : Option String)
    → KeepsFrame (set_scheduling_block c k r b)
unfolding set_scheduling_block event insert_record
set_scheduling_block-KeepsFrame c k r b = record { same = λ d d' a h. ground arith }

pub finish_admission-KeepsFrame :
    (k : String) (e : Option String) → KeepsFrame (finish_admission k e)
unfolding finish_admission event
finish_admission-KeepsFrame k e = record { same = λ d d' a h. ground arith }

pub start-KeepsFrame : (k u : String) (o : Option ExecutionOwner) → KeepsFrame (start k u o)
unfolding start expect event
start-KeepsFrame k u o = record { same = λ d d' a h. ground arith }

pub fail_queued-KeepsFrame : (k u r : String) → KeepsFrame (fail_queued k u r)
unfolding fail_queued expect event
fail_queued-KeepsFrame k u r = record { same = λ d d' a h. ground arith }

cancel_each-KeepsFrame : (ids : List String) → KeepsFrame (cancel_each ids)
unfolding cancel_each
cancel_each-KeepsFrame [] = record { same = λ d d' a h. ground arith }
cancel_each-KeepsFrame (id ∷ ids) = record {
  same = λ d d' a h.
      let marked = record d { tasks = put id with_cancellation d.tasks } in
      elim (Result-cases (event id "cancellation_requested" [] marked)) [
        | inl (e, f) ↦ absurd (ground arith)
        | inr (x, f) ↦
            (cancel_each-KeepsFrame ids).same x.1 d' a (ground arith)
            ∙ (KeepsFrame-event id "cancellation_requested" []).same marked x.1 x.0 f
      ];
}

pub cancel_work-KeepsFrame : (k : String) → KeepsFrame (cancel_work k)
unfolding cancel_work
cancel_work-KeepsFrame k = search (keeps_frame, cancel_each-KeepsFrame)

pub delegate_work-KeepsFrame :
    (x : Submission) (p : String) (ds : List String) (k u : String)
    → KeepsFrame (delegate_work x p ds k u)
unfolding delegate_work insert_session insert_task insert_turn event
delegate_work-KeepsFrame x p ds k u = record { same = λ d d' a h. ground arith }
