-- ===== src/Journal/History.antt =====
-- The journal as its callers drive it: any methods, in any order, each in its transaction.
-- (journal.ts: the public methods that change the tasks, and those that change other tables.)
use hopper_pi.Prelude.{ℕ, String, Option, List, [], ◌∷◌}
use hopper_pi.SharedExecution.{ExecutionOwner, TargetBinding}
use hopper_pi.Journal.Rows.{Submission, Field, RecordKind, Payload, Attachment, task_keyed}
use hopper_pi.Journal.Database.{Db, transaction}
use hopper_pi.Journal.Requests.{RequestPayload, Evidence, request}
use hopper_pi.Journal.Conversations.{accept_work, register_session}
use hopper_pi.Journal.Turns.{start, ask, confirm_suspension, answer_work}
use hopper_pi.Journal.Settlement.{
  Outcome, settle, fail_queued, fail_running, make_uncertain, cancel_work, record_usage, publish,
}
use hopper_pi.Journal.Restart.{set_scheduling_block, finish_admission, recover}
use hopper_pi.Journal.Inputs.{steer_work, mark_input, mark_input_not_applied, Delivery}
use hopper_pi.Journal.Delegation.{delegate_work}
use hopper_pi.Journal.Operations.{Destination, OperationRequest, operation_intent}
use hopper_pi.Journal.Outcomes.{
  Verdict, operation_result, reserve, mark_scope_uncertain, disposition_work,
}
use hopper_pi.Journal.Handoffs.{
  HandoffResult, begin_handoff, start_handoff_action, complete_handoff,
}
use hopper_pi.Journal.Records.{
  put_record_work, transition_record, complete_rhino_launch, complete_granted_action, attachment,
}
use hopper_pi.Journal.TaskMachine.{TaskSteps, TaskSteps-trans, done}
use hopper_pi.Journal.Refinement.{KeepsTasks-Refines, request-Refines}
use hopper_pi.Journal.Refinement.Turns
use hopper_pi.Journal.Refinement.Settlement
use hopper_pi.Journal.Refinement.Restart
use hopper_pi.Journal.Refinement.Others

-- A call of a method that works under a request identity has the identity and the payload first.
pub data Call : Type 0 where
  registers : String → String → Call
  accepts : String → RequestPayload → Submission → String → String → Call
  schedules : String → Option String → Option String → Call
  admits : String → Option String → Call
  starts : String → String → Option ExecutionOwner → Call
  asks : String → String → String → String → String → Call
  confirms : String → String → Call
  answers : String → RequestPayload → String → String → String → Call
  steers : String → RequestPayload → String → String → String → String → Call
  marks : ℕ → Delivery → Call
  drops : ℕ → Call
  doubts_scope : String → String → String → String → Call
  settles : String → String → Outcome → Call
  recovers : Call
  fails_queued : String → String → String → Call
  fails_running : String → String → String → Call
  cancels : String → Call
  doubts : String → String → String → Call
  delegates : String → RequestPayload → Submission → String → List String → String → String → Call
  intends : OperationRequest → String → String → Call
  results : String → Verdict → String → Call
  reserves : String → List Destination → Call
  disposes : String → RequestPayload → String → Evidence → String → Call
  begins_handoff : String → String → String → String → Call
  starts_handoff : String → String → String → String → Call
  completes_handoff : String → String → String → HandoffResult → String → Call
  launches : String → TargetBinding → String → Call
  grants : RecordKind → String → String → TargetBinding → String → Call
  attaches : Attachment → Call
  puts : String → RequestPayload → RecordKind → String → String → Payload → String → Call
  uses : String → String → ℕ → Call
  publishes : String → List (String × Field) → Call
  transitions : RecordKind → String → String → String → Payload → String → Call

-- The parameters of the methods: hashes, texts and an order that other code gives.
pub record Services : Type 0 where
  pub hash : RequestPayload → String
  pub canonical : List (String × Field) → String
  pub describe : Evidence → String
  pub sort : List Destination → List Destination

module _ (v : Services) where
  unfoldable pub perform : Call → Db → Db
  perform (registers c s) d = (transaction (register_session c s) d).1
  perform (accepts r p x k u) d = (transaction (request v.hash r p (accept_work x k u)) d).1
  perform (schedules k r b) d = (transaction (set_scheduling_block v.canonical k r b) d).1
  perform (admits k e) d = (transaction (finish_admission k e) d).1
  perform (starts k u o) d = (transaction (start k u o) d).1
  perform (asks k u c p id) d = (transaction (ask k u c p id) d).1
  perform (confirms k u) d = (transaction (confirm_suspension k u) d).1
  perform (answers r p q s u) d = (transaction (request v.hash r p (answer_work q s u)) d).1
  perform (steers r p k s u x) d = (transaction (request v.hash r p (steer_work k s u x)) d).1
  perform (marks i x) d = (transaction (mark_input i x) d).1
  perform (drops i) d = (transaction (mark_input_not_applied i) d).1
  perform (doubts_scope k u e id) d = (transaction (mark_scope_uncertain k u e id) d).1
  perform (settles k u o) d = (transaction (settle k u o) d).1
  perform recovers d = (recover d).1
  perform (fails_queued k u r) d = (transaction (fail_queued k u r) d).1
  perform (fails_running k u r) d = (transaction (fail_running k u r) d).1
  perform (cancels k) d = (transaction (cancel_work k) d).1
  perform (doubts k u e) d = (transaction (make_uncertain k u e) d).1
  perform (delegates r p x t ds k u) d =
      (transaction (request v.hash r p (delegate_work x t ds k u)) d).1
  perform (intends i id wire) d = (transaction (operation_intent v.sort i id wire) d).1
  perform (results id x r) d = (transaction (operation_result id x r) d).1
  perform (reserves id xs) d = (transaction (reserve v.sort id xs) d).1
  perform (disposes r p k e id) d =
      (transaction (request v.hash r p (disposition_work v.describe k e id)) d).1
  perform (begins_handoff k u g id) d = (transaction (begin_handoff k u g id) d).1
  perform (starts_handoff k u x a) d = (transaction (start_handoff_action k u x a) d).1
  perform (completes_handoff k u x r a) d = (transaction (complete_handoff k u x r a) d).1
  perform (launches id b r) d = (transaction (complete_rhino_launch id b r) d).1
  perform (grants x id g b r) d = (transaction (complete_granted_action x id g b r) d).1
  perform (attaches a) d = (transaction (attachment a) d).1
  perform (puts r p x id k y t) d =
      (transaction (request v.hash r p (put_record_work x id k y t)) d).1
  perform (uses k u n) d = (transaction (record_usage k u n) d).1
  perform (publishes k fields) d = (transaction (publish k fields) d).1
  perform (transitions x id e s p t) d = (transaction (transition_record x id e s p t) d).1

  unfoldable pub history : List Call → Db → Db
  unfolding perform
  history [] d = d
  history (c ∷ cs) d = history cs (perform c d)

  pub perform-steps : (c : Call) (d : Db) → TaskSteps d.tasks (perform c d).tasks
  unfolding perform
  perform-steps (registers c s) d =
      Restart.transaction-steps _ (KeepsTasks-Refines (Others.register_session-KeepsTasks c s)) d
  perform-steps (accepts r p x k u) d =
      Restart.transaction-steps _
        (request-Refines v.hash r p (accept_work x k u) (Turns.accept_work-Refines x k u)) d
  perform-steps (schedules k r b) d =
      Restart.transaction-steps _
        (KeepsTasks-Refines (Restart.set_scheduling_block-KeepsTasks v.canonical k r b)) d
  perform-steps (admits k e) d =
      Restart.transaction-steps _ (Restart.finish_admission-Refines k e) d
  perform-steps (starts k u o) d = Restart.transaction-steps _ (Turns.start-Refines k u o) d
  perform-steps (asks k u c p id) d = Restart.transaction-steps _ (Turns.ask-Refines k u c p id) d
  perform-steps (confirms k u) d =
      Restart.transaction-steps _ (Turns.confirm_suspension-Refines k u) d
  perform-steps (answers r p q s u) d =
      Restart.transaction-steps _
        (request-Refines v.hash r p (answer_work q s u) (Turns.answer_work-Refines q s u)) d
  perform-steps (steers r p k s u x) d =
      Restart.transaction-steps _
        (request-Refines v.hash r p (steer_work k s u x)
          (KeepsTasks-Refines (Others.steer_work-KeepsTasks k s u x)))
        d
  perform-steps (marks i x) d =
      Restart.transaction-steps _ (KeepsTasks-Refines (Others.mark_input-KeepsTasks i x)) d
  perform-steps (drops i) d =
      Restart.transaction-steps _ (KeepsTasks-Refines (Others.mark_input_not_applied-KeepsTasks i))
        d
  perform-steps (doubts_scope k u e id) d =
      Restart.transaction-steps _
        (KeepsTasks-Refines (Others.mark_scope_uncertain-KeepsTasks k u e id)) d
  perform-steps (settles k u o) d = Restart.transaction-steps _ (Settlement.settle-Refines k u o) d
  perform-steps recovers d = Restart.recover-steps d
  perform-steps (fails_queued k u r) d =
      Restart.transaction-steps _ (Settlement.fail_queued-Refines k u r) d
  perform-steps (fails_running k u r) d =
      Restart.transaction-steps _ (Settlement.fail_running-Refines k u r) d
  perform-steps (cancels k) d = Restart.transaction-steps _ (Settlement.cancel_work-Refines k) d
  perform-steps (doubts k u e) d =
      Restart.transaction-steps _ (Settlement.make_uncertain-Refines k u e) d
  perform-steps (delegates r p x t ds k u) d =
      Restart.transaction-steps _
        (request-Refines v.hash r p (delegate_work x t ds k u)
          (Turns.delegate_work-Refines x t ds k u))
        d
  perform-steps (intends i id wire) d =
      Restart.transaction-steps _
        (KeepsTasks-Refines (Others.operation_intent-KeepsTasks v.sort i id wire)) d
  perform-steps (results id x r) d =
      Restart.transaction-steps _ (KeepsTasks-Refines (Others.operation_result-KeepsTasks id x r)) d
  perform-steps (reserves id xs) d =
      Restart.transaction-steps _ (KeepsTasks-Refines (Others.reserve-KeepsTasks v.sort id xs)) d
  perform-steps (disposes r p k e id) d =
      Restart.transaction-steps _
        (request-Refines v.hash r p (disposition_work v.describe k e id)
          (KeepsTasks-Refines (Others.disposition_work-KeepsTasks v.describe k e id)))
        d
  perform-steps (begins_handoff k u g id) d =
      Restart.transaction-steps _ (Others.begin_handoff-Refines k u g id) d
  perform-steps (starts_handoff k u x a) d =
      Restart.transaction-steps _ (Others.start_handoff_action-Refines k u x a) d
  perform-steps (completes_handoff k u x r a) d =
      Restart.transaction-steps _ (Others.complete_handoff-Refines k u x r a) d
  perform-steps (launches id b r) d =
      Restart.transaction-steps _
        (KeepsTasks-Refines (Others.complete_rhino_launch-KeepsTasks id b r)) d
  perform-steps (grants x id g b r) d =
      Restart.transaction-steps _
        (KeepsTasks-Refines (Others.complete_granted_action-KeepsTasks x id g b r)) d
  perform-steps (attaches a) d =
      Restart.transaction-steps _ (KeepsTasks-Refines (Others.attachment-KeepsTasks a)) d
  perform-steps (puts r p x id k y t) d =
      Restart.transaction-steps _
        (request-Refines v.hash r p (put_record_work x id k y t)
          (KeepsTasks-Refines (Others.put_record_work-KeepsTasks x id k y t)))
        d
  perform-steps (uses k u n) d =
      Restart.transaction-steps _ (KeepsTasks-Refines (Others.record_usage-KeepsTasks k u n)) d
  perform-steps (publishes k fields) d =
      Restart.transaction-steps _ (KeepsTasks-Refines (Others.publish-KeepsTasks k fields)) d
  perform-steps (transitions x id e s p t) d =
      Restart.transaction-steps _
        (KeepsTasks-Refines (Others.transition_record-KeepsTasks x id e s p t)) d

  -- Any history of calls is a run of the task machine.
  pub history-steps : (cs : List Call) (d : Db) → TaskSteps d.tasks (history cs d).tasks
  unfolding history
  history-steps [] d = done
  history-steps (c ∷ cs) d = TaskSteps-trans (perform-steps c d) (history-steps cs (perform c d))
