-- ===== src/TaskService/Requests.antt =====
-- src/host/shared/task-service.ts, lines 149 to 269: what callers ask of the service. Each ends with
-- a pass over the queue. `task_id`, `turn_id` are the fresh identifiers the journal makes.
use hopper_pi.Prelude.{
  String, Bool, true, false, Option, none, some, List, [], ◌∷◌, ◌==◌, if◌then◌else◌, find_last,
  delete_where,
}
use hopper_pi.Prelude.Table.{get}
use hopper_pi.Journal.Rows.{queued, awaiting_user, Submission, Task, Turn, task_keyed}
use hopper_pi.Journal.Database.{Receipt}
use hopper_pi.Journal.Conversations.{accept}
use hopper_pi.Journal.Turns.{answer}
use hopper_pi.Journal.Delegation.{delegate}
use hopper_pi.Journal.Settlement.{cancel_work, settle, cancels}
use hopper_pi.TaskService.{
  Options, Active, Host, host_stopping, budget_exhausted, no_disposition, Act, ◌>>=◌, ◌>>◌, pure,
  throw, read, modify, journal, active_of, set_active,
}
use hopper_pi.TaskService.Snapshot.{is_disposed}
use hopper_pi.TaskService.Fences.{is_over_budget}
use hopper_pi.TaskService.Pump.{scheduling_snapshot, pump}

is_cancellable : Option Task → Bool
is_cancellable none = false
is_cancellable (some t) = elim t.state [ queued ↦ true | awaiting_user ↦ true | _ ↦ false ]

unfoldable pub settle_last : String → Option Turn → Bool → Act (Unit {0})
settle_last task_id none test = pure tt
settle_last task_id (some turn) test =
    if test then (do journal (settle task_id turn.id cancels); pure tt) else pure tt

module _ (o : Options) (host : Host) where
  unfoldable pub submit : Submission → String → String → Act Receipt
  submit input task_id turn_id s =
      (if s.is_stopped then throw host_stopping else do
        receipt ← journal (accept host.hash input task_id turn_id)
        pump o host
        pure receipt)
        s

  unfoldable pub delegate_to : Submission → String → List String → String → String → Act Receipt
  delegate_to input parent dependencies task_id turn_id s =
      (if s.is_stopped
          then throw host_stopping
          else if is_over_budget o parent (scheduling_snapshot (parent ∷ []) s)
          then throw budget_exhausted
          else do
            receipt ← journal (delegate host.hash input parent dependencies task_id turn_id)
            pump o host
            pure receipt)
        s

  unfoldable pub answer_question : String → String → String → String → Act Receipt
  answer_question request_id question_id reply turn_id = do
    receipt ← journal (answer host.hash request_id question_id reply turn_id)
    pump o host
    pure receipt

  -- The first piece of `cancel`, without a request identity; its loop over the identifiers follows
  -- in pieces of its own.
  unfoldable pub request_cancel : String → Act (List String)
  request_cancel task_id = journal (cancel_work task_id)

  unfoldable pub cancel_entry : String → Option Active → Act (Unit {0})
  unfolding is_cancellable
  cancel_entry id (some a) = modify (set_active a.serial (λ x. record x { is_aborted = true }))
  cancel_entry id none = do
    snapshot ← read (scheduling_snapshot (id ∷ []))
    settle_last id (find_last (λ t. t.task_id == id) snapshot.turns)
        (is_cancellable (get id snapshot.tasks))

  -- One round of the loop: a running driver is told, a task that waits is settled at once.
  unfoldable pub cancel_one : String → Act (Unit {0})
  unfolding cancel_entry
  cancel_one id = do entry ← read (λ s. active_of id s.active); cancel_entry id entry

  unfoldable pub stop : Act (Unit {0})
  stop = modify (λ s. record s { is_stopped = true })

  -- The recovery of a task was disposed of: its processes are free.
  unfoldable pub release_recovered : String → Act (Unit {0})
  release_recovered task_id s =
      (if is_disposed task_id (scheduling_snapshot (task_id ∷ []) s).dispositions
          then (do
            modify (λ x. record x { held = delete_where (λ h. h.task_id == task_id) x.held })
            pump o host)
          else throw no_disposition)
        s
