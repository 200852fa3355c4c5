-- ===== src/TaskService/Executions.antt =====
-- src/host/shared/task-service.ts, lines 270 to 313 and 649 to 835: how a root waits for its
-- children, and what becomes of a turn once its driver has returned and was cleaned up.
use hopper_pi.Prelude.{
  ℕ, String, Bool, true, false, ◌&&◌, ◌||◌, not, Option, none, some, List, [], ◌==◌, any, find,
  if◌then◌else◌, nat_eq, is_none, delete_where, ltb,
}
use hopper_pi.Prelude.Table.{get}
use hopper_pi.SharedExecution.{TargetBinding}
use hopper_pi.Journal.Rows.{
  State, completed, failed, cancelled, interrupted, uncertain, suspending, state_eq, Task,
  Operation, OperationState, dispatched, Record, RecordKind, Payload, scope_of, kind_eq, task_keyed,
}
use hopper_pi.Journal.Database.{Db}
use hopper_pi.Journal.Turns.{confirm_suspension}
use hopper_pi.Journal.Settlement.{settle, completes, cancels, fail_running, make_uncertain}
use hopper_pi.Journal.Handoffs.{HandoffResult, start_handoff_action, complete_handoff}
use hopper_pi.TaskService.{
  Options, Active, Service, Host, Failure, not_a_root, no_such_task, Act, Outcome, returns, throws,
  proceed, ◌>>=◌, ◌>>◌, catch, pure, throw, read, modify, journal, active_of, set_active,
}
use hopper_pi.TaskService.Fences.{worker_count, worker_limit}
use hopper_pi.TaskService.Pump.{scheduling_snapshot, pump}

abbrev pub is_settled : State → Bool
is_settled completed = true
is_settled failed = true
is_settled cancelled = true
is_settled interrupted = true
is_settled uncertain = true
is_settled _ = false

is_pending_child : String → Task → Bool
is_pending_child parent t =
    elim t.parent_task_id [ none ↦ false | some p ↦ p == parent ] && not (is_settled t.state)

is_root_row : Option Task → Bool
is_root_row none = false
is_root_row (some t) = is_none t.parent_task_id

is_unknown_operation : String → Operation → Bool
is_unknown_operation turn_id x =
    x.turn_id == turn_id
    && elim x.state [ dispatched ↦ true | OperationState.uncertain ↦ true | _ ↦ false ]

is_scope_in_turn : String → Payload → Bool
is_scope_in_turn turn_id (scope_of a b) = a == turn_id
is_scope_in_turn turn_id _ = false

is_unknown_scope : String → Record → Bool
unfolding is_scope_in_turn
is_unknown_scope turn_id r =
    kind_eq r.kind RecordKind.scope && r.state == "uncertain" && is_scope_in_turn turn_id r.payload

-- The outcome of something the turn did is not known.
unfoldable pub is_unknown : String → Db → Bool
unfolding is_unknown_operation is_unknown_scope
is_unknown turn_id snapshot =
    any (is_unknown_operation turn_id) snapshot.operations
    || any (is_unknown_scope turn_id) snapshot.records

is_unknown_action : String → Record → Bool
is_unknown_action task_id r =
    kind_eq r.kind RecordKind.document_action && r.task_id == task_id && r.state == "uncertain"

unfoldable pub is_unknown_handoff : String → String → Db → Bool
unfolding is_unknown_action
is_unknown_handoff task_id turn_id snapshot =
    is_unknown turn_id snapshot || any (is_unknown_action task_id) snapshot.records

pending_handoff : String → Db → Option Record
pending_handoff task_id snapshot =
    find (λ r. kind_eq r.kind RecordKind.handoff && r.task_id == task_id && r.state == "suspending")
      snapshot.records

unfoldable pub object : ℕ → List Active → Option Active
object serial active = find (λ a. nat_eq a.serial serial) active

is_aborted_entry : Option Active → Bool
is_aborted_entry none = false
is_aborted_entry (some a) = a.is_aborted

-- How a driver ended: whether its cleanup was confirmed, what it left, and what it threw.
pub record Ending : Type 0 where
  pub is_clean : Bool
  pub evidence : String
  pub failure : Option String

-- try { ... } finally { ... }: a throw of either is what the whole throws.
unfoldable pub afterwards :
    {A : Type 0} → Outcome A × Service → Act (Unit {0}) → Outcome A × Service
afterwards (returns a, s) last = proceed (last s) (λ u. pure a)
afterwards (throws e, s) last = proceed (last s) (λ u. throw e)

abbrev turn_of : String → Option Active → String
turn_of turn_id none = turn_id
turn_of turn_id (some a) = a.turn_id

-- Whether the execution is over, or goes on with the action of a handoff.
pub data Course : Type 0 where
  over handing_over : Course

module _ (o : Options) (host : Host) where
  unfoldable pub wait_as : Option Active → String → Db → Act Bool
  unfolding is_pending_child is_root_row
  wait_as none task_id snapshot = throw not_a_root
  wait_as (some a) task_id snapshot =
      if not (is_root_row (get task_id snapshot.tasks))
      then throw not_a_root
      else if any (is_pending_child task_id) snapshot.tasks && a.is_worker
      then (do
        modify (set_active a.serial (λ x. record x { is_waiting_for_children = true }))
        pump o host
        pure true)
      else pure false

  -- The worker slot of a root that has unfinished children is free while it waits. The result tells
  -- whether the slot was given up.
  unfoldable pub wait_for_children : String → Act Bool
  unfolding wait_as
  wait_for_children task_id = do
    entry ← read (λ s. active_of task_id s.active)
    snapshot ← read (scheduling_snapshot [])
    wait_as entry task_id snapshot

  unfoldable pub resume_object : ℕ → Option Active → Service → Service
  resume_object serial none s = s
  resume_object serial (some a) s =
      if a.is_aborted || ltb (worker_count s) (worker_limit o)
      then set_active serial (λ x. record x { is_waiting_for_children = false }) s
      else s

  -- The end of the wait for a slot: the object is aborted, or there is room again.
  unfoldable pub resume_worker : ℕ → Act (Unit {0})
  unfolding resume_object
  resume_worker serial s = (returns tt, resume_object serial (object serial s.active) s)

  -- active.delete(taskId), then a pass over the queue.
  unfoldable pub leave : String → Act (Unit {0})
  leave task_id = do
    modify (λ s. record s { active = delete_where (λ a. a.task_id == task_id) s.active })
    pump o host

  unfoldable pub doubt : String → String → String → Act Course
  doubt task_id turn_id evidence = do journal (make_uncertain task_id turn_id evidence); pure over

  unfoldable pub suspend : String → String → String → Option Record → Act Course
  suspend task_id turn_id action_turn_id none = do
    journal (confirm_suspension task_id turn_id)
    pure over
  suspend task_id turn_id action_turn_id (some r) = do
    journal (start_handoff_action task_id turn_id r.id action_turn_id)
    pure handing_over

  unfoldable pub settle_plainly : String → String → Option String → Act Course
  settle_plainly task_id turn_id (some error) = do
    journal (fail_running task_id turn_id error)
    pure over
  settle_plainly task_id turn_id none = do journal (settle task_id turn_id completes); pure over

  -- To read a task that the snapshot lacks is a TypeError, which the `catch` turns to doubt.
  unfoldable pub settle_known :
      String → String → Ending → Db → String → Option Active → Option Task → Act Course
  unfolding suspend settle_plainly is_aborted_entry pending_handoff
  settle_known task_id turn_id e snapshot action_turn_id entry none =
      if is_aborted_entry entry
      then (do journal (settle task_id turn_id cancels); pure over)
      else throw no_such_task
  settle_known task_id turn_id e snapshot action_turn_id entry (some t) =
      if is_aborted_entry entry || t.cancellation_requested
      then (do journal (settle task_id turn_id cancels); pure over)
      else if state_eq t.state suspending
      then suspend task_id turn_id action_turn_id (pending_handoff task_id snapshot)
      else settle_plainly task_id turn_id e.failure

  -- The branches of the `try` after the cleanup, in order.
  unfoldable pub settle_ending : String → String → Ending → Db → String → Option Active → Act Course
  unfolding doubt settle_known
  settle_ending task_id turn_id e snapshot action_turn_id entry =
      if not e.is_clean || is_unknown turn_id snapshot
      then doubt task_id turn_id e.evidence
      else settle_known task_id turn_id e snapshot action_turn_id entry (get task_id snapshot.tasks)

  -- The object of the execution runs the action's turn from now on.
  unfoldable pub take_course : ℕ → String → Course → Act Course
  take_course serial action_turn_id over = pure over
  take_course serial action_turn_id handing_over = do
    modify (set_active serial (λ a. record a { turn_id = action_turn_id }))
    pump o host
    pure handing_over

  -- The `catch` of the whole: the turn of the object is left in doubt.
  unfoldable pub doubt_object : String → String → ℕ → Failure → Act Course
  unfolding doubt
  doubt_object task_id turn_id serial e = do
    entry ← read (λ s. object serial s.active)
    doubt task_id (turn_of turn_id entry) (host.message e)

  unfoldable pub leave_if_over : String → Outcome Course × Service → Outcome Course × Service
  unfolding leave afterwards
  leave_if_over task_id (returns handing_over, s) = (returns handing_over, s)
  leave_if_over task_id (returns over, s) = afterwards (returns over, s) (leave task_id)
  leave_if_over task_id (throws e, s) = afterwards (throws e, s) (leave task_id)

  -- From the cleanup of the driver to the end of the execution, or to the action of a handoff.
  unfoldable pub conclude : String → String → ℕ → Ending → String → Act Course
  unfolding settle_ending take_course doubt_object leave_if_over
  conclude task_id turn_id serial e action_turn_id s =
      let snapshot = scheduling_snapshot [] s in
      leave_if_over task_id (
        catch
          (settle_ending task_id turn_id e snapshot action_turn_id (object serial s.active)
            >>= take_course serial action_turn_id)
          (doubt_object task_id turn_id serial) s)

  unfoldable pub complete : String → String → String → HandoffResult → String → Act Course
  complete task_id action_turn_id handoff_id result turn_id = do
    journal (complete_handoff task_id action_turn_id handoff_id result turn_id)
    pure over

  -- The action failed: in doubt, cancelled, or handed back to the document it came from.
  unfoldable pub fail_action :
      String → String → ℕ → String → Option TargetBinding → String → String → Act Course
  unfolding doubt complete is_aborted_entry
  fail_action task_id action_turn_id serial handoff_id binding turn_id error s =
      (if is_unknown_handoff task_id action_turn_id (scheduling_snapshot [] s)
          then doubt task_id action_turn_id error
          else if is_aborted_entry (object serial s.active)
          then (do journal (settle task_id action_turn_id cancels); pure over)
          else complete task_id action_turn_id handoff_id
              (record {
                binding = binding;
                result = error;
                action_id = handoff_id;
                is_failed = true;
              })
              turn_id)
        s

  -- What the executor of document actions came to.
  unfoldable pub act_on :
      String
      → String
      → ℕ
      → String
      → Option TargetBinding
      → String
      → Option HandoffResult
      → String
      → Act Course
  unfolding complete fail_action
  act_on task_id action_turn_id serial handoff_id binding turn_id none error =
      fail_action task_id action_turn_id serial handoff_id binding turn_id error
  act_on task_id action_turn_id serial handoff_id binding turn_id (some result) error =
      catch (complete task_id action_turn_id handoff_id result turn_id)
        (λ e. fail_action task_id action_turn_id serial handoff_id binding turn_id (host.message e))

  -- The rest of an execution that handed over.
  unfoldable pub conclude_handoff :
      String
      → String
      → ℕ
      → String
      → Option TargetBinding
      → String
      → Option HandoffResult
      → String
      → Act Course
  unfolding act_on doubt_object leave_if_over
  conclude_handoff task_id action_turn_id serial handoff_id binding turn_id result error s =
      leave_if_over task_id (
        catch (act_on task_id action_turn_id serial handoff_id binding turn_id result error)
          (doubt_object task_id action_turn_id serial) s)
