-- ===== src/TaskService/Fences.antt =====
-- src/host/shared/task-service.ts: the limits and the fences that the scheduler reads: how many
-- executions run, what a request has used, and which task a Rhino process still waits for.
use Prim.Native.String.{◌++◌}
use hopper_pi.Prelude.{
  ℕ, ◌+◌, String, Bool, true, false, ◌&&◌, ◌||◌, not, Option, none, some, List, [], ◌∷◌, ◌==◌, any,
  find, count, leb, keep_where, map, if◌then◌else◌,
}
use hopper_pi.SharedExecution.{lifecycle_instance_id}
use hopper_pi.Journal.Rows.{
  uncertain, state_eq, Task, Turn, Operation, Owner, execution, document_action, Attachment,
  Conversation,
}
use hopper_pi.Journal.Database.{Db}
use hopper_pi.TaskService.{
  Options, Active, Held, Service, target, unavailable, broken, Host, active_of,
}
use hopper_pi.TaskService.Snapshot.{member, is_disposed}

unfoldable pub is_worker_at_work : Active → Bool
is_worker_at_work a = a.is_worker && not a.is_waiting_for_children

unfoldable pub worker_count : Service → ℕ
worker_count s = count is_worker_at_work s.active

unfoldable pub coordinator_count : Service → ℕ
coordinator_count s = count (λ a. not a.is_worker) s.active

abbrev pub limit_or : ℕ → Option ℕ → ℕ
limit_or n none = n
limit_or n (some limit) = limit

unfoldable pub worker_limit : Options → ℕ
worker_limit o = limit_or 4 o.max_workers

unfoldable pub coordinator_limit : Options → ℕ
coordinator_limit o = limit_or 4 o.max_coordinators

root_of : String → List Task → String
root_of task_id [] = task_id
root_of task_id (t ∷ rest) =
    let others = root_of task_id rest in
    if t.id == task_id then (elim t.root_task_id [ none ↦ task_id | some root ↦ root ]) else others

is_in_request : String → Task → Bool
is_in_request root t = t.id == root || elim t.root_task_id [ none ↦ false | some r ↦ r == root ]

sum_usage : List String → List Turn → ℕ
sum_usage ids [] = 0
sum_usage ids (t ∷ rest) = (if member t.task_id ids then t.usage else 0) + sum_usage ids rest

-- The tokens of the whole request of a task: its root, the root's children and continuations.
unfoldable pub usage : String → Db → ℕ
unfolding root_of is_in_request sum_usage
usage task_id snapshot =
    let root = root_of task_id snapshot.tasks in
    sum_usage (map (λ t. t.id) (keep_where (is_in_request root) snapshot.tasks)) snapshot.turns

-- usage >= (maxUsage ?? Infinity)
unfoldable pub is_over_budget : Options → String → Db → Bool
is_over_budget o task_id snapshot = elim o.max_usage [
  | none ↦ false
  | some limit ↦ leb limit (usage task_id snapshot)
]

retained_process : String → List Attachment → Option String
retained_process lifecycle rows = elim (find (λ a. a.lifecycle_id == lifecycle) rows) [
  | none ↦ none
  | some a ↦ some a.process_key
]

module _ (host : Host) where
  -- The registry can retain a detached process in the attachments.
  unfoldable pub process_of_owner : Db → Owner → Option String
  unfolding retained_process
  process_of_owner snapshot (execution o) = elim (host.resolve_binding o.binding) [
    | target process_key generation ↦ some process_key
    | unavailable message permanent ↦
        retained_process (lifecycle_instance_id o.binding) snapshot.attachments
    | broken message ↦ retained_process (lifecycle_instance_id o.binding) snapshot.attachments
  ]
  process_of_owner snapshot (document_action o) =
      elim (host.resolve_lifecycle o.lifecycle_instance_id) [
        | target process_key generation ↦ some process_key
        | unavailable message permanent ↦
            retained_process o.lifecycle_instance_id snapshot.attachments
        | broken message ↦ retained_process o.lifecycle_instance_id snapshot.attachments
      ]

  -- A task in doubt that no recovery has disposed of.
  unfoldable pub is_in_doubt : Db → String → Bool
  is_in_doubt snapshot id =
      any
        (λ t.
          t.id == id && state_eq t.state uncertain && not (is_disposed t.id snapshot.dispositions))
        snapshot.tasks

  is_on_process : Db → String → Option Owner → Bool
  unfolding process_of_owner
  is_on_process snapshot process_key none = false
  is_on_process snapshot process_key (some owner) = elim (process_of_owner snapshot owner) [
    | none ↦ false
    | some k ↦ k == process_key
  ]

  turn_owner : Turn → Option Owner
  turn_owner t = elim t.owner [ none ↦ none | some o ↦ some (execution o) ]

  -- The first turn, or else operation, of a task in doubt whose owner was on the process.
  unfoldable pub doubtful_task : String → Db → Option String
  unfolding is_on_process turn_owner
  doubtful_task process_key snapshot =
      elim (find
        (λ (t : Turn).
          is_in_doubt snapshot t.task_id && is_on_process snapshot process_key (turn_owner t))
        snapshot.turns) [
          | some t ↦ some t.task_id
          | none ↦
              elim (find
                (λ (x : Operation).
                  is_in_doubt snapshot x.task_id && is_on_process snapshot process_key x.owner)
                snapshot.operations) [ some x ↦ some x.task_id | none ↦ none ]
        ]

  -- A held process is fenced where its task has ended or needs native recovery.
  unfoldable pub is_fencing : Option Active → Bool
  is_fencing none = true
  is_fencing (some a) = a.needs_native_recovery

  unfoldable pub held_by : String → List Held → Option String
  held_by process_key rows = elim (find (λ h. h.process_key == process_key) rows) [
    | none ↦ none
    | some h ↦ some h.task_id
  ]

  unfoldable pub unresolved_process : String → Db → Service → Option String
  unresolved_process process_key snapshot s = elim (held_by process_key s.held) [
    | none ↦ doubtful_task process_key snapshot
    | some id ↦
        if is_fencing (active_of id s.active) then some id else doubtful_task process_key snapshot
  ]

  conversation_of : String → Db → Option Conversation
  conversation_of task_id snapshot = elim (find (λ (t : Task). t.id == task_id) snapshot.tasks) [
    | none ↦ none
    | some t ↦ find (λ c. c.id == t.conversation_id) snapshot.conversations
  ]

  unfoldable pub recovery_wait_reason : String → Db → String
  unfolding conversation_of
  recovery_wait_reason task_id snapshot =
      "Waiting for recovery of an earlier task in this Rhino instance."
      ++ elim (conversation_of task_id snapshot) [
        | none ↦ ""
        | some c ↦
            " Open conversation "
            ++ host.quote c.title
            ++ ". Stop or wait for the affected task, then check your model and saved files and select \"I've checked, continue\"."
      ]
