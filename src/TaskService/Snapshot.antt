-- ===== src/TaskService/Snapshot.antt =====
-- src/host/shared/journal-reads.ts, lines 54 to 81: the rows the scheduler looks at.
-- The recursive query is a number of rounds, each of which adds the tasks that the ones found so far
-- name or that name them; the references are keys of tasks, so only tasks are ever added.
pub mod Closed
use hopper_pi.Prelude.{
  ℕ, zero, suc, String, Bool, true, false, ◌&&◌, ◌||◌, not, Option, none, some, List, map, ◌==◌,
  any, keep_where, length,
}
use hopper_pi.Journal.Rows.{
  State, queued, running, suspending, awaiting_user, uncertain, state_eq, Task, Disposition,
  RecordKind, admission, handoff, scope, document_action,
}
use hopper_pi.Journal.Database.{Db}

unfoldable pub member : String → List String → Bool
member id ids = any (λ k. k == id) ids

unfoldable pub is_disposed : String → List Disposition → Bool
is_disposed id rows = any (λ r. r.task_id == id) rows

abbrev pub is_live : State → Bool
is_live queued = true
is_live running = true
is_live suspending = true
is_live awaiting_user = true
is_live _ = false

unfoldable pub is_seed : Db → List String → Task → Bool
unfolding is_disposed
is_seed d ids t =
    is_live t.state
    || (state_eq t.state uncertain && not (is_disposed t.id d.dispositions))
    || member t.id ids

abbrev pub root_within : List String → Option String → Bool
root_within ids none = false
root_within ids (some root) = member root ids

abbrev pub is_root_of : String → Option String → Bool
is_root_of id none = false
is_root_of id (some root) = root == id

-- A child of a task found, the root of one, or a dependency of one.
unfoldable pub is_linked : Db → List String → Task → Bool
is_linked d ids t =
    root_within ids t.root_task_id
    || any (λ u. member u.id ids && is_root_of t.id u.root_task_id) d.tasks
    || any (λ x. member x.task_id ids && x.dependency_id == t.id) d.dependencies

unfoldable pub grow : Db → List String → List String
grow d ids = map (λ t. t.id) (keep_where (λ t. member t.id ids || is_linked d ids t) d.tasks)

unfoldable pub rounds : ℕ → Db → List String → List String
rounds zero d ids = ids
rounds (suc n) d ids = rounds n d (grow d ids)

unfoldable pub relevant : Db → List String → List String
relevant d ids = rounds (length d.tasks) d (map (λ t. t.id) (keep_where (is_seed d ids) d.tasks))

abbrev is_scheduling_kind : RecordKind → Bool
is_scheduling_kind admission = true
is_scheduling_kind handoff = true
is_scheduling_kind scope = true
is_scheduling_kind document_action = true
is_scheduling_kind _ = false

-- The tables cut down to the tasks `ids`; attachments are all read, and the tables that have no query
-- here are not looked at.
unfoldable pub restrict : List String → Db → Db
restrict ids d =
    let tasks = keep_where (λ t. member t.id ids) d.tasks in
    record d {
      conversations = keep_where (λ c. any (λ t. t.conversation_id == c.id) tasks) d.conversations;
      tasks = tasks;
      turns = keep_where (λ r. member r.task_id ids) d.turns;
      operations = keep_where (λ r. member r.task_id ids) d.operations;
      dispositions = keep_where (λ r. member r.task_id ids) d.dispositions;
      dependencies = keep_where (λ r. member r.task_id ids) d.dependencies;
      questions = keep_where (λ r. member r.task_id ids) d.questions;
      records = keep_where (λ r. member r.task_id ids && is_scheduling_kind r.kind) d.records;
    }

unfoldable pub read_scheduling_snapshot : Db → List String → Db
read_scheduling_snapshot d ids = restrict (relevant d ids) d
