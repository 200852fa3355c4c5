-- ===== src/Journal/Turns.antt =====
-- src/host/shared/journal.ts, lines 561 to 735: a turn starts, asks its user, and is answered.
use hopper_pi.Prelude.{
  ℕ, String, Bool, true, false, ◌&&◌, ◌||◌, not, Option, none, some, List, [], ◌∷◌, ◌++◌, ◌==◌,
  is_none, any,
}
use hopper_pi.Prelude.Table.{get, put, before}
use hopper_pi.SharedExecution.{ExecutionOwner, validate_execution_owner, binding_eq}
use hopper_pi.Journal.Rows.{
  State, queued, running, suspending, suspended, awaiting_user, state_eq, Task, Turn, Question,
  Dependency, Record, admission, kind_eq, text, task_keyed, turn_keyed, question_keyed,
}
use hopper_pi.Journal.Database.{
  Db, Tx, ◌>>=◌, ◌>>◌, pure, read, modify, check, require, required, Receipt, Error,
  constraint_failed, set_task_state, set_turn, end_turn, insert_turn, new_turn,
}
use hopper_pi.Journal.Events.{
  event, expect, is_cancelling, unresolved_turn, retire_inputs, authorization_additions,
}
use hopper_pi.Journal.Requests.{RequestPayload, answered, request}
use hopper_pi.Journal.Conversations.{is_underway, is_root}

is_not_completed : Option Task → Bool
is_not_completed none = false
is_not_completed (some t) = not (state_eq t.state State.completed)

-- A dependency that has not been completed.
unfoldable pub waits_on : List Dependency → List Task → String → Bool
unfolding is_not_completed
waits_on dependencies tasks task_id =
    any (λ d. d.task_id == task_id && is_not_completed (get d.dependency_id tasks)) dependencies

-- The root tasks that keep another root of conversation `id` from starting.
unfoldable pub blocks_start : String → String → Db → Task → Bool
blocks_start id task_id d t =
    is_root t
    && (is_underway t.state
        || (t.conversation_id == id
            && state_eq t.state State.uncertain
            && not (any (λ r. r.task_id == t.id) d.dispositions)))
    && not (t.id == task_id)

unfoldable pub waits_before : String → Task → Bool
waits_before task_id t = is_root t && state_eq t.state queued && not (t.id == task_id)

unfoldable pub is_busy : Task → Db → Bool
unfolding blocks_start waits_before
is_busy current d =
    is_root current
    && (any (blocks_start current.conversation_id current.id d) d.tasks
        || any (waits_before current.id) (before current.id d.tasks))

unfoldable pub is_owner_authorized :
    String → String → Task → List Record → Option ExecutionOwner → Bool
is_owner_authorized task_id turn_id task records none = true
is_owner_authorized task_id turn_id task records (some owner) =
    validate_execution_owner owner
    && owner.task_id == task_id
    && owner.turn_id == turn_id
    && any (λ b. binding_eq b owner.binding)
        (task.payload.bindings ++ authorization_additions task_id records)

unfoldable pub is_admitted : String → List Record → Bool
is_admitted task_id records = not (
    any (λ r. kind_eq r.kind admission && r.task_id == task_id && not (r.state == "ready")) records)

unfoldable pub start : String → String → Option ExecutionOwner → Tx ℕ
start task_id turn_id owner = do
  expect task_id turn_id queued
  row ← read (λ d. get task_id d.tasks)
  current ← require row Error.unknown_task
  admitted ← read (λ d. is_admitted task_id d.records)
  check admitted Error.admission_incomplete
  check (not current.cancellation_requested) Error.cancellation_requested
  authorized ← read (λ d. is_owner_authorized task_id turn_id current d.records owner)
  check authorized Error.owner_not_authorized
  waiting ← read (λ d. waits_on d.dependencies d.tasks task_id)
  check (not waiting) Error.dependencies_incomplete
  busy ← read (λ d. is_busy current d)
  check (not busy) Error.conversation_busy
  set_turn turn_id (λ t. record t { owner = owner })
  set_task_state task_id running
  set_turn turn_id (λ t. record t { state = running })
  event task_id "turn_started" (("turnId", text turn_id) ∷ [])

unfoldable pub is_turn_of : String → Option Turn → Bool
is_turn_of task_id none = false
is_turn_of task_id (some t) = t.task_id == task_id

-- INSERT INTO questions: the key, the turn of the task, and both unique indexes.
unfoldable pub insert_question : Question → Tx (Unit {0})
unfolding is_turn_of
insert_question q = do
  questions ← read (λ d. d.questions)
  turn ← read (λ d. get q.turn_id d.turns)
  check (is_none (get q.id questions) && is_turn_of q.task_id turn) constraint_failed
  check
      (not (
        any
          (λ r.
            (r.turn_id == q.turn_id && r.tool_call_id == q.tool_call_id)
            || (r.task_id == q.task_id && is_none r.answer))
          questions))
      constraint_failed
  modify (λ d. record d { questions = d.questions ++ q ∷ [] })

-- `id` is the fresh identifier of the question.
unfoldable pub ask : String → String → String → String → String → Tx String
unfolding insert_question
ask task_id turn_id tool_call_id payload id = do
  required tool_call_id
  expect task_id turn_id running
  cancelling ← read (λ d. is_cancelling task_id d.tasks)
  check (not cancelling) Error.cancellation_requested
  insert_question (record {
    id = id;
    task_id = task_id;
    turn_id = turn_id;
    tool_call_id = tool_call_id;
    payload = payload;
    answer = none;
    continuation_id = none;
  })
  set_task_state task_id suspending
  event task_id "question_pending_cleanup" (("questionId", text id) ∷ ("turnId", text turn_id) ∷ [])
  pure id

-- The task and its turn, where the turn is the task's.
abbrev pub in_states : State → State → String → Option Task → Option Turn → Bool
in_states task_state turn_state task_id (some task) (some turn) =
    state_eq task.state task_state && turn.task_id == task_id && state_eq turn.state turn_state
in_states task_state turn_state task_id _ _ = false

unfoldable pub confirm_suspension : String → String → Tx ℕ
confirm_suspension task_id turn_id = do
  row ← read (λ d. get task_id d.tasks)
  turn ← read (λ d. get turn_id d.turns)
  check (in_states suspending running task_id row turn) Error.no_suspension
  unresolved ← read (unresolved_turn turn_id)
  check (not unresolved) Error.cleanup_unresolved
  end_turn turn_id suspended
  set_task_state task_id awaiting_user
  retire_inputs turn_id
  event task_id "awaiting_user" (("turnId", text turn_id) ∷ [])

-- The question joined with its task.
is_answerable : Option Task → Question → Bool
is_answerable none q = false
is_answerable (some t) q =
    state_eq t.state awaiting_user && is_none q.answer && not t.cancellation_requested

-- `turn_id` is the fresh identifier of the continuation.
unfoldable pub answer_work : String → String → String → Tx Receipt
unfolding is_answerable
answer_work question_id answer turn_id = do
  row ← read (λ d. get question_id d.questions)
  q ← require row Error.question_not_answerable
  task ← read (λ d. get q.task_id d.tasks)
  check (is_answerable task q) Error.question_not_answerable
  insert_turn (new_turn turn_id q.task_id queued)
  modify (λ d. record d {
    questions =
        put question_id (λ x. record x { answer = some answer; continuation_id = some turn_id })
          d.questions;
  })
  set_task_state q.task_id queued
  event_id ←
      event q.task_id "answer_accepted"
        (("questionId", text question_id) ∷ ("turnId", text turn_id) ∷ ("answer", text answer) ∷ [])
  pure (Receipt.work q.task_id turn_id event_id)

module _ (hash : RequestPayload → String) where
  unfoldable pub answer : String → String → String → String → Tx Receipt
  answer request_id question_id reply turn_id =
      request hash request_id (answered question_id reply) (answer_work question_id reply turn_id)
