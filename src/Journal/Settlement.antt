-- ===== src/Journal/Settlement.antt =====
-- src/host/shared/journal.ts, lines 487 to 550 and 851 to 1011: how tasks end, wait, are cancelled,
-- and what a restart makes of them.
use hopper_pi.Prelude.{
  ℕ, zero, suc, String, Bool, true, false, ◌&&◌, ◌||◌, not, Option, none, some, List, [], ◌∷◌, ◌++◌,
  ◌==◌, if◌then◌else◌, is_some, length,
}
use hopper_pi.Prelude.Table.{get}
use hopper_pi.Journal.Rows.{
  State, Field, number, queued, running, suspending, suspended, awaiting_user, completed, cancelled,
  failed, uncertain, state_eq, Task, Turn, text, task_keyed, turn_keyed,
}
use hopper_pi.Journal.Database.{
  Db, Tx, ◌>>=◌, ◌>>◌, pure, read, check, Receipt, Error, set_task, set_task_state, set_turn,
  end_turn,
}
use hopper_pi.Journal.Events.{event, expect, latest_turn, unresolved_turn, retire_inputs}
use hopper_pi.Journal.Turns.{is_turn_of}
use hopper_pi.Journal.Requests.{RequestPayload, request}

pub data Outcome : Type 0 where
  completes cancels : Outcome

abbrev pub outcome_state : Outcome → State
outcome_state completes = completed
outcome_state cancels = cancelled

abbrev outcome_event : Outcome → String
outcome_event completes = "completed"
outcome_event cancels = "cancelled"

unfoldable pub is_current_turn : String → String → Db → Bool
is_current_turn task_id turn_id d = elim (latest_turn task_id d.turns) [
  | none ↦ false
  | some t ↦ t.id == turn_id
]

abbrev is_open_task : State → Bool
is_open_task queued = true
is_open_task running = true
is_open_task suspending = true
is_open_task awaiting_user = true
is_open_task _ = false

abbrev is_open_turn : State → Bool
is_open_turn queued = true
is_open_turn running = true
is_open_turn suspended = true
is_open_turn _ = false

is_settleable : String → Option Task → Option Turn → Bool
is_settleable task_id (some task) (some turn) =
    turn.task_id == task_id && is_open_task task.state && is_open_turn turn.state
is_settleable task_id _ _ = false

-- The turn is in the task's state, or it is the turn of a suspension.
states_agree : Option Task → Option Turn → Bool
states_agree (some task) (some turn) =
    state_eq turn.state task.state
    || (state_eq task.state suspending && state_eq turn.state running)
    || (state_eq task.state awaiting_user && state_eq turn.state suspended)
states_agree _ _ = false

is_running_pair : Option Task → Option Turn → Bool
is_running_pair (some task) (some turn) = state_eq task.state running && state_eq turn.state running
is_running_pair _ _ = false

may_complete : Outcome → Option Task → Option Turn → Bool
unfolding is_running_pair
may_complete completes task turn = is_running_pair task turn
may_complete cancels task turn = true

unfoldable pub settle : String → String → Outcome → Tx ℕ
unfolding is_settleable states_agree may_complete
settle task_id turn_id outcome = do
  task ← read (λ d. get task_id d.tasks)
  turn ← read (λ d. get turn_id d.turns)
  current ← read (is_current_turn task_id turn_id)
  check current Error.turn_not_current
  check (is_settleable task_id task turn) Error.cannot_settle
  check (states_agree task turn) Error.turn_not_current
  check (may_complete outcome task turn) Error.only_running_completes
  unresolved ← read (unresolved_turn turn_id)
  check (not unresolved) Error.outcome_unresolved
  set_task_state task_id (outcome_state outcome)
  end_turn turn_id (outcome_state outcome)
  retire_inputs turn_id
  event task_id (outcome_event outcome) (("turnId", text turn_id) ∷ [])

unfoldable pub fail_queued : String → String → String → Tx ℕ
fail_queued task_id turn_id reason = do
  expect task_id turn_id queued
  set_task_state task_id failed
  end_turn turn_id failed
  event task_id "failed" (("turnId", text turn_id) ∷ ("reason", text reason) ∷ [])

unfoldable pub fail_running : String → String → String → Tx ℕ
fail_running task_id turn_id reason = do
  expect task_id turn_id running
  unresolved ← read (unresolved_turn turn_id)
  check (not unresolved) Error.outcome_unresolved
  set_task_state task_id failed
  end_turn turn_id failed
  retire_inputs turn_id
  event task_id "failed" (("turnId", text turn_id) ∷ ("reason", text reason) ∷ [])

-- UPDATE turns SET state='uncertain' WHERE id=? AND task_id=?
unfoldable pub doubt_turn : String → String → Turn → Turn
doubt_turn task_id turn_id t = if t.task_id == task_id then record t { state = uncertain } else t

unfoldable pub make_uncertain : String → String → String → Tx ℕ
unfolding doubt_turn
make_uncertain task_id turn_id evidence = do
  current ← read (is_current_turn task_id turn_id)
  check current Error.turn_not_current
  set_turn turn_id (doubt_turn task_id turn_id)
  set_task_state task_id uncertain
  retire_inputs turn_id
  event task_id "recovery_required" (("turnId", text turn_id) ∷ ("evidence", text evidence) ∷ [])

unfoldable pub record_usage : String → String → ℕ → Tx ℕ
record_usage task_id turn_id usage = do
  turn ← read (λ d. get turn_id d.turns)
  check (is_turn_of task_id turn) Error.unknown_turn
  set_turn turn_id (λ t. record t { usage = usage })
  event task_id "usage" (("turnId", text turn_id) ∷ ("usage", number usage) ∷ [])

-- `fields` are those of the payload.
unfoldable pub publish : String → List (String × Field) → Tx ℕ
publish task_id fields = event task_id "progress" fields

-- The recursive query: the task, then the children of each task found, in order. Each round reads
-- one row; there are no more rounds than tasks, since a task has one parent.
is_child_of : String → Task → Bool
is_child_of parent t = elim t.parent_task_id [ none ↦ false | some p ↦ p == parent ]

unfoldable pub children_of : String → List Task → List String
unfolding is_child_of
children_of parent [] = []
children_of parent (t ∷ rest) =
    let others = children_of parent rest in if is_child_of parent t then t.id ∷ others else others

unfoldable pub family : ℕ → List String → List Task → List String
family zero queue tasks = []
family (suc rounds) [] tasks = []
family (suc rounds) (id ∷ queue) tasks = id ∷ family rounds (queue ++ children_of id tasks) tasks

unfoldable pub cancel_each : List String → Tx (Unit {0})
cancel_each [] = pure tt
cancel_each (id ∷ rest) = do
  set_task id (λ t. record t { cancellation_requested = true })
  event id "cancellation_requested" []
  cancel_each rest

unfoldable pub cancel_work : String → Tx (List String)
cancel_work task_id = do
  known ← read (λ d. is_some (get task_id d.tasks))
  check known Error.unknown_task
  rows ← read (λ d. family (suc (length d.tasks)) (task_id ∷ []) d.tasks)
  cancel_each rows
  pure rows

module _ (hash : RequestPayload → String) where
  -- With a request identity; without one the method is `cancel_work` in a transaction.
  unfoldable pub request_cancellation : String → String → Tx Receipt
  request_cancellation request_id task_id =
      request hash request_id (RequestPayload.cancelled task_id)
        do rows ← cancel_work task_id; pure (Receipt.family rows)
