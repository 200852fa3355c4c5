-- ===== src/Journal/Handoffs.antt =====
-- src/host/shared/journal.ts, lines 1359 to 1505: a turn hands its document over. The old turn is
-- suspended, an action turn does the change, and a continuation goes back to the queue.
use hopper_pi.Prelude.{
  String, Bool, true, false, ◌&&◌, not, Option, none, some, List, [], ◌∷◌, ◌==◌, any, find,
}
use hopper_pi.Prelude.Table.{get}
use hopper_pi.SharedExecution.{TargetBinding, binding_eq}
use hopper_pi.Journal.Rows.{
  queued, running, suspending, suspended, completed, state_eq, Task, Turn, Record, grant, handoff,
  Payload, handoff_of, handed_over, text, task_keyed, turn_keyed,
}
use hopper_pi.Journal.Database.{
  Db, Tx, ◌>>=◌, ◌>>◌, pure, read, check, Receipt, Error, set_task_state, end_turn, insert_turn,
  new_turn, insert_record, same_record, update_record,
}
use hopper_pi.Journal.Events.{
  event, expect, is_cancelling, unresolved_turn, retire_inputs, authorization_additions,
}

is_available : String → Option Record → Bool
is_available task_id none = false
is_available task_id (some r) = r.task_id == task_id && r.state == "accepted"

-- `id` is the fresh identifier of the handoff.
unfoldable pub begin_handoff : String → String → String → String → Tx String
unfolding is_available
begin_handoff task_id turn_id grant_id id = do
  expect task_id turn_id running
  row ← read (λ d. find (same_record grant grant_id) d.records)
  cancelling ← read (λ d. is_cancelling task_id d.tasks)
  check (is_available task_id row && not cancelling) Error.handoff_unavailable
  insert_record (record {
    kind = handoff;
    id = id;
    task_id = task_id;
    payload = handoff_of grant_id turn_id none;
    state = "suspending";
  })
  set_task_state task_id suspending
  event task_id "document_handoff_pending_cleanup"
      (("handoffId", text id) ∷ ("grantId", text grant_id) ∷ ("turnId", text turn_id) ∷ [])
  pure id

old_turn_of : Payload → Option String
old_turn_of (handoff_of grant_id old_turn action) = some old_turn
old_turn_of _ = none

action_turn_of : Payload → Option String
action_turn_of (handoff_of grant_id old_turn action) = action
action_turn_of _ = none

-- `===` of a text and a field that may be missing.
is_text : String → Option String → Bool
is_text x none = false
is_text x (some y) = y == x

is_suspending_handoff : String → String → Option Record → Bool
unfolding old_turn_of is_text
is_suspending_handoff task_id turn_id none = false
is_suspending_handoff task_id turn_id (some r) =
    r.task_id == task_id && r.state == "suspending" && is_text turn_id (old_turn_of r.payload)

is_suspending_task : Option Task → Bool
is_suspending_task none = false
is_suspending_task (some t) = state_eq t.state suspending && not t.cancellation_requested

with_action : String → Payload → Payload
with_action action (handoff_of grant_id old_turn _) = handoff_of grant_id old_turn (some action)
with_action action payload = payload

-- `action_turn_id` is the fresh identifier of the action's turn.
unfoldable pub start_handoff_action : String → String → String → String → Tx String
unfolding is_suspending_handoff is_suspending_task with_action
start_handoff_action task_id turn_id handoff_id action_turn_id = do
  row ← read (λ d. find (same_record handoff handoff_id) d.records)
  check (is_suspending_handoff task_id turn_id row) Error.handoff_conflict
  task ← read (λ d. get task_id d.tasks)
  check (is_suspending_task task) Error.handoff_unavailable
  unresolved ← read (unresolved_turn turn_id)
  check (not unresolved) Error.cleanup_unresolved
  end_turn turn_id suspended
  retire_inputs turn_id
  insert_turn (new_turn action_turn_id task_id running)
  set_task_state task_id running
  update_record handoff handoff_id
      (λ r. record r { state = "action_running"; payload = with_action action_turn_id r.payload })
  event task_id "document_handoff_action_started"
      (("handoffId", text handoff_id) ∷ ("actionTurnId", text action_turn_id) ∷ [])
  pure action_turn_id

pub record HandoffResult : Type 0 where
  pub binding : Option TargetBinding
  pub result : String
  pub action_id : String
  pub is_failed : Bool

optional_binding_eq : Option TargetBinding → Option TargetBinding → Bool
optional_binding_eq none none = true
optional_binding_eq (some a) (some b) = binding_eq a b
optional_binding_eq _ _ = false

binding_of_turn : Option String → List Turn → Option TargetBinding
binding_of_turn none turns = none
binding_of_turn (some id) turns = owner_binding (get id turns)
  where
    owner_binding : Option Turn → Option TargetBinding
    owner_binding none = none
    owner_binding (some t) = elim t.owner [ none ↦ none | some o ↦ some o.binding ]

-- A failed action leaves the binding of the old turn; a good one was authorized.
is_verified : String → HandoffResult → Payload → Db → Bool
unfolding old_turn_of optional_binding_eq binding_of_turn
is_verified task_id r payload d = elim r.is_failed [
  | true ↦ optional_binding_eq r.binding (binding_of_turn (old_turn_of payload) d.turns)
  | false ↦
      any (λ b. optional_binding_eq (some b) r.binding) (authorization_additions task_id d.records)
]

is_running_handoff : String → String → HandoffResult → Db → Option Record → Bool
unfolding action_turn_of is_text is_verified
is_running_handoff task_id action_turn_id result d none = false
is_running_handoff task_id action_turn_id result d (some r) =
    r.state == "action_running"
    && r.task_id == task_id
    && is_text action_turn_id (action_turn_of r.payload)
    && is_verified task_id result r.payload d

with_result : String → Option TargetBinding → Payload → Payload
with_result turn_id binding (handoff_of grant_id old_turn action) =
    handed_over grant_id old_turn action turn_id binding
with_result turn_id binding p = p

-- `turn_id` is the fresh identifier of the continuation.
unfoldable pub complete_handoff : String → String → String → HandoffResult → String → Tx Receipt
unfolding is_running_handoff with_result
complete_handoff task_id action_turn_id handoff_id result turn_id = do
  expect task_id action_turn_id running
  cancelling ← read (λ d. is_cancelling task_id d.tasks)
  check (not cancelling) Error.cancellation_requested
  row ← read (λ d. find (same_record handoff handoff_id) d.records)
  verified ← read (λ d. is_running_handoff task_id action_turn_id result d row)
  check verified Error.handoff_unverified
  unresolved ← read (unresolved_turn action_turn_id)
  check (not unresolved) Error.cleanup_unresolved
  end_turn action_turn_id completed
  insert_turn (new_turn turn_id task_id queued)
  set_task_state task_id queued
  update_record handoff handoff_id (λ r. record r {
    state = "completed";
    payload = with_result turn_id result.binding r.payload;
  })
  event_id ←
      event task_id "document_handoff_completed"
        (("handoffId", text handoff_id) ∷ ("turnId", text turn_id) ∷ [])
  pure (Receipt.work task_id turn_id event_id)
