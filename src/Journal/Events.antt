-- ===== src/Journal/Events.antt =====
-- src/host/shared/journal.ts, lines 111 to 152, 552 to 560, 653 to 667, 844 to 850 and 1507 to
-- 1514: the event log, and the private methods that the others share. An event's payload is its
-- attribution and the other fields; the browser's copy of an event is not modelled.
use hopper_pi.Prelude.{
  ℕ, ◌+◌, String, Bool, true, false, ◌&&◌, ◌||◌, Option, none, some, List, [], ◌∷◌, ◌++◌, ◌==◌,
  if◌then◌else◌, any, find_last, map_where,
}
use hopper_pi.Prelude.Table.{get}
use hopper_pi.SharedExecution.{TargetBinding}
use hopper_pi.Journal.Rows.{
  State, state_eq, Task, Turn, Field, text, InputState, OperationState, Record, Payload, scope_of,
  authorization_of, scope, authorization, kind_eq, task_keyed, turn_keyed,
}
use hopper_pi.Journal.Database.{
  Db, Tx, ◌>>=◌, ◌>>◌, pure, read, modify, check, require, event_task_missing, wrong_state,
}

abbrev or_else {ℓ} : {A : Type ℓ} → Option A → A → A
or_else none a = a
or_else (some b) a = b

-- ORDER BY rowid DESC LIMIT 1, among the task's turns.
unfoldable pub latest_turn : String → List Turn → Option Turn
latest_turn task_id turns = find_last (λ t. t.task_id == task_id) turns

owned_turn : String → String → Option Turn → Option Turn
owned_turn task_id turn_id none = none
owned_turn task_id turn_id (some t) = if t.task_id == task_id then some t else none

field : String → List (String × Field) → Option Field
field name [] = none
field name ((k, v) ∷ rest) = if k == name then some v else field name rest

requested_turn : String → Option Field → List Turn → Option Turn
unfolding owned_turn
requested_turn task_id (some (text turn_id)) turns = owned_turn task_id turn_id (get turn_id turns)
requested_turn task_id _ turns = none

attributed_turn : String → List (String × Field) → List Turn → Option Turn
unfolding requested_turn field latest_turn
attributed_turn task_id fields turns = elim (requested_turn task_id (field "turnId" fields) turns) [
  | some t ↦ some t
  | none ↦ latest_turn task_id turns
]

turn_binding : Option Turn → Option TargetBinding
turn_binding none = none
turn_binding (some t) = elim t.owner [ none ↦ none | some o ↦ some o.binding ]

turn_id_of : Option Turn → Option String
turn_id_of none = none
turn_id_of (some t) = some t.id

unfoldable pub event : String → String → List (String × Field) → Tx ℕ
unfolding attributed_turn turn_binding turn_id_of
event task_id kind fields = do
  tasks ← read (λ d. d.tasks)
  task ← require (get task_id tasks) event_task_missing
  turn ← read (λ d. attributed_turn task_id fields d.turns)
  id ← read (λ d. d.next_event)
  modify (λ d. record d {
    events =
        d.events
        ++ record {
          id = id;
          task_id = task_id;
          kind = kind;
          fields = fields;
          conversation_id = task.conversation_id;
          session_id = task.session_id;
          root_task_id = or_else task.root_task_id task_id;
          parent_task_id = task.parent_task_id;
          turn_id = turn_id_of turn;
          binding = turn_binding turn;
        }
          ∷ [];
    next_event = d.next_event + 1;
  })
  pure id

-- The join of the task and its turn, with both in the state.
stands_in : State → String → Option Task → Option Turn → Bool
stands_in state task_id (some task) (some turn) =
    turn.task_id == task_id && state_eq task.state state && state_eq turn.state state
stands_in state task_id _ _ = false

unfoldable pub expect : String → String → State → Tx (Unit {0})
unfolding stands_in
expect task_id turn_id state = do
  task ← read (λ d. get task_id d.tasks)
  turn ← read (λ d. get turn_id d.turns)
  check (stands_in state task_id task turn) wrong_state

-- SELECT cancellation_requested FROM tasks WHERE id=?
unfoldable pub is_cancelling : String → List Task → Bool
is_cancelling task_id tasks = elim (get task_id tasks) [
  | none ↦ false
  | some t ↦ t.cancellation_requested
]

abbrev pub is_unresolved : OperationState → Bool
is_unresolved OperationState.dispatched = true
is_unresolved OperationState.uncertain = true
is_unresolved _ = false

abbrev scope_turn : Payload → String → Bool
scope_turn (scope_of turn evidence) turn_id = turn == turn_id
scope_turn _ turn_id = false

unfoldable pub unresolved_turn : String → Db → Bool
unresolved_turn turn_id d =
    any (λ o. o.turn_id == turn_id && is_unresolved o.state) d.operations
    || any (λ r. kind_eq r.kind scope && r.state == "uncertain" && scope_turn r.payload turn_id)
        d.records

abbrev pub retired : InputState → InputState
retired InputState.accepted = InputState.not_applied
retired InputState.delivering = InputState.unknown
retired s = s

unfoldable pub retire_inputs : String → Tx (Unit {0})
retire_inputs turn_id = modify (λ d. record d {
  inputs =
      map_where (λ i. i.turn_id == turn_id) (λ i. record i { state = retired i.state }) d.inputs;
})

abbrev binding_of : Payload → List TargetBinding
binding_of (authorization_of b) = b ∷ []
binding_of _ = []

unfoldable pub authorization_additions : String → List Record → List TargetBinding
authorization_additions task_id [] = []
authorization_additions task_id (r ∷ rest) =
    (if kind_eq r.kind authorization && r.task_id == task_id && r.state == "verified"
      then binding_of r.payload
      else [])
    ++ authorization_additions task_id rest
