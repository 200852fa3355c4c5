-- ===== src/Journal/Tests.antt =====
-- Runs of the journal on small tables, and the promises at them.
mod Finality
use hopper_pi.Prelude.{String, ◌≡◌, ◌≢◌, refl, Bool, true, false, none, List, [], ◌∷◌, arith}
use hopper_pi.Prelude.Table.{get, put}
use hopper_pi.Journal.Rows.{
  Operation, State, queued, running, completed, state_eq, Submission, prompt, Task, Turn,
}
use hopper_pi.Journal.Database.{
  Db, empty, ok, transaction, insert_task, insert_turn, required, Receipt,
}
use hopper_pi.Journal.Events.{event, latest_turn, unresolved_turn, retire_inputs}
use hopper_pi.Journal.Requests.{RequestPayload, submit, request}
use hopper_pi.Journal.Conversations.{
  accept, accept_work, label_target, target_of, assert_writable_conversation,
}
use hopper_pi.Journal.Conversations.Once.{accept_once}
use hopper_pi.Journal.Turns.{start}
use hopper_pi.Journal.Settlement.{settle, completes, is_current_turn}
use hopper_pi.Journal.Restart.{recover_running, running_turns}
use hopper_pi.Journal.Restart.Loop.{Every, is_in_doubt}
use hopper_pi.Journal.Rows.{
  operation_keyed, task_keyed, awaiting_user, suspended, Reservation, reservation_keyed, Input,
  InputState, OperationState, execution,
}
use hopper_pi.Prelude.{any, ◌==◌, some, ℕ}
use hopper_pi.SharedExecution.{rhino}
use hopper_pi.OperationNames.{mutation}
use hopper_pi.Journal.Database.{Error, err}
use hopper_pi.Journal.Turns.{answer_work}
use hopper_pi.Journal.Events.{expect, is_cancelling}
use hopper_pi.Journal.Inputs.{
  delivers, applies, mark_input, mark_input_not_applied, get_input, has_earlier, input_eq,
  prior_state,
}
use hopper_pi.Journal.Operations.{Destination, insert_reservations}
use hopper_pi.Journal.Outcomes.{Verdict, operation_result, reserve}
use hopper_pi.Journal.Finality.{
  answer_once, outcome_once, reserves_exclusively, delivery_in_order, input_settles_once,
}
use hopper_pi.Journal.TaskMachine.{IsSerial, is_over}
use hopper_pi.Journal.History.{Services, Call, history, registers, accepts, starts}
use hopper_pi.Journal.Promises.{
  history-IsSerial, over_never_starts, cancelled_never_starts, recover_running_lem,
  settle_completes, has_certain_outcome,
}

abbrev message : String → Submission
message text = record {
  request_id = text;
  conversation_id = "c1";
  session_id = "s1";
  kind = prompt;
  text = text;
  bindings = [];
  message_target = none;
  attachments = [];
}

abbrev text_hash : RequestPayload → String
text_hash p = elim p [ submit x ↦ x.text | _ ↦ "other" ]

abbrev pub services : Services
services = record {
  hash = text_hash;
  canonical = λ fields. "";
  describe = λ e. "";
  sort = λ xs. xs;
}

abbrev pub two_messages : List Call
two_messages =
    registers "c1" "s1"
    ∷ accepts "r1" (submit (message "one")) (message "one") "t1" "u1"
    ∷ accepts "r2" (submit (message "two")) (message "two") "t2" "u2"
    ∷ starts "t1" "u1" none
    ∷ starts "t2" "u2" none
    ∷ []

history-IsSerial_example : IsSerial (history services two_messages empty).tasks
history-IsSerial_example =
    history-IsSerial services two_messages empty
      (record { unique = λ k. omega arith; single = omega arith })

abbrev task_in : State → Bool → Task
task_in s flag = record {
  id = "t1";
  conversation_id = "c1";
  session_id = "s1";
  payload = message "one";
  state = s;
  parent_task_id = none;
  root_task_id = none;
  cancellation_requested = flag;
}

abbrev turn_in : State → Turn
turn_in s = record {
  id = "u1";
  task_id = "t1";
  state = s;
  cleanup_confirmed = false;
  owner = none;
  usage = 0;
}

abbrev pub with_task : State → Bool → State → Db
with_task s flag q = record empty {
  conversations =
      record { id = "c1"; title = ""; created_at = 0; archived_at = none; document_label = none }
      ∷ [];
  sessions = record { id = "s1"; conversation_id = "c1" } ∷ [];
  tasks = task_in s flag ∷ [];
  turns = turn_in q ∷ [];
}

over_never_starts_example :
    start "t1" "u1" none (history services two_messages (with_task completed false completed))
    ≢ ok (1, empty)
unfolding get
over_never_starts_example =
    over_never_starts services two_messages (with_task completed false completed) empty "t1" "u1"
      none 1 (task_in completed false) refl refl

cancelled_never_starts_example :
    start "t1" "u1" none (history services two_messages (with_task queued true queued))
    ≢ ok (1, empty)
unfolding get
cancelled_never_starts_example =
    cancelled_never_starts services two_messages (with_task queued true queued) empty "t1" "u1" none
      1 (task_in queued true) refl refl

recover_running_lem_example :
    (d' : Db) × (recover_running (with_task running false running) ≡ ok (tt, d'))
    × (running_turns d'.turns ≡ [])
    × Every (is_in_doubt d'.tasks) (running_turns (with_task running false running).turns)
unfolding running_turns state_eq get
recover_running_lem_example =
    recover_running_lem (with_task running false running) (λ k. ground arith) (refl, tt)

abbrev settling : Db
settling = record (with_task running false running) {
  operations =
      record {
        id = "o1";
        task_id = "t1";
        turn_id = "u1";
        owner = none;
        name = "runRhinoScript";
        operation_class = mutation;
        arguments = "{}";
        wire_id = some "w1";
        deadline = 5;
        state = OperationState.completed;
        result = some "yes";
      }
      ∷ [];
}

abbrev settled : Db
settled = (transaction (settle "t1" "u1" completes) settling).1

settle_completes_example :
    ((id : String) (o : Operation)
      → get id settling.operations ≡ some o
      → o.turn_id ≡ "u1"
      → (has_certain_outcome o ≡ true)
        × (get id (history services two_messages settled).operations ≡ some o))
    × ((t : Task) × (get "t1" (history services two_messages settled).tasks ≡ some t)
        × (is_over t.state ≡ true))
unfolding settle event retire_inputs is_current_turn unresolved_turn latest_turn transaction get put
    state_eq
settle_completes_example = settle_completes services two_messages "t1" "u1" settling settled 1 refl

abbrev writable : Db
writable = record (with_task completed false completed) { tasks = []; turns = [] }

abbrev accepted : Db
accepted = (transaction (accept text_hash (message "one") "t1" "u1") writable).1

accept_once_example :
    accept text_hash (message "one") "t9" "u9" (history services two_messages accepted)
    ≡ ok (Receipt.work "t1" "u1" 1, history services two_messages accepted)
unfolding accept accept_work request required label_target target_of assert_writable_conversation
    insert_task insert_turn event transaction get latest_turn
accept_once_example =
    accept_once services two_messages (message "one") "t1" "u1" "t9" "u9" writable accepted
      (Receipt.work "t1" "u1" 1) refl
