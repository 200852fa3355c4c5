-- ===== src/Journal/Tests/Finality.antt =====
-- What is settled once in the journal, at small tables.
use hopper_pi.Prelude.{String, ◌≡◌, ◌≢◌, refl, true, false, none, [], ◌∷◌}
use hopper_pi.Prelude.Table.{get, put}
use hopper_pi.Journal.Rows.{running, state_eq}
use hopper_pi.Journal.Database.{Db, ok, transaction, insert_turn, required, Receipt}
use hopper_pi.Journal.Events.{event, latest_turn}
use hopper_pi.Journal.Rows.{
  awaiting_user, suspended, Reservation, reservation_keyed, Input, InputState, OperationState,
  execution,
}
use hopper_pi.Prelude.{any, ◌==◌, some, ℕ, arith}
use hopper_pi.SharedExecution.{rhino}
use hopper_pi.OperationNames.{mutation}
use hopper_pi.Journal.Database.{Error, err}
use hopper_pi.Journal.Turns.{answer_work}
use hopper_pi.Journal.Events.{expect, is_cancelling}
use hopper_pi.Journal.Inputs.{
  delivers, applies, mark_input, mark_input_not_applied, get_input, has_earlier, input_eq,
  prior_state,
}
use hopper_pi.Journal.Operations.{Destination, insert_reservations}
use hopper_pi.Journal.Outcomes.{Verdict, operation_result, reserve}
use hopper_pi.Journal.Operations.Reserved.{IsHeld}
use hopper_pi.Journal.Finality.{
  answer_once, outcome_once, reserves_exclusively, delivery_in_order, input_settles_once,
}
use hopper_pi.Journal.Tests.{with_task, services, two_messages}
use hopper_pi.Journal.History.{history, recovers}

abbrev asked : Db
asked = record (with_task awaiting_user false suspended) {
  questions =
      record {
        id = "q1";
        task_id = "t1";
        turn_id = "u1";
        tool_call_id = "x";
        payload = "which?";
        answer = none;
        continuation_id = none;
      }
      ∷ [];
}

abbrev answered : Db
answered = (transaction (answer_work "q1" "this" "u2") asked).1

answer_once_example :
    answer_work "q1" "that" "u3" (history services two_messages answered)
    ≡ err Error.question_not_answerable
unfolding answer_work insert_turn event transaction get put state_eq latest_turn
answer_once_example =
    answer_once services two_messages "q1" "this" "that" "u2" "u3" asked answered
      (Receipt.work "t1" "u2" 1) refl

abbrev dispatching : Db
dispatching = record (with_task running false running) {
  operations =
      record {
        id = "o1";
        task_id = "t1";
        turn_id = "u1";
        owner = some (
            execution (record {
              task_id = "t1";
              turn_id = "u1";
              binding = rhino "l1" "d1";
              attachment_generation = "g1";
            }));
        name = "runRhinoScript";
        operation_class = mutation;
        arguments = "{}";
        wire_id = some "w1";
        deadline = 5;
        state = OperationState.dispatched;
        result = none;
      }
      ∷ [];
}

abbrev recorded : Db
recorded = (transaction (operation_result "o1" Verdict.failed "no") dispatching).1

outcome_once_example :
    operation_result "o1" Verdict.completed "yes"
      (history services (recovers ∷ two_messages) recorded)
    ≡ err Error.outcome_recorded
unfolding operation_result event transaction get put latest_turn
outcome_once_example =
    outcome_once services (recovers ∷ two_messages) "o1" "no" "yes" Verdict.failed Verdict.completed
      dispatching recorded 1 refl

abbrev holding : Db
holding =
    (transaction (reserve (λ xs. xs) "o1" (record { identity = "file"; baseline = "b" } ∷ []))
      dispatching).1

reserves_exclusively_example :
    ((k : String)
      → any
          (λ (x : Destination). x.identity == k)
          (record { identity = "file"; baseline = "b" } ∷ [])
        ≡ true
      → (get k dispatching.reservations ≡ none) × IsHeld "o1" k holding)
    × ((k : String) (r : Reservation)
        → get k dispatching.reservations ≡ some r
        → get k holding.reservations ≡ some r)
unfolding reserve insert_reservations required transaction get
reserves_exclusively_example =
    reserves_exclusively (λ xs. xs) "o1" (record { identity = "file"; baseline = "b" } ∷ [])
      dispatching holding refl

abbrev input : ℕ → InputState → Input
input n s = record { id = n; task_id = "t1"; turn_id = "u1"; payload = "go"; state = s }

abbrev steered : Db
steered = record (with_task running false running) {
  inputs = input 1 InputState.applied ∷ input 2 InputState.accepted ∷ [];
}

abbrev delivered : Db
delivered = (transaction (mark_input 2 delivers) steered).1

delivery_in_order_example :
    mark_input 1 delivers (history services (recovers ∷ two_messages) delivered) ≢ ok (2, delivered)
unfolding mark_input event expect has_earlier get_input transaction get input_eq prior_state
    state_eq latest_turn is_cancelling
delivery_in_order_example =
    delivery_in_order services (recovers ∷ two_messages) 1 2 steered delivered delivered 1 2
      (input 2 InputState.accepted) (input 1 InputState.applied) refl refl refl refl (omega arith)

input_settles_once_example :
    ((e' : ℕ) (d'' : Db)
      → mark_input 2 delivers (history services (recovers ∷ two_messages) delivered) ≢ ok (e', d''))
    × (delivers ≡ applies
        → ((e' : ℕ) (d'' : Db)
            → mark_input 2 applies (history services (recovers ∷ two_messages) delivered)
              ≢ ok (e', d''))
          × (mark_input_not_applied 2 (history services (recovers ∷ two_messages) delivered)
              ≡ err Error.input_settled))
unfolding mark_input event expect has_earlier get_input transaction get input_eq prior_state
    state_eq latest_turn is_cancelling
input_settles_once_example =
    input_settles_once services (recovers ∷ two_messages) 2 steered delivered 1 delivers refl
