-- ===== src/Journal/Inputs.antt =====
-- src/host/shared/journal.ts, lines 736 to 829: steering a running turn, and the delivery of each
-- input.
pub mod Marks
use hopper_pi.Prelude.{
  ℕ, ◌+◌, String, Bool, true, false, ◌&&◌, not, Option, none, some, List, [], ◌∷◌, ◌++◌, ◌==◌, any,
  find, map_where, nat_eq, ltb,
}
use hopper_pi.Prelude.Table.{get}
use hopper_pi.Journal.Rows.{running, Task, Input, InputState, text, number, task_keyed}
use hopper_pi.Journal.Database.{Tx, ◌>>=◌, ◌>>◌, pure, read, modify, check, require, Receipt, Error}
use hopper_pi.Journal.Events.{event, expect, is_cancelling}
use hopper_pi.Journal.Requests.{RequestPayload, steered, request}

session_of : Option Task → Option String
session_of none = none
session_of (some t) = some t.session_id

is_session : String → Option String → Bool
is_session id none = false
is_session id (some s) = s == id

unfoldable pub steer_work : String → String → String → String → Tx Receipt
unfolding session_of is_session
steer_work task_id session_id turn_id payload = do
  expect task_id turn_id running
  cancelling ← read (λ d. is_cancelling task_id d.tasks)
  check (not cancelling) Error.cancellation_requested
  session ← read (λ d. session_of (get task_id d.tasks))
  check (is_session session_id session) Error.wrong_session
  input_id ← read (λ d. d.next_input)
  modify (λ d. record d {
    inputs =
        d.inputs
        ++ record {
          id = input_id;
          task_id = task_id;
          turn_id = turn_id;
          payload = payload;
          state = InputState.accepted;
        }
          ∷ [];
    next_input = d.next_input + 1;
  })
  event task_id "steer_accepted" (("inputId", number input_id) ∷ ("turnId", text turn_id) ∷ [])
  pure (Receipt.steered input_id)

module _ (hash : RequestPayload → String) where
  unfoldable pub steer : String → String → String → String → String → Tx Receipt
  steer request_id task_id session_id turn_id payload =
      request hash request_id (steered task_id session_id turn_id payload)
        (steer_work task_id session_id turn_id payload)

input_code : InputState → ℕ
input_code InputState.accepted = 0
input_code InputState.delivering = 1
input_code InputState.applied = 2
input_code InputState.not_applied = 3
input_code InputState.unknown = 4

unfoldable pub input_eq : InputState → InputState → Bool
unfolding input_code
input_eq a b = nat_eq (input_code a) (input_code b)

unfoldable pub get_input : ℕ → List Input → Option Input
get_input id inputs = find (λ i. nat_eq i.id id) inputs

-- 'accepted', 'delivering', 'unknown'
abbrev pub is_unsettled : InputState → Bool
is_unsettled InputState.accepted = true
is_unsettled InputState.delivering = true
is_unsettled InputState.unknown = true
is_unsettled _ = false

unfoldable pub has_earlier : Input → List Input → Bool
has_earlier input inputs =
    any (λ i. i.turn_id == input.turn_id && ltb i.id input.id && is_unsettled i.state) inputs

-- What `markInput` is told.
pub data Delivery : Type 0 where
  delivers applies : Delivery

abbrev pub delivery_state : Delivery → InputState
delivery_state delivers = InputState.delivering
delivery_state applies = InputState.applied

delivery_event : Delivery → String
delivery_event delivers = "steer_delivering"
delivery_event applies = "steer_applied"

-- The state that the input has to be in.
unfoldable pub prior_state : Delivery → InputState → InputState
prior_state delivers state = InputState.accepted
prior_state applies InputState.unknown = InputState.unknown
prior_state applies state = InputState.delivering

may_deliver : Delivery → Input → Tx (Unit {0})
may_deliver delivers input = do
  expect input.task_id input.turn_id running
  cancelling ← read (λ d. is_cancelling input.task_id d.tasks)
  check (not cancelling) Error.cancellation_requested
  earlier ← read (λ d. has_earlier input d.inputs)
  check (not earlier) Error.earlier_input_unsettled
may_deliver applies input = pure tt

set_input : ℕ → InputState → Tx (Unit {0})
set_input id state = modify (λ d. record d {
  inputs = map_where (λ i. nat_eq i.id id) (λ i. record i { state = state }) d.inputs;
})

unfoldable pub mark_input : ℕ → Delivery → Tx ℕ
unfolding may_deliver set_input delivery_event
mark_input input_id delivery = do
  row ← read (λ d. get_input input_id d.inputs)
  input ← require row Error.unknown_input
  may_deliver delivery input
  check (input_eq input.state (prior_state delivery input.state)) Error.invalid_delivery
  set_input input_id (delivery_state delivery)
  event input.task_id (delivery_event delivery) (("inputId", number input_id) ∷ [])

unfoldable pub mark_input_not_applied : ℕ → Tx ℕ
unfolding set_input
mark_input_not_applied input_id = do
  row ← read (λ d. get_input input_id d.inputs)
  input ← require row Error.input_settled
  check (is_unsettled input.state) Error.input_settled
  set_input input_id InputState.not_applied
  event input.task_id "steer_not_applied" (("inputId", number input_id) ∷ [])
