-- ===== src/Journal/Delegation.antt =====
-- src/host/shared/journal.ts, lines 1012 to 1082: a running root task delegates to a child task.
use hopper_pi.Prelude.{
  String, Bool, true, false, ◌&&◌, not, Option, none, some, List, [], ◌∷◌, ◌++◌, ◌==◌, is_none, any,
  all,
}
use hopper_pi.Prelude.Table.{get}
use hopper_pi.SharedExecution.{TargetBinding, binding_eq}
use hopper_pi.Journal.Rows.{
  queued, running, state_eq, Task, Submission, text, Dependency, task_keyed,
}
use hopper_pi.Journal.Database.{
  Tx, ◌>>=◌, ◌>>◌, pure, read, modify, check, require, Receipt, Error, insert_task, insert_turn,
  new_turn,
}
use hopper_pi.Journal.Events.{event, authorization_additions}
use hopper_pi.Journal.Requests.{RequestPayload, delegated, request}
use hopper_pi.Journal.Conversations.{insert_session}

unfoldable pub is_coordinator : String → Task → Bool
is_coordinator conversation_id parent =
    is_none parent.parent_task_id
    && state_eq parent.state running
    && not parent.cancellation_requested
    && parent.conversation_id == conversation_id

-- A child has one binding, of those of its parent.
is_within : List TargetBinding → List TargetBinding → Bool
is_within (b ∷ []) access = any (λ c. binding_eq c b) access
is_within _ access = false

is_child : String → Option Task → Bool
is_child parent none = false
is_child parent (some t) = elim t.parent_task_id [ none ↦ false | some p ↦ p == parent ]

-- The dependencies as a set.
distinct : List String → List String
distinct [] = []
distinct (x ∷ xs) = let rest = distinct xs in x ∷ delete x rest
  where
    delete : String → List String → List String
    delete x [] = []
    delete x (y ∷ ys) = let rest = delete x ys in elim (y == x) [ true ↦ rest | false ↦ y ∷ rest ]

depend_on : String → List String → List Dependency
depend_on task_id [] = []
depend_on task_id (x ∷ xs) = record { task_id = task_id; dependency_id = x } ∷ depend_on task_id xs

unfoldable pub delegate_work : Submission → String → List String → String → String → Tx Receipt
unfolding is_within is_child distinct depend_on
delegate_work input parent_task_id dependencies task_id turn_id = do
  row ← read (λ d. get parent_task_id d.tasks)
  parent ← require row Error.no_coordinator
  check (is_coordinator input.conversation_id parent) Error.no_coordinator
  additions ← read (λ d. authorization_additions parent.id d.records)
  check (is_within input.bindings (parent.payload.bindings ++ additions)) Error.child_not_authorized
  siblings ← read (λ d. all (λ x. is_child parent.id (get x d.tasks)) dependencies)
  check siblings Error.not_a_sibling
  insert_session (record { id = input.session_id; conversation_id = input.conversation_id })
  insert_task (record {
    id = task_id;
    conversation_id = input.conversation_id;
    session_id = input.session_id;
    payload = input;
    state = queued;
    parent_task_id = some parent.id;
    root_task_id = some parent.id;
    cancellation_requested = false;
  })
  insert_turn (new_turn turn_id task_id queued)
  modify
      (λ d. record d { dependencies = d.dependencies ++ depend_on task_id (distinct dependencies) })
  event_id ←
      event task_id "message_accepted"
        (("turnId", text turn_id) ∷ ("parentTaskId", text parent.id) ∷ [])
  pure (Receipt.work task_id turn_id event_id)

module _ (hash : RequestPayload → String) where
  unfoldable pub delegate : Submission → String → List String → String → String → Tx Receipt
  delegate input parent_task_id dependencies task_id turn_id =
      request hash input.request_id (delegated input parent_task_id dependencies)
        (delegate_work input parent_task_id dependencies task_id turn_id)
