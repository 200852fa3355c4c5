-- ===== src/Journal/Conversations.antt =====
-- src/host/shared/journal.ts, lines 194 to 220, 242 to 264 and 424 to 486: conversations, sessions,
-- and the acceptance of a message. The clock is an argument.
pub mod Once
use hopper_pi.Prelude.{
  ℕ, String, Bool, true, false, ◌&&◌, Option, none, some, List, [], ◌∷◌, ◌++◌, ◌==◌, if◌then◌else◌,
  is_none, is_some, any, all, find,
}
use hopper_pi.Prelude.Table.{get, put}
use hopper_pi.SharedExecution.{
  TargetBinding, lifecycle_instance_id, document_id, validate_target_binding, binding_eq,
}
use hopper_pi.Journal.Rows.{
  State, queued, running, suspending, awaiting_user, Conversation, Session, Task, Submission, text,
  Attachment, conversation_keyed, session_keyed, attachment_keyed,
}
use hopper_pi.Journal.Database.{
  Tx, ◌>>=◌, ◌>>◌, pure, read, modify, check, require, required, Receipt, constraint_failed,
  session_elsewhere, thread_missing, thread_archived, thread_busy, invalid_binding,
  message_target_outside_access, insert_task, insert_turn, new_turn,
}
use hopper_pi.Journal.Events.{event}
use hopper_pi.Journal.Requests.{RequestPayload, create_conversation, submit, request}

-- 'running', 'suspending', 'awaiting_user'
abbrev pub is_underway : State → Bool
is_underway running = true
is_underway suspending = true
is_underway awaiting_user = true
is_underway _ = false

abbrev pub is_root : Task → Bool
is_root t = is_none t.parent_task_id

abbrev is_queued : State → Bool
is_queued queued = true
is_queued _ = false

conversation_of : Option Task → Option String
conversation_of none = none
conversation_of (some t) = some t.conversation_id

-- The thread that works, or else the first that waits in the queue.
unfoldable pub live_conversation_id : List Task → Option String
unfolding conversation_of
live_conversation_id tasks = elim (find (λ t. is_root t && is_underway t.state) tasks) [
  | some t ↦ some t.conversation_id
  | none ↦ conversation_of (find (λ t. is_root t && is_queued t.state) tasks)
]

is_free_for : String → Option String → Bool
is_free_for id none = true
is_free_for id (some live) = live == id

unfoldable pub assert_writable_conversation : String → Tx (Unit {0})
unfolding live_conversation_id is_free_for
assert_writable_conversation id = do
  row ← read (λ d. get id d.conversations)
  conversation ← require row thread_missing
  check (is_none conversation.archived_at) thread_archived
  live ← read (λ d. live_conversation_id d.tasks)
  check (is_free_for id live) thread_busy

unfoldable pub insert_conversation : Conversation → Tx (Unit {0})
insert_conversation row = do
  conversations ← read (λ d. d.conversations)
  check (is_none (get row.id conversations)) constraint_failed
  modify (λ d. record d { conversations = d.conversations ++ row ∷ [] })

unfoldable pub insert_session : Session → Tx (Unit {0})
insert_session row = do
  conversations ← read (λ d. d.conversations)
  sessions ← read (λ d. d.sessions)
  check (is_none (get row.id sessions) && is_some (get row.conversation_id conversations))
      constraint_failed
  modify (λ d. record d { sessions = d.sessions ++ row ∷ [] })

-- INSERT OR IGNORE skips a row whose key is taken.
insert_or_ignore : Bool → Tx (Unit {0}) → Tx (Unit {0})
insert_or_ignore true insert = pure tt
insert_or_ignore false insert = insert

unfoldable pub register_session : String → String → Tx (Unit {0})
unfolding insert_or_ignore insert_conversation insert_session
register_session conversation_id session_id = do
  required conversation_id
  required session_id
  known ← read (λ d. is_some (get conversation_id d.conversations))
  insert_or_ignore known (
      insert_conversation (record {
        id = conversation_id;
        title = "";
        created_at = 0;
        archived_at = none;
        document_label = none;
      }))
  registered ← read (λ d. is_some (get session_id d.sessions))
  insert_or_ignore registered
      (insert_session (record { id = session_id; conversation_id = conversation_id }))
  row ← read (λ d. get session_id d.sessions)
  session ← require row constraint_failed
  check (session.conversation_id == conversation_id) session_elsewhere

first_binding : List TargetBinding → Option TargetBinding
first_binding [] = none
first_binding (b ∷ rest) = some b

-- input.messageTarget ?? input.bindings[0]
unfoldable pub target_of : Submission → Option TargetBinding
unfolding first_binding
target_of input = elim input.message_target [
  | some b ↦ some b
  | none ↦ first_binding input.bindings
]

label_in : String → List (String × String) → Option String
label_in document [] = none
label_in document ((k, v) ∷ rest) = if k == document then some v else label_in document rest

document_label_of : List Attachment → TargetBinding → Option String
unfolding label_in
document_label_of attachments b = elim (get (lifecycle_instance_id b) attachments) [
  | none ↦ none
  | some a ↦ label_in (document_id b) a.document_labels
]

-- COALESCE(document_label,?)
coalesce : Option String → String → Option String
coalesce none label = some label
coalesce (some old) label = some old

label_conversation : String → Option String → Tx (Unit {0})
unfolding coalesce
label_conversation id none = pure tt
label_conversation id (some label) = modify (λ d. record d {
  conversations =
      put id (λ c. record c { document_label = coalesce c.document_label label }) d.conversations;
})

unfoldable pub label_target : String → Option TargetBinding → Tx (Unit {0})
unfolding label_conversation document_label_of
label_target id none = pure tt
label_target id (some b) = do
  label ← read (λ d. document_label_of d.attachments b)
  label_conversation id label

target_in_access : Option TargetBinding → List TargetBinding → Bool
target_in_access none bindings = true
target_in_access (some b) bindings = validate_target_binding b && any (λ c. binding_eq c b) bindings

unfoldable pub accept_work : Submission → String → String → Tx Receipt
unfolding label_target target_of
accept_work input task_id turn_id = do
  assert_writable_conversation input.conversation_id
  label_target input.conversation_id (target_of input)
  insert_task (record {
    id = task_id;
    conversation_id = input.conversation_id;
    session_id = input.session_id;
    payload = input;
    state = queued;
    parent_task_id = none;
    root_task_id = none;
    cancellation_requested = false;
  })
  insert_turn (new_turn turn_id task_id queued)
  event_id ← event task_id "message_accepted" (("turnId", text turn_id) ∷ [])
  pure (Receipt.work task_id turn_id event_id)

module _ (hash : RequestPayload → String) where
  unfoldable pub create_conversation_action : String → String → String → String → ℕ → Tx Receipt
  unfolding insert_conversation insert_session
  create_conversation_action request_id title conversation_id session_id now =
      request hash request_id (create_conversation title) do
        insert_conversation (record {
          id = conversation_id;
          title = title;
          created_at = now;
          archived_at = none;
          document_label = none;
        })
        insert_session (record { id = session_id; conversation_id = conversation_id })
        pure (Receipt.created conversation_id session_id)

  -- `taskId` and `turnId` are the fresh identifiers.
  unfoldable pub accept : Submission → String → String → Tx Receipt
  unfolding accept_work target_in_access
  accept input task_id turn_id = do
    required input.conversation_id
    required input.session_id
    check (all validate_target_binding input.bindings) invalid_binding
    check (target_in_access input.message_target input.bindings) message_target_outside_access
    request hash input.request_id (submit input) (accept_work input task_id turn_id)
