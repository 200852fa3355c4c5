-- ===== src/Journal/Rows.antt =====
-- The rows of src/host/shared/journal-migrations.ts, with the columns that journal.ts reads or
-- writes. Payload texts that the journal parses are the parsed values; others stay texts.
use hopper_pi.Prelude.{ℕ, String, ◌≡◌, Bool, true, false, Option, List, arith, nat_eq}
use hopper_pi.Prelude.Table.{Keyed}
use hopper_pi.OperationNames.{OperationClass}
use hopper_pi.SharedExecution.{TargetBinding, ExecutionOwner, DocumentActionOwner}

-- The state texts of tasks and of turns; the CHECK constraints are `is_task_state`, `is_turn_state`.
pub data State : Type 0 where
  queued running suspending suspended awaiting_user completed cancelled interrupted failed
        uncertain :
      State

state_code : State → ℕ
state_code queued = 0
state_code running = 1
state_code suspending = 2
state_code suspended = 3
state_code awaiting_user = 4
state_code completed = 5
state_code cancelled = 6
state_code interrupted = 7
state_code failed = 8
state_code uncertain = 9

unfoldable pub state_eq : State → State → Bool
unfolding state_code
state_eq a b = nat_eq (state_code a) (state_code b)

pub data SubmissionKind : Type 0 where
  prompt follow_up : SubmissionKind

pub record Submission : Type 0 where
  pub request_id : String
  pub conversation_id : String
  pub session_id : String
  pub kind : SubmissionKind
  pub text : String
  pub bindings : List TargetBinding
  pub message_target : Option TargetBinding
  pub attachments : List String

pub record Conversation : Type 0 where
  pub id : String
  pub title : String
  pub created_at : ℕ
  pub archived_at : Option ℕ
  pub document_label : Option String

pub record Session : Type 0 where
  pub id : String
  pub conversation_id : String

pub record Task : Type 0 where
  pub id : String
  pub conversation_id : String
  pub session_id : String
  pub payload : Submission
  pub state : State
  pub parent_task_id : Option String
  pub root_task_id : Option String
  pub cancellation_requested : Bool

-- `owner` is `none` for NULL and for the text `null`, which the journal never tells apart.
pub record Turn : Type 0 where
  pub id : String
  pub task_id : String
  pub state : State
  pub cleanup_confirmed : Bool
  pub owner : Option ExecutionOwner
  -- Tokens; the column is a REAL.
  pub usage : ℕ

-- A field of an event's payload beside its attribution.
pub data Field : Type 0 where
  text : String → Field
  number : ℕ → Field
  null : Field

pub record Event : Type 0 where
  pub id : ℕ
  pub task_id : String
  pub kind : String
  pub fields : List (String × Field)
  pub conversation_id : String
  pub session_id : String
  pub root_task_id : String
  pub parent_task_id : Option String
  pub turn_id : Option String
  pub binding : Option TargetBinding

pub record Question : Type 0 where
  pub id : String
  pub task_id : String
  pub turn_id : String
  pub tool_call_id : String
  pub payload : String
  pub answer : Option String
  pub continuation_id : Option String

pub data InputState : Type 0 where
  accepted delivering applied not_applied unknown : InputState

pub record Input : Type 0 where
  pub id : ℕ
  pub task_id : String
  pub turn_id : String
  pub payload : String
  pub state : InputState

pub record Dependency : Type 0 where
  pub task_id : String
  pub dependency_id : String

pub data OperationState : Type 0 where
  dispatched completed failed cancelled uncertain : OperationState

pub data Owner : Type 0 where
  execution : ExecutionOwner → Owner
  document_action : DocumentActionOwner → Owner

pub record Operation : Type 0 where
  pub id : String
  pub task_id : String
  pub turn_id : String
  pub owner : Option Owner
  pub name : String
  pub operation_class : OperationClass
  pub arguments : String
  pub wire_id : Option String
  pub deadline : ℕ
  pub state : OperationState
  pub result : Option String

pub record Reservation : Type 0 where
  pub destination : String
  pub operation_id : String
  pub baseline : String

pub data RecordKind : Type 0 where
  scheduling admission grant launch artifact document_action transfer scope handoff authorization :
      RecordKind

-- What the journal or the scheduler reads back from a record's payload, or the text that it only stores.
pub data Payload : Type 0 where
  plain : String → Payload
  scope_of : String → String → Payload
  grant_of : String → Payload
  handoff_of : String → String → Option String → Payload
  -- A handoff that ended, with its continuation and the binding it handed over.
  handed_over : String → String → Option String → String → Option TargetBinding → Payload
  authorization_of : TargetBinding → Payload
  dispatch_of : String → String → Payload

pub record Record : Type 0 where
  pub kind : RecordKind
  pub id : String
  pub task_id : String
  pub payload : Payload
  pub state : String

pub record Disposition : Type 0 where
  pub id : String
  pub task_id : String
  pub payload : String

pub record Attachment : Type 0 where
  pub lifecycle_id : String
  -- `${processId}:${processStartTime}`
  pub process_key : String
  pub document_labels : List (String × String)

instance abbrev pub conversation_keyed : Keyed Conversation
conversation_keyed = record { key = λ c. c.id }

instance abbrev pub session_keyed : Keyed Session
session_keyed = record { key = λ s. s.id }

instance abbrev pub task_keyed : Keyed Task
task_keyed = record { key = λ t. t.id }

instance abbrev pub turn_keyed : Keyed Turn
turn_keyed = record { key = λ t. t.id }

instance abbrev pub question_keyed : Keyed Question
question_keyed = record { key = λ q. q.id }

instance abbrev pub operation_keyed : Keyed Operation
operation_keyed = record { key = λ o. o.id }

instance abbrev pub reservation_keyed : Keyed Reservation
reservation_keyed = record { key = λ r. r.destination }

instance abbrev pub attachment_keyed : Keyed Attachment
attachment_keyed = record { key = λ a. a.lifecycle_id }

-- The CHECK constraints on the state columns.
abbrev pub is_task_state : State → Bool
is_task_state suspended = false
is_task_state _ = true

abbrev pub is_turn_state : State → Bool
is_turn_state suspending = false
is_turn_state awaiting_user = false
is_turn_state _ = true

pub state_eq_sound : (a b : State) → state_eq a b ≡ true → a ≡ b
unfolding state_eq
state_eq_sound a b h = ground arith

pub state_eq_refl : (a : State) → state_eq a a ≡ true
unfolding state_eq
state_eq_refl a = ground arith

kind_code : RecordKind → ℕ
kind_code scheduling = 0
kind_code admission = 1
kind_code grant = 2
kind_code launch = 3
kind_code artifact = 4
kind_code document_action = 5
kind_code transfer = 6
kind_code scope = 7
kind_code handoff = 8
kind_code authorization = 9

unfoldable pub kind_eq : RecordKind → RecordKind → Bool
unfolding kind_code
kind_eq a b = nat_eq (kind_code a) (kind_code b)
