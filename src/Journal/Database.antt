-- ===== src/Journal/Database.antt =====
-- src/host/shared/journal.ts, lines 41 to 152 and 552 to 560: the database, transactions, events.
-- An action of a transaction returns the new tables, or throws; a throw rolls back. The identifiers
-- that `randomUUID` makes are arguments; nothing is assumed of them, a clash breaks a constraint.
use Prim.Native.Char.{code}
use Prim.Native.String.{◌∷◌}
use hopper_pi.Prelude.{
  ℕ, String, ◌≡◌, refl, ◌⊎◌, inl, inr, Bool, true, false, ◌&&◌, ◌||◌, not, Option, none, some, List,
  [], ◌∷◌, ◌++◌, ◌==◌, leb, nat_eq, is_some, is_none, any, map_where,
}
use hopper_pi.Prelude.Table.{get, put}
use hopper_pi.Journal.Rows.{
  State, queued, running, Conversation, Session, Task, Turn, Event, Question, Input, Dependency,
  Operation, Reservation, Record, Disposition, Attachment, RecordKind, kind_eq, task_keyed,
  turn_keyed, session_keyed,
}

pub data Error : Type 0 where
  blank_id request_conflict thread_deleted event_task_missing constraint_failed : Error
  invalid_binding message_target_outside_access thread_missing thread_archived thread_busy : Error
  session_elsewhere admission_not_queued wrong_state admission_incomplete : Error
  cancellation_requested owner_not_authorized dependencies_incomplete conversation_busy : Error
  no_suspension cleanup_unresolved question_not_answerable wrong_session unknown_input : Error
  earlier_input_unsettled invalid_delivery input_settled turn_not_current cannot_settle : Error
  only_running_completes outcome_unresolved unknown_task unknown_turn : Error
  no_coordinator child_not_authorized not_a_sibling : Error
  invalid_dispatch invalid_cleanup grant_dispatched retarget grant_not_in_flight : Error
  no_process_ownership record_conflict outcome_recorded no_live_ownership : Error
  not_uncertain recovery_unproven handoff_unavailable handoff_conflict handoff_unverified : Error
  launch_not_waiting no_launch_authority invalid_launch : Error

-- What a request's stored receipt parses to.
pub data Receipt : Type 0 where
  deleted : String → Receipt
  created : String → String → Receipt
  work : String → String → ℕ → Receipt
  steered : ℕ → Receipt
  family : List String → Receipt
  identity : String → Receipt

pub record Request : Type 0 where
  pub id : String
  pub hash : String
  pub receipt : Receipt

pub record Db : Type 0 where
  pub conversations : List Conversation
  pub sessions : List Session
  pub tasks : List Task
  pub turns : List Turn
  pub events : List Event
  pub requests : List Request
  pub questions : List Question
  pub inputs : List Input
  pub dependencies : List Dependency
  pub operations : List Operation
  pub records : List Record
  pub reservations : List Reservation
  pub dispositions : List Disposition
  pub attachments : List Attachment
  -- AUTOINCREMENT: the ids of the next event and the next input.
  pub next_event : ℕ
  pub next_input : ℕ

abbrev pub empty : Db
empty = record {
  conversations = [];
  sessions = [];
  tasks = [];
  turns = [];
  events = [];
  requests = [];
  questions = [];
  inputs = [];
  dependencies = [];
  operations = [];
  records = [];
  reservations = [];
  dispositions = [];
  attachments = [];
  next_event = 1;
  next_input = 1;
}

pub data Result (A : Type 0) : Type 0 where
  ok : A → Result A
  err : Error → Result A

pub Result-cases :
    {A : Type 0} (r : Result A) → ((e : Error) × (r ≡ err e)) ⊎ ((a : A) × (r ≡ ok a))
Result-cases (ok a) = inr (a, refl)
Result-cases (err e) = inl (e, refl)

abbrev pub Tx : Type 0 → Type 0
Tx A = Db → Result (A × Db)

infixl 10 ◌>>=◌ ◌>>◌
abbrev pub ◌>>=◌ : {A B : Type 0} → Tx A → (A → Tx B) → Tx B
◌>>=◌ m f d = elim (m d) [ err e ↦ err e | ok (a, d') ↦ f a d' ]

abbrev pub ◌>>◌ : {A B : Type 0} → Tx A → Tx B → Tx B
m >> n = m >>= λ _. n

abbrev pub pure : {A : Type 0} → A → Tx A
pure a d = ok (a, d)

abbrev pub throw : {A : Type 0} → Error → Tx A
throw e d = err e

abbrev pub read : {A : Type 0} → (Db → A) → Tx A
read f d = ok (f d, d)

abbrev pub modify : (Db → Db) → Tx (Unit {0})
modify f d = ok (tt, f d)

-- if (!test) throw
abbrev pub check : Bool → Error → Tx (Unit {0})
check true e d = ok (tt, d)
check false e d = err e

abbrev pub require : {A : Type 0} → Option A → Error → Tx A
require (some a) e d = ok (a, d)
require none e d = err e

-- What a caller sees of a method: its result, and the tables after COMMIT or ROLLBACK.
unfoldable pub transaction : {A : Type 0} → Tx A → Db → Result A × Db
transaction m d = elim (m d) [ ok (a, d') ↦ (ok a, d') | err e ↦ (err e, d) ]

-- White space of `trim`.
is_space : ℕ → Bool
is_space c =
    (leb 9 c && leb c 13)
    || nat_eq c 32
    || nat_eq c 0xa0
    || nat_eq c 0x1680
    || (leb 0x2000 c && leb c 0x200a)
    || nat_eq c 0x2028
    || nat_eq c 0x2029
    || nat_eq c 0x202f
    || nat_eq c 0x205f
    || nat_eq c 0x3000
    || nat_eq c 0xfeff

is_blank : String → Bool
unfolding is_space
is_blank String.[] = true
is_blank (c ∷ rest) = is_space (code c) && is_blank rest

unfoldable pub required : String → Tx (Unit {0})
unfolding is_blank
required value = check (not (is_blank value)) blank_id

-- UPDATE tasks SET ... WHERE id=?, UPDATE turns SET ... WHERE id=?
abbrev pub set_task : String → (Task → Task) → Tx (Unit {0})
set_task k f = modify (λ d. record d { tasks = put k f d.tasks })

abbrev pub set_task_state : String → State → Tx (Unit {0})
set_task_state k s = set_task k (λ t. record t { state = s })

abbrev pub set_turn : String → (Turn → Turn) → Tx (Unit {0})
set_turn k f = modify (λ d. record d { turns = put k f d.turns })

-- SET state=?,cleanup_confirmed=1
abbrev pub end_turn : String → State → Tx (Unit {0})
end_turn k s = set_turn k (λ t. record t { state = s; cleanup_confirmed = true })

-- The states that the index one_active_turn covers.
abbrev pub is_active_turn : State → Bool
is_active_turn queued = true
is_active_turn running = true
is_active_turn _ = false

-- INSERT INTO turns: the primary key, the reference to the task, the index one_active_turn.
unfoldable pub insert_turn : Turn → Tx (Unit {0})
insert_turn turn = do
  tasks ← read (λ d. d.tasks)
  turns ← read (λ d. d.turns)
  check (is_none (get turn.id turns) && is_some (get turn.task_id tasks)) constraint_failed
  check
      (not (
        is_active_turn turn.state
        && any (λ t. t.task_id == turn.task_id && is_active_turn t.state) turns))
      constraint_failed
  modify (λ d. record d { turns = d.turns ++ turn ∷ [] })

abbrev pub new_turn : String → String → State → Turn
new_turn turn_id task_id state = record {
  id = turn_id;
  task_id = task_id;
  state = state;
  cleanup_confirmed = false;
  usage = 0;
  owner = none;
}

abbrev session_holds : Option String → Option Session → Bool
session_holds (some conversation_id) (some s) = s.conversation_id == conversation_id
session_holds _ _ = false

parent_holds : Option String → List Task → Bool
parent_holds none tasks = true
parent_holds (some parent) tasks = is_some (get parent tasks)

-- INSERT INTO tasks: the primary key, the session of the conversation, the parent and the root.
unfoldable pub insert_task : Task → Tx (Unit {0})
unfolding parent_holds
insert_task task = do
  tasks ← read (λ d. d.tasks)
  sessions ← read (λ d. d.sessions)
  check
      (is_none (get task.id tasks)
        && session_holds (some task.conversation_id) (get task.session_id sessions)
        && parent_holds task.parent_task_id tasks
        && parent_holds task.root_task_id tasks)
      constraint_failed
  modify (λ d. record d { tasks = d.tasks ++ task ∷ [] })

-- WHERE kind=? AND id=?
unfoldable pub same_record : RecordKind → String → Record → Bool
same_record kind id r = kind_eq r.kind kind && r.id == id

-- INSERT INTO records: the primary key (kind, id) and the task.
unfoldable pub insert_record : Record → Tx (Unit {0})
insert_record row = do
  tasks ← read (λ d. d.tasks)
  records ← read (λ d. d.records)
  check (not (any (same_record row.kind row.id) records) && is_some (get row.task_id tasks))
      constraint_failed
  modify (λ d. record d { records = d.records ++ row ∷ [] })

abbrev pub update_record : RecordKind → String → (Record → Record) → Tx (Unit {0})
update_record kind id f =
    modify (λ d. record d { records = map_where (same_record kind id) f d.records })
