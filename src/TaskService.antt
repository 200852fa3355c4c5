-- ===== src/TaskService.antt =====
-- src/host/shared/task-service.ts: the scheduler that decides which queued task runs, and keeps the
-- executions, the limits and the fences of Rhino processes beside the journal.
-- The service is a record of its maps. What runs between two awaits is one action on it; an action
-- that throws keeps what it has changed, since only the journal rolls back. `journal` is the one way
-- an action reaches the tables. Listeners that `changed` calls are not part of the state.
pub mod Snapshot
pub mod Fences
pub mod Pump
pub mod Requests
pub mod Executions
pub mod Leases
pub mod Steps
pub mod Sound
pub mod Promises
mod Tests
use hopper_pi.Prelude.{
  ℕ, String, Bool, true, false, ◌&&◌, not, Option, none, some, List, [], ◌∷◌, ◌++◌, ◌==◌, nat_eq,
  update_first, find, keep_where,
}
use hopper_pi.SharedExecution.{TargetBinding, ExecutionOwner}
use hopper_pi.Journal.Rows.{Field}
use hopper_pi.Journal.Database.{Db, Tx, Error, transaction}
use hopper_pi.Journal.Requests.{RequestPayload}
use hopper_pi.Journal.Database

-- TaskServiceOptions, of which the limits may be left out.
pub record Options : Type 0 where
  pub max_workers : Option ℕ
  pub max_coordinators : Option ℕ
  pub max_usage : Option ℕ

-- An entry of `active`: `serial` is the identity of the object, `is_aborted` its signal.
pub record Active : Type 0 where
  pub task_id : String
  pub serial : ℕ
  pub turn_id : String
  -- The process whose lease the object works under.
  pub process_key : Option String
  pub is_worker : Bool
  pub is_waiting_for_children : Bool
  pub needs_native_recovery : Bool
  pub is_aborted : Bool

pub record Held : Type 0 where
  pub process_key : String
  pub task_id : String

-- What `resolveTarget` resolves: the target of a native tool, of a managed action, or a lifecycle.
pub data Sought : Type 0 where
  native : ExecutionOwner → Sought
  managed : TargetBinding → Sought
  lifecycle : String → Sought

-- One wait in `processQueues`: all queues in one list, in the order of the pushes.
pub record Ticket : Type 0 where
  pub id : ℕ
  pub process_key : String
  pub generation : String
  pub task_id : String
  -- The object of `active` that the ticket was drawn for.
  pub serial : ℕ
  pub sought : Sought
  pub is_acquired : Bool
  pub is_reported : Bool

pub record Service : Type 0 where
  pub db : Db
  pub active : List Active
  pub held : List Held
  pub tickets : List Ticket
  pub is_stopped : Bool
  pub next_serial : ℕ

-- TargetUnavailableError with its message and whether it is permanent, or another error.
pub data Resolution : Type 0 where
  target : String → String → Resolution
  unavailable : String → Bool → Resolution
  broken : String → Resolution

pub data Failure : Type 0 where
  refused : Error → Failure
  host_stopping budget_exhausted no_disposition not_a_root no_such_task : Failure
  not_active scope_unfinished not_authorized target_failed target_changed : Failure
  needs_recovery : String → Failure

-- What the service is built on: the registry's answers at the time, and the texts of values.
pub record Host : Type 0 where
  pub resolve_binding : TargetBinding → Resolution
  pub resolve_lifecycle : String → Resolution
  pub hash : RequestPayload → String
  pub canonical : List (String × Field) → String
  pub quote : String → String
  pub message : Failure → String

pub data Outcome (A : Type 0) : Type 0 where
  returns : A → Outcome A
  throws : Failure → Outcome A

abbrev pub Act : Type 0 → Type 0
Act A = Service → Outcome A × Service

unfoldable pub proceed : {A B : Type 0} → Outcome A × Service → (A → Act B) → Outcome B × Service
proceed (returns a, s) next = next a s
proceed (throws e, s) next = (throws e, s)

-- try { ... } catch (error) { ... }
unfoldable pub rescue : {A : Type 0} → Outcome A × Service → (Failure → Act A) → Outcome A × Service
rescue (returns a, s) handle = (returns a, s)
rescue (throws e, s) handle = handle e s

infixl 10 ◌>>=◌ ◌>>◌
abbrev pub ◌>>=◌ : {A B : Type 0} → Act A → (A → Act B) → Act B
◌>>=◌ m f s = proceed (m s) f

abbrev pub ◌>>◌ : {A B : Type 0} → Act A → Act B → Act B
m >> n = m >>= λ _. n

abbrev pub catch : {A : Type 0} → Act A → (Failure → Act A) → Act A
catch m handle s = rescue (m s) handle

abbrev pub pure : {A : Type 0} → A → Act A
pure a s = (returns a, s)

abbrev pub throw : {A : Type 0} → Failure → Act A
throw e s = (throws e, s)

abbrev pub read : {A : Type 0} → (Service → A) → Act A
read f s = (returns (f s), s)

abbrev pub modify : (Service → Service) → Act (Unit {0})
modify f s = (returns tt, f s)

unfoldable pub outcome_of : {A : Type 0} → Database.Result A → Outcome A
outcome_of (Database.ok a) = returns a
outcome_of (Database.err e) = throws (refused e)

-- A method of the journal, in its transaction.
unfoldable pub journal : {A : Type 0} → Tx A → Act A
unfolding outcome_of
journal m s = (outcome_of (transaction m s.db).0, record s { db = (transaction m s.db).1 })

unfoldable pub active_of : String → List Active → Option Active
active_of task_id active = find (λ a. a.task_id == task_id) active

-- A write to an object of `active`, wherever it is held.
unfoldable pub set_active : ℕ → (Active → Active) → Service → Service
set_active serial f s = record s { active = update_first (λ a. nat_eq a.serial serial) f s.active }
