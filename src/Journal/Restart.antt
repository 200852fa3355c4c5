-- ===== src/Journal/Restart.antt =====
-- src/host/shared/journal.ts, lines 487 to 550 and 906 to 927: what blocks a queued task, the
-- retired admission workflow, and the recovery that a start of the host makes.
pub mod Loop
use hopper_pi.Prelude.{
  ℕ, String, Bool, true, false, ◌&&◌, not, Option, none, some, List, [], ◌∷◌, ◌++◌, ◌==◌,
  if◌then◌else◌, is_none, is_some, any, find, map_where,
}
use hopper_pi.Prelude.Table.{get}
use hopper_pi.Journal.Rows.{
  State, queued, running, failed, uncertain, state_eq, Task, Turn, Field, text, null, Record,
  RecordKind, admission, scheduling, kind_eq, Payload, plain, task_keyed, turn_keyed,
}
use hopper_pi.Journal.Database.{
  Db, Tx, Result, ok, err, ◌>>=◌, ◌>>◌, pure, read, modify, check, Error, transaction,
  set_task_state, set_turn, same_record, insert_record, update_record,
}
use hopper_pi.Journal.Events.{event, retire_inputs}

-- The payload of a scheduling record, `{ reason, blockingTaskId? }`, as one text, which `canonical`
-- makes of the two.
reason_field : Option String → Field
reason_field none = null
reason_field (some reason) = text reason

blocking_fields : Option String → List (String × Field)
blocking_fields none = []
blocking_fields (some id) = if id == "" then [] else ("blockingTaskId", text id) ∷ []

unfoldable pub scheduling_fields : Option String → Option String → List (String × Field)
unfolding reason_field blocking_fields
scheduling_fields reason blocking = ("reason", reason_field reason) ∷ blocking_fields blocking

-- A text that is neither null nor empty.
is_given : Option String → Bool
is_given none = false
is_given (some t) = not (t == "")

block_state : Option String → String
unfolding is_given
block_state reason = if is_given reason then "blocked" else "ready"

block_event : Option String → String
unfolding is_given
block_event reason = if is_given reason then "task_waiting_for_target" else "task_target_ready"

same_payload : Payload → String → Bool
same_payload (plain old) new = old == new
same_payload _ new = false

is_unchanged : Option Record → Option String → String → Bool
unfolding block_state same_payload is_given
is_unchanged none reason payload = not (is_given reason)
is_unchanged (some r) reason payload =
    r.state == block_state reason && same_payload r.payload payload

-- INSERT ... ON CONFLICT(kind,id) DO UPDATE
upsert_scheduling : Option Record → String → String → String → Tx (Unit {0})
upsert_scheduling none task_id payload state = insert_record (record {
  kind = scheduling;
  id = task_id;
  task_id = task_id;
  payload = plain payload;
  state = state;
})
upsert_scheduling (some r) task_id payload state =
    update_record scheduling task_id (λ x. record x { payload = plain payload; state = state })

write_scheduling :
    Option Record → String → Option String → String → List (String × Field) → Tx (Unit {0})
unfolding upsert_scheduling block_event block_state
write_scheduling prior task_id reason payload fields = do
  upsert_scheduling prior task_id payload (block_state reason)
  event task_id (block_event reason) fields
  pure tt

-- `canonical` is the text of the payload's fields.
unfoldable pub set_scheduling_block :
    (List (String × Field) → String) → String → Option String → Option String → Tx (Unit {0})
unfolding is_unchanged write_scheduling
set_scheduling_block canonical task_id reason blocking = do
  prior ← read (λ d. find (same_record scheduling task_id) d.records)
  let fields = scheduling_fields reason blocking
  if is_unchanged prior reason (canonical fields)
      then pure tt
      else write_scheduling prior task_id reason (canonical fields) fields

abbrev pub retired_admission : String
retired_admission =
    "This pending request uses a retired authorization workflow. Submit the request again."

is_pending : Option Record → Bool
is_pending none = false
is_pending (some r) = r.state == "pending"

is_queued_task : Option Task → Bool
is_queued_task none = false
is_queued_task (some t) = state_eq t.state queued

-- An admission without an error is given one, so it never becomes ready.
reason_of : Option String → String
reason_of none = retired_admission
reason_of (some reason) = if reason == "" then retired_admission else reason

unfoldable pub fail_queued_turn : String → Turn → Turn
fail_queued_turn task_id t = record t { state = failed; cleanup_confirmed = true }

finish_pending : String → String → Tx (Unit {0})
unfolding is_queued_task fail_queued_turn
finish_pending task_id reason = do
  queued_task ← read (λ d. is_queued_task (get task_id d.tasks))
  check queued_task Error.admission_not_queued
  update_record admission task_id (λ r. record r { state = "failed"; payload = plain reason })
  set_task_state task_id failed
  modify (λ d. record d {
    turns =
        map_where (λ t. t.task_id == task_id && state_eq t.state queued) (fail_queued_turn task_id)
          d.turns;
  })
  event task_id "admission_failed" (("error", text reason) ∷ [])
  pure tt

unfoldable pub finish_admission : String → Option String → Tx (Unit {0})
unfolding is_pending finish_pending reason_of
finish_admission task_id error = do
  row ← read (λ d. find (same_record admission task_id) d.records)
  if is_pending row then finish_pending task_id (reason_of error) else pure tt

-- One row of the loop over the turns that were running.
unfoldable pub recover_turn : Turn → Tx (Unit {0})
recover_turn row = do
  set_turn row.id (λ t. record t { state = uncertain })
  set_task_state row.task_id uncertain
  retire_inputs row.id
  event row.task_id "recovery_required" (("turnId", text row.id) ∷ [])
  pure tt

unfoldable pub recover_turns : List Turn → Tx (Unit {0})
recover_turns [] = pure tt
recover_turns (row ∷ rest) = do recover_turn row; recover_turns rest

unfoldable pub running_turns : List Turn → List Turn
running_turns [] = []
running_turns (t ∷ rest) =
    let others = running_turns rest in if state_eq t.state running then t ∷ others else others

unfoldable pub recover_running : Tx (Unit {0})
recover_running = do rows ← read (λ d. running_turns d.turns); recover_turns rows

-- The tasks of the pending admissions whose task is queued.
unfoldable pub retired_admissions : List Record → List Task → List String
unfolding is_queued_task
retired_admissions [] tasks = []
retired_admissions (r ∷ rest) tasks =
    let others = retired_admissions rest tasks in
    if kind_eq r.kind admission && r.state == "pending" && is_queued_task (get r.task_id tasks)
    then r.task_id ∷ others
    else others

-- Each admission is finished in a transaction of its own; a throw ends the method there.
unfoldable pub and_then :
    Result (Unit {0}) × Db → (Db → Result (Unit {0}) × Db) → Result (Unit {0}) × Db
and_then (ok u, d) next = next d
and_then (err e, d) next = (err e, d)

unfoldable pub finish_admissions : List String → Db → Result (Unit {0}) × Db
unfolding and_then
finish_admissions [] d = (ok tt, d)
finish_admissions (id ∷ rest) d =
    and_then (transaction (finish_admission id (some retired_admission)) d) (finish_admissions rest)

unfoldable pub recover : Db → Result (Unit {0}) × Db
unfolding and_then
recover d =
    and_then (finish_admissions (retired_admissions d.records d.tasks) d)
      (transaction recover_running)
