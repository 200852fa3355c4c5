-- ===== src/Journal/Outcomes.antt =====
-- src/host/shared/journal.ts, lines 830 to 842 and 1254 to 1358: the outcomes of operations, late
-- reservations, uncertain scopes, and the disposition that ends a recovery.
use hopper_pi.Prelude.{
  ℕ, String, Bool, true, false, ◌&&◌, ◌||◌, Option, none, some, List, [], ◌∷◌, ◌++◌, ◌==◌, is_some,
  delete_where,
}
use hopper_pi.Prelude.Table.{get, put}
use hopper_pi.Journal.Rows.{
  State, state_eq, Task, Operation, OperationState, Reservation, scope, scope_of, text, task_keyed,
  operation_keyed,
}
use hopper_pi.Journal.Database.{
  Db, Tx, ◌>>=◌, ◌>>◌, pure, read, modify, check, require, Receipt, Error, insert_record,
}
use hopper_pi.Journal.Events.{event}
use hopper_pi.Journal.Requests.{RequestPayload, Evidence, request}
use hopper_pi.Journal.Operations.{Destination, insert_reservations}

-- The outcomes that an operation can be given.
pub data Verdict : Type 0 where
  completed failed cancelled uncertain : Verdict

abbrev pub verdict_state : Verdict → OperationState
verdict_state completed = OperationState.completed
verdict_state failed = OperationState.failed
verdict_state cancelled = OperationState.cancelled
verdict_state uncertain = OperationState.uncertain

verdict_text : Verdict → String
verdict_text completed = "completed"
verdict_text failed = "failed"
verdict_text cancelled = "cancelled"
verdict_text uncertain = "uncertain"

abbrev is_dispatched : OperationState → Bool
is_dispatched OperationState.dispatched = true
is_dispatched _ = false

-- An uncertain operation keeps what it reserved.
release : Verdict → String → List Reservation → List Reservation
release uncertain id reservations = reservations
release _ id reservations = delete_where (λ r. r.operation_id == id) reservations

unfoldable pub operation_result : String → Verdict → String → Tx ℕ
unfolding release verdict_text
operation_result id verdict result = do
  row ← read (λ d. get id d.operations)
  op ← require row Error.outcome_recorded
  check (is_dispatched op.state) Error.outcome_recorded
  modify (λ d. record d {
    operations =
        put id (λ o. record o { state = verdict_state verdict; result = some result }) d.operations;
    reservations = release verdict id d.reservations;
  })
  event op.task_id "operation_result"
      (("id", text id) ∷ ("state", text (verdict_text verdict)) ∷ ("result", text result) ∷ [])

is_live_owner : Option Operation → Bool
is_live_owner none = false
is_live_owner (some o) = is_dispatched o.state && is_some o.owner

unfoldable pub reserve :
    (List Destination → List Destination) → String → List Destination → Tx (Unit {0})
unfolding is_live_owner
reserve sort operation_id destinations = do
  op ← read (λ d. get operation_id d.operations)
  check (is_live_owner op) Error.no_live_ownership
  insert_reservations operation_id (sort destinations)

-- `id` is the fresh identifier of the record.
unfoldable pub mark_scope_uncertain : String → String → String → String → Tx ℕ
mark_scope_uncertain task_id turn_id evidence id = do
  insert_record (record {
    kind = scope;
    id = id;
    task_id = task_id;
    payload = scope_of turn_id evidence;
    state = "uncertain";
  })
  event task_id "scope_cleanup_uncertain"
      (("turnId", text turn_id) ∷ ("evidence", text evidence) ∷ [])

-- The user acknowledges, a baseline was inspected, and the old work cannot go on.
unfoldable pub is_proven : Evidence → Bool
is_proven e =
    e.acknowledged
    && (e.original_process_exited
        || (e.authenticated_and_fenced && e.operations_idle && e.scopes_idle))
    && is_some e.inspected_baseline

is_uncertain_task : Option Task → Bool
is_uncertain_task none = false
is_uncertain_task (some t) = state_eq t.state State.uncertain

-- The reservation of an operation of the task.
unfoldable pub is_held_by : String → List Operation → Reservation → Bool
is_held_by task_id operations r = elim (get r.operation_id operations) [
  | none ↦ false
  | some o ↦ o.task_id == task_id
]

release_held : Bool → String → Db → List Reservation
release_held true task_id d = delete_where (is_held_by task_id d.operations) d.reservations
release_held false task_id d = d.reservations

-- `describe` is the text of the evidence, `id` the fresh identifier.
unfoldable pub disposition_work : (Evidence → String) → String → Evidence → String → Tx Receipt
unfolding is_uncertain_task release_held
disposition_work describe task_id evidence id = do
  task ← read (λ d. get task_id d.tasks)
  check (is_uncertain_task task) Error.not_uncertain
  check (is_proven evidence) Error.recovery_unproven
  modify (λ d. record d {
    dispositions =
        d.dispositions ++ record { id = id; task_id = task_id; payload = describe evidence } ∷ [];
    reservations = release_held evidence.release_reservations task_id d;
  })
  event task_id "recovery_acknowledged"
      (("id", text id) ∷ ("evidence", text (describe evidence)) ∷ [])
  pure (Receipt.identity id)

payload_or : Option RequestPayload → RequestPayload → RequestPayload
payload_or none p = p
payload_or (some q) p = q

module _ (hash : RequestPayload → String) where
  unfoldable pub recovery_disposition :
      (Evidence → String) → String → String → Evidence → Option RequestPayload → String → Tx Receipt
  unfolding payload_or
  recovery_disposition describe request_id task_id evidence payload id =
      request hash request_id (payload_or payload (RequestPayload.recovery task_id evidence))
        (disposition_work describe task_id evidence id)
