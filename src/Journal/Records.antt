-- ===== src/Journal/Records.antt =====
-- src/host/shared/journal.ts, lines 1515 to 1631: retained records, the actions that a grant or a
-- launch stands for, and the access that a verified action adds.
use hopper_pi.Prelude.{
  ℕ, String, Bool, true, false, ◌&&◌, ◌||◌, not, Option, none, some, List, [], ◌∷◌, ◌++◌, ◌==◌,
  find, is_none, is_some, map_where, if◌then◌else◌,
}
use hopper_pi.Prelude.Table.{get}
use hopper_pi.SharedExecution.{TargetBinding, rhino, validate_target_binding}
use hopper_pi.Journal.Rows.{
  running, suspending, state_eq, Task, Record, RecordKind, grant, launch, authorization, Payload,
  plain, authorization_of, Attachment, text, task_keyed, attachment_keyed,
}
use hopper_pi.Journal.Database.{
  Tx, ◌>>=◌, ◌>>◌, pure, read, modify, check, require, required, Receipt, Error, insert_record,
  same_record, update_record,
}
use hopper_pi.Journal.Events.{event}
use hopper_pi.Journal.Requests.{RequestPayload, recorded, request}

is_rhino : TargetBinding → Bool
is_rhino (rhino lifecycle document) = true
is_rhino _ = false

awaits_readiness : Record → Bool
awaits_readiness r = r.state == "dispatched" || r.state == "uncertain"

gains_launch_authority : Option Task → Bool
gains_launch_authority none = false
gains_launch_authority (some t) =
    is_none t.parent_task_id && state_eq t.state running && not t.cancellation_requested

unfoldable pub complete_rhino_launch : String → TargetBinding → String → Tx ℕ
unfolding is_rhino awaits_readiness gains_launch_authority
complete_rhino_launch id binding result = do
  check (validate_target_binding binding && is_rhino binding) Error.invalid_launch
  row ← read (λ d. find (same_record launch id) d.records)
  action ← require row Error.launch_not_waiting
  check (awaits_readiness action) Error.launch_not_waiting
  task ← read (λ d. get action.task_id d.tasks)
  check (gains_launch_authority task) Error.no_launch_authority
  update_record launch id (λ r. record r { state = "completed"; payload = plain result })
  insert_record (record {
    kind = authorization;
    id = id;
    task_id = action.task_id;
    payload = authorization_of binding;
    state = "verified";
  })
  event action.task_id "authorization_added" (("actionId", text id) ∷ [])

gains_authority : Option Task → Bool
gains_authority none = false
gains_authority (some t) =
    not t.cancellation_requested && (state_eq t.state running || state_eq t.state suspending)

in_flight : Record → Record → Bool
in_flight action granted =
    action.task_id == granted.task_id
    && action.state == "dispatched"
    && granted.state == "in_flight"

-- `kind` is a launch or a document action.
unfoldable pub complete_granted_action :
    RecordKind → String → String → TargetBinding → String → Tx ℕ
unfolding gains_authority in_flight
complete_granted_action kind id grant_id binding result = do
  check (validate_target_binding binding) Error.invalid_binding
  row ← read (λ d. find (same_record kind id) d.records)
  grant_row ← read (λ d. find (same_record grant grant_id) d.records)
  action ← require row Error.grant_not_in_flight
  granted ← require grant_row Error.grant_not_in_flight
  check (in_flight action granted) Error.grant_not_in_flight
  task ← read (λ d. get action.task_id d.tasks)
  check (gains_authority task) Error.no_launch_authority
  update_record kind id (λ r. record r { state = "completed"; payload = plain result })
  update_record grant grant_id (λ r. record r { state = "consumed" })
  insert_record (record {
    kind = authorization;
    id = id;
    task_id = action.task_id;
    payload = authorization_of binding;
    state = "verified";
  })
  event action.task_id "authorization_added"
      (("grantId", text grant_id) ∷ ("actionId", text id) ∷ [])

-- INSERT INTO attachments ... ON CONFLICT(lifecycle_id) DO UPDATE
upsert_attachment : Attachment → List Attachment → List Attachment
upsert_attachment row rows =
    if is_some (get row.lifecycle_id rows)
    then map_where (λ a. a.lifecycle_id == row.lifecycle_id) (λ a. row) rows
    else rows ++ row ∷ []

unfoldable pub attachment : Attachment → Tx (Unit {0})
unfolding upsert_attachment
attachment row = do
  required row.lifecycle_id
  modify (λ d. record d { attachments = upsert_attachment row d.attachments })

is_not_cancelling : Option Task → Bool
is_not_cancelling none = false
is_not_cancelling (some t) = not t.cancellation_requested

unfoldable pub put_record_work : RecordKind → String → String → Payload → String → Tx Receipt
unfolding is_not_cancelling
put_record_work kind id task_id payload kind_text = do
  task ← read (λ d. get task_id d.tasks)
  check (is_not_cancelling task) Error.unknown_task
  insert_record
      (record { kind = kind; id = id; task_id = task_id; payload = payload; state = "accepted" })
  event task_id kind_text (("id", text id) ∷ [])
  pure (Receipt.identity id)

module _ (hash : RequestPayload → String) where
  -- `kind_text` is the event, the kind with `_accepted`; `content` is the text of the payload.
  unfoldable pub put_record :
      String → RecordKind → String → String → Payload → String → String → Tx Receipt
  put_record request_id kind id task_id payload content kind_text =
      request hash request_id (recorded kind id task_id content)
        (put_record_work kind id task_id payload kind_text)

-- `event_kind` is the kind, a `_` and the new state.
unfoldable pub transition_record : RecordKind → String → String → String → Payload → String → Tx ℕ
transition_record kind id expected state payload event_kind = do
  row ← read (λ d. find (same_record kind id) d.records)
  r ← require row Error.record_conflict
  check (r.state == expected) Error.record_conflict
  update_record kind id (λ x. record x { state = state; payload = payload })
  event r.task_id event_kind (("id", text id) ∷ [])
