-- ===== src/TaskService/Leases.antt =====
-- src/host/shared/task-service.ts, lines 325 to 448: native tools and managed actions take turns in
-- the queue of a Rhino process. A round of the loop and the work under the lease are pieces; a throw
-- of a round runs the `finally` at once.
use hopper_pi.Prelude.{
  ℕ, suc, String, Bool, true, false, ◌&&◌, ◌||◌, not, Option, none, some, List, [], ◌∷◌, ◌++◌, ◌==◌,
  any, find, if◌then◌else◌, nat_eq, is_some, update_first, delete_where,
}
use hopper_pi.Prelude.Table.{get}
use hopper_pi.SharedExecution.{TargetBinding, lifecycle_instance_id, binding_eq}
use hopper_pi.Journal.Rows.{
  Operation, OperationState, dispatched, Owner, execution, Record, RecordKind, kind_eq, task_keyed,
}
use hopper_pi.Journal.Database.{Db}
use hopper_pi.Journal.Events.{authorization_additions}
use hopper_pi.TaskService.{
  Options, Active, Service, Host, Failure, not_active, scope_unfinished, not_authorized,
  target_failed, target_changed, needs_recovery, Resolution, target, unavailable, broken, Sought,
  native, managed, lifecycle, Ticket, Act, ◌>>=◌, ◌>>◌, catch, pure, throw, read, modify, active_of,
  set_active,
}
use hopper_pi.TaskService.Fences.{unresolved_process, held_by}
use hopper_pi.TaskService.Pump.{scheduling_snapshot, set_block, pump}

unfoldable pub lifecycle_of : Sought → String
lifecycle_of (native owner) = lifecycle_instance_id owner.binding
lifecycle_of (managed binding) = lifecycle_instance_id binding
lifecycle_of (lifecycle id) = id

owner_lifecycle : Option Owner → String → Bool
owner_lifecycle none id = false
owner_lifecycle (some (execution o)) id = lifecycle_instance_id o.binding == id
owner_lifecycle (some (Owner.document_action o)) id = o.lifecycle_instance_id == id

is_unknown_native : Ticket → Operation → Bool
unfolding owner_lifecycle lifecycle_of
is_unknown_native t x =
    x.task_id == t.task_id
    && elim x.state [ dispatched ↦ true | OperationState.uncertain ↦ true | _ ↦ false ]
    && owner_lifecycle x.owner (lifecycle_of t.sought)

is_unknown_record : Ticket → Record → Bool
is_unknown_record t r =
    (kind_eq r.kind RecordKind.scope || kind_eq r.kind RecordKind.document_action)
    && r.task_id == t.task_id
    && r.state == "uncertain"

-- Whether the native cleanup of what ran under the lease is not confirmed.
unfoldable pub is_unconfirmed : Ticket → Db → Bool
unfolding is_unknown_native is_unknown_record
is_unconfirmed t snapshot =
    any (is_unknown_native t) snapshot.operations || any (is_unknown_record t) snapshot.records

unfoldable pub ticket_of : ℕ → List Ticket → Option Ticket
ticket_of id tickets = find (λ t. nat_eq t.id id) tickets

-- queue[0] === ticket
unfoldable pub is_first : Ticket → List Ticket → Bool
is_first t tickets = elim (find (λ x. x.process_key == t.process_key) tickets) [
  | none ↦ false
  | some x ↦ nat_eq x.id t.id
]

unfoldable pub set_ticket : ℕ → (Ticket → Ticket) → Service → Service
set_ticket id f s = record s { tickets = update_first (λ t. nat_eq t.id id) f s.tickets }

-- The object of the ticket is still the task's, and is not aborted.
is_current : Ticket → Option Active → Bool
is_current t none = false
is_current t (some a) = nat_eq a.serial t.serial && not a.is_aborted

unfoldable pub draw : Active → Sought → String → String → Service → Service
draw a sought process_key generation s = record s {
  tickets =
      s.tickets
      ++ record {
        id = s.next_serial;
        process_key = process_key;
        generation = generation;
        task_id = a.task_id;
        serial = a.serial;
        sought = sought;
        is_acquired = false;
        is_reported = false;
      }
        ∷ [];
  next_serial = suc s.next_serial;
}

-- held.set(processKey, taskId), active.processKey = processKey, acquired = true
unfoldable pub acquire : Ticket → Service → Service
acquire t s =
    set_ticket t.id (λ x. record x { is_acquired = true })
      (set_active t.serial (λ a. record a { process_key = some t.process_key })
        (record s {
          held = s.held ++ record { process_key = t.process_key; task_id = t.task_id } ∷ [];
        }))

-- The lease of a ticket is given up: the process stays held where the cleanup is unconfirmed.
unfoldable pub give_up : Ticket → Bool → Service → Service
give_up t unknown s =
    set_active t.serial (λ a. record a { process_key = none; needs_native_recovery = unknown })
      (record s {
        held =
            if unknown
            then s.held
            else delete_where (λ h. h.process_key == t.process_key && h.task_id == t.task_id)
                s.held;
      })

unfoldable pub drop_ticket : ℕ → Service → Service
drop_ticket id s = record s { tickets = delete_where (λ t. nat_eq t.id id) s.tickets }

is_bound_up : Active → Service → Bool
is_bound_up a s = is_some a.process_key || any (λ h. h.task_id == a.task_id) s.held

is_target_authorized : String → TargetBinding → Db → Bool
is_target_authorized task_id binding d = elim (get task_id d.tasks) [
  | none ↦ false
  | some t ↦
      any (binding_eq binding) (t.payload.bindings ++ authorization_additions task_id d.records)
]

module _ (o : Options) (host : Host) where
  unfoldable pub resolve_target : Sought → Resolution
  resolve_target (native owner) = elim (host.resolve_binding owner.binding) [
    | target process_key generation ↦
        if generation == owner.attachment_generation
        then target process_key generation
        else broken "Native tool target attachment changed while waiting"
    | unavailable message permanent ↦ unavailable message permanent
    | broken message ↦ broken message
  ]
  resolve_target (managed binding) = host.resolve_binding binding
  resolve_target (lifecycle id) = host.resolve_lifecycle id

  unfoldable pub draw_for : Active → Sought → Resolution → Act (Unit {0})
  draw_for a sought (target process_key generation) = modify (draw a sought process_key generation)
  draw_for a sought (unavailable message permanent) = throw target_failed
  draw_for a sought (broken message) = throw target_failed

  -- What withNativeTool, withProcess and withLifecycle refuse before the lease.
  refusal : Active → Sought → Service → Option Failure
  unfolding is_bound_up is_target_authorized
  refusal a (native owner) s = if a.turn_id == owner.turn_id then none else some not_active
  refusal a (managed binding) s =
      if a.is_aborted
      then some not_active
      else if is_bound_up a s
      then some scope_unfinished
      else if is_target_authorized a.task_id binding s.db
      then none
      else some not_authorized
  refusal a (lifecycle id) s =
      if a.is_aborted
      then some not_active
      else if is_bound_up a s
      then some scope_unfinished
      else none

  -- Then the start of `withProcessLease`: a ticket at the end of the queue.
  unfoldable pub enter_queue : Active → Sought → Option Failure → Act (Unit {0})
  unfolding draw_for resolve_target
  enter_queue a sought (some e) = throw e
  enter_queue a sought none =
      if a.is_aborted then throw not_active else draw_for a sought (resolve_target sought)

  unfoldable pub request_as : Option Active → Sought → Act (Unit {0})
  unfolding refusal enter_queue
  request_as none sought = throw not_active
  request_as (some a) sought = do refused ← read (refusal a sought); enter_queue a sought refused

  unfoldable pub request_lease : String → Sought → Act (Unit {0})
  unfolding request_as
  request_lease task_id sought = do
    entry ← read (λ s. active_of task_id s.active)
    request_as entry sought

  -- The `finally` of the lease.
  unfoldable pub release : Ticket → Act (Unit {0})
  release t = do
    modify (drop_ticket t.id)
    snapshot ← read (scheduling_snapshot [])
    modify (λ s. if t.is_acquired then give_up t (is_unconfirmed t snapshot) s else s)
    set_block o host t.task_id none none
    pump o host

  unfoldable pub same_target : Ticket → Resolution → Bool
  same_target t (target process_key generation) =
      process_key == t.process_key && generation == t.generation
  same_target t _ = false

  unfoldable pub report_wait : Ticket → Option String → Act (Unit {0})
  report_wait t holder = if t.is_reported then pure tt else (do
    set_block o host t.task_id
        (some "Waiting to use Rhino. Other agents can keep thinking while a native tool runs.")
        holder
    modify (set_ticket t.id (λ x. record x { is_reported = true })))

  -- The lease is acquired by the head of the queue of a free process.
  unfoldable pub take_turn : Ticket → Option String → Bool → Option String → Act (Unit {0})
  unfolding report_wait
  take_turn t (some id) first holder = throw (needs_recovery id)
  take_turn t none first holder =
      if first && not (is_some holder)
      then (do modify (acquire t); set_block o host t.task_id none none)
      else report_wait t holder

  unfoldable pub attempt :
      Ticket → Bool → Bool → Option String → Bool → Option String → Act (Unit {0})
  unfolding take_turn
  attempt t is_ours is_same blocking first holder =
      if not is_ours
      then throw not_active
      else if not is_same
      then throw target_changed
      else take_turn t blocking first holder

  -- One round of the loop.
  unfoldable pub try_lease : Ticket → Act (Unit {0})
  unfolding is_current resolve_target same_target attempt
  try_lease t = do
    is_ours ← read (λ s. is_current t (active_of t.task_id s.active))
    holder ← read (λ s. held_by host t.process_key s.held)
    blocking ← read (λ s. unresolved_process host t.process_key (scheduling_snapshot [] s) s)
    first ← read (λ s. is_first t s.tickets)
    attempt t is_ours (same_target t (resolve_target t.sought)) blocking first holder

  -- The ticket as it stands when the `finally` reads it.
  unfoldable pub release_drawn : Option Ticket → Act (Unit {0})
  unfolding release
  release_drawn none = pure tt
  release_drawn (some t) = release t

  unfoldable pub release_now : ℕ → Act (Unit {0})
  unfolding release_drawn
  release_now id = do drawn ← read (λ s. ticket_of id s.tickets); release_drawn drawn

  unfoldable pub round_of : Option Ticket → Act (Unit {0})
  unfolding try_lease release_now
  round_of none = pure tt
  round_of (some t) =
      if t.is_acquired then pure tt else catch (try_lease t) (λ e. release_now t.id >> throw e)

  unfoldable pub lease_round : ℕ → Act (Unit {0})
  unfolding round_of
  lease_round id = do drawn ← read (λ s. ticket_of id s.tickets); round_of drawn

  unfoldable pub end_of : Option Ticket → Act (Unit {0})
  unfolding release
  end_of none = pure tt
  end_of (some t) = if t.is_acquired then release t else pure tt

  -- The work under the lease has ended.
  unfoldable pub end_lease : ℕ → Act (Unit {0})
  unfolding end_of
  end_lease id = do drawn ← read (λ s. ticket_of id s.tickets); end_of drawn
