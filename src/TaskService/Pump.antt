-- ===== src/TaskService/Pump.antt =====
-- src/host/shared/task-service.ts, lines 508 to 648: one pass over the queued tasks.
-- The branches of the loop's body are functions of their own, in the source's order. A journal call
-- that throws outside of a `try` ends the pass.
use hopper_pi.Prelude.{
  suc, String, Bool, true, false, ◌&&◌, ◌||◌, not, Option, none, some, List, [], ◌∷◌, ◌++◌, map,
  ◌==◌, any, find, leb, if◌then◌else◌, is_some,
}
use hopper_pi.Prelude.Table.{get}
use hopper_pi.SharedExecution.{TargetBinding, ExecutionOwner}
use hopper_pi.Journal.Rows.{
  State, queued, failed, cancelled, interrupted, uncertain, state_eq, Task, Turn, Submission,
  Record, Payload, handed_over, RecordKind, kind_eq, Question, task_keyed, turn_keyed,
}
use hopper_pi.Journal.Database.{Db}
use hopper_pi.Journal.Turns.{start}
use hopper_pi.Journal.Settlement.{fail_queued}
use hopper_pi.Journal.Restart.{set_scheduling_block}
use hopper_pi.TaskService.{
  Options, Service, Resolution, target, unavailable, broken, Host, Act, ◌>>=◌, ◌>>◌, catch, pure,
  read, modify, journal, active_of,
}
use hopper_pi.TaskService.Snapshot.{read_scheduling_snapshot}
use hopper_pi.TaskService.Fences.{
  worker_count, coordinator_count, worker_limit, coordinator_limit, is_over_budget,
  unresolved_process, recovery_wait_reason,
}

unfoldable pub scheduling_snapshot : List String → Service → Db
scheduling_snapshot ids s =
    read_scheduling_snapshot s.db
      (map (λ a. a.task_id) s.active ++ map (λ h. h.task_id) s.held ++ ids)

is_unadmitted : String → Record → Bool
is_unadmitted task_id r =
    kind_eq r.kind RecordKind.admission && r.task_id == task_id && not (r.state == "ready")

unfoldable pub is_candidate : Task → Db → Service → Bool
unfolding is_unadmitted
is_candidate task snapshot s =
    state_eq task.state queued
    && not task.cancellation_requested
    && not (is_some (active_of task.id s.active))
    && not (any (is_unadmitted task.id) snapshot.records)

abbrev pub has_failed : State → Bool
has_failed failed = true
has_failed cancelled = true
has_failed interrupted = true
has_failed uncertain = true
has_failed _ = false

unfoldable pub has_failed_dependency : String → Db → Bool
has_failed_dependency task_id snapshot =
    any
      (λ x.
        x.task_id == task_id
        && any (λ t. t.id == x.dependency_id && has_failed t.state) snapshot.tasks)
      snapshot.dependencies

-- payload.continuationId and payload.binding
continues : String → Payload → Bool
continues turn_id (handed_over grant old action continuation binding) = continuation == turn_id
continues turn_id _ = false

handed_binding : Payload → Option TargetBinding
handed_binding (handed_over grant old action continuation binding) = binding
handed_binding _ = none

is_handoff_to : String → Record → Bool
unfolding continues
is_handoff_to turn_id r =
    kind_eq r.kind RecordKind.handoff && r.state == "completed" && continues turn_id r.payload

asked_with : String → Question → Bool
asked_with turn_id q = elim q.continuation_id [ none ↦ false | some id ↦ id == turn_id ]

owner_binding : Option Turn → Option TargetBinding
owner_binding none = none
owner_binding (some t) = elim t.owner [ none ↦ none | some o ↦ some o.binding ]

single_binding : List TargetBinding → Option TargetBinding
single_binding (b ∷ []) = some b
single_binding _ = none

submitted_binding : Submission → Option TargetBinding
unfolding single_binding
submitted_binding input = elim input.message_target [
  | some b ↦ some b
  | none ↦ single_binding input.bindings
]

-- Answers keep the document that asked, including a prior handoff.
unfoldable pub binding_for : Task → String → Db → Option TargetBinding
unfolding is_handoff_to handed_binding asked_with owner_binding submitted_binding
binding_for task turn_id snapshot = elim (find (is_handoff_to turn_id) snapshot.records) [
  | some r ↦ handed_binding r.payload
  | none ↦ elim (find (asked_with turn_id) snapshot.questions) [
    | some q ↦ owner_binding (get q.turn_id snapshot.turns)
    | none ↦ submitted_binding task.payload
  ]
]

-- active.set(taskId, { ... }) after the start.
unfoldable pub activate : String → String → Bool → Service → Service
activate task_id turn_id is_worker s = record s {
  active =
      s.active
      ++ record {
        task_id = task_id;
        serial = s.next_serial;
        turn_id = turn_id;
        process_key = none;
        is_worker = is_worker;
        is_waiting_for_children = false;
        needs_native_recovery = false;
        is_aborted = false;
      }
        ∷ [];
  next_serial = suc s.next_serial;
}

module _ (o : Options) (host : Host) where
  unfoldable pub set_block : String → Option String → Option String → Act (Unit {0})
  set_block task_id reason blocking =
      journal (set_scheduling_block host.canonical task_id reason blocking)

  unfoldable pub fail_task : String → String → String → Act (Unit {0})
  fail_task task_id turn_id reason = do journal (fail_queued task_id turn_id reason); pure tt

  -- A start that the journal refuses leaves the task queued.
  unfoldable pub begin_turn : String → String → Option ExecutionOwner → Act (Unit {0})
  unfolding set_block
  begin_turn task_id turn_id owner = do
    set_block task_id none none
    catch
        (do
          journal (start task_id turn_id owner)
          modify (activate task_id turn_id (is_some owner)))
        (λ e. pure tt)

  -- Inside the `try`: a refused block is caught, and its message is the block.
  unfoldable pub block_on : String → String → Db → Act (Unit {0})
  unfolding set_block
  block_on task_id blocking snapshot =
      catch (set_block task_id (some (recovery_wait_reason host blocking snapshot)) (some blocking))
        (λ e. set_block task_id (some (host.message e)) none)

  -- The process of the target, and the task it still waits for.
  unfoldable pub on_target :
      String → String → TargetBinding → String → Db → Option String → Act (Unit {0})
  unfolding block_on begin_turn
  on_target task_id turn_id binding generation snapshot (some id) = block_on task_id id snapshot
  on_target task_id turn_id binding generation snapshot none = begin_turn task_id turn_id (
      some (record {
        task_id = task_id;
        turn_id = turn_id;
        binding = binding;
        attachment_generation = generation;
      }))

  unfoldable pub place : String → String → TargetBinding → Db → Resolution → Act (Unit {0})
  unfolding on_target fail_task set_block
  place task_id turn_id binding snapshot (target process_key generation) = do
    blocking ← read (unresolved_process host process_key snapshot)
    on_target task_id turn_id binding generation snapshot blocking
  place task_id turn_id binding snapshot (unavailable message permanent) =
      if permanent then fail_task task_id turn_id message else set_block task_id (some message) none
  place task_id turn_id binding snapshot (broken message) = set_block task_id (some message) none

  unfoldable pub admit : String → String → Db → Option TargetBinding → Act (Unit {0})
  unfolding place begin_turn
  admit task_id turn_id snapshot none = do
    n ← read coordinator_count
    if leb (coordinator_limit o) n then pure tt else begin_turn task_id turn_id none
  admit task_id turn_id snapshot (some binding) = do
    n ← read worker_count
    if leb (worker_limit o) n
        then pure tt
        else place task_id turn_id binding snapshot (host.resolve_binding binding)

  unfoldable pub pump_turn : Task → Turn → Db → Act (Unit {0})
  unfolding fail_task admit
  pump_turn task turn snapshot =
      if is_over_budget o task.id snapshot
      then fail_task task.id turn.id "Model usage budget exhausted"
      else if has_failed_dependency task.id snapshot
      then fail_task task.id turn.id "Dependency did not complete successfully"
      else admit task.id turn.id snapshot (binding_for task turn.id snapshot)

  unfoldable pub queued_turn : String → Db → Option Turn
  queued_turn task_id snapshot =
      find (λ t. t.task_id == task_id && state_eq t.state queued) snapshot.turns

  unfoldable pub pump_task : Db → Task → Act (Unit {0})
  unfolding pump_turn
  pump_task snapshot task = do
    candidate ← read (is_candidate task snapshot)
    elim (queued_turn task.id snapshot) [
      | none ↦ pure tt
      | some turn ↦ if candidate then pump_turn task turn snapshot else pure tt
    ]

  unfoldable pub pump_tasks : Db → List Task → Act (Unit {0})
  unfolding pump_task
  pump_tasks snapshot [] = pure tt
  pump_tasks snapshot (task ∷ rest) = do pump_task snapshot task; pump_tasks snapshot rest

  is_wanted : Task → Bool
  is_wanted t = state_eq t.state queued && not t.cancellation_requested

  unfoldable pub pump : Act (Unit {0})
  unfolding is_wanted
  pump = do
    idle ← read (λ s. s.is_stopped || not (any is_wanted s.db.tasks))
    snapshot ← read (scheduling_snapshot [])
    if idle then pure tt else pump_tasks snapshot snapshot.tasks
