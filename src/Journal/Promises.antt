-- ===== src/Journal/Promises.antt =====
-- What the task journal (src/host/shared/journal.ts) promises to the host that drives it.
use hopper_pi.Prelude.{
  ℕ, String, ◌≡◌, ◌≢◌, refl, true, false, Option, Option-cases, some, List, [], ◌∷◌, arith, Bool,
  any, ◌==◌, ◌&&◌, eq_refl, inl, inr,
}
use hopper_pi.Prelude.Table.{get, get-put, IsUnique}
use hopper_pi.SharedExecution.{ExecutionOwner}
use hopper_pi.Journal.Rows.{
  Operation, OperationState, Task, completed, state_eq, task_keyed, turn_keyed, operation_keyed,
}
use hopper_pi.Journal.Database.{Db, ok}
use hopper_pi.Journal.Events.{event, expect, unresolved_turn, is_unresolved, retire_inputs}
use hopper_pi.Journal.Requests.{request_keyed}
use hopper_pi.Journal.Turns.{start}
use hopper_pi.Journal.Settlement.{settle, completes}
use hopper_pi.Journal.Restart.{recover_running, running_turns}
use hopper_pi.Journal.Restart.Loop.{Every, has_task, is_in_doubt, recover_turns_lem}
use hopper_pi.Journal.TaskMachine.{
  IsSerial, TaskSteps-IsSerial, is_over, TaskSteps-over, TaskSteps-cancelled,
}
use hopper_pi.Journal.Lasting.{is_open}
use hopper_pi.Journal.Lasting.Always.{history-Goes}
use hopper_pi.Journal.History.{Services, Call, history, history-steps}

-- Whatever is called, in whatever order: if task identifiers are unique and at most one root task is
-- running, suspending or awaiting its user, then so it is after the calls.
pub history-IsSerial :
    (v : Services) (cs : List Call) (d : Db) → IsSerial d.tasks → IsSerial (history v cs d).tasks
history-IsSerial v cs d h = TaskSteps-IsSerial (history-steps v cs d) h

start_of_over :
    (k u : String) (o : Option ExecutionOwner) (d d' : Db) (n : ℕ) (t : Task)
    → get k d.tasks ≡ some t
    → is_over t.state ≡ true
    → start k u o d ≢ ok (n, d')
unfolding start expect state_eq
start_of_over k u o d d' n t g h = ground arith

-- A task that was completed, cancelled, failed or left uncertain is never started again, whatever is
-- called in between, for any turn and any owner.
pub over_never_starts :
    (v : Services) (cs : List Call) (d d' : Db) (k u : String) (o : Option ExecutionOwner) (n : ℕ)
    (t : Task)
    → get k d.tasks ≡ some t
    → is_over t.state ≡ true
    → start k u o (history v cs d) ≢ ok (n, d')
over_never_starts v cs d d' k u o n t g h =
    let (x, f, e) = TaskSteps-over (history-steps v cs d) k t g h in
    start_of_over k u o (history v cs d) d' n x f e

start_of_cancelled :
    (k u : String) (o : Option ExecutionOwner) (d d' : Db) (n : ℕ) (t : Task)
    → get k d.tasks ≡ some t
    → t.cancellation_requested ≡ true
    → start k u o d ≢ ok (n, d')
unfolding start expect
start_of_cancelled k u o d d' n t g h = ground arith

-- A task of which cancellation was requested is never started afterwards, whatever is called in
-- between, for any turn and any owner.
pub cancelled_never_starts :
    (v : Services) (cs : List Call) (d d' : Db) (k u : String) (o : Option ExecutionOwner) (n : ℕ)
    (t : Task)
    → get k d.tasks ≡ some t
    → t.cancellation_requested ≡ true
    → start k u o (history v cs d) ≢ ok (n, d')
cancelled_never_starts v cs d d' k u o n t g h =
    let (x, f, e) = TaskSteps-cancelled (history-steps v cs d) k t g h in
    start_of_cancelled k u o (history v cs d) d' n x f e

-- Where turn identifiers are unique and every running turn has its task, the recovery of running
-- turns succeeds; then no turn is running, and the task of each turn that was is uncertain.
pub recover_running_lem :
    (d : Db)
    → IsUnique d.turns
    → Every (has_task d.tasks) (running_turns d.turns)
    → (d' : Db) × (recover_running d ≡ ok (tt, d'))
      × (running_turns d'.turns ≡ [])
      × Every (is_in_doubt d'.tasks) (running_turns d.turns)
unfolding recover_running
recover_running_lem d u e =
    let (d', ends) = recover_turns_lem (running_turns d.turns) d u refl e in
    (d', ends.runs, ends.none_running, ends.in_doubt)

-- The outcomes that are known: the effect took place, failed, or was called off.
abbrev pub has_certain_outcome : Operation → Bool
has_certain_outcome o = elim o.state [
  | OperationState.completed ↦ true
  | OperationState.failed ↦ true
  | OperationState.cancelled ↦ true
  | _ ↦ false
]

any-get :
    (p : Operation → Bool) (id : String) (os : List Operation) (o : Operation)
    → any p os ≡ false
    → get id os ≡ some o
    → p o ≡ false
unfolding get
any-get p id [] o a g = ground arith
any-get p id (x ∷ os) o a g = ground (arith, any-get p id os o)

certain :
    (o : Operation) (s : OperationState)
    → o.state ≡ s
    → is_unresolved s ≡ false
    → has_certain_outcome o ≡ true
certain o OperationState.dispatched e h = ground arith
certain o OperationState.completed e h = rw e refl
certain o OperationState.failed e h = rw e refl
certain o OperationState.cancelled e h = rw e refl
certain o OperationState.uncertain e h = ground arith

certain_closes :
    (o : Operation) (s : OperationState)
    → o.state ≡ s
    → is_unresolved s ≡ false
    → is_open o.state ≡ false
certain_closes o OperationState.dispatched e h = ground arith
certain_closes o OperationState.completed e h = rw e refl
certain_closes o OperationState.failed e h = rw e refl
certain_closes o OperationState.cancelled e h = rw e refl
certain_closes o OperationState.uncertain e h = ground arith

settled_operations :
    (k u : String) (d d' : Db) (n : ℕ)
    → settle k u completes d ≡ ok (n, d')
    → (any (λ o. o.turn_id == u && is_unresolved o.state) d.operations ≡ false)
      × (d'.operations ≡ d.operations)
unfolding settle event retire_inputs unresolved_turn
settled_operations k u d d' n h = (ground arith, ground arith)

settled_task :
    (k u : String) (d d' : Db) (n : ℕ)
    → settle k u completes d ≡ ok (n, d')
    → (t : Task) × (get k d'.tasks ≡ some t) × (t.state ≡ completed)
unfolding settle event retire_inputs
settled_task k u d d' n h = elim (Option-cases (get k d.tasks)) [
  | inl e ↦ absurd (ground arith)
  | inr (t, e) ↦ (
    record t { state = completed },
    ground (
      arith,
      eq_refl k,
      get-put k k (λ (x : Task). record x { state = completed }) d.tasks t (λ x. refl) e,
    ),
    refl,
  )
]

-- When `settle` completes a task, each operation of the turn has an outcome that is certain, and it
-- keeps that outcome whatever modelled methods are called afterwards; and the task stays over.
pub settle_completes :
    (v : Services) (cs : List Call) (k u : String) (d d' : Db) (n : ℕ)
    → settle k u completes d ≡ ok (n, d')
    → ((id : String) (o : Operation)
        → get id d.operations ≡ some o
        → o.turn_id ≡ u
        → (has_certain_outcome o ≡ true) × (get id (history v cs d').operations ≡ some o))
      × ((t : Task) × (get k (history v cs d').tasks ≡ some t) × (is_over t.state ≡ true))
settle_completes v cs k u d d' n h =
    let (none_open, same) = settled_operations k u d d' n h in
    let (t, g, s) = settled_task k u d d' n h in
    (
      λ id o f e.
          let known : is_unresolved o.state ≡ false = ground (
            arith,
            any-get (λ o. o.turn_id == u && is_unresolved o.state) id d.operations o none_open f,
            e,
            eq_refl u,
          ) in
          (
            certain o o.state refl known,
            (history-Goes v cs d').outcomes id o (rw same f) (certain_closes o o.state refl known),
          ),
      TaskSteps-over (history-steps v cs d') k t g (rw s refl),
    )
