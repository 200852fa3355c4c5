-- ===== src/Journal/TaskMachine.antt =====
-- The task state machine that the journal promises, apart from its tables: which moves a task may
-- make, and what holds however long the moves go on.
use hopper_pi.Prelude.{
  ◌≤◌, String, ◌≡◌, refl, Bool, true, false, ◌&&◌, not, none, some, List, [], ◌∷◌, ◌++◌, arith,
  ◌==◌, eq_iff, if◌then◌else◌, count, count-append, one,
}
use hopper_pi.Prelude.Table.{
  get, put, IsUnique, IsUnique-put, IsUnique-append, count-put, count-put-le, count_apart,
  get-append, get-put,
}
use hopper_pi.Journal.Rows.{
  State, queued, running, suspending, awaiting_user, completed, cancelled, failed, uncertain, Task,
  task_keyed,
}
use hopper_pi.Journal.Conversations.{is_root, is_underway}

-- The moves of one task, but for its start.
pub data Allowed : State → State → Type 0 where
  suspend : Allowed running suspending
  await : Allowed suspending awaiting_user
  requeue : Allowed awaiting_user queued
  act : Allowed suspending running
  continue : Allowed running queued
  complete : Allowed running completed
  cancel_queued : Allowed queued cancelled
  cancel_running : Allowed running cancelled
  cancel_suspending : Allowed suspending cancelled
  cancel_awaiting : Allowed awaiting_user cancelled
  fail_queued : Allowed queued failed
  fail_running : Allowed running failed
  doubt : (s : State) → Allowed s uncertain

abbrev pub is_underway_root : Task → Bool
is_underway_root t = is_root t && is_underway t.state

-- No root but `k` is underway.
abbrev pub NoOtherRoot : String → List Task → Type 0
NoOtherRoot k ts = count (λ t. is_underway_root t && not (t.id == k)) ts ≡ 0

abbrev pub with_state : State → Task → Task
with_state s t = record t { state = s }

abbrev pub with_cancellation : Task → Task
with_cancellation t = record t { cancellation_requested = true }

pub data TaskStep (ts us : List Task) : Type 0 where
  enter : (t : Task) → get t.id ts ≡ none → t.state ≡ queued → us ≡ ts ++ t ∷ [] → TaskStep ts us
  begin :
      (k : String) (t : Task)
      → get k ts ≡ some t
      → t.state ≡ queued
      → t.cancellation_requested ≡ false
      → (is_root t ≡ true → NoOtherRoot k ts)
      → us ≡ put k (with_state running) ts
      → TaskStep ts us
  move :
      (k : String) (t : Task) (s : State)
      → get k ts ≡ some t
      → Allowed t.state s
      → us ≡ put k (with_state s) ts
      → TaskStep ts us
  cancel : (k : String) → us ≡ put k with_cancellation ts → TaskStep ts us

pub data TaskSteps (ts : List Task) : List Task → Type 0 where
  done : TaskSteps ts ts
  step_on : {us vs : List Task} → TaskSteps ts us → TaskStep us vs → TaskSteps ts vs

pub steps_of_step : {ts us : List Task} → TaskStep ts us → TaskSteps ts us
steps_of_step s = step_on done s

pub TaskSteps-trans : {ts us vs : List Task} → TaskSteps ts us → TaskSteps us vs → TaskSteps ts vs
TaskSteps-trans p done = p
TaskSteps-trans p (step_on q s) = step_on (TaskSteps-trans p q) s

-- Identifiers are unique and at most one root task is underway.
pub record IsSerial (ts : List Task) : Type 0 where
  pub unique : IsUnique ts
  pub single : count is_underway_root ts ≤ 1

-- No allowed move takes a task that is not underway to one that is.
Allowed-underway : {s s' : State} → Allowed s s' → one (is_underway s') ≤ one (is_underway s)
Allowed-underway suspend = omega arith
Allowed-underway await = omega arith
Allowed-underway requeue = omega arith
Allowed-underway act = omega arith
Allowed-underway continue = omega arith
Allowed-underway complete = omega arith
Allowed-underway cancel_queued = omega arith
Allowed-underway cancel_running = omega arith
Allowed-underway cancel_suspending = omega arith
Allowed-underway cancel_awaiting = omega arith
Allowed-underway fail_queued = omega arith
Allowed-underway fail_running = omega arith
Allowed-underway (doubt s) = omega arith

TaskStep-IsSerial : {ts us : List Task} → TaskStep ts us → IsSerial ts → IsSerial us
TaskStep-IsSerial {ts} (enter t fresh q e) v = rw e (record {
  unique = IsUnique-append ts t fresh v.unique;
  single = ground (arith, v.single, count-append is_underway_root ts (t ∷ []));
})
TaskStep-IsSerial {ts} (begin k t g q c alone e) v = rw e (record {
  unique = IsUnique-put k (with_state running) ts (λ r. refl) v.unique;
  single = ground (
    arith,
    v.single,
    alone,
    count-put is_underway_root k (with_state running) ts t g,
    count_apart is_underway_root k ts t v.unique g (ground arith),
  );
})
TaskStep-IsSerial {ts} (move k t s g a e) v = rw e (record {
  unique = IsUnique-put k (with_state s) ts (λ r. refl) v.unique;
  single =
      ground
        (arith, v.single, Allowed-underway a, count-put is_underway_root k (with_state s) ts t g);
})
TaskStep-IsSerial {ts} (cancel k e) v = rw e (record {
  unique = IsUnique-put k with_cancellation ts (λ r. refl) v.unique;
  single =
      omega
        (arith, v.single, count-put-le is_underway_root k with_cancellation ts (λ r. omega arith));
})

pub TaskSteps-IsSerial : {ts us : List Task} → TaskSteps ts us → IsSerial ts → IsSerial us
TaskSteps-IsSerial done v = v
TaskSteps-IsSerial (step_on p s) v = TaskStep-IsSerial s (TaskSteps-IsSerial p v)

-- The outcomes, and the doubt that a crash leaves.
abbrev pub is_over : State → Bool
is_over completed = true
is_over cancelled = true
is_over failed = true
is_over uncertain = true
is_over _ = false

Allowed-over : {s s' : State} → Allowed s s' → one (is_over s) ≤ one (is_over s')
Allowed-over suspend = omega arith
Allowed-over await = omega arith
Allowed-over requeue = omega arith
Allowed-over act = omega arith
Allowed-over continue = omega arith
Allowed-over complete = omega arith
Allowed-over cancel_queued = omega arith
Allowed-over cancel_running = omega arith
Allowed-over cancel_suspending = omega arith
Allowed-over cancel_awaiting = omega arith
Allowed-over fail_queued = omega arith
Allowed-over fail_running = omega arith
Allowed-over (doubt s) = ground arith

-- Where a task is over, it is found again, and is still over.
abbrev pub StaysOver : String → List Task → Type 0
StaysOver k us = (u : Task) × (get k us ≡ some u) × (is_over u.state ≡ true)

TaskStep-over :
    {ts us : List Task}
    → TaskStep ts us
    → (k : String) (t : Task) → get k ts ≡ some t
    → is_over t.state ≡ true
    → StaysOver k us
TaskStep-over {ts} (enter x fresh q e) k t h o = (t, rw e (get-append k ts (x ∷ []) t h), o)
TaskStep-over {ts} (begin j x g q c alone e) k t h o = (
  if j == k then with_state running t else t,
  rw e (get-put k j (with_state running) ts t (λ r. refl) h),
  ground (arith, eq_iff j k),
)
TaskStep-over {ts} (move j x s g a e) k t h o = (
  if j == k then with_state s t else t,
  rw e (get-put k j (with_state s) ts t (λ r. refl) h),
  ground (arith, eq_iff j k, Allowed-over a),
)
TaskStep-over {ts} (cancel j e) k t h o = (
  if j == k then with_cancellation t else t,
  rw e (get-put k j with_cancellation ts t (λ r. refl) h),
  ground (arith, eq_iff j k),
)

pub TaskSteps-over :
    {ts us : List Task}
    → TaskSteps ts us
    → (k : String) (t : Task) → get k ts ≡ some t
    → is_over t.state ≡ true
    → StaysOver k us
TaskSteps-over done k t h o = (t, h, o)
TaskSteps-over (step_on p s) k t h o =
    let (u, g, v) = TaskSteps-over p k t h o in TaskStep-over s k u g v

-- Where cancellation was requested of a task, it stays requested.
abbrev pub StaysCancelled : String → List Task → Type 0
StaysCancelled k us = (u : Task) × (get k us ≡ some u) × (u.cancellation_requested ≡ true)

TaskStep-cancelled :
    {ts us : List Task}
    → TaskStep ts us
    → (k : String) (t : Task) → get k ts ≡ some t
    → t.cancellation_requested ≡ true
    → StaysCancelled k us
TaskStep-cancelled {ts} (enter x fresh q e) k t h o = (t, rw e (get-append k ts (x ∷ []) t h), o)
TaskStep-cancelled {ts} (begin j x g q c alone e) k t h o = (
  if j == k then with_state running t else t,
  rw e (get-put k j (with_state running) ts t (λ r. refl) h),
  ground arith,
)
TaskStep-cancelled {ts} (move j x s g a e) k t h o = (
  if j == k then with_state s t else t,
  rw e (get-put k j (with_state s) ts t (λ r. refl) h),
  ground arith,
)
TaskStep-cancelled {ts} (cancel j e) k t h o = (
  if j == k then with_cancellation t else t,
  rw e (get-put k j with_cancellation ts t (λ r. refl) h),
  ground arith,
)

pub TaskSteps-cancelled :
    {ts us : List Task}
    → TaskSteps ts us
    → (k : String) (t : Task) → get k ts ≡ some t
    → t.cancellation_requested ≡ true
    → StaysCancelled k us
TaskSteps-cancelled done k t h o = (t, h, o)
TaskSteps-cancelled (step_on p s) k t h o =
    let (u, g, v) = TaskSteps-cancelled p k t h o in TaskStep-cancelled s k u g v
