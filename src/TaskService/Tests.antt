-- ===== src/TaskService/Tests.antt =====
-- The promises of the task service at a small run: a message for a Rhino document is submitted, its
-- task starts, and a native tool takes the lease of the process.
use hopper_pi.Prelude.{
  all, ◌&&◌, ◌==◌, true, ◌≤◌, refl, false, none, some, [], ◌∷◌, count, arith, String, ◌≡◌,
}
use hopper_pi.SharedExecution.{TargetBinding, rhino}
use hopper_pi.Journal.Rows.{Submission, prompt, State, queued, completed, Task, state_eq}
use hopper_pi.TaskService.Snapshot.{
  relevant, rounds, grow, member, is_seed, is_linked, is_disposed, is_root_of,
}
use hopper_pi.TaskService.Snapshot.Closed.{relevant_closed, must_be_read, is_in, implies}
use hopper_pi.Journal.Database.{Db, empty}
use hopper_pi.Journal.History.{Services, registers}
use hopper_pi.Journal.TaskMachine.{TaskSteps}
use hopper_pi.TaskService.{Options, Service, Host, target, Sought, native}
use hopper_pi.TaskService.Fences.{worker_limit, coordinator_limit}
use hopper_pi.TaskService.Steps.{
  acts, submits, requests_lease, tries_lease, run_piece, Reaches, starts, runs,
}
use hopper_pi.TaskService.Sound.{IsWellFormed}
use hopper_pi.TaskService.Promises.{
  service-IsWellFormed, service_refines_machine, lease_exclusive, is_lease_on,
}

abbrev document : TargetBinding
document = rhino "l1" "d1"

abbrev message : Submission
message = record {
  request_id = "r1";
  conversation_id = "c1";
  session_id = "s1";
  kind = prompt;
  text = "draw";
  bindings = document ∷ [];
  message_target = some document;
  attachments = [];
}

abbrev host : Host
host = record {
  resolve_binding = λ b. target "100:t" "g1";
  resolve_lifecycle = λ id. target "100:t" "g1";
  hash = λ p. "hash";
  canonical = λ fields. "fields";
  quote = λ text. text;
  message = λ e. "refused";
}

abbrev options : Options
options = record { max_workers = some 1; max_coordinators = none; max_usage = none }

abbrev fresh : Service
fresh = record {
  db = empty;
  active = [];
  held = [];
  tickets = [];
  is_stopped = false;
  next_serial = 0;
}

abbrev tool : Sought
tool =
    native
      (record { task_id = "t1"; turn_id = "u1"; binding = document; attachment_generation = "g1" })

abbrev services : Services
services = record {
  hash = λ p. "hash";
  canonical = λ fields. "";
  describe = λ e. "";
  sort = λ xs. xs;
}

abbrev registered : Service
registered = run_piece options host (acts services (registers "c1" "s1")) fresh

abbrev submitted : Service
submitted = run_piece options host (submits message "t1" "u1") registered

abbrev waiting : Service
waiting = run_piece options host (requests_lease "t1" tool) submitted

abbrev working : Service
working = run_piece options host (tries_lease 1) waiting

abbrev reached : Reaches options fresh working
reached = runs host (tries_lease 1) (
    runs host (requests_lease "t1" tool) (
      runs host (submits message "t1" "u1")
        (runs host (acts services (registers "c1" "s1")) starts)))

fresh-IsWellFormed : IsWellFormed options fresh
unfolding worker_limit coordinator_limit
fresh-IsWellFormed = record {
  workers = omega arith;
  coordinators = omega arith;
  orderly = refl;
  drawn = refl;
}

service-IsWellFormed_example : IsWellFormed options working
service-IsWellFormed_example = service-IsWellFormed options fresh working reached fresh-IsWellFormed

service_refines_machine_example : TaskSteps fresh.db.tasks working.db.tasks
service_refines_machine_example =
    service_refines_machine options fresh working reached fresh-IsWellFormed

lease_exclusive_example : count (is_lease_on "100:t") working.tickets ≤ 1
lease_exclusive_example = lease_exclusive options fresh working reached fresh-IsWellFormed "100:t"

abbrev task_with : String → State → Task
task_with id state = record {
  id = id;
  conversation_id = "c1";
  session_id = "s1";
  payload = message;
  state = state;
  parent_task_id = none;
  root_task_id = none;
  cancellation_requested = false;
}

-- A queued task and the finished one that it depends on.
abbrev dependent : Db
dependent = record empty {
  tasks = task_with "t1" completed ∷ task_with "t2" queued ∷ [];
  dependencies = record { task_id = "t2"; dependency_id = "t1" } ∷ [];
}

finds_dependency : relevant dependent [] ≡ "t1" ∷ "t2" ∷ []
unfolding relevant rounds grow member is_seed is_linked is_disposed state_eq
finds_dependency = refl

relevant_closed_example :
    let found = relevant dependent [] in
    (all (λ t. implies (must_be_read dependent [] t) (is_in t.id found)) dependent.tasks ≡ true)
    × (all
          (λ t.
            all
              (λ u. implies (is_in u.id found && is_root_of u.id t.root_task_id) (is_in t.id found))
              dependent.tasks)
          dependent.tasks
        ≡ true)
    × (all
          (λ t.
            all
              (λ u. implies (is_in u.id found && is_root_of t.id u.root_task_id) (is_in t.id found))
              dependent.tasks)
          dependent.tasks
        ≡ true)
    × (all
          (λ t.
            all
              (λ x. implies (is_in x.task_id found && x.dependency_id == t.id) (is_in t.id found))
              dependent.dependencies)
          dependent.tasks
        ≡ true)
relevant_closed_example = relevant_closed dependent []
