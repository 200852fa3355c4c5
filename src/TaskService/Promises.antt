-- ===== src/TaskService/Promises.antt =====
-- What the task service promises, whatever pieces run and in whatever order.
use hopper_pi.Prelude.{
  ◌≤◌, String, ◌≡◌, Bool, true, ◌&&◌, not, ◌==◌, eq_iff, List, [], ◌∷◌, arith, count, all,
}
use hopper_pi.Journal.Rows.{Task, task_keyed}
use hopper_pi.Journal.History.{perform-steps}
use hopper_pi.Journal.TaskMachine.{TaskSteps, TaskSteps-trans, done}
use hopper_pi.TaskService.{Options, Service, Host, Ticket}
use hopper_pi.TaskService.Steps.{
  Piece, pumps, acts, submits, delegates, answers, cancels, cancels_one, stops, releases, waits,
  resumes, concludes, concludes_handoff, requests_lease, tries_lease, ends_lease, run_piece,
  Reaches, starts, runs,
}
use hopper_pi.TaskService.Sound.{IsSound, IsWellFormed, is_orderly, is_conflict}
use hopper_pi.TaskService.Sound.Passes.{pump-Keeps}
use hopper_pi.TaskService.Sound.Requests.{
  submit-Keeps, delegate_to-Keeps, answer_question-Keeps, request_cancel-Keeps, cancel_one-Keeps,
  stop-Keeps, release_recovered-Keeps,
}
use hopper_pi.TaskService.Sound.Executions.{
  wait_for_children-Keeps, resume_worker-Keeps, conclude-Keeps, conclude_handoff-Keeps,
}
use hopper_pi.TaskService.Sound.Leases.{request_lease-Keeps, lease_round-Keeps, end_lease-Keeps}

module _ (o : Options) where
  run_piece-IsSound :
      (host : Host) (p : Piece) (ts : List Task) (s : Service)
      → IsSound o ts s
      → IsSound o ts (run_piece o host p s)
  unfolding run_piece
  run_piece-IsSound host pumps ts s h = (pump-Keeps o host).at ts s h
  run_piece-IsSound host (acts v c) ts s h = record {
    moves = TaskSteps-trans h.moves (perform-steps v c s.db);
    form = record {
      workers = h.form.workers;
      coordinators = h.form.coordinators;
      orderly = h.form.orderly;
      drawn = h.form.drawn;
    };
  }
  run_piece-IsSound host (submits x k u) ts s h = (submit-Keeps o host x k u).at ts s h
  run_piece-IsSound host (delegates x p ds k u) ts s h =
      (delegate_to-Keeps o host x p ds k u).at ts s h
  run_piece-IsSound host (answers r q t u) ts s h = (answer_question-Keeps o host r q t u).at ts s h
  run_piece-IsSound host (cancels k) ts s h = (request_cancel-Keeps o host k).at ts s h
  run_piece-IsSound host (cancels_one k) ts s h = (cancel_one-Keeps o host k).at ts s h
  run_piece-IsSound host stops ts s h = (stop-Keeps o host).at ts s h
  run_piece-IsSound host (releases k) ts s h = (release_recovered-Keeps o host k).at ts s h
  run_piece-IsSound host (waits k) ts s h = (wait_for_children-Keeps o host k).at ts s h
  run_piece-IsSound host (resumes n) ts s h = (resume_worker-Keeps o host n).at ts s h
  run_piece-IsSound host (concludes k u n e v) ts s h = (conclude-Keeps o host k u n e v).at ts s h
  run_piece-IsSound host (concludes_handoff k u n x b v r t) ts s h =
      (conclude_handoff-Keeps o host k u n x b v r t).at ts s h
  run_piece-IsSound host (requests_lease k x) ts s h = (request_lease-Keeps o host k x).at ts s h
  run_piece-IsSound host (tries_lease n) ts s h = (lease_round-Keeps o host n).at ts s h
  run_piece-IsSound host (ends_lease n) ts s h = (end_lease-Keeps o host n).at ts s h

  Reaches-IsSound :
      (ts : List Task) {s t : Service} → Reaches o s t → IsSound o ts s → IsSound o ts t
  Reaches-IsSound ts starts h = h
  Reaches-IsSound ts (runs {t} host p r) h = run_piece-IsSound host p ts t (Reaches-IsSound ts r h)

  -- In whatever order the pieces of the service run, and whatever they throw, a service that is
  -- well formed stays so: no more executions of either kind run than the options allow (the workers
  -- that neither wait for their children nor have been told to stop, and the executions without a
  -- document), no ticket is acquired while an earlier one waits for the same process, and no ticket
  -- is drawn twice.
  pub service-IsWellFormed : (s t : Service) → Reaches o s t → IsWellFormed o s → IsWellFormed o t
  service-IsWellFormed s t r h =
      (Reaches-IsSound s.db.tasks r (record { moves = done; form = h })).form

  -- Whatever pieces of a well-formed service run, in whatever order, its tasks move on the tables
  -- only as the machine of task states allows.
  pub service_refines_machine :
      (s t : Service) → Reaches o s t → IsWellFormed o s → TaskSteps s.db.tasks t.db.tasks
  service_refines_machine s t r h =
      (Reaches-IsSound s.db.tasks r (record { moves = done; form = h })).moves

abbrev pub is_lease_on : String → Ticket → Bool
is_lease_on p x = x.process_key == p && x.is_acquired

no_lease_behind :
    (p : String) (t : Ticket) (xs : List Ticket)
    → (t.process_key == p) ≡ true
    → all (λ x. not (is_conflict t x)) xs ≡ true
    → count (is_lease_on p) xs ≡ 0
no_lease_behind p t [] e h = omega arith
no_lease_behind p t (x ∷ xs) e h = ground (arith, eq_iff t.process_key p, no_lease_behind p t xs)

is_orderly-single :
    (p : String) (xs : List Ticket) → is_orderly xs ≡ true → count (is_lease_on p) xs ≤ 1
is_orderly-single p [] h = omega arith
is_orderly-single p (x ∷ xs) h = ground (arith, is_orderly-single p xs, no_lease_behind p x xs)

-- Whatever pieces of a well-formed service run, in whatever order, at most one lease of a Rhino
-- process is held at a time.
pub lease_exclusive :
    (o : Options) (s t : Service)
    → Reaches o s t
    → IsWellFormed o s
    → (p : String) → count (is_lease_on p) t.tickets ≤ 1
lease_exclusive o s t r h p = is_orderly-single p t.tickets (service-IsWellFormed o s t r h).orderly
