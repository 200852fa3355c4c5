-- ===== src/TaskService/Sound.antt =====
-- What every piece of the task service keeps: the tasks only move as the task machine allows, and
-- the limits on executions hold. The pieces are treated in the modules below.
pub mod Passes
pub mod Requests
pub mod Executions
pub mod Queues
pub mod Leases
use hopper_pi.Prelude.{
  ℕ, suc, ◌≤◌, ◌<◌, ◌+◌, String, ◌≡◌, refl, Bool, true, false, ◌&&◌, not, Option, none, some, List,
  arith, count, one, if◌then◌else◌, count-update_first-le, nat_eq, all, ltb, ◌==◌, ◌||◌, [], ◌∷◌,
}
use hopper_pi.Journal.Rows.{Task}
use hopper_pi.Journal.Database.{Db, Tx, transaction}
use hopper_pi.Journal.TaskMachine.{TaskSteps, TaskSteps-trans}
use hopper_pi.Journal.Refinement.{Refines}
use hopper_pi.Journal.Refinement.Restart.{transaction-steps}
use hopper_pi.TaskService.{
  Options, Active, Service, Failure, Outcome, returns, throws, Act, proceed, rescue, ◌>>=◌, catch,
  pure, throw, read, modify, journal, set_active, Ticket,
}
use hopper_pi.TaskService.Fences.{worker_limit, coordinator_limit}

-- A worker that counts against the limit: it neither waits for its children nor is told to stop.
abbrev pub is_engaged : Active → Bool
is_engaged a = a.is_worker && not a.is_waiting_for_children && not a.is_aborted

abbrev pub is_coordinating : Active → Bool
is_coordinating a = not a.is_worker

-- Two tickets, the first one drawn earlier, that no queue may have: the later one was acquired
-- although the earlier one waits for the same process, or both are the same ticket.
abbrev pub is_conflict : Ticket → Ticket → Bool
is_conflict t x = (x.process_key == t.process_key && x.is_acquired) || nat_eq x.id t.id

abbrev pub is_orderly : List Ticket → Bool
is_orderly [] = true
is_orderly (t ∷ rest) = all (λ x. not (is_conflict t x)) rest && is_orderly rest

-- The limits hold, a lease is only held by the head of its queue, and tickets are not drawn twice.
pub record IsWellFormed (o : Options) (s : Service) : Type 0 where
  pub workers : count is_engaged s.active ≤ worker_limit o
  pub coordinators : count is_coordinating s.active ≤ coordinator_limit o
  pub orderly : is_orderly s.tickets ≡ true
  pub drawn : all (λ t. ltb t.id s.next_serial) s.tickets ≡ true

-- A well-formed service, and the moves of the tasks since `ts`.
pub record IsSound (o : Options) (ts : List Task) (s : Service) : Type 0 where
  pub moves : TaskSteps ts s.db.tasks
  pub form : IsWellFormed o s

pub record Keeps (o : Options) {A : Type 0} (m : Act A) : Type 0 where
  pub at : (ts : List Task) (s : Service) → IsSound o ts s → IsSound o ts (m s).1

-- Tickets drawn before a serial number were drawn before the next.
pub later_drawn :
    (n : ℕ) (ts : List Ticket)
    → all (λ t. ltb t.id n) ts ≡ true
    → all (λ t. ltb t.id (suc n)) ts ≡ true
later_drawn n [] h = refl
later_drawn n (t ∷ ts) h = ground (arith, later_drawn n ts)

module _ {o : Options} where
  pub Keeps-pure : {A : Type 0} (a : A) → Keeps o (pure a)
  Keeps-pure a = record { at = λ ts s h. h }

  pub Keeps-throw : {A : Type 0} (e : Failure) → Keeps o (throw {A = A} e)
  Keeps-throw e = record { at = λ ts s h. h }

  pub proceed-IsSound :
      {A B : Type 0} (ts : List Task) (r : Outcome A × Service) (f : A → Act B)
      → IsSound o ts r.1
      → ((a : A) → Keeps o (f a))
      → IsSound o ts (proceed r f).1
  unfolding proceed
  proceed-IsSound ts (returns a, s) f h k = (k a).at ts s h
  proceed-IsSound ts (throws e, s) f h k = h

  pub rescue-IsSound :
      {A : Type 0} (ts : List Task) (r : Outcome A × Service) (f : Failure → Act A)
      → IsSound o ts r.1
      → ((e : Failure) → Keeps o (f e))
      → IsSound o ts (rescue r f).1
  unfolding rescue
  rescue-IsSound ts (returns a, s) f h k = h
  rescue-IsSound ts (throws e, s) f h k = (k e).at ts s h

  pub Keeps-bind :
      {A B : Type 0} {m : Act A} {f : A → Act B}
      → Keeps o m
      → ((a : A) → Keeps o (f a))
      → Keeps o (m >>= f)
  Keeps-bind {A} {B} {m} {f} k l = record {
    at = λ ts s h. proceed-IsSound ts (m s) f (k.at ts s h) l;
  }

  pub Keeps-catch :
      {A : Type 0} {m : Act A} {f : Failure → Act A}
      → Keeps o m
      → ((e : Failure) → Keeps o (f e))
      → Keeps o (catch m f)
  Keeps-catch {A} {m} {f} k l = record { at = λ ts s h. rescue-IsSound ts (m s) f (k.at ts s h) l }

  pub Keeps-if :
      {A : Type 0} (b : Bool) {m n : Act A} → Keeps o m → Keeps o n → Keeps o (if b then m else n)
  Keeps-if true k l = k
  Keeps-if false k l = l

  pub Keeps-read :
      {A B : Type 0} (f : Service → A) {g : A → Act B}
      → ((a : A) → Keeps o (g a))
      → Keeps o (read f >>= g)
  unfolding proceed
  Keeps-read {A} {B} f {g} k = record { at = λ ts s h. (k (f s)).at ts s h }

  pub Keeps-journal : {A : Type 0} {m : Tx A} → Refines m → Keeps o (journal m)
  unfolding journal
  Keeps-journal {A} {m} r = record {
    at = λ ts s h. record {
      moves = TaskSteps-trans h.moves (transaction-steps m r s.db);
      form = record {
        workers = h.form.workers;
        coordinators = h.form.coordinators;
        orderly = h.form.orderly;
        drawn = h.form.drawn;
      };
    };
  }

  -- A write to what no limit and no task depends on.
  pub Keeps-modify :
      {f : Service → Service}
      → ((s : Service) → (f s).db.tasks ≡ s.db.tasks)
      → ((s : Service) → (f s).active ≡ s.active)
      → ((s : Service) → (f s).tickets ≡ s.tickets)
      → ((s : Service) → (f s).next_serial ≡ s.next_serial)
      → Keeps o (modify f)
  Keeps-modify {f} d a t n = record {
    at = λ ts s h. record {
      moves = rw (d s) h.moves;
      form = record {
        workers = rw (a s) h.form.workers;
        coordinators = rw (a s) h.form.coordinators;
        orderly = rw (t s) h.form.orderly;
        drawn = rw (t s, n s) h.form.drawn;
      };
    };
  }

  -- A write to an object that engages no worker.
  pub set_active-IsSound :
      (n : ℕ) (f : Active → Active) (ts : List Task) (s : Service)
      → ((a : Active) → one (is_engaged (f a)) ≤ one (is_engaged a))
      → ((a : Active) → one (is_coordinating (f a)) ≤ one (is_coordinating a))
      → IsSound o ts s
      → IsSound o ts (set_active n f s)
  unfolding set_active
  set_active-IsSound n f ts s w c h = record {
    moves = h.moves;
    form = record {
      workers = omega (
        arith,
        h.form.workers,
        count-update_first-le is_engaged (λ a. nat_eq a.serial n) f s.active w,
      );
      coordinators = omega (
        arith,
        h.form.coordinators,
        count-update_first-le is_coordinating (λ a. nat_eq a.serial n) f s.active c,
      );
      orderly = h.form.orderly;
      drawn = h.form.drawn;
    };
  }

  -- A write to an object of `active` as an action.
  pub Keeps-set_active :
      (n : ℕ) (f : Active → Active)
      → ((a : Active) → one (is_engaged (f a)) ≤ one (is_engaged a))
      → ((a : Active) → one (is_coordinating (f a)) ≤ one (is_coordinating a))
      → Keeps o (modify (set_active n f))
  Keeps-set_active n f w c = record { at = λ ts s h. set_active-IsSound n f ts s w c h }

  -- A method of the journal whose result is put in another form.
  pub Keeps-journal_then :
      {A B : Type 0} {m : Tx A} (b : B) → Refines m → Keeps o (journal m >>= λ a. pure b)
  Keeps-journal_then b r = Keeps-bind (Keeps-journal r) (λ a. Keeps-pure b)
