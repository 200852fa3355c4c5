-- ===== src/TaskService/Sound/Passes.antt =====
-- A pass over the queue (src/host/shared/task-service.ts, lines 508 to 648).
use hopper_pi.Prelude.{
  ℕ, ◌<◌, String, Bool, true, false, Option, none, some, List, [], ◌∷◌, arith, if◌then◌else◌, leb,
  count-append, count_mono, Bool-cases, inl, inr, is_some,
}
use hopper_pi.SharedExecution.{TargetBinding, ExecutionOwner}
use hopper_pi.Journal.Rows.{Task, Turn}
use hopper_pi.Journal.Database.{Db, Tx}
use hopper_pi.Journal.Turns.{start}
use hopper_pi.Journal.Refinement.{KeepsTasks-Refines}
use hopper_pi.Journal.Refinement.Turns.{start-Refines}
use hopper_pi.Journal.Refinement.Settlement.{fail_queued-Refines}
use hopper_pi.Journal.Refinement.Restart.{set_scheduling_block-KeepsTasks}
use hopper_pi.TaskService.{
  Options, Service, Host, Outcome, returns, throws, Resolution, target, unavailable, broken, Act,
  proceed, rescue, journal, modify, catch, ◌>>=◌, pure,
}
use hopper_pi.TaskService.Fences.{
  worker_limit, coordinator_limit, worker_count, coordinator_count, is_worker_at_work,
  unresolved_process, is_over_budget,
}
use hopper_pi.TaskService.Pump.{
  activate, set_block, fail_task, begin_turn, block_on, on_target, place, admit, pump_turn,
  pump_task, pump_tasks, pump, has_failed_dependency, queued_turn, scheduling_snapshot,
  is_candidate,
}
use hopper_pi.TaskService.Sound.{
  is_engaged, is_coordinating, IsSound, later_drawn, Keeps, Keeps-pure, Keeps-bind, Keeps-catch,
  Keeps-if, Keeps-read, Keeps-journal,
}

module _ (o : Options) (host : Host) where
  pub set_block-Keeps : (k : String) (r b : Option String) → Keeps o (set_block o host k r b)
  unfolding set_block
  set_block-Keeps k r b =
      Keeps-journal (KeepsTasks-Refines (set_scheduling_block-KeepsTasks host.canonical k r b))

  fail_task-Keeps : (k u r : String) → Keeps o (fail_task o host k u r)
  unfolding fail_task
  fail_task-Keeps k u r =
      Keeps-bind (Keeps-journal (fail_queued-Refines k u r)) (λ n. Keeps-pure tt)

  block_on-Keeps : (k b : String) (d : Db) → Keeps o (block_on o host k b d)
  unfolding block_on
  block_on-Keeps k b d = Keeps-catch (set_block-Keeps k _ _) (λ e. set_block-Keeps k _ _)

  -- There is room for one more execution of the kind.
  abbrev HasRoom : Bool → Service → Type 0
  HasRoom true s = worker_count s < worker_limit o
  HasRoom false s = coordinator_count s < coordinator_limit o

  activate-IsSound :
      (k u : String) (w : Bool) (ts : List Task) (s : Service)
      → HasRoom w s
      → IsSound o ts s
      → IsSound o ts (activate k u w s)
  unfolding activate worker_count coordinator_count is_worker_at_work
  activate-IsSound k u true ts s r h = record {
    moves = h.moves;
    form = record {
      workers = omega (
        arith,
        r,
        count-append is_engaged s.active _,
        count_mono is_engaged is_worker_at_work s.active (λ a. ground arith),
      );
      coordinators = omega (arith, h.form.coordinators, count-append is_coordinating s.active _);
      orderly = h.form.orderly;
      drawn = later_drawn s.next_serial s.tickets h.form.drawn;
    };
  }
  activate-IsSound k u false ts s r h = record {
    moves = h.moves;
    form = record {
      workers = omega (arith, h.form.workers, count-append is_engaged s.active _);
      coordinators = omega (arith, r, count-append is_coordinating s.active _);
      orderly = h.form.orderly;
      drawn = later_drawn s.next_serial s.tickets h.form.drawn;
    };
  }

  HasRoom-journal :
      {A : Type 0} (w : Bool) (m : Tx A) (s : Service) → HasRoom w s → HasRoom w (journal m s).1
  unfolding journal worker_count coordinator_count
  HasRoom-journal true m s r = r
  HasRoom-journal false m s r = r

  started-IsSound :
      (k u : String) (w : Bool) (ts : List Task) (r : Outcome ℕ × Service)
      → HasRoom w r.1
      → IsSound o ts r.1
      → IsSound o ts (rescue (proceed r (λ n. modify (activate k u w))) (λ e. pure tt)).1
  unfolding proceed rescue
  started-IsSound k u w ts (returns n, s) r h = activate-IsSound k u w ts s r h
  started-IsSound k u w ts (throws e, s) r h = h

  unblocked-IsSound :
      (k u : String) (owner : Option ExecutionOwner) (ts : List Task)
      (r : Outcome (Unit {0}) × Service)
      → HasRoom (is_some owner) r.1
      → IsSound o ts r.1
      → IsSound o ts
          (proceed r (λ x.
            catch
              (journal (start k u owner) >>= λ n. modify (activate k u (is_some owner)))
              (λ e. pure tt))).1
  unfolding proceed
  unblocked-IsSound k u owner ts (returns x, s) r h =
      started-IsSound k u (is_some owner) ts (journal (start k u owner) s)
        (HasRoom-journal (is_some owner) (start k u owner) s r)
        ((Keeps-journal (start-Refines k u owner)).at ts s h)
  unblocked-IsSound k u owner ts (throws e, s) r h = h

  begin_turn-IsSound :
      (k u : String) (owner : Option ExecutionOwner) (ts : List Task) (s : Service)
      → HasRoom (is_some owner) s
      → IsSound o ts s
      → IsSound o ts (begin_turn o host k u owner s).1
  unfolding begin_turn set_block
  begin_turn-IsSound k u owner ts s r h =
      unblocked-IsSound k u owner ts (set_block o host k none none s)
        (HasRoom-journal (is_some owner) _ s r) ((set_block-Keeps k none none).at ts s h)

  target-IsSound :
      (k u g : String) (b : TargetBinding) (d : Db) (x : Option String) (ts : List Task)
      (s : Service)
      → HasRoom true s
      → IsSound o ts s
      → IsSound o ts (on_target o host k u b g d x s).1
  unfolding on_target
  target-IsSound k u g b d (some id) ts s r h = (block_on-Keeps k id d).at ts s h
  target-IsSound k u g b d none ts s r h = begin_turn-IsSound k u (some _) ts s r h

  place-IsSound :
      (k u : String) (b : TargetBinding) (d : Db) (x : Resolution) (ts : List Task) (s : Service)
      → HasRoom true s
      → IsSound o ts s
      → IsSound o ts (place o host k u b d x s).1
  unfolding place proceed
  place-IsSound k u b d (target p g) ts s r h =
      target-IsSound k u g b d (unresolved_process host p d s) ts s r h
  place-IsSound k u b d (unavailable m p) ts s r h =
      (Keeps-if p (fail_task-Keeps k u m) (set_block-Keeps k _ _)).at ts s h
  place-IsSound k u b d (broken m) ts s r h = (set_block-Keeps k _ _).at ts s h

  -- An action that is taken only where a limit leaves room.
  within-IsSound :
      (n limit : ℕ) (m : Act (Unit {0})) (ts : List Task) (s : Service)
      → (n < limit → IsSound o ts (m s).1)
      → IsSound o ts s
      → IsSound o ts ((if leb limit n then pure tt else m) s).1
  within-IsSound n limit m ts s k h = elim (Bool-cases (leb limit n)) [
    | inl e ↦ rw e h
    | inr e ↦ rw e (k (ground arith))
  ]

  admit-Keeps : (k u : String) (d : Db) (b : Option TargetBinding) → Keeps o (admit o host k u d b)
  unfolding admit proceed
  admit-Keeps k u d none = record {
    at = λ ts s h.
        within-IsSound (coordinator_count s) (coordinator_limit o) _ ts s
          (λ r. begin_turn-IsSound k u none ts s r h) h;
  }
  admit-Keeps k u d (some b) = record {
    at = λ ts s h.
        within-IsSound (worker_count s) (worker_limit o) _ ts s
          (λ r. place-IsSound k u b d (host.resolve_binding b) ts s r h) h;
  }

  pump_turn-Keeps : (t : Task) (u : Turn) (d : Db) → Keeps o (pump_turn o host t u d)
  unfolding pump_turn
  pump_turn-Keeps t u d = Keeps-if (is_over_budget o t.id d) (fail_task-Keeps t.id u.id _) (
      Keeps-if (has_failed_dependency t.id d) (fail_task-Keeps t.id u.id _)
        (admit-Keeps t.id u.id d _))

  pump_task-Keeps : (d : Db) (t : Task) → Keeps o (pump_task o host d t)
  unfolding pump_task
  pump_task-Keeps d t = Keeps-read (is_candidate t d) (λ c.
      elim (queued_turn o host t.id d)
        as (λ x.
          Keeps o
            (elim x [ none ↦ pure tt | some u ↦ if c then pump_turn o host t u d else pure tt ])) [
              | none ↦ Keeps-pure tt
              | some u ↦ Keeps-if c (pump_turn-Keeps t u d) (Keeps-pure tt)
            ])

  pump_tasks-Keeps : (d : Db) (ts : List Task) → Keeps o (pump_tasks o host d ts)
  unfolding pump_tasks
  pump_tasks-Keeps d [] = Keeps-pure tt
  pump_tasks-Keeps d (t ∷ ts) = Keeps-bind (pump_task-Keeps d t) (λ u. pump_tasks-Keeps d ts)

  pub pump-Keeps : Keeps o (pump o host)
  unfolding pump
  pump-Keeps = Keeps-read _ (λ idle.
      Keeps-read (scheduling_snapshot [])
        (λ d. Keeps-if idle (Keeps-pure tt) (pump_tasks-Keeps d d.tasks)))
