-- ===== src/TaskService/Sound/Executions.antt =====
-- Waits for children and the ends of executions (src/host/shared/task-service.ts, lines 270 to 313
-- and 649 to 835).
use hopper_pi.Prelude.{
  ℕ, String, ◌≡◌, refl, inl, inr, true, false, ◌||◌, not, Option, none, some, List, arith, ltb,
  Bool-cases, count_mono, count-update_first, nat_eq, count-delete_where-le, count-update_first-le,
}
use hopper_pi.SharedExecution.{TargetBinding}
use hopper_pi.Journal.Rows.{Task, Record, state_eq, suspending, task_keyed}
use hopper_pi.Journal.Database.{Db}
use hopper_pi.Journal.Settlement.{completes, cancels}
use hopper_pi.Journal.Handoffs.{HandoffResult}
use hopper_pi.Journal.Refinement.Turns.{confirm_suspension-Refines}
use hopper_pi.Journal.Refinement.Settlement.{
  settle-Refines, fail_running-Refines, make_uncertain-Refines,
}
use hopper_pi.Journal.Refinement.Others.{start_handoff_action-Refines, complete_handoff-Refines}
use hopper_pi.TaskService.{
  Options, Active, Service, Host, Failure, no_such_task, Outcome, returns, throws, set_active,
}
use hopper_pi.TaskService.Fences.{worker_count, worker_limit, is_worker_at_work}
use hopper_pi.TaskService.Pump.{scheduling_snapshot}
use hopper_pi.TaskService.Executions.{
  Course, over, handing_over, Ending, object, wait_as, wait_for_children, resume_object,
  resume_worker, leave, doubt, suspend, settle_plainly, settle_known, settle_ending, take_course,
  doubt_object, leave_if_over, conclude, complete, fail_action, act_on, conclude_handoff,
  afterwards, is_unknown,
}
use hopper_pi.TaskService.Sound.{
  is_engaged, is_coordinating, IsSound, Keeps, Keeps-pure, Keeps-throw, Keeps-bind, Keeps-catch,
  Keeps-if, Keeps-read, Keeps-journal_then, Keeps-set_active, proceed-IsSound,
}
use hopper_pi.TaskService.Sound.Passes.{pump-Keeps}

module _ (o : Options) (host : Host) where
  wait_as-Keeps : (a : Option Active) (k : String) (d : Db) → Keeps o (wait_as o host a k d)
  unfolding wait_as
  wait_as-Keeps none k d = Keeps-throw _
  wait_as-Keeps (some a) k d = Keeps-if _ (Keeps-throw _) (
      Keeps-if _
        (Keeps-bind (Keeps-set_active a.serial _ (λ x. ground arith) (λ x. omega arith))
          (λ u. Keeps-bind (pump-Keeps o host) (λ v. Keeps-pure true)))
        (Keeps-pure false))

  pub wait_for_children-Keeps : (k : String) → Keeps o (wait_for_children o host k)
  unfolding wait_for_children
  wait_for_children-Keeps k =
      Keeps-read _ (λ a. Keeps-read (scheduling_snapshot _) (λ d. wait_as-Keeps a k d))

  abbrev no_wait : Active → Active
  no_wait a = record a { is_waiting_for_children = false }

  -- An aborted object does not count; another one takes the room there is.
  resumed-IsSound :
      (n : ℕ) (a : Active) (ts : List Task) (s : Service)
      → object n s.active ≡ some a
      → (a.is_aborted || ltb (worker_count s) (worker_limit o)) ≡ true
      → IsSound o ts s
      → IsSound o ts (set_active n no_wait s)
  unfolding set_active object worker_count is_worker_at_work
  resumed-IsSound n a ts s g b h = record {
    moves = h.moves;
    form = record {
      workers = ground (
        arith,
        h.form.workers,
        count-update_first is_engaged (λ x. nat_eq x.serial n) no_wait s.active a,
        count_mono is_engaged is_worker_at_work s.active (λ x. ground arith),
      );
      coordinators = omega (
        arith,
        h.form.coordinators,
        count-update_first-le is_coordinating (λ x. nat_eq x.serial n) no_wait s.active
            (λ x. omega arith),
      );
      orderly = h.form.orderly;
      drawn = h.form.drawn;
    };
  }

  resume_object-IsSound :
      (n : ℕ) (x : Option Active) (ts : List Task) (s : Service)
      → object n s.active ≡ x
      → IsSound o ts s
      → IsSound o ts (resume_object o host n x s)
  unfolding resume_object
  resume_object-IsSound n none ts s g h = h
  resume_object-IsSound n (some a) ts s g h =
      elim (Bool-cases (a.is_aborted || ltb (worker_count s) (worker_limit o))) [
        | inl b ↦ rw b (resumed-IsSound n a ts s g b h)
        | inr b ↦ rw b h
      ]

  pub resume_worker-Keeps : (n : ℕ) → Keeps o (resume_worker o host n)
  unfolding resume_worker
  resume_worker-Keeps n = record {
    at = λ ts s h. resume_object-IsSound n (object n s.active) ts s refl h;
  }

  pub leave-Keeps : (k : String) → Keeps o (leave o host k)
  unfolding leave
  leave-Keeps k =
      Keeps-bind
        (record {
          at = λ ts s h. record {
            moves = h.moves;
            form = record {
              workers = omega (arith, h.form.workers, count-delete_where-le is_engaged _ s.active);
              coordinators =
                  omega
                    (arith, h.form.coordinators, count-delete_where-le is_coordinating _ s.active);
              orderly = h.form.orderly;
              drawn = h.form.drawn;
            };
          };
        })
        (λ u. pump-Keeps o host)

  doubt-Keeps : (k u e : String) → Keeps o (doubt o host k u e)
  unfolding doubt
  doubt-Keeps k u e = Keeps-journal_then over (make_uncertain-Refines k u e)

  suspend-Keeps : (k u v : String) (r : Option Record) → Keeps o (suspend o host k u v r)
  unfolding suspend
  suspend-Keeps k u v none = Keeps-journal_then over (confirm_suspension-Refines k u)
  suspend-Keeps k u v (some r) =
      Keeps-journal_then handing_over (start_handoff_action-Refines k u r.id v)

  settle_plainly-Keeps : (k u : String) (e : Option String) → Keeps o (settle_plainly o host k u e)
  unfolding settle_plainly
  settle_plainly-Keeps k u (some e) = Keeps-journal_then over (fail_running-Refines k u e)
  settle_plainly-Keeps k u none = Keeps-journal_then over (settle-Refines k u completes)

  settle_known-Keeps :
      (k u : String) (e : Ending) (d : Db) (v : String) (a : Option Active) (t : Option Task)
      → Keeps o (settle_known o host k u e d v a t)
  unfolding settle_known
  settle_known-Keeps k u e d v a none =
      Keeps-if _ (Keeps-journal_then over (settle-Refines k u cancels)) (Keeps-throw no_such_task)
  settle_known-Keeps k u e d v a (some t) =
      Keeps-if _ (Keeps-journal_then over (settle-Refines k u cancels)) (
        Keeps-if (state_eq t.state suspending) (suspend-Keeps k u v _)
          (settle_plainly-Keeps k u e.failure))

  settle_ending-Keeps :
      (k u : String) (e : Ending) (d : Db) (v : String) (a : Option Active)
      → Keeps o (settle_ending o host k u e d v a)
  unfolding settle_ending
  settle_ending-Keeps k u e d v a =
      Keeps-if (not e.is_clean || is_unknown u d) (doubt-Keeps k u e.evidence)
        (settle_known-Keeps k u e d v a _)

  take_course-Keeps : (n : ℕ) (v : String) (c : Course) → Keeps o (take_course o host n v c)
  unfolding take_course
  take_course-Keeps n v over = Keeps-pure over
  take_course-Keeps n v handing_over =
      Keeps-bind (Keeps-set_active n _ (λ a. omega arith) (λ a. omega arith))
        (λ x. Keeps-bind (pump-Keeps o host) (λ y. Keeps-pure handing_over))

  doubt_object-Keeps : (k u : String) (n : ℕ) (e : Failure) → Keeps o (doubt_object o host k u n e)
  unfolding doubt_object
  doubt_object-Keeps k u n e = Keeps-read _ (λ a. doubt-Keeps k _ _)

  leave_if_over-IsSound :
      (k : String) (ts : List Task) (r : Outcome Course × Service)
      → IsSound o ts r.1
      → IsSound o ts (leave_if_over o host k r).1
  unfolding leave_if_over afterwards
  leave_if_over-IsSound k ts (returns handing_over, s) h = h
  leave_if_over-IsSound k ts (returns over, s) h =
      proceed-IsSound ts _ _ ((leave-Keeps k).at ts s h) (λ u. Keeps-pure over)
  leave_if_over-IsSound k ts (throws e, s) h =
      proceed-IsSound ts _ _ ((leave-Keeps k).at ts s h) (λ u. Keeps-throw e)

  pub conclude-Keeps :
      (k u : String) (n : ℕ) (e : Ending) (v : String) → Keeps o (conclude o host k u n e v)
  unfolding conclude
  conclude-Keeps k u n e v = record {
    at = λ ts s h. leave_if_over-IsSound k ts _ (
        (Keeps-catch
            (Keeps-bind (settle_ending-Keeps k u e _ v (object n s.active)) (take_course-Keeps n v))
            (doubt_object-Keeps k u n)).at
          ts s h);
  }

  complete-Keeps :
      (k v x : String) (r : HandoffResult) (u : String) → Keeps o (complete o host k v x r u)
  unfolding complete
  complete-Keeps k v x r u = Keeps-journal_then over (complete_handoff-Refines k v x r u)

  fail_action-Keeps :
      (k v : String) (n : ℕ) (x : String) (b : Option TargetBinding) (u e : String)
      → Keeps o (fail_action o host k v n x b u e)
  unfolding fail_action
  fail_action-Keeps k v n x b u e = record {
    at = λ ts s h.
        (Keeps-if _ (doubt-Keeps k v e) (
            Keeps-if _ (Keeps-journal_then over (settle-Refines k v cancels))
              (complete-Keeps k v x _ u))).at
          ts s h;
  }

  act_on-Keeps :
      (k v : String) (n : ℕ) (x : String) (b : Option TargetBinding) (u : String)
      (r : Option HandoffResult) (e : String)
      → Keeps o (act_on o host k v n x b u r e)
  unfolding act_on
  act_on-Keeps k v n x b u none e = fail_action-Keeps k v n x b u e
  act_on-Keeps k v n x b u (some r) e =
      Keeps-catch (complete-Keeps k v x r u) (λ f. fail_action-Keeps k v n x b u _)

  pub conclude_handoff-Keeps :
      (k v : String) (n : ℕ) (x : String) (b : Option TargetBinding) (u : String)
      (r : Option HandoffResult) (e : String)
      → Keeps o (conclude_handoff o host k v n x b u r e)
  unfolding conclude_handoff
  conclude_handoff-Keeps k v n x b u r e = record {
    at = λ ts s h.
        leave_if_over-IsSound k ts _
          ((Keeps-catch (act_on-Keeps k v n x b u r e) (doubt_object-Keeps k v n)).at ts s h);
  }
