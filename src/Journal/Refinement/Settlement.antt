-- ===== src/Journal/Refinement/Settlement.antt =====
-- The methods of Settlement against the task machine.
use hopper_pi.Prelude.{
  ℕ, suc, length, String, ◌≡◌, ◌≢◌, refl, inl, inr, none, some, List, [], ◌∷◌, arith, Option-cases,
}
use hopper_pi.Prelude.Table.{get, put, get-put_missing}
use hopper_pi.Journal.Rows.{
  State, queued, running, suspending, awaiting_user, uncertain, Task, state_eq, state_eq_sound,
  task_keyed, turn_keyed, question_keyed,
}
use hopper_pi.Journal.Database.{Db, ok, Result-cases}
use hopper_pi.Journal.Events.{event, expect, retire_inputs}
use hopper_pi.Journal.TaskMachine.{
  TaskSteps, TaskSteps-trans, steps_of_step, cancel, complete, cancel_queued, cancel_running,
  cancel_suspending, cancel_awaiting, fail_queued, fail_running, doubt, with_state,
  with_cancellation,
}
use hopper_pi.Journal.Refinement.{Refines, stay, one_move, tasks-event}
use hopper_pi.Journal.Settlement.{
  Outcome, completes, cancels, outcome_state, settle, is_current_turn, make_uncertain, cancel_each,
  cancel_work, family,
}
use hopper_pi.Journal.Settlement

settle_at :
    (k u : String) (o : Outcome) (d d' : Db) (a : ℕ) (t : Task) (s : State)
    → get k d.tasks ≡ some t
    → t.state ≡ s
    → settle k u o d ≡ ok (a, d')
    → TaskSteps d.tasks d'.tasks
unfolding settle event retire_inputs state_eq
settle_at k u completes d d' a t running g q h = one_move complete k t g q (ground arith)
settle_at k u completes d d' a t s g q h = absurd (ground arith)
settle_at k u cancels d d' a t queued g q h = one_move cancel_queued k t g q (ground arith)
settle_at k u cancels d d' a t running g q h = one_move cancel_running k t g q (ground arith)
settle_at k u cancels d d' a t suspending g q h = one_move cancel_suspending k t g q (ground arith)
settle_at k u cancels d d' a t awaiting_user g q h = one_move cancel_awaiting k t g q (ground arith)
settle_at k u cancels d d' a t s g q h = absurd (ground arith)

settle_missing :
    (k u : String) (o : Outcome) (d d' : Db) (a : ℕ)
    → get k d.tasks ≡ none
    → settle k u o d ≢ ok (a, d')
unfolding settle
settle_missing k u o d d' a n h = ground arith

pub settle-Refines : (k u : String) (o : Outcome) → Refines (settle k u o)
settle-Refines k u o = record {
  at = λ d d' a h. elim (Option-cases (get k d.tasks)) [
    | inl n ↦ absurd (settle_missing k u o d d' a n h)
    | inr (t, g) ↦ settle_at k u o d d' a t t.state g refl h
  ];
}

pub fail_queued-Refines : (k u r : String) → Refines (Settlement.fail_queued k u r)
unfolding Settlement.fail_queued expect event
fail_queued-Refines k u r = record {
  at = λ d d' a h. elim (Option-cases (get k d.tasks)) [
    | inl n ↦ absurd (ground arith)
    | inr (t, g) ↦
        one_move fail_queued k t g (state_eq_sound t.state queued (ground arith)) (ground arith)
  ];
}

pub fail_running-Refines : (k u r : String) → Refines (Settlement.fail_running k u r)
unfolding Settlement.fail_running expect event retire_inputs
fail_running-Refines k u r = record {
  at = λ d d' a h. elim (Option-cases (get k d.tasks)) [
    | inl n ↦ absurd (ground arith)
    | inr (t, g) ↦
        one_move fail_running k t g (state_eq_sound t.state running (ground arith)) (ground arith)
  ];
}

pub make_uncertain-Refines : (k u e : String) → Refines (make_uncertain k u e)
unfolding make_uncertain event retire_inputs
make_uncertain-Refines k u e = record {
  at = λ d d' a h. elim (Option-cases (get k d.tasks)) [
    | inl n ↦
        absurd (ground (arith, get-put_missing k k (with_state uncertain) d.tasks (λ r. refl) n))
    | inr (t, g) ↦ one_move (doubt t.state) k t g refl (ground arith)
  ];
}

cancel_step :
    (id : String) (ids : List String) (d d' : Db) (a : Unit {0})
    → cancel_each (id ∷ ids) d ≡ ok (a, d')
    → (d1 : Db) × (d1.tasks ≡ put id with_cancellation d.tasks) × (cancel_each ids d1 ≡ ok (a, d'))
unfolding cancel_each
cancel_step id ids d d' a h = elim (Result-cases (event id "cancellation_requested" [] marked)) [
  | inl (e, f) ↦ absurd (ground arith)
  | inr (x, f) ↦ (x.1, tasks-event _ _ _ marked x.1 x.0 f, ground arith)
]
  where
    marked : Db
    marked = record d { tasks = put id with_cancellation d.tasks }

pub cancel_each-Refines : (ids : List String) → Refines (cancel_each ids)
unfolding cancel_each
cancel_each-Refines [] = record { at = λ d d' a h. stay (ground arith) }
cancel_each-Refines (id ∷ ids) = record {
  at = λ d d' a h.
      let (d1, e, rest) = cancel_step id ids d d' a h in
      TaskSteps-trans (steps_of_step (cancel id e)) ((cancel_each-Refines ids).at d1 d' a rest);
}

cancel_work_run :
    (k : String) (d d' : Db) (a : List String)
    → cancel_work k d ≡ ok (a, d')
    → (ids : List String) × (cancel_each ids d ≡ ok (tt, d'))
unfolding cancel_work
cancel_work_run k d d' a h = (family (suc (length d.tasks)) (k ∷ []) d.tasks, ground arith)

pub cancel_work-Refines : (k : String) → Refines (cancel_work k)
cancel_work-Refines k = record {
  at = λ d d' a h.
      let (ids, e) = cancel_work_run k d d' a h in (cancel_each-Refines ids).at d d' tt e;
}
