-- ===== src/Journal/Refinement/Restart.antt =====
-- The methods of Restart against the task machine.
use hopper_pi.Prelude.{
  String, ◌≡◌, refl, inl, inr, ◌⊎◌, true, Option, some, List, [], ◌∷◌, arith, Option-cases,
}
use hopper_pi.Prelude.Table.{get, put, get-put_missing}
use hopper_pi.Journal.Rows.{
  queued, failed, uncertain, Task, Turn, Field, state_eq, state_eq_sound, task_keyed, turn_keyed,
  question_keyed,
}
use hopper_pi.Journal.Database.{Db, Tx, Result, ok, err, insert_record, Result-cases, transaction}
use hopper_pi.Journal.Events.{event, retire_inputs}
use hopper_pi.Journal.TaskMachine.{TaskSteps, TaskSteps-trans, done, fail_queued, doubt, with_state}
use hopper_pi.Journal.Refinement.{Refines, KeepsTasks, stay, one_move}
use hopper_pi.Journal.Restart.{
  set_scheduling_block, finish_admission, finish_admissions, retired_admission, recover,
  recover_turn, recover_turns, recover_running, running_turns, and_then, retired_admissions,
}

pub set_scheduling_block-KeepsTasks :
    (c : List (String × Field) → String) (k : String) (r b : Option String)
    → KeepsTasks (set_scheduling_block c k r b)
unfolding set_scheduling_block event insert_record
set_scheduling_block-KeepsTasks c k r b = record { same = λ d d' a h. ground arith }

finish_admission_tasks :
    (k : String) (e : Option String) (d d' : Db) (a : Unit {0}) (t : Task)
    → get k d.tasks ≡ some t
    → finish_admission k e d ≡ ok (a, d')
    → (d'.tasks ≡ d.tasks)
      ⊎ ((state_eq t.state queued ≡ true) × (d'.tasks ≡ put k (with_state failed) d.tasks))
unfolding finish_admission event
finish_admission_tasks k e d d' a t g h = ground arith

pub finish_admission-Refines : (k : String) (e : Option String) → Refines (finish_admission k e)
unfolding finish_admission event
finish_admission-Refines k e = record {
  at = λ d d' a h. elim (Option-cases (get k d.tasks)) [
    | inl n ↦ stay (ground arith)
    | inr (t, g) ↦ elim (finish_admission_tasks k e d d' a t g h) [
      | inl e ↦ stay e
      | inr (q, e) ↦ one_move fail_queued k t g (state_eq_sound t.state queued q) e
    ]
  ];
}

recover_turn-Refines : (u : Turn) → Refines (recover_turn u)
unfolding recover_turn event retire_inputs
recover_turn-Refines u = record {
  at = λ d d' a h. elim (Option-cases (get u.task_id d.tasks)) [
    | inl n ↦ absurd (
        ground
          (arith, get-put_missing u.task_id u.task_id (with_state uncertain) d.tasks (λ r. refl) n))
    | inr (t, g) ↦ one_move (doubt t.state) u.task_id t g refl (ground arith)
  ];
}

recover_turns_step :
    (u : Turn) (us : List Turn) (d d' : Db) (a : Unit {0})
    → recover_turns (u ∷ us) d ≡ ok (a, d')
    → (d1 : Db) × (recover_turn u d ≡ ok (tt, d1)) × (recover_turns us d1 ≡ ok (a, d'))
unfolding recover_turns
recover_turns_step u us d d' a h = elim (Result-cases (recover_turn u d)) [
  | inl (e, f) ↦ absurd (ground arith)
  | inr (x, f) ↦ (x.1, ground arith, ground arith)
]

pub recover_turns-Refines : (us : List Turn) → Refines (recover_turns us)
unfolding recover_turns
recover_turns-Refines [] = record { at = λ d d' a h. stay (ground arith) }
recover_turns-Refines (u ∷ us) = record {
  at = λ d d' a h.
      let (d1, e, rest) = recover_turns_step u us d d' a h in
      TaskSteps-trans ((recover_turn-Refines u).at d d1 tt e)
        ((recover_turns-Refines us).at d1 d' a rest);
}

recover_running-Refines : Refines recover_running
unfolding recover_running
recover_running-Refines = record {
  at = λ d d' a h. (recover_turns-Refines (running_turns d.turns)).at d d' a (ground arith);
}

-- A method in its transaction: what is committed, or rolled back.
pub transaction-steps :
    {A : Type 0} (m : Tx A) → Refines m → (d : Db) → TaskSteps d.tasks (transaction m d).1.tasks
unfolding transaction
transaction-steps m r d = elim (Result-cases (m d)) [
  | inl (e, f) ↦ rw (f, transaction) done
  | inr (x, f) ↦ rw (f, transaction) (r.at d x.1 x.0 f)
]

and_then-steps :
    (ts : List Task) (r : Result (Unit {0}) × Db) (next : Db → Result (Unit {0}) × Db)
    → TaskSteps ts r.1.tasks
    → ((d : Db) → TaskSteps d.tasks (next d).1.tasks)
    → TaskSteps ts (and_then r next).1.tasks
unfolding and_then
and_then-steps ts (ok u, d) next s n = TaskSteps-trans s (n d)
and_then-steps ts (err e, d) next s n = s

finish_admissions-steps :
    (ids : List String) (d : Db) → TaskSteps d.tasks (finish_admissions ids d).1.tasks
unfolding finish_admissions
finish_admissions-steps [] d = done
finish_admissions-steps (id ∷ ids) d =
    and_then-steps d.tasks (transaction (finish_admission id (some retired_admission)) d)
      (finish_admissions ids)
      (transaction-steps _ (finish_admission-Refines id (some retired_admission)) d)
      (finish_admissions-steps ids)

pub recover-steps : (d : Db) → TaskSteps d.tasks (recover d).1.tasks
unfolding recover
recover-steps d =
    and_then-steps d.tasks (finish_admissions (retired_admissions d.records d.tasks) d)
      (transaction recover_running)
      (finish_admissions-steps (retired_admissions d.records d.tasks) d)
      (transaction-steps recover_running recover_running-Refines)
