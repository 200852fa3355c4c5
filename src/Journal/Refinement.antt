-- ===== src/Journal/Refinement.antt =====
-- What it means that a method of the journal makes only moves of the task machine; the methods are
-- treated in the modules below.
pub mod Turns
pub mod Settlement
pub mod Restart
pub mod Others
use hopper_pi.Prelude.{
  ℕ, ◌+◌, ◌≤◌, String, ◌≡◌, ◌≢◌, refl, ◌∙◌, sym, ap, subst, inl, inr, ◌⊎◌, Bool, true, false, ◌&&◌,
  ◌||◌, not, Option, none, some, List, [], ◌∷◌, ◌++◌, arith, ◌==◌, eq_iff, if◌then◌else◌, count,
  one, any, Bool-cases, Option-cases,
}
use hopper_pi.Prelude.Table.{get, put}
use hopper_pi.SharedExecution.{ExecutionOwner}
use hopper_pi.Journal.Rows.{
  State, queued, running, suspending, awaiting_user, suspended, completed, cancelled, failed,
  uncertain, Task, Submission, Turn, Field, state_eq, state_eq_sound, task_keyed, turn_keyed,
}
use hopper_pi.Journal.Database.{
  Db, Tx, Result, ok, err, Error, Request, Result-cases, ◌>>=◌, pure, read, check, Receipt,
  required, insert_task, insert_turn,
}
use hopper_pi.Journal.Events.{event, expect, unresolved_turn, retire_inputs}
use hopper_pi.Journal.Requests.{RequestPayload, request, replay, request_keyed}
use hopper_pi.Journal.TaskMachine.{
  TaskStep, TaskSteps, with_state, done, step_on, steps_of_step, enter, begin, move, Allowed,
  suspend, await, requeue,
}
use hopper_pi.Journal.Conversations.{accept_work, label_target, assert_writable_conversation}
use hopper_pi.Journal.Turns.{
  start, is_busy, ask, insert_question, confirm_suspension, answer_work, in_states,
}

-- What a method that succeeds does to the tasks.
pub record Refines {A : Type 0} (m : Tx A) : Type 0 where
  pub at : (d d' : Db) (a : A) → m d ≡ ok (a, d') → TaskSteps d.tasks d'.tasks

-- A method that leaves the tasks alone.
pub record KeepsTasks {A : Type 0} (m : Tx A) : Type 0 where
  pub same : (d d' : Db) (a : A) → m d ≡ ok (a, d') → d'.tasks ≡ d.tasks

pub stay : {ts us : List Task} → us ≡ ts → TaskSteps ts us
stay {ts} e = subst (TaskSteps ts) (sym e) done

-- One allowed move, of the task that `k` names.
pub one_move :
    {s s' : State} {ts us : List Task}
    → Allowed s s'
    → (k : String) (t : Task) → get k ts ≡ some t
    → t.state ≡ s
    → us ≡ put k (with_state s') ts
    → TaskSteps ts us
one_move {s' = s'} a k t g q e =
    steps_of_step (move k t s' g (subst (λ x. Allowed x s') (sym q) a) e)

pub KeepsTasks-Refines : {A : Type 0} {m : Tx A} → KeepsTasks m → Refines m
KeepsTasks-Refines k = record { at = λ d d' a h. stay (k.same d d' a h) }

request_hit :
    (hash : RequestPayload → String) (id : String) (p : RequestPayload) (w : Tx Receipt) (d d' : Db)
    (a : Receipt) (prior : Request)
    → get id d.requests ≡ some prior
    → request hash id p w d ≡ ok (a, d')
    → d'.tasks ≡ d.tasks
unfolding request required replay
request_hit hash id p w d d' a prior g h = ground arith

request_miss :
    (hash : RequestPayload → String) (id : String) (p : RequestPayload) (w : Tx Receipt)
    (d d' d1 : Db) (a b : Receipt)
    → get id d.requests ≡ none
    → w d ≡ ok (b, d1)
    → request hash id p w d ≡ ok (a, d')
    → d'.tasks ≡ d1.tasks
unfolding request required
request_miss hash id p w d d' d1 a b g e h = ground arith

request_failed :
    (hash : RequestPayload → String) (id : String) (p : RequestPayload) (w : Tx Receipt) (d d' : Db)
    (a : Receipt) (e : Error)
    → get id d.requests ≡ none
    → w d ≡ err e
    → request hash id p w d ≢ ok (a, d')
unfolding request required
request_failed hash id p w d d' a e g f h = ground arith

pub request-Refines :
    (hash : RequestPayload → String) (id : String) (p : RequestPayload) (w : Tx Receipt)
    → Refines w
    → Refines (request hash id p w)
request-Refines hash id p w r = record {
  at = λ d d' a h. elim (Option-cases (get id d.requests)) [
    | inr (prior, g) ↦ stay (request_hit hash id p w d d' a prior g h)
    | inl g ↦ elim (Result-cases (w d)) [
      | inl (e, f) ↦ absurd (request_failed hash id p w d d' a e g f h)
      | inr (x, f) ↦
          subst (TaskSteps d.tasks) (sym (request_miss hash id p w d d' x.1 a x.0 g f h))
            (r.at d x.1 x.0 f)
    ]
  ];
}

pub tasks-event :
    (k kind : String) (fs : List (String × Field)) (d d' : Db) (n : ℕ)
    → event k kind fs d ≡ ok (n, d')
    → d'.tasks ≡ d.tasks
unfolding event
tasks-event k kind fs d d' n h = ground arith

module _ {A B : Type 0} where
  pub KeepsTasks-bind :
      (m : Tx A) (f : A → Tx B) → KeepsTasks m → ((a : A) → KeepsTasks (f a)) → KeepsTasks (m >>= f)
  KeepsTasks-bind m f km kf = record { same = λ d d' b h. run d d' b h (m d) refl }
    where
      run :
          (d d' : Db) (b : B)
          → (m >>= f) d ≡ ok (b, d')
          → (r : Result (A × Db)) → m d ≡ r
          → d'.tasks ≡ d.tasks
      run d d' b h (err e) p = absurd (ground (arith, p))
      run d d' b h (ok (a, d1)) p = (kf a).same d1 d' b (ground (arith, p)) ∙ km.same d d1 a p

pub KeepsTasks-pure : {A : Type 0} (a : A) → KeepsTasks (pure a)
KeepsTasks-pure a = record { same = λ d d' b h. ground arith }

pub KeepsTasks-read : {A : Type 0} (f : Db → A) → KeepsTasks (read f)
KeepsTasks-read f = record { same = λ d d' b h. ground arith }

pub KeepsTasks-check : (b : Bool) (e : Error) → KeepsTasks (check b e)
KeepsTasks-check true e = record { same = λ d d' b h. ground arith }
KeepsTasks-check false e = record { same = λ d d' b h. ground arith }

pub KeepsTasks-event : (k kind : String) (fs : List (String × Field)) → KeepsTasks (event k kind fs)
KeepsTasks-event k kind fs = record { same = tasks-event k kind fs }

pub ruleset keeps_tasks =
    (KeepsTasks-bind, KeepsTasks-pure, KeepsTasks-read, KeepsTasks-check, KeepsTasks-event)
