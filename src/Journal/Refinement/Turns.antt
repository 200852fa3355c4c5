-- ===== src/Journal/Refinement/Turns.antt =====
-- The methods of Conversations, Turns and Delegation against the task machine.
use hopper_pi.Prelude.{
  String, ◌≡◌, ◌≢◌, refl, inl, inr, true, false, ◌&&◌, not, Option, none, some, List, arith, ◌==◌,
  eq_iff, Option-cases, count_of_not_any, count_mono,
}
use hopper_pi.Prelude.Table.{get, key-get}
use hopper_pi.SharedExecution.{ExecutionOwner, TargetBinding}
use hopper_pi.Journal.Rows.{
  queued, running, suspending, awaiting_user, Task, Submission, state_eq_sound, Question,
  task_keyed, turn_keyed, question_keyed,
}
use hopper_pi.Journal.Database.{Db, ok, Receipt, required, insert_task, insert_turn}
use hopper_pi.Journal.Events.{event, expect, retire_inputs}
use hopper_pi.Journal.TaskMachine.{
  TaskSteps, steps_of_step, enter, begin, suspend, await, requeue, is_underway_root, NoOtherRoot,
}
use hopper_pi.Journal.Refinement.{Refines, one_move}
use hopper_pi.Journal.Conversations.{
  accept_work, label_target, assert_writable_conversation, insert_session, is_root,
}
use hopper_pi.Journal.Turns.{start, is_busy, blocks_start, ask, confirm_suspension, answer_work}
use hopper_pi.Journal.Delegation.{delegate_work}

pub ask-Refines : (k u c p id : String) → Refines (ask k u c p id)
unfolding ask expect event required
ask-Refines k u c p id = record {
  at = λ d d' a h. elim (Option-cases (get k d.tasks)) [
    | inl n ↦ absurd (ground arith)
    | inr (t, g) ↦
        one_move suspend k t g (state_eq_sound t.state running (ground arith)) (ground arith)
  ];
}

pub confirm_suspension-Refines : (k u : String) → Refines (confirm_suspension k u)
unfolding confirm_suspension event retire_inputs
confirm_suspension-Refines k u = record {
  at = λ d d' a h. elim (Option-cases (get k d.tasks)) [
    | inl n ↦ absurd (ground arith)
    | inr (t, g) ↦
        one_move await k t g (state_eq_sound t.state suspending (ground arith)) (ground arith)
  ];
}

answer_from :
    (q s u : String) (d d' : Db) (a : Receipt) (x : Question)
    → get q d.questions ≡ some x
    → answer_work q s u d ≡ ok (a, d')
    → TaskSteps d.tasks d'.tasks
unfolding answer_work event insert_turn
answer_from q s u d d' a x g h = elim (Option-cases (get x.task_id d.tasks)) [
  | inl n ↦ absurd (ground arith)
  | inr (t, e) ↦
      one_move requeue x.task_id t e (state_eq_sound t.state awaiting_user (ground arith))
        (ground arith)
]

answer_missing :
    (q s u : String) (d d' : Db) (a : Receipt)
    → get q d.questions ≡ none
    → answer_work q s u d ≢ ok (a, d')
unfolding answer_work
answer_missing q s u d d' a g h = ground arith

pub answer_work-Refines : (q s u : String) → Refines (answer_work q s u)
answer_work-Refines q s u = record {
  at = λ d d' a h. elim (Option-cases (get q d.questions)) [
    | inl n ↦ absurd (answer_missing q s u d d' a n h)
    | inr (x, g) ↦ answer_from q s u d d' a x g h
  ];
}

-- A start that is not held up finds no other root underway.
not_busy :
    (k : String) (t : Task) (d : Db)
    → get k d.tasks ≡ some t
    → is_busy t d ≡ false
    → is_root t ≡ true
    → NoOtherRoot k d.tasks
unfolding is_busy blocks_start
not_busy k t d g free root = ground (
  arith,
  key-get k d.tasks t g,
  eq_iff t.id k,
  count_of_not_any (blocks_start t.conversation_id t.id d) d.tasks,
  count_mono (λ x. is_underway_root x && not (x.id == t.id)) (blocks_start t.conversation_id t.id d)
      d.tasks (λ x. ground arith),
)

pub start-Refines : (k u : String) (o : Option ExecutionOwner) → Refines (start k u o)
unfolding start expect event
start-Refines k u o = record {
  at = λ d d' a h. elim (Option-cases (get k d.tasks)) [
    | inl n ↦ absurd (ground arith)
    | inr (t, g) ↦ steps_of_step (
        begin k t g (state_eq_sound t.state queued (ground arith)) (ground arith)
          (not_busy k t d g (ground arith)) (ground arith))
  ];
}

tasks-label_target :
    (id : String) (b : Option TargetBinding) (d d' : Db) (a : Unit {0})
    → label_target id b d ≡ ok (a, d')
    → d'.tasks ≡ d.tasks
unfolding label_target
tasks-label_target id b d d' a h = ground arith

pub accept_work-Refines : (x : Submission) (k u : String) → Refines (accept_work x k u)
unfolding accept_work label_target insert_task insert_turn event assert_writable_conversation
accept_work-Refines x k u = record {
  at = λ d d' a h. steps_of_step (
      enter
        (record {
          id = k;
          conversation_id = x.conversation_id;
          session_id = x.session_id;
          payload = x;
          state = queued;
          parent_task_id = none;
          root_task_id = none;
          cancellation_requested = false;
        })
        (ground arith) refl (ground arith));
}

delegate_from :
    (x : Submission) (p : String) (ds : List String) (k u : String) (d d' : Db) (a : Receipt)
    (t : Task)
    → get p d.tasks ≡ some t
    → delegate_work x p ds k u d ≡ ok (a, d')
    → TaskSteps d.tasks d'.tasks
unfolding delegate_work insert_session insert_task insert_turn event
delegate_from x p ds k u d d' a t g h = steps_of_step (
    enter
      (record {
        id = k;
        conversation_id = x.conversation_id;
        session_id = x.session_id;
        payload = x;
        state = queued;
        parent_task_id = some t.id;
        root_task_id = some t.id;
        cancellation_requested = false;
      })
      (ground arith) refl (ground arith))

delegate_missing :
    (x : Submission) (p : String) (ds : List String) (k u : String) (d d' : Db) (a : Receipt)
    → get p d.tasks ≡ none
    → delegate_work x p ds k u d ≢ ok (a, d')
unfolding delegate_work
delegate_missing x p ds k u d d' a n h = ground arith

pub delegate_work-Refines :
    (x : Submission) (p : String) (ds : List String) (k u : String)
    → Refines (delegate_work x p ds k u)
delegate_work-Refines x p ds k u = record {
  at = λ d d' a h. elim (Option-cases (get p d.tasks)) [
    | inl n ↦ absurd (delegate_missing x p ds k u d d' a n h)
    | inr (t, g) ↦ delegate_from x p ds k u d d' a t g h
  ];
}
