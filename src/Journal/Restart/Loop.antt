-- ===== src/Journal/Restart/Loop.antt =====
-- src/host/shared/journal.ts: the loop of `recover` over the turns that were running.
use hopper_pi.Prelude.{
  ◌≤◌, String, ◌≡◌, refl, inl, inr, Bool, true, false, none, some, List, [], ◌∷◌, arith, ◌==◌,
  eq_refl, is_some, count, Bool-cases, Option-cases,
}
use hopper_pi.Prelude.Table.{get, put, IsUnique, IsUnique-put, get-put}
use hopper_pi.Journal.Rows.{running, uncertain, state_eq, Task, Turn, task_keyed, turn_keyed}
use hopper_pi.Journal.Database.{Db, ok, Result-cases}
use hopper_pi.Journal.Events.{event, retire_inputs}
use hopper_pi.Journal.Restart.{recover_turn, recover_turns, running_turns}

abbrev doubted : Turn → Turn
doubted t = record t { state = uncertain }

abbrev doubted_task : Task → Task
doubted_task t = record t { state = uncertain }

-- The turn's task is in the table.
abbrev pub has_task : List Task → Turn → Bool
has_task ts u = is_some (get u.task_id ts)

-- The turn's task is in the table and uncertain.
abbrev pub is_in_doubt : List Task → Turn → Bool
is_in_doubt ts u = elim (get u.task_id ts) [ none ↦ false | some t ↦ state_eq t.state uncertain ]

abbrev pub Every : (Turn → Bool) → List Turn → Type 0
Every p [] = Unit
Every p (u ∷ us) = (p u ≡ true) × Every p us

recover_turn_lem :
    (u : Turn) (d : Db) (t : Task)
    → get u.task_id d.tasks ≡ some t
    → (d1 : Db) × (recover_turn u d ≡ ok (tt, d1))
      × (d1.tasks ≡ put u.task_id doubted_task d.tasks)
      × (d1.turns ≡ put u.id doubted d.turns)
unfolding recover_turn event retire_inputs
recover_turn_lem u d t g = elim (Result-cases (recover_turn u d)) [
  | inl (e, f) ↦ absurd (
      ground (
        arith,
        get-put u.task_id u.task_id doubted_task d.tasks t (λ x. refl) g,
        eq_refl u.task_id,
      ))
  | inr (x, f) ↦ (x.1, ground arith, ground arith, ground arith)
]

running_key :
    (u : Turn) (us ts : List Turn) → running_turns ts ≡ u ∷ us → 1 ≤ count (λ x. x.id == u.id) ts
unfolding running_turns state_eq
running_key u us [] h = ground arith
running_key u us (x ∷ ts) h = ground (arith, running_key u us ts, eq_refl u.id)

-- Marking a running turn takes it, and no other, off the running ones.
running_turns-put :
    (u : Turn) (us ts : List Turn)
    → IsUnique ts
    → running_turns ts ≡ u ∷ us
    → running_turns (put u.id doubted ts) ≡ us
unfolding running_turns put state_eq
running_turns-put u us [] unique h = ground arith
running_turns-put u us (x ∷ ts) unique h = elim (Bool-cases (state_eq x.state running)) [
  | inl r ↦ ground (arith, eq_refl u.id)
  | inr r ↦ ground (
    arith,
    running_turns-put u us ts (λ j. omega (arith, unique j)),
    unique u.id,
    running_key u us ts,
  )
]

-- A write of a task's doubt keeps every task there, and the doubt of others.
has_task-put :
    (k : String) (ts : List Task) (us : List Turn)
    → Every (has_task ts) us
    → Every (has_task (put k doubted_task ts)) us
has_task-put k ts [] h = tt
has_task-put k ts (u ∷ us) h = elim (Option-cases (get u.task_id ts)) [
  | inl n ↦ absurd (ground arith)
  | inr (t, g) ↦
      (rw (get-put u.task_id k doubted_task ts t (λ x. refl) g) refl, has_task-put k ts us h.1)
]

is_in_doubt-put :
    (k : String) (ts : List Task) (u : Turn)
    → is_in_doubt ts u ≡ true
    → is_in_doubt (put k doubted_task ts) u ≡ true
unfolding state_eq
is_in_doubt-put k ts u h = elim (Option-cases (get u.task_id ts)) [
  | inl n ↦ absurd (ground arith)
  | inr (t, g) ↦ ground (arith, get-put u.task_id k doubted_task ts t (λ x. refl) g)
]

marked :
    (k : String) (ts : List Task) (u : Turn) (t : Task)
    → u.task_id ≡ k
    → get u.task_id ts ≡ some t
    → is_in_doubt (put k doubted_task ts) u ≡ true
unfolding state_eq
marked k ts u t e g = ground (arith, eq_refl k, get-put u.task_id k doubted_task ts t (λ x. refl) g)

-- From tables with unique turns that all have their task, the loop ends with no turn running, with
-- the tasks in doubt that it came across, and with those that were in doubt.
pub record LoopEnds (us : List Turn) (d d' : Db) : Type 0 where
  pub runs : recover_turns us d ≡ ok (tt, d')
  pub none_running : running_turns d'.turns ≡ []
  pub in_doubt : Every (is_in_doubt d'.tasks) us
  pub keeps_doubt : (u : Turn) → is_in_doubt d.tasks u ≡ true → is_in_doubt d'.tasks u ≡ true

pub recover_turns_lem :
    (us : List Turn) (d : Db)
    → IsUnique d.turns
    → running_turns d.turns ≡ us
    → Every (has_task d.tasks) us
    → (d' : Db) × LoopEnds us d d'
unfolding recover_turns
recover_turns_lem [] d unique h e =
    (d, record { runs = refl; none_running = h; in_doubt = tt; keeps_doubt = λ u q. q })
recover_turns_lem (u ∷ us) d unique h e = elim (Option-cases (get u.task_id d.tasks)) [
  | inl n ↦ absurd (ground arith)
  | inr (t, g) ↦
      let (d1, run, tasks, turns) = recover_turn_lem u d t g in
      let (d', ends) =
        recover_turns_lem us d1 (rw turns (IsUnique-put u.id doubted d.turns (λ x. refl) unique))
          (rw turns (running_turns-put u us d.turns unique h))
          (rw tasks (has_task-put u.task_id d.tasks us e.1)) in
      (
        d',
        record {
          runs = ground (arith, run, ends.runs);
          none_running = ends.none_running;
          in_doubt =
              (ends.keeps_doubt u (rw tasks (marked u.task_id d.tasks u t refl g)), ends.in_doubt);
          keeps_doubt =
              λ x q. ends.keeps_doubt x (rw tasks (is_in_doubt-put u.task_id d.tasks x q));
        },
      )
]
