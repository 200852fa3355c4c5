-- ===== src/Journal/Lasting/Inputs.antt =====
-- The methods of src/host/shared/journal.ts that change inputs, those that retire them included.
use hopper_pi.Prelude.{
  ℕ, ◌≤◌, String, ◌≡◌, sym, subst, inl, inr, some, List, [], ◌∷◌, arith, nat_eq, map_where,
  Option-cases,
}
use hopper_pi.Journal.Rows.{
  Input, InputState, Turn, question_keyed, operation_keyed, task_keyed, turn_keyed,
}
use hopper_pi.Journal.Database.{Db, Result-cases, insert_turn}
use hopper_pi.Journal.Events.{event, expect, retire_inputs}
use hopper_pi.Journal.Turns.{confirm_suspension}
use hopper_pi.Journal.Settlement.{Outcome, settle, fail_running, make_uncertain}
use hopper_pi.Journal.Inputs.{
  get_input, prior_state, steer_work, mark_input, mark_input_not_applied, Delivery, delivers,
  applies,
}
use hopper_pi.Journal.Handoffs.{start_handoff_action}
use hopper_pi.Journal.Restart.{recover_turn, recover_turns, recover_running, running_turns}
use hopper_pi.Journal.Lasting.{Goes, Goes-trans, Lasting, InputsGoOn, stage, same_inputs}
use hopper_pi.Journal.Lasting.Rows.{
  InputsGoOn-append, with_state, InputsGoOn-set, deliverable, appliable, droppable, beside_inputs,
  only_inputs, retires,
}

pub confirm_suspension-Lasting : (k u : String) → Lasting (confirm_suspension k u)
unfolding confirm_suspension event retire_inputs
confirm_suspension-Lasting k u = record { at = λ d d' a h. retires u (ground arith) (ground arith) }

pub settle-Lasting : (k u : String) (o : Outcome) → Lasting (settle k u o)
unfolding settle event retire_inputs
settle-Lasting k u o = record { at = λ d d' a h. retires u (ground arith) (ground arith) }

pub fail_running-Lasting : (k u r : String) → Lasting (fail_running k u r)
unfolding fail_running expect event retire_inputs
fail_running-Lasting k u r = record { at = λ d d' a h. retires u (ground arith) (ground arith) }

pub make_uncertain-Lasting : (k u e : String) → Lasting (make_uncertain k u e)
unfolding make_uncertain event retire_inputs
make_uncertain-Lasting k u e = record { at = λ d d' a h. retires u (ground arith) (ground arith) }

pub start_handoff_action-Lasting : (k u x v : String) → Lasting (start_handoff_action k u x v)
unfolding start_handoff_action insert_turn event retire_inputs
start_handoff_action-Lasting k u x v = record {
  at = λ d d' a h. retires u (ground arith) (ground arith);
}

recover_turn-Lasting : (u : Turn) → Lasting (recover_turn u)
unfolding recover_turn event retire_inputs
recover_turn-Lasting u = record { at = λ d d' a h. retires u.id (ground arith) (ground arith) }

recover_turns-Lasting : (us : List Turn) → Lasting (recover_turns us)
unfolding recover_turns
recover_turns-Lasting [] = record {
  at = λ d d' a h. only_inputs (same_inputs (ground arith)) (ground arith);
}
recover_turns-Lasting (u ∷ us) = record {
  at = λ d d' a h. elim (Result-cases (recover_turn u d)) [
    | inl (e, f) ↦ absurd (ground arith)
    | inr (x, f) ↦
        Goes-trans ((recover_turn-Lasting u).at d x.1 x.0 f)
          ((recover_turns-Lasting us).at x.1 d' a (ground arith))
  ];
}

pub recover_running-Lasting : Lasting recover_running
unfolding recover_running
recover_running-Lasting = record {
  at = λ d d' a h. (recover_turns-Lasting (running_turns d.turns)).at d d' a (ground arith);
}

pub steer_work-Lasting : (k s u p : String) → Lasting (steer_work k s u p)
unfolding steer_work expect event
steer_work-Lasting k s u p = record {
  at = λ d d' a h.
      only_inputs
        (subst (InputsGoOn d.inputs) (sym (ground arith)) (
          InputsGoOn-append d.inputs (
            record {
              id = d.next_input;
              task_id = k;
              turn_id = u;
              payload = p;
              state = InputState.accepted;
            }
            ∷ [])))
        (ground arith);
}

sets :
    {d d' : Db} (n : ℕ) (s : InputState) (i : Input)
    → get_input n d.inputs ≡ some i
    → stage i.state ≤ 2
    → stage i.state ≤ stage s
    → d'.inputs ≡ map_where (λ x. nat_eq x.id n) (with_state s) d.inputs
    → beside_inputs d' ≡ beside_inputs d
    → Goes d d'
sets {d} n s i g l m e f =
    only_inputs (subst (InputsGoOn d.inputs) (sym e) (InputsGoOn-set n s d.inputs i g l m)) f

pub mark_input-Lasting : (n : ℕ) (x : Delivery) → Lasting (mark_input n x)
unfolding mark_input expect event prior_state
mark_input-Lasting n delivers = record {
  at = λ d d' a h. elim (Option-cases (get_input n d.inputs)) [
    | inl e ↦ absurd (ground arith)
    | inr (i, e) ↦
        let zero_stage : stage i.state ≡ 0 = ground (arith, deliverable i.state) in
        sets n InputState.delivering i e (omega (arith, zero_stage)) (omega (arith, zero_stage))
          (ground arith) (ground arith)
  ];
}
mark_input-Lasting n applies = record {
  at = λ d d' a h. elim (Option-cases (get_input n d.inputs)) [
    | inl e ↦ absurd (ground arith)
    | inr (i, e) ↦
        let early : stage i.state ≤ 2 = appliable i.state (ground arith) in
        sets n InputState.applied i e early (omega (arith, early)) (ground arith) (ground arith)
  ];
}

pub mark_input_not_applied-Lasting : (n : ℕ) → Lasting (mark_input_not_applied n)
unfolding mark_input_not_applied event
mark_input_not_applied-Lasting n = record {
  at = λ d d' a h. elim (Option-cases (get_input n d.inputs)) [
    | inl e ↦ absurd (ground arith)
    | inr (i, e) ↦
        let early : stage i.state ≤ 2 = droppable i.state (ground arith) in
        sets n InputState.not_applied i e early (omega (arith, early)) (ground arith) (ground arith)
  ];
}
