-- ===== src/Journal/Inputs/Marks.antt =====
-- src/host/shared/journal.ts, `markInput` and `markInputNotApplied`: what refuses an input, by how far it is.
use hopper_pi.Prelude.{
  Bool, ◌&&◌, ltb, ◌≤◌, ap, ℕ, ◌≡◌, ◌≢◌, refl, true, false, some, List, [], ◌∷◌, arith, any,
  Option-cases, ◌==◌, map_where, nat_eq, inl, inr,
}
use hopper_pi.Journal.Lasting.{stage}
use hopper_pi.Journal.Lasting.Rows.{deliverable, appliable}
use hopper_pi.Journal.Rows.{
  Input, InputState, question_keyed, operation_keyed, reservation_keyed, task_keyed, turn_keyed,
}
use hopper_pi.Journal.Database.{Db, ok, err, Error}
use hopper_pi.Journal.Events.{event, expect}
use hopper_pi.Journal.Inputs.{
  Delivery, delivers, applies, delivery_state, mark_input, mark_input_not_applied, get_input,
  is_unsettled, has_earlier, input_eq, prior_state,
}

get_input_set :
    (n : ℕ) (s : InputState) (xs : List Input) (i : Input)
    → get_input n xs ≡ some i
    → get_input n (map_where (λ i. nat_eq i.id n) (λ i. record i { state = s }) xs)
      ≡ some (record i { state = s })
unfolding get_input
get_input_set n s [] i h = ground arith
get_input_set n s (x ∷ xs) i h = ground (arith, get_input_set n s xs i)

pub marked :
    (n : ℕ) (x : Delivery) (d d' : Db) (e : ℕ)
    → mark_input n x d ≡ ok (e, d')
    → (i : Input) × (get_input n d.inputs ≡ some i)
      × (input_eq i.state (prior_state x i.state) ≡ true)
      × (get_input n d'.inputs ≡ some (record i { state = delivery_state x }))
unfolding mark_input event expect prior_state
marked n delivers d d' e h = elim (Option-cases (get_input n d.inputs)) [
  | inl m ↦ ground arith
  | inr (i, m) ↦
      (i, m, ground arith, ground (arith, get_input_set n InputState.delivering d.inputs i m))
]
marked n applies d d' e h = elim (Option-cases (get_input n d.inputs)) [
  | inl m ↦ ground arith
  | inr (i, m) ↦
      (i, m, ground arith, ground (arith, get_input_set n InputState.applied d.inputs i m))
]

-- What refuses an input, by how far it is.
pub handed_refuses :
    (n : ℕ) (d d' : Db) (e : ℕ) (i : Input)
    → get_input n d.inputs ≡ some i
    → 1 ≤ stage i.state
    → mark_input n delivers d ≢ ok (e, d')
unfolding prior_state
handed_refuses n d d' e i g s h =
    let (j, m, p, q) = marked n delivers d d' e h in
    let accepted : stage j.state ≡ 0 = deliverable j.state p in
    let same : j.state ≡ i.state = ground arith in omega (arith, s, accepted, ap stage same)

pub settled_refuses :
    (n : ℕ) (d d' : Db) (e : ℕ) (i : Input)
    → get_input n d.inputs ≡ some i
    → 3 ≤ stage i.state
    → mark_input n applies d ≢ ok (e, d')
settled_refuses n d d' e i g s h =
    let (j, m, p, q) = marked n applies d d' e h in
    let early : stage j.state ≤ 2 = appliable j.state p in
    let same : j.state ≡ i.state = ground arith in omega (arith, s, early, ap stage same)

settled_stays : (s : InputState) → 3 ≤ stage s → is_unsettled s ≡ false
settled_stays InputState.accepted h = ground arith
settled_stays InputState.delivering h = ground arith
settled_stays InputState.unknown h = ground arith
settled_stays InputState.applied h = refl
settled_stays InputState.not_applied h = refl

pub not_dropped :
    (n : ℕ) (d : Db) (i : Input)
    → get_input n d.inputs ≡ some i
    → 3 ≤ stage i.state
    → mark_input_not_applied n d ≡ err Error.input_settled
unfolding mark_input_not_applied
not_dropped n d i g s = ground (arith, settled_stays i.state s)

pub settled_stage : (s : InputState) → is_unsettled s ≡ false → 3 ≤ stage s
settled_stage InputState.accepted h = ground arith
settled_stage InputState.delivering h = ground arith
settled_stage InputState.unknown h = ground arith
settled_stage InputState.applied h = omega arith
settled_stage InputState.not_applied h = omega arith

pub any-get_input :
    (p : Input → Bool) (n : ℕ) (xs : List Input) (i : Input)
    → any p xs ≡ false
    → get_input n xs ≡ some i
    → (p i ≡ false) × (i.id ≡ n)
unfolding get_input
any-get_input p n [] i a h = ground arith
any-get_input p n (x ∷ xs) i a h = ground (arith, any-get_input p n xs i)

pub none_earlier :
    (n : ℕ) (d d' : Db) (e : ℕ) (i : Input)
    → mark_input n delivers d ≡ ok (e, d')
    → get_input n d.inputs ≡ some i
    → any (λ x. x.turn_id == i.turn_id && ltb x.id i.id && is_unsettled x.state) d.inputs ≡ false
unfolding mark_input event expect has_earlier
none_earlier n d d' e i h g = ground arith
