-- ===== src/Journal/Lasting/Rows.antt =====
-- How the rows of questions, operations and inputs go on when src/host/shared/journal.ts writes them.
use hopper_pi.Prelude.{
  ℕ, ◌≤◌, String, ◌≡◌, refl, sym, ap, subst, inl, inr, Bool, true, some, List, [], ◌∷◌, ◌++◌, arith,
  nat_eq, map_where, ◌==◌, if◌then◌else◌, Bool-cases,
}
use hopper_pi.Prelude.Table.{get-append}
use hopper_pi.Journal.Rows.{
  Input, InputState, Question, Operation, question_keyed, operation_keyed, task_keyed, turn_keyed,
}
use hopper_pi.Journal.Database.{Db, Request}
use hopper_pi.Journal.Events.{retired}
use hopper_pi.Journal.Inputs.{get_input, input_eq, is_unsettled, prior_state, applies}
use hopper_pi.Journal.Lasting.{
  Goes, AnswersLast, OutcomesLast, InputsGoOn, stage, same_answers, same_outcomes, same_inputs,
  same_receipts,
}

pub AnswersLast-append : (xs : List Question) (q : Question) → AnswersLast xs (xs ++ q ∷ [])
AnswersLast-append xs q k x g s = get-append k xs (q ∷ []) x g

OutcomesLast-append : (xs : List Operation) (o : Operation) → OutcomesLast xs (xs ++ o ∷ [])
OutcomesLast-append xs o k x g s = get-append k xs (o ∷ []) x g

get_input-append :
    (n : ℕ) (xs ys : List Input) (i : Input)
    → get_input n xs ≡ some i
    → get_input n (xs ++ ys) ≡ some i
unfolding get_input
get_input-append n [] ys i h = ground arith
get_input-append n (x ∷ xs) ys i h = ground (arith, get_input-append n xs ys i)

pub InputsGoOn-append : (xs ys : List Input) → InputsGoOn xs (xs ++ ys)
InputsGoOn-append xs ys n i g = (i, get_input-append n xs ys i g, omega arith, λ s. refl)

get_input_mapped :
    (p : Input → Bool) (f : Input → Input) (n : ℕ) (xs : List Input) (i : Input)
    → ((x : Input) → (f x).id ≡ x.id)
    → get_input n xs ≡ some i
    → get_input n (map_where p f xs) ≡ some (if p i then f i else i)
unfolding get_input
get_input_mapped p f n [] i same h = ground arith
get_input_mapped p f n (x ∷ xs) i same h = ground (arith, same x, get_input_mapped p f n xs i same)

retired-stage : (s : InputState) → stage s ≤ stage (retired s)
retired-stage InputState.accepted = omega arith
retired-stage InputState.delivering = omega arith
retired-stage InputState.unknown = omega arith
retired-stage InputState.applied = omega arith
retired-stage InputState.not_applied = omega arith

retired_settled : (s : InputState) → 3 ≤ stage s → retired s ≡ s
retired_settled InputState.accepted h = ground arith
retired_settled InputState.delivering h = ground arith
retired_settled InputState.unknown h = ground arith
retired_settled InputState.applied h = refl
retired_settled InputState.not_applied h = refl

abbrev pub with_state : InputState → Input → Input
with_state s i = record i { state = s }

abbrev retire : Input → Input
retire i = record i { state = retired i.state }

abbrev of_turn : String → Input → Bool
of_turn u i = i.turn_id == u

InputsGoOn-retire : (u : String) (xs : List Input) → InputsGoOn xs (map_where (of_turn u) retire xs)
InputsGoOn-retire u xs n i g = elim (Bool-cases (of_turn u i)) [
  | inl e ↦ (
    retire i,
    ground (arith, get_input_mapped (of_turn u) retire n xs i (λ x. refl) g),
    retired-stage i.state,
    retired_settled i.state,
  )
  | inr e ↦ (
    i,
    ground (arith, get_input_mapped (of_turn u) retire n xs i (λ x. refl) g),
    omega arith,
    λ s. refl,
  )
]

pub get_input-id : (n : ℕ) (xs : List Input) (i : Input) → get_input n xs ≡ some i → i.id ≡ n
unfolding get_input
get_input-id n [] i h = ground arith
get_input-id n (x ∷ xs) i h = ground (arith, get_input-id n xs i)

pub InputsGoOn-set :
    (n : ℕ) (s : InputState) (xs : List Input) (i : Input)
    → get_input n xs ≡ some i
    → stage i.state ≤ 2
    → stage i.state ≤ stage s
    → InputsGoOn xs (map_where (λ x. nat_eq x.id n) (with_state s) xs)
InputsGoOn-set n s xs i g l m k j f =
    let found = get_input_mapped (λ x. nat_eq x.id n) (with_state s) k xs j (λ x. refl) f in
    let own = get_input-id k xs j f in
    elim (Bool-cases (nat_eq k n)) [
      | inl e ↦
          let same : i.state ≡ j.state = ground (arith, ap (λ z. get_input z xs)) in
          (
            with_state s j,
            ground (arith, found, own),
            ground (arith, ap stage same),
            λ z. absurd (omega (arith, z, l, ap stage same)),
          )
      | inr e ↦ (j, ground (arith, found, own), omega arith, λ z. refl)
    ]

pub deliverable : (s : InputState) → input_eq s InputState.accepted ≡ true → stage s ≡ 0
unfolding input_eq
deliverable InputState.accepted h = refl
deliverable InputState.delivering h = ground arith
deliverable InputState.unknown h = ground arith
deliverable InputState.applied h = ground arith
deliverable InputState.not_applied h = ground arith

pub appliable : (s : InputState) → input_eq s (prior_state applies s) ≡ true → stage s ≤ 2
unfolding input_eq prior_state
appliable InputState.accepted h = omega arith
appliable InputState.delivering h = omega arith
appliable InputState.unknown h = omega arith
appliable InputState.applied h = ground arith
appliable InputState.not_applied h = ground arith

pub droppable : (s : InputState) → is_unsettled s ≡ true → stage s ≤ 2
droppable InputState.accepted h = omega arith
droppable InputState.delivering h = omega arith
droppable InputState.unknown h = omega arith
droppable InputState.applied h = ground arith
droppable InputState.not_applied h = ground arith

abbrev pub beside_answers : Db → List Operation × List Input × List Request
beside_answers d = (d.operations, d.inputs, d.requests)

abbrev beside_outcomes : Db → List Question × List Input × List Request
beside_outcomes d = (d.questions, d.inputs, d.requests)

abbrev pub beside_inputs : Db → List Question × List Operation × List Request
beside_inputs d = (d.questions, d.operations, d.requests)

-- What the methods do to the tables that are meant, one of which they change.
pub only_answers :
    {d d' : Db}
    → AnswersLast d.questions d'.questions
    → beside_answers d' ≡ beside_answers d
    → Goes d d'
only_answers a e = record {
  answers = a;
  outcomes = same_outcomes (ap (λ f. f.0) e);
  inputs = same_inputs (ap (λ f. f.1) e);
  receipts = same_receipts (ap (λ f. f.2) e);
}

pub only_outcomes :
    {d d' : Db}
    → OutcomesLast d.operations d'.operations
    → beside_outcomes d' ≡ beside_outcomes d
    → Goes d d'
only_outcomes o e = record {
  answers = same_answers (ap (λ f. f.0) e);
  outcomes = o;
  inputs = same_inputs (ap (λ f. f.1) e);
  receipts = same_receipts (ap (λ f. f.2) e);
}

pub only_inputs :
    {d d' : Db} → InputsGoOn d.inputs d'.inputs → beside_inputs d' ≡ beside_inputs d → Goes d d'
only_inputs i e = record {
  answers = same_answers (ap (λ f. f.0) e);
  outcomes = same_outcomes (ap (λ f. f.1) e);
  inputs = i;
  receipts = same_receipts (ap (λ f. f.2) e);
}

pub retires :
    {d d' : Db} (u : String)
    → d'.inputs ≡ map_where (of_turn u) retire d.inputs
    → beside_inputs d' ≡ beside_inputs d
    → Goes d d'
retires {d} {d'} u e f =
    only_inputs (subst (InputsGoOn d.inputs) (sym e) (InputsGoOn-retire u d.inputs)) f
