-- ===== src/Journal/Lasting.antt =====
-- src/host/shared/journal.ts: what no method takes back. An answer, an outcome and a receipt stay as they
-- are, and an input only goes on; the methods are treated in the modules below.
pub mod Unchanged
pub mod Rows
pub mod Inputs
pub mod Changed
pub mod Intent
pub mod Always
use hopper_pi.Prelude.{
  ℕ, ◌≤◌, String, ◌≡◌, ◌≢◌, refl, sym, ap, ◌∙◌, subst, inl, inr, Bool, true, false, not, Option,
  none, some, List, [], ◌∷◌, ◌++◌, arith, is_some, nat_eq, map_where, ◌==◌, if◌then◌else◌,
  Option-cases,
}
use hopper_pi.Prelude.Table.{get, get-append}
use hopper_pi.Journal.Rows.{
  Input, InputState, Question, Operation, OperationState, Field, question_keyed, operation_keyed,
}
use hopper_pi.Journal.Database.{
  Db, Tx, Result, ok, err, Error, Request, Result-cases, ◌>>=◌, pure, read, check, Receipt,
  required, transaction,
}
use hopper_pi.Journal.Events.{event}
use hopper_pi.Journal.Requests.{RequestPayload, request, replay, request_keyed}
use hopper_pi.Journal.Inputs.{get_input}

-- How far an input is: accepted, handed over, of unknown outcome, settled.
abbrev pub stage : InputState → ℕ
stage InputState.accepted = 0
stage InputState.delivering = 1
stage InputState.unknown = 2
stage InputState.applied = 3
stage InputState.not_applied = 3

abbrev pub is_open : OperationState → Bool
is_open OperationState.dispatched = true
is_open _ = false

abbrev pub AnswersLast : List Question → List Question → Type 0
AnswersLast xs ys =
    (k : String) (q : Question) → get k xs ≡ some q → is_some q.answer ≡ true → get k ys ≡ some q

abbrev pub OutcomesLast : List Operation → List Operation → Type 0
OutcomesLast xs ys =
    (k : String) (o : Operation) → get k xs ≡ some o → is_open o.state ≡ false → get k ys ≡ some o

-- The input that is found later.
abbrev pub GoesOn : Input → List Input → ℕ → Type 0
GoesOn i ys n =
    (j : Input) × (get_input n ys ≡ some j)
    × (stage i.state ≤ stage j.state)
    × (3 ≤ stage i.state → j.state ≡ i.state)

abbrev pub InputsGoOn : List Input → List Input → Type 0
InputsGoOn xs ys = (n : ℕ) (i : Input) → get_input n xs ≡ some i → GoesOn i ys n

abbrev pub ReceiptsLast : List Request → List Request → Type 0
ReceiptsLast xs ys = (k : String) (x : Request) → get k xs ≡ some x → get k ys ≡ some x

pub record Goes (d d' : Db) : Type 0 where
  pub answers : AnswersLast d.questions d'.questions
  pub outcomes : OutcomesLast d.operations d'.operations
  pub inputs : InputsGoOn d.inputs d'.inputs
  pub receipts : ReceiptsLast d.requests d'.requests

pub same_answers : {xs ys : List Question} → ys ≡ xs → AnswersLast xs ys
same_answers {xs} e = subst (AnswersLast xs) (sym e) (λ k q g s. g)

pub same_outcomes : {xs ys : List Operation} → ys ≡ xs → OutcomesLast xs ys
same_outcomes {xs} e = subst (OutcomesLast xs) (sym e) (λ k o g s. g)

pub same_inputs : {xs ys : List Input} → ys ≡ xs → InputsGoOn xs ys
same_inputs {xs} e = subst (InputsGoOn xs) (sym e) (λ n i g. (i, g, omega arith, λ s. refl))

pub same_receipts : {xs ys : List Request} → ys ≡ xs → ReceiptsLast xs ys
same_receipts {xs} e = subst (ReceiptsLast xs) (sym e) (λ k x g. g)

pub Goes-refl : (d : Db) → Goes d d
Goes-refl d = record {
  answers = same_answers refl;
  outcomes = same_outcomes refl;
  inputs = same_inputs refl;
  receipts = same_receipts refl;
}

pub Goes-trans : {d e f : Db} → Goes d e → Goes e f → Goes d f
Goes-trans p q = record {
  answers = λ k x g s. q.answers k x (p.answers k x g s) s;
  outcomes = λ k x g s. q.outcomes k x (p.outcomes k x g s) s;
  inputs = λ n i g.
      let (j, a, l, s) = p.inputs n i g in
      let (m, b, r, t) = q.inputs n j a in
      (m, b, omega (arith, l, r), λ z. t (omega (arith, z, l)) ∙ s z);
  receipts = λ k x g. q.receipts k x (p.receipts k x g);
}

pub record Lasting {A : Type 0} (m : Tx A) : Type 0 where
  pub at : (d d' : Db) (a : A) → m d ≡ ok (a, d') → Goes d d'

-- The tables that are meant.
abbrev pub frame : Db → List Question × List Operation × List Input × List Request
frame d = (d.questions, d.operations, d.inputs, d.requests)

-- A method that leaves them alone.
pub record KeepsFrame {A : Type 0} (m : Tx A) : Type 0 where
  pub same : (d d' : Db) (a : A) → m d ≡ ok (a, d') → frame d' ≡ frame d

pub Goes-frame : {d d' : Db} → frame d' ≡ frame d → Goes d d'
Goes-frame e = record {
  answers = same_answers (ap (λ f. f.0) e);
  outcomes = same_outcomes (ap (λ f. f.1) e);
  inputs = same_inputs (ap (λ f. f.2) e);
  receipts = same_receipts (ap (λ f. f.3) e);
}

pub KeepsFrame-Lasting : {A : Type 0} {m : Tx A} → KeepsFrame m → Lasting m
KeepsFrame-Lasting k = record { at = λ d d' a h. Goes-frame (k.same d d' a h) }

module _ {A B : Type 0} where
  pub KeepsFrame-bind :
      (m : Tx A) (f : A → Tx B) → KeepsFrame m → ((a : A) → KeepsFrame (f a)) → KeepsFrame (m >>= f)
  KeepsFrame-bind m f km kf = record { same = λ d d' b h. run d d' b h (m d) refl }
    where
      run :
          (d d' : Db) (b : B)
          → (m >>= f) d ≡ ok (b, d')
          → (r : Result (A × Db)) → m d ≡ r
          → frame d' ≡ frame d
      run d d' b h (err e) p = absurd (ground (arith, p))
      run d d' b h (ok (a, d1)) p = (kf a).same d1 d' b (ground (arith, p)) ∙ km.same d d1 a p

pub KeepsFrame-pure : {A : Type 0} (a : A) → KeepsFrame (pure a)
KeepsFrame-pure a = record { same = λ d d' b h. ground arith }

pub KeepsFrame-read : {A : Type 0} (f : Db → A) → KeepsFrame (read f)
KeepsFrame-read f = record { same = λ d d' b h. ground arith }

pub KeepsFrame-check : (b : Bool) (e : Error) → KeepsFrame (check b e)
KeepsFrame-check true e = record { same = λ d d' b h. ground arith }
KeepsFrame-check false e = record { same = λ d d' b h. ground arith }

pub KeepsFrame-event : (k kind : String) (fs : List (String × Field)) → KeepsFrame (event k kind fs)
unfolding event
KeepsFrame-event k kind fs = record { same = λ d d' n h. ground arith }

pub ruleset keeps_frame =
    (KeepsFrame-bind, KeepsFrame-pure, KeepsFrame-read, KeepsFrame-check, KeepsFrame-event)

-- A request identity that is not known adds a receipt to what its work does.
request_hit :
    (hash : RequestPayload → String) (id : String) (p : RequestPayload) (w : Tx Receipt) (d d' : Db)
    (a : Receipt) (prior : Request)
    → get id d.requests ≡ some prior
    → request hash id p w d ≡ ok (a, d')
    → frame d' ≡ frame d
unfolding request required replay
request_hit hash id p w d d' a prior g h = ground arith

request_miss :
    (hash : RequestPayload → String) (id : String) (p : RequestPayload) (w : Tx Receipt)
    (d d' d1 : Db) (a b : Receipt)
    → get id d.requests ≡ none
    → w d ≡ ok (b, d1)
    → request hash id p w d ≡ ok (a, d')
    → frame d' ≡ (
      d1.questions,
      d1.operations,
      d1.inputs,
      d1.requests ++ record { id = id; hash = hash p; receipt = b } ∷ [],
    )
unfolding request required
request_miss hash id p w d d' d1 a b g e h = ground arith

request_failed :
    (hash : RequestPayload → String) (id : String) (p : RequestPayload) (w : Tx Receipt) (d d' : Db)
    (a : Receipt) (e : Error)
    → get id d.requests ≡ none
    → w d ≡ err e
    → request hash id p w d ≢ ok (a, d')
unfolding request required
request_failed hash id p w d d' a e g f h = ground arith

Goes-receipt :
    {d d' : Db} (r : Request)
    → frame d' ≡ (d.questions, d.operations, d.inputs, d.requests ++ r ∷ [])
    → Goes d d'
Goes-receipt {d} {d'} r e = record {
  answers = same_answers (ap (λ f. f.0) e);
  outcomes = same_outcomes (ap (λ f. f.1) e);
  inputs = same_inputs (ap (λ f. f.2) e);
  receipts = λ k x g. rw (ap (λ f. f.3) e) (get-append k d.requests (r ∷ []) x g);
}

pub request-Lasting :
    (hash : RequestPayload → String) (id : String) (p : RequestPayload) (w : Tx Receipt)
    → Lasting w
    → Lasting (request hash id p w)
request-Lasting hash id p w r = record {
  at = λ d d' a h. elim (Option-cases (get id d.requests)) [
    | inr (prior, g) ↦ Goes-frame (request_hit hash id p w d d' a prior g h)
    | inl g ↦ elim (Result-cases (w d)) [
      | inl (e, f) ↦ absurd (request_failed hash id p w d d' a e g f h)
      | inr (x, f) ↦
          Goes-trans (r.at d x.1 x.0 f)
            (Goes-receipt _ (request_miss hash id p w d d' x.1 a x.0 g f h))
    ]
  ];
}

-- A method in its transaction.
pub transaction-Goes : {A : Type 0} (m : Tx A) → Lasting m → (d : Db) → Goes d (transaction m d).1
unfolding transaction
transaction-Goes m r d = elim (Result-cases (m d)) [
  | inl (e, f) ↦ rw (f, transaction) (Goes-refl d)
  | inr (x, f) ↦ rw (f, transaction) (r.at d x.1 x.0 f)
]
