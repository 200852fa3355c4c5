-- ===== src/Journal/Lasting/Intent.antt =====
-- `operationIntent` (src/host/shared/journal.ts): an operation is added, the others stay.
use hopper_pi.Prelude.{String, ◌≡◌, refl, sym, subst, Bool, Option, List, [], ◌∷◌, arith}
use hopper_pi.Prelude.Table.{get-append}
use hopper_pi.Journal.Rows.{Operation, Owner, Field, operation_keyed}
use hopper_pi.Journal.Database.{Db, Tx, Result, ok, err, Error, ◌>>=◌, pure, read, check}
use hopper_pi.Journal.Events.{event}
use hopper_pi.Journal.Operations.{
  Destination, DispatchRecord, OperationRequest, operation_intent, insert_operation, admit,
  use_grant, authorize, reserve_for, dispatch_record,
}
use hopper_pi.Journal.Lasting.{
  Goes, Goes-trans, Lasting, KeepsFrame-Lasting, KeepsFrame-pure, KeepsFrame-read, KeepsFrame-check,
  KeepsFrame-event, OutcomesLast, same_answers, same_inputs, same_receipts,
}
use hopper_pi.Journal.Lasting.Unchanged.{
  admit-KeepsFrame, use_grant-KeepsFrame, authorize-KeepsFrame, reserve_for-KeepsFrame,
  dispatch_record-KeepsFrame,
}

module _ {A B : Type 0} where
  Lasting-bind :
      (m : Tx A) (f : A → Tx B) → Lasting m → ((a : A) → Lasting (f a)) → Lasting (m >>= f)
  Lasting-bind m f lm lf = record { at = λ d d' b h. run d d' b h (m d) refl }
    where
      run :
          (d d' : Db) (b : B)
          → (m >>= f) d ≡ ok (b, d')
          → (r : Result (A × Db)) → m d ≡ r
          → Goes d d'
      run d d' b h (err e) p = absurd (ground (arith, p))
      run d d' b h (ok (a, d1)) p =
          Goes-trans (lm.at d d1 a p) ((lf a).at d1 d' b (ground (arith, p)))

Lasting-pure : {A : Type 0} (a : A) → Lasting (pure a)
Lasting-pure a = KeepsFrame-Lasting (KeepsFrame-pure a)

Lasting-read : {A : Type 0} (f : Db → A) → Lasting (read f)
Lasting-read f = KeepsFrame-Lasting (KeepsFrame-read f)

Lasting-check : (b : Bool) (e : Error) → Lasting (check b e)
Lasting-check b e = KeepsFrame-Lasting (KeepsFrame-check b e)

Lasting-event : (k kind : String) (fs : List (String × Field)) → Lasting (event k kind fs)
Lasting-event k kind fs = KeepsFrame-Lasting (KeepsFrame-event k kind fs)

admit-Lasting : (b : Bool) (i : OperationRequest) → Lasting (admit b i)
admit-Lasting b i = KeepsFrame-Lasting (admit-KeepsFrame b i)

use_grant-Lasting : (g : Option String) (k : String) → Lasting (use_grant g k)
use_grant-Lasting g k = KeepsFrame-Lasting (use_grant-KeepsFrame g k)

authorize-Lasting : (o : Option Owner) (i : OperationRequest) → Lasting (authorize o i)
authorize-Lasting o i = KeepsFrame-Lasting (authorize-KeepsFrame o i)

reserve_for-Lasting :
    (sort : List Destination → List Destination) (o : Option Owner) (id : String)
    (xs : List Destination)
    → Lasting (reserve_for sort o id xs)
reserve_for-Lasting sort o id xs = KeepsFrame-Lasting (reserve_for-KeepsFrame sort o id xs)

dispatch_record-Lasting :
    (id k : String) (x : Option DispatchRecord) → Lasting (dispatch_record id k x)
dispatch_record-Lasting id k x = KeepsFrame-Lasting (dispatch_record-KeepsFrame id k x)

insert_operation-Lasting : (o : Operation) → Lasting (insert_operation o)
unfolding insert_operation
insert_operation-Lasting o = record {
  at = λ d d' a h. record {
    answers = same_answers (ground arith);
    outcomes =
        subst (OutcomesLast d.operations) (sym (ground arith))
          (λ k x g s. get-append k d.operations (o ∷ []) x g);
    inputs = same_inputs (ground arith);
    receipts = same_receipts (ground arith);
  };
}

ruleset lasting_rules = (
  Lasting-bind, Lasting-pure, Lasting-read, Lasting-check, Lasting-event, admit-Lasting,
  use_grant-Lasting, authorize-Lasting, reserve_for-Lasting, dispatch_record-Lasting,
  insert_operation-Lasting,
)

pub operation_intent-Lasting :
    (sort : List Destination → List Destination) (i : OperationRequest) (id wire : String)
    → Lasting (operation_intent sort i id wire)
unfolding operation_intent
operation_intent-Lasting sort i id wire = search lasting_rules depth 14
