-- ===== src/Journal/Lasting/Changed.antt =====
-- The methods of src/host/shared/journal.ts that change questions or operations.
use hopper_pi.Prelude.{
  String, ◌≡◌, ◌≢◌, refl, sym, ap, subst, inl, inr, true, false, none, some, List, arith, is_some,
  eq_iff, Option-cases,
}
use hopper_pi.Prelude.Table.{get, put, get-put}
use hopper_pi.Journal.Rows.{
  Question, Operation, question_keyed, operation_keyed, task_keyed, turn_keyed,
}
use hopper_pi.Journal.Database.{Db, ok, Receipt, required, insert_turn}
use hopper_pi.Journal.Events.{event, expect}
use hopper_pi.Journal.Turns.{ask, answer_work}
use hopper_pi.Journal.Outcomes.{Verdict, verdict_state, operation_result}
use hopper_pi.Journal.Lasting.{Lasting, AnswersLast, OutcomesLast, is_open}
use hopper_pi.Journal.Lasting.Rows.{AnswersLast-append, beside_answers, only_answers, only_outcomes}

pub ask-Lasting : (k u c p id : String) → Lasting (ask k u c p id)
unfolding ask expect event required
ask-Lasting k u c p id = record {
  at = λ d d' a h.
      only_answers
        (subst (AnswersLast d.questions) (sym (ground arith)) (
          AnswersLast-append d.questions (record {
            id = id;
            task_id = k;
            turn_id = u;
            tool_call_id = c;
            payload = p;
            answer = none;
            continuation_id = none;
          })))
        (ground arith);
}

abbrev answered : String → String → Question → Question
answered s u q = record q { answer = some s; continuation_id = some u }

-- A row that is answered already is another one than that which is answered now.
AnswersLast-answer :
    (k s u : String) (xs : List Question) (q : Question)
    → get k xs ≡ some q
    → is_some q.answer ≡ false
    → AnswersLast xs (put k (answered s u) xs)
AnswersLast-answer k s u xs q g n j x f a =
    ground (arith, eq_iff k j, get-put j k (answered s u) xs x (λ r. refl) f, ap (λ z. get z xs))

answer_from :
    (k s u : String) (d d' : Db) (a : Receipt) (q : Question)
    → get k d.questions ≡ some q
    → answer_work k s u d ≡ ok (a, d')
    → (is_some q.answer ≡ false)
      × (d'.questions ≡ put k (answered s u) d.questions)
      × (beside_answers d' ≡ beside_answers d)
unfolding answer_work insert_turn event
answer_from k s u d d' a q g h = (ground arith, ground arith, ground arith)

answer_missing :
    (k s u : String) (d d' : Db) (a : Receipt)
    → get k d.questions ≡ none
    → answer_work k s u d ≢ ok (a, d')
unfolding answer_work
answer_missing k s u d d' a g h = ground arith

pub answer_work-Lasting : (k s u : String) → Lasting (answer_work k s u)
answer_work-Lasting k s u = record {
  at = λ d d' a h. elim (Option-cases (get k d.questions)) [
    | inl e ↦ absurd (answer_missing k s u d d' a e h)
    | inr (q, e) ↦
        let (n, f, b) = answer_from k s u d d' a q e h in
        only_answers
          (subst (AnswersLast d.questions) (sym f) (AnswersLast-answer k s u d.questions q e n)) b
  ];
}

abbrev recorded : Verdict → String → Operation → Operation
recorded v r o = record o { state = verdict_state v; result = some r }

OutcomesLast-record :
    (k r : String) (v : Verdict) (xs : List Operation) (o : Operation)
    → get k xs ≡ some o
    → is_open o.state ≡ true
    → OutcomesLast xs (put k (recorded v r) xs)
OutcomesLast-record k r v xs o g n j x f a =
    ground (arith, eq_iff k j, get-put j k (recorded v r) xs x (λ z. refl) f, ap (λ z. get z xs))

pub operation_result-Lasting :
    (k : String) (v : Verdict) (r : String) → Lasting (operation_result k v r)
unfolding operation_result event
operation_result-Lasting k v r = record {
  at = λ d d' a h. elim (Option-cases (get k d.operations)) [
    | inl e ↦ absurd (ground arith)
    | inr (o, e) ↦
        only_outcomes
          (subst (OutcomesLast d.operations) (sym (ground arith))
            (OutcomesLast-record k r v d.operations o e (ground arith)))
          (ground arith)
  ];
}
