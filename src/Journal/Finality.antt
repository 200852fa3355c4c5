-- ===== src/Journal/Finality.antt =====
-- src/host/shared/journal.ts: what happens when the same thing is settled a second time, with any calls
-- in between.
use hopper_pi.Prelude.{
  is_some, ◌&&◌, ltb, ◌≤◌, ◌<◌, ℕ, String, ◌≡◌, ◌≢◌, refl, true, false, none, some, List, arith,
  any, Option-cases, eq_refl, ◌==◌, inl, inr,
}
use hopper_pi.Prelude.Table.{get, get-put}
use hopper_pi.Journal.History.{Services, Call, history}
use hopper_pi.Journal.Lasting.{Goes-trans, stage, is_open}
use hopper_pi.Journal.Lasting.Inputs.{mark_input-Lasting}
use hopper_pi.Journal.Lasting.Rows.{get_input-id}
use hopper_pi.Journal.Lasting.Always.{history-Goes}
use hopper_pi.Journal.Rows.{
  Input, InputState, Question, Operation, Reservation, question_keyed, operation_keyed,
  reservation_keyed, task_keyed, turn_keyed,
}
use hopper_pi.Journal.Database.{Db, ok, err, Error, Receipt, insert_turn}
use hopper_pi.Journal.Events.{event}
use hopper_pi.Journal.Turns.{answer_work}
use hopper_pi.Journal.Inputs.{
  Delivery, delivers, applies, mark_input, mark_input_not_applied, get_input, is_unsettled,
}
use hopper_pi.Journal.Operations.{Destination, insert_reservations}
use hopper_pi.Journal.Outcomes.{Verdict, verdict_state, reserve, operation_result}
use hopper_pi.Journal.Inputs.Marks.{
  marked, handed_refuses, settled_refuses, not_dropped, settled_stage, any-get_input, none_earlier,
}
use hopper_pi.Journal.Operations.Reserved.{reserve_kept, IsHeld, reserves_free}

answered_refuses :
    (k b w : String) (d : Db) (q : Question)
    → get k d.questions ≡ some q
    → is_some q.answer ≡ true
    → answer_work k b w d ≡ err Error.question_not_answerable
unfolding answer_work
answered_refuses k b w d q g a = ground arith

answer_stored :
    (k a u : String) (d d' : Db) (r : Receipt)
    → answer_work k a u d ≡ ok (r, d')
    → (q : Question) × (get k d'.questions ≡ some q) × (is_some q.answer ≡ true)
unfolding answer_work insert_turn event
answer_stored k a u d d' r h = elim (Option-cases (get k d.questions)) [
  | inl e ↦ absurd (ground arith)
  | inr (q, e) ↦ (
    record q { answer = some a; continuation_id = some u },
    ground (
      arith,
      eq_refl k,
      get-put k k (λ (x : Question). record x { answer = some a; continuation_id = some u })
          d.questions q (λ x. refl) e,
    ),
    refl,
  )
]

-- A question that was answered cannot be answered again, whatever modelled methods are called in
-- between, with whatever text and for whatever turn.
pub answer_once :
    (v : Services) (cs : List Call) (k a b u w : String) (d d' : Db) (r : Receipt)
    → answer_work k a u d ≡ ok (r, d')
    → answer_work k b w (history v cs d') ≡ err Error.question_not_answerable
answer_once v cs k a b u w d d' r h =
    let (q, g, s) = answer_stored k a u d d' r h in
    answered_refuses k b w (history v cs d') q ((history-Goes v cs d').answers k q g s) s

recorded_refuses :
    (k b : String) (w : Verdict) (d : Db) (o : Operation)
    → get k d.operations ≡ some o
    → is_open o.state ≡ false
    → operation_result k w b d ≡ err Error.outcome_recorded
unfolding operation_result
recorded_refuses k b w d o g s = ground arith

verdict_closes : (v : Verdict) → is_open (verdict_state v) ≡ false
verdict_closes Verdict.completed = refl
verdict_closes Verdict.failed = refl
verdict_closes Verdict.cancelled = refl
verdict_closes Verdict.uncertain = refl

outcome_stored :
    (k a : String) (v : Verdict) (d d' : Db) (n : ℕ)
    → operation_result k v a d ≡ ok (n, d')
    → (o : Operation) × (get k d'.operations ≡ some o) × (is_open o.state ≡ false)
unfolding operation_result event
outcome_stored k a v d d' n h = elim (Option-cases (get k d.operations)) [
  | inl e ↦ absurd (ground arith)
  | inr (o, e) ↦ (
    record o { state = verdict_state v; result = some a },
    ground (
      arith,
      eq_refl k,
      get-put k k (λ (x : Operation). record x { state = verdict_state v; result = some a })
          d.operations o (λ x. refl) e,
    ),
    verdict_closes v,
  )
]

-- An operation whose outcome was recorded takes no second outcome, whatever modelled
-- methods are called in between, the recovery of a restart included.
pub outcome_once :
    (s : Services) (cs : List Call) (k a b : String) (v w : Verdict) (d d' : Db) (n : ℕ)
    → operation_result k v a d ≡ ok (n, d')
    → operation_result k w b (history s cs d') ≡ err Error.outcome_recorded
outcome_once s cs k a b v w d d' n h =
    let (o, g, c) = outcome_stored k a v d d' n h in
    recorded_refuses k b w (history s cs d') o ((history-Goes s cs d').outcomes k o g c) c

-- Inputs are handed to the driver in order: when one was handed over, an earlier input of the same
-- turn is not handed over any more, whatever modelled methods are called afterwards.
pub delivery_in_order :
    (v : Services) (cs : List Call) (m n : ℕ) (d d' d'' : Db) (e e' : ℕ) (i j : Input)
    → mark_input n delivers d ≡ ok (e, d')
    → get_input n d.inputs ≡ some i
    → get_input m d.inputs ≡ some j
    → j.turn_id ≡ i.turn_id
    → m < n
    → mark_input m delivers (history v cs d') ≢ ok (e', d'')
delivery_in_order v cs m n d d' d'' e e' i j h g f same less =
    let (own, jd) =
      any-get_input (λ x. x.turn_id == i.turn_id && ltb x.id i.id && is_unsettled x.state) m
        d.inputs j (none_earlier n d d' e i h g) f in
    let id : i.id ≡ n = get_input-id n d.inputs i g in
    let settled : 3 ≤ stage j.state =
      settled_stage j.state (ground (arith, own, jd, id, less, same, eq_refl i.turn_id)) in
    let goes = Goes-trans ((mark_input-Lasting n delivers).at d d' e h) (history-Goes v cs d') in
    let (l, a, b, c) = goes.inputs m j f in
    handed_refuses m (history v cs d') d'' e' l a (omega (arith, b, settled))

-- An input that was handed to the driver is not handed to it again, whatever modelled methods are
-- called in between; and
-- one that was marked as applied is neither handed over nor marked as applied nor marked as not
-- applied later.
pub input_settles_once :
    (v : Services) (cs : List Call) (n : ℕ) (d d' : Db) (e : ℕ) (x : Delivery)
    → mark_input n x d ≡ ok (e, d')
    → ((e' : ℕ) (d'' : Db) → mark_input n delivers (history v cs d') ≢ ok (e', d''))
      × (x ≡ applies
          → ((e' : ℕ) (d'' : Db) → mark_input n applies (history v cs d') ≢ ok (e', d''))
            × (mark_input_not_applied n (history v cs d') ≡ err Error.input_settled))
input_settles_once v cs n d d' e delivers h =
    let (i, m, p, g) = marked n delivers d d' e h in
    let (j, a, b, c) =
      (history-Goes v cs d').inputs n (record i { state = InputState.delivering }) g in
    (λ e' d'' k. handed_refuses n (history v cs d') d'' e' j a b k, λ q. ground arith)
input_settles_once v cs n d d' e applies h =
    let (i, m, p, g) = marked n applies d d' e h in
    let (j, a, b, c) =
      (history-Goes v cs d').inputs n (record i { state = InputState.applied }) g in
    (
      λ e' d'' k. handed_refuses n (history v cs d') d'' e' j a (omega (arith, b)) k,
      λ q. (
        λ e' d'' k. settled_refuses n (history v cs d') d'' e' j a b k,
        not_dropped n (history v cs d') j a b,
      ),
    )

-- When `reserve` succeeds, each destination was free and is then held by the operation, and what was
-- reserved before stays reserved by the same operation.
pub reserves_exclusively :
    (sort : List Destination → List Destination) (op : String) (xs : List Destination) (d d' : Db)
    → reserve sort op xs d ≡ ok (tt, d')
    → ((k : String)
        → any (λ x. x.identity == k) (sort xs) ≡ true
        → (get k d.reservations ≡ none) × IsHeld op k d')
      × ((k : String) (r : Reservation)
          → get k d.reservations ≡ some r
          → get k d'.reservations ≡ some r)
unfolding reserve
reserves_exclusively sort op xs d d' h =
    let inserts : insert_reservations op (sort xs) d ≡ ok (tt, d') = ground arith in
    (
      λ k a. reserves_free op k (sort xs) d d' inserts a,
      λ k r g. reserve_kept op k (sort xs) d d' r inserts g,
    )
