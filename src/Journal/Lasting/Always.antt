-- ===== src/Journal/Lasting/Always.antt =====
-- Any calls of the journal (src/host/shared/journal.ts), in any order, take nothing back.
use hopper_pi.Prelude.{some, String, List, [], ◌∷◌}
use hopper_pi.Journal.Database.{Db, Result, ok, err, transaction}
use hopper_pi.Journal.Restart.{
  recover, recover_running, retired_admissions, retired_admission, finish_admission,
  finish_admissions, and_then,
}
use hopper_pi.Journal.Conversations.{accept_work}
use hopper_pi.Journal.Turns.{answer_work}
use hopper_pi.Journal.Inputs.{steer_work}
use hopper_pi.Journal.Delegation.{delegate_work}
use hopper_pi.Journal.Outcomes.{disposition_work}
use hopper_pi.Journal.Records.{put_record_work}
use hopper_pi.Journal.History.{
  Services, Call, perform, history, registers, accepts, schedules, admits, starts, asks, confirms,
  answers, steers, marks, drops, doubts_scope, settles, recovers, fails_queued, fails_running,
  cancels, doubts, delegates, intends, results, reserves, disposes, begins_handoff, starts_handoff,
  completes_handoff, launches, grants, attaches, puts, uses, publishes, transitions,
}
use hopper_pi.Journal.Lasting.{
  Goes, Goes-refl, Goes-trans, KeepsFrame-Lasting, request-Lasting, transaction-Goes,
}
use hopper_pi.Journal.Lasting.Changed.{answer_work-Lasting, ask-Lasting, operation_result-Lasting}
use hopper_pi.Journal.Lasting.Inputs.{
  confirm_suspension-Lasting, fail_running-Lasting, make_uncertain-Lasting, mark_input-Lasting,
  mark_input_not_applied-Lasting, settle-Lasting, start_handoff_action-Lasting, steer_work-Lasting,
  recover_running-Lasting,
}
use hopper_pi.Journal.Lasting.Intent.{operation_intent-Lasting}
use hopper_pi.Journal.Lasting.Unchanged.{
  accept_work-KeepsFrame, attachment-KeepsFrame, begin_handoff-KeepsFrame, cancel_work-KeepsFrame,
  complete_granted_action-KeepsFrame, complete_handoff-KeepsFrame, complete_rhino_launch-KeepsFrame,
  delegate_work-KeepsFrame, disposition_work-KeepsFrame, fail_queued-KeepsFrame,
  finish_admission-KeepsFrame, mark_scope_uncertain-KeepsFrame, publish-KeepsFrame,
  put_record_work-KeepsFrame, record_usage-KeepsFrame, register_session-KeepsFrame,
  reserve-KeepsFrame, set_scheduling_block-KeepsFrame, start-KeepsFrame,
  transition_record-KeepsFrame,
}

and_then-Goes :
    (d : Db) (r : Result (Unit {0}) × Db) (next : Db → Result (Unit {0}) × Db)
    → Goes d r.1
    → ((e : Db) → Goes e (next e).1)
    → Goes d (and_then r next).1
unfolding and_then
and_then-Goes d (ok u, e) next g n = Goes-trans g (n e)
and_then-Goes d (err x, e) next g n = g

finish_admissions-Goes : (ids : List String) (d : Db) → Goes d (finish_admissions ids d).1
unfolding finish_admissions
finish_admissions-Goes [] d = Goes-refl d
finish_admissions-Goes (id ∷ ids) d =
    and_then-Goes d (transaction (finish_admission id (some retired_admission)) d)
      (finish_admissions ids)
      (transaction-Goes _
        (KeepsFrame-Lasting (finish_admission-KeepsFrame id (some retired_admission))) d)
      (finish_admissions-Goes ids)

recover-Goes : (d : Db) → Goes d (recover d).1
unfolding recover
recover-Goes d =
    and_then-Goes d (finish_admissions (retired_admissions d.records d.tasks) d)
      (transaction recover_running)
      (finish_admissions-Goes (retired_admissions d.records d.tasks) d)
      (transaction-Goes recover_running recover_running-Lasting)

module _ (v : Services) where
  perform-Goes : (c : Call) (d : Db) → Goes d (perform v c d)
  unfolding perform
  perform-Goes (registers c s) d =
      transaction-Goes _ (KeepsFrame-Lasting (register_session-KeepsFrame c s)) d
  perform-Goes (accepts r p x k u) d =
      transaction-Goes _
        (request-Lasting v.hash r p (accept_work x k u)
          (KeepsFrame-Lasting (accept_work-KeepsFrame x k u)))
        d
  perform-Goes (schedules k r b) d =
      transaction-Goes _ (KeepsFrame-Lasting (set_scheduling_block-KeepsFrame v.canonical k r b)) d
  perform-Goes (admits k e) d =
      transaction-Goes _ (KeepsFrame-Lasting (finish_admission-KeepsFrame k e)) d
  perform-Goes (starts k u o) d = transaction-Goes _ (KeepsFrame-Lasting (start-KeepsFrame k u o)) d
  perform-Goes (asks k u c p id) d = transaction-Goes _ (ask-Lasting k u c p id) d
  perform-Goes (confirms k u) d = transaction-Goes _ (confirm_suspension-Lasting k u) d
  perform-Goes (answers r p q s u) d =
      transaction-Goes _
        (request-Lasting v.hash r p (answer_work q s u) (answer_work-Lasting q s u)) d
  perform-Goes (steers r p k s u x) d =
      transaction-Goes _
        (request-Lasting v.hash r p (steer_work k s u x) (steer_work-Lasting k s u x)) d
  perform-Goes (marks i x) d = transaction-Goes _ (mark_input-Lasting i x) d
  perform-Goes (drops i) d = transaction-Goes _ (mark_input_not_applied-Lasting i) d
  perform-Goes (doubts_scope k u e id) d =
      transaction-Goes _ (KeepsFrame-Lasting (mark_scope_uncertain-KeepsFrame k u e id)) d
  perform-Goes (settles k u o) d = transaction-Goes _ (settle-Lasting k u o) d
  perform-Goes recovers d = recover-Goes d
  perform-Goes (fails_queued k u r) d =
      transaction-Goes _ (KeepsFrame-Lasting (fail_queued-KeepsFrame k u r)) d
  perform-Goes (fails_running k u r) d = transaction-Goes _ (fail_running-Lasting k u r) d
  perform-Goes (cancels k) d = transaction-Goes _ (KeepsFrame-Lasting (cancel_work-KeepsFrame k)) d
  perform-Goes (doubts k u e) d = transaction-Goes _ (make_uncertain-Lasting k u e) d
  perform-Goes (delegates r p x t ds k u) d =
      transaction-Goes _
        (request-Lasting v.hash r p (delegate_work x t ds k u)
          (KeepsFrame-Lasting (delegate_work-KeepsFrame x t ds k u)))
        d
  perform-Goes (intends i id wire) d =
      transaction-Goes _ (operation_intent-Lasting v.sort i id wire) d
  perform-Goes (results id x r) d = transaction-Goes _ (operation_result-Lasting id x r) d
  perform-Goes (reserves id xs) d =
      transaction-Goes _ (KeepsFrame-Lasting (reserve-KeepsFrame v.sort id xs)) d
  perform-Goes (disposes r p k e id) d =
      transaction-Goes _
        (request-Lasting v.hash r p (disposition_work v.describe k e id)
          (KeepsFrame-Lasting (disposition_work-KeepsFrame v.describe k e id)))
        d
  perform-Goes (begins_handoff k u g id) d =
      transaction-Goes _ (KeepsFrame-Lasting (begin_handoff-KeepsFrame k u g id)) d
  perform-Goes (starts_handoff k u x a) d =
      transaction-Goes _ (start_handoff_action-Lasting k u x a) d
  perform-Goes (completes_handoff k u x r a) d =
      transaction-Goes _ (KeepsFrame-Lasting (complete_handoff-KeepsFrame k u x r a)) d
  perform-Goes (launches id b r) d =
      transaction-Goes _ (KeepsFrame-Lasting (complete_rhino_launch-KeepsFrame id b r)) d
  perform-Goes (grants x id g b r) d =
      transaction-Goes _ (KeepsFrame-Lasting (complete_granted_action-KeepsFrame x id g b r)) d
  perform-Goes (attaches a) d = transaction-Goes _ (KeepsFrame-Lasting (attachment-KeepsFrame a)) d
  perform-Goes (puts r p x id k y t) d =
      transaction-Goes _
        (request-Lasting v.hash r p (put_record_work x id k y t)
          (KeepsFrame-Lasting (put_record_work-KeepsFrame x id k y t)))
        d
  perform-Goes (uses k u n) d =
      transaction-Goes _ (KeepsFrame-Lasting (record_usage-KeepsFrame k u n)) d
  perform-Goes (publishes k fields) d =
      transaction-Goes _ (KeepsFrame-Lasting (publish-KeepsFrame k fields)) d
  perform-Goes (transitions x id e s p t) d =
      transaction-Goes _ (KeepsFrame-Lasting (transition_record-KeepsFrame x id e s p t)) d

  pub history-Goes : (cs : List Call) (d : Db) → Goes d (history v cs d)
  unfolding history
  history-Goes [] d = Goes-refl d
  history-Goes (c ∷ cs) d = Goes-trans (perform-Goes c d) (history-Goes cs (perform v c d))
