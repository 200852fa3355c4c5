-- ===== src/TaskService/Sound/Requests.antt =====
-- What callers ask of the service (src/host/shared/task-service.ts, lines 149 to 269).
use hopper_pi.Prelude.{String, refl, Bool, Option, none, some, List, arith}
use hopper_pi.Journal.Rows.{Submission, Turn, task_keyed}
use hopper_pi.Journal.Database.{Tx, Receipt, required}
use hopper_pi.Journal.Requests.{RequestPayload, submit}
use hopper_pi.Journal.Conversations.{accept, accept_work}
use hopper_pi.Journal.Turns.{answer}
use hopper_pi.Journal.Delegation.{delegate}
use hopper_pi.Journal.Settlement.{cancels}
use hopper_pi.Journal.Refinement.{Refines, request-Refines}
use hopper_pi.Journal.Refinement.Turns.{
  accept_work-Refines, delegate_work-Refines, answer_work-Refines,
}
use hopper_pi.Journal.Refinement.Settlement.{settle-Refines, cancel_work-Refines}
use hopper_pi.TaskService.{Options, Active, Host, journal, ◌>>=◌, pure}
use hopper_pi.TaskService.Pump.{scheduling_snapshot, pump}
use hopper_pi.TaskService.Fences.{is_over_budget}
use hopper_pi.TaskService.Requests
use hopper_pi.TaskService.Sound.{
  Keeps, Keeps-pure, Keeps-throw, Keeps-bind, Keeps-if, Keeps-read, Keeps-journal,
  Keeps-journal_then, Keeps-modify, Keeps-set_active,
}
use hopper_pi.TaskService.Sound.Passes.{pump-Keeps}

accept-Refines :
    (hash : RequestPayload → String) (x : Submission) (k u : String) → Refines (accept hash x k u)
unfolding accept required
accept-Refines hash x k u = record {
  at = λ d d' a h.
      (request-Refines hash x.request_id (submit x) (accept_work x k u)
          (accept_work-Refines x k u)).at
        d d' a (ground arith);
}

module _ (o : Options) (host : Host) where
  -- A method of the journal, then a pass over the queue.
  then_pump-Keeps :
      {m : Tx Receipt} → Refines m → Keeps o (journal m >>= λ r. (pump o host >>= λ u. pure r))
  then_pump-Keeps r =
      Keeps-bind (Keeps-journal r) (λ x. Keeps-bind (pump-Keeps o host) (λ u. Keeps-pure x))

  pub submit-Keeps : (x : Submission) (k u : String) → Keeps o (Requests.submit o host x k u)
  unfolding Requests.submit
  submit-Keeps x k u = record {
    at = λ ts s h.
        (Keeps-if s.is_stopped (Keeps-throw _)
            (then_pump-Keeps (accept-Refines host.hash x k u))).at
          ts s h;
  }

  pub delegate_to-Keeps :
      (x : Submission) (p : String) (ds : List String) (k u : String)
      → Keeps o (Requests.delegate_to o host x p ds k u)
  unfolding Requests.delegate_to delegate
  delegate_to-Keeps x p ds k u = record {
    at = λ ts s h.
        (Keeps-if s.is_stopped (Keeps-throw _) (
            Keeps-if (is_over_budget o p _) (Keeps-throw _) (
              then_pump-Keeps (
                request-Refines host.hash x.request_id _ _ (delegate_work-Refines x p ds k u))))).at
          ts s h;
  }

  pub answer_question-Keeps : (r q t u : String) → Keeps o (Requests.answer_question o host r q t u)
  unfolding Requests.answer_question answer
  answer_question-Keeps r q t u =
      then_pump-Keeps (request-Refines host.hash r _ _ (answer_work-Refines q t u))

  pub request_cancel-Keeps : (k : String) → Keeps o (Requests.request_cancel o host k)
  unfolding Requests.request_cancel
  request_cancel-Keeps k = Keeps-journal (cancel_work-Refines k)

  settle_last-Keeps :
      (k : String) (t : Option Turn) (b : Bool) → Keeps o (Requests.settle_last k t b)
  unfolding Requests.settle_last
  settle_last-Keeps k none b = Keeps-pure tt
  settle_last-Keeps k (some t) b =
      Keeps-if b (Keeps-journal_then tt (settle-Refines k t.id cancels)) (Keeps-pure tt)

  cancel_entry-Keeps : (k : String) (a : Option Active) → Keeps o (Requests.cancel_entry o host k a)
  unfolding Requests.cancel_entry
  cancel_entry-Keeps k (some a) = Keeps-set_active a.serial _ (λ x. ground arith) (λ x. omega arith)
  cancel_entry-Keeps k none = Keeps-read (scheduling_snapshot _) (λ d. settle_last-Keeps k _ _)

  pub cancel_one-Keeps : (k : String) → Keeps o (Requests.cancel_one o host k)
  unfolding Requests.cancel_one
  cancel_one-Keeps k = Keeps-read _ (cancel_entry-Keeps k)

  pub stop-Keeps : Keeps o (Requests.stop o host)
  unfolding Requests.stop
  stop-Keeps = Keeps-modify (λ s. refl) (λ s. refl) (λ s. refl) (λ s. refl)

  pub release_recovered-Keeps : (k : String) → Keeps o (Requests.release_recovered o host k)
  unfolding Requests.release_recovered
  release_recovered-Keeps k = record {
    at = λ ts s h.
        (Keeps-if _
            (Keeps-bind (Keeps-modify (λ s. refl) (λ s. refl) (λ s. refl) (λ s. refl))
              (λ u. pump-Keeps o host))
            (Keeps-throw _)).at
          ts s h;
  }
