-- ===== src/Journal/Conversations/Once.antt =====
-- src/host/shared/journal.ts: a message that is sent again.
use hopper_pi.Prelude.{String, List, ◌≡◌, refl, arith}
use hopper_pi.Journal.Rows.{Submission}
use hopper_pi.Journal.Database.{Db, ok, required, insert_task, insert_turn, Receipt}
use hopper_pi.Journal.Events.{event}
use hopper_pi.Journal.Requests.{RequestPayload, submit, request}
use hopper_pi.Journal.Requests.Once.{IsStored, request-IsStored, request_again}
use hopper_pi.Journal.History.{Services, Call, history}
use hopper_pi.Journal.Lasting.Always.{history-Goes}
use hopper_pi.Journal.Conversations.{
  accept, accept_work, label_target, assert_writable_conversation,
}

accept_work-requests :
    (x : Submission) (k u : String) (d d' : Db) (r : Receipt)
    → accept_work x k u d ≡ ok (r, d')
    → (d'.requests ≡ d.requests)
unfolding accept_work label_target insert_task insert_turn event assert_writable_conversation
accept_work-requests x k u d d' r h = ground arith

accept_work-receipt :
    (x : Submission) (k u : String) (d d' : Db) (r : Receipt)
    → accept_work x k u d ≡ ok (r, d')
    → r ≡ Receipt.work k u d.next_event
unfolding accept_work label_target insert_task insert_turn event assert_writable_conversation
accept_work-receipt x k u d d' r h = ground arith

module _ (hash : RequestPayload → String) (x : Submission) where
  accept_to_request :
      (k u : String) (d d' : Db) (r : Receipt)
      → accept hash x k u d ≡ ok (r, d')
      → request hash x.request_id (submit x) (accept_work x k u) d ≡ ok (r, d')
  unfolding accept required
  accept_to_request k u d d' r h = ground arith

  request_to_accept :
      (k u k' u' : String) (d d' e e' : Db) (r s : Receipt)
      → accept hash x k u d ≡ ok (r, d')
      → request hash x.request_id (submit x) (accept_work x k' u') e ≡ ok (s, e')
      → accept hash x k' u' e ≡ ok (s, e')
  unfolding accept required
  request_to_accept k u k' u' d d' e e' r s h q = ground arith

  required_id :
      (k u : String) (d d' e : Db) (r : Receipt)
      → accept hash x k u d ≡ ok (r, d')
      → required x.request_id e ≡ ok (tt, e)
  unfolding accept request required
  required_id k u d d' e r h = ground arith

  accept-IsStored :
      (k u : String) (d d' : Db) (r : Receipt)
      → accept hash x k u d ≡ ok (r, d')
      → IsStored hash x.request_id (submit x) r d'
  accept-IsStored k u d d' r h =
      request-IsStored hash x.request_id (submit x) (accept_work x k u) d d' r
        (λ b e f. (accept_work-requests x k u d e b f, rw (accept_work-receipt x k u d e b f) refl))
        (accept_to_request k u d d' r h)

-- The row of a request stays, and with it what is stored.
IsStored-history :
    (v : Services) (cs : List Call) (x : Submission) (d : Db) (r : Receipt)
    → IsStored v.hash x.request_id (submit x) r d
    → IsStored v.hash x.request_id (submit x) r (history v cs d)
unfolding IsStored
IsStored-history v cs x d r (y, g, same, kept, live) =
    (y, (history-Goes v cs d).receipts x.request_id y g, same, kept, live)

-- A message that was accepted is answered with the same receipt when it is sent again, whatever new
-- identifiers are at hand and whatever modelled methods were called in between (deletion is not among them), and
-- the tables stay as they are then.
pub accept_once :
    (v : Services) (cs : List Call) (x : Submission) (k u k' u' : String) (d d' : Db) (r : Receipt)
    → accept v.hash x k u d ≡ ok (r, d')
    → accept v.hash x k' u' (history v cs d') ≡ ok (r, history v cs d')
accept_once v cs x k u k' u' d d' r h =
    let e = history v cs d' in
    request_to_accept v.hash x k u k' u' d d' e e r r h (
      request_again v.hash x.request_id (submit x) (accept_work x k' u') e r
        (IsStored-history v cs x d' r (accept-IsStored v.hash x k u d d' r h))
        (required_id v.hash x k u d d' e r h))
