-- ===== src/RpcClient/Promises.antt =====
-- src/infra/rpc-client.ts: how calls end, in every order of the pieces.
use hopper_pi.Prelude.{
  String, ◌≡◌, refl, ◌∙◌, true, false, Option, none, some, List, [], ◌∷◌, ◌==◌, eq_iff, is_some,
  is_none, arith, count, one,
}
use hopper_pi.Prelude.Table.{get, all-get}
use hopper_pi.RpcClient.{
  resolved, unknown, rejected, Failure, Call, Client, is_mutation, call_keyed, Response,
  protocol_error, response, create,
}
use hopper_pi.RpcClient.Pending.{is_sent_mutation, on_completion_timeout}
use hopper_pi.RpcClient.Calls.{call, reach, dispatch, refuse, look_up-cases, follow}
use hopper_pi.RpcClient.Sockets.{
  matches, same_operation_id, handle_payload, handle_disconnect, sweep, receive_failed, send_done,
  send_failed, close, close_sweep, connected,
}
use hopper_pi.RpcClient.Steps.{Happening, AreFresh, step, run, calls, looks_up, receives}
use hopper_pi.RpcClient.Sound.{is_reported, is_sound, run_sound}
use hopper_pi.RpcClient.Logged.{was_sent, run-IsLogged}
use hopper_pi.RpcClient.Closed.{is_gone, run-over}

step_lifecycle :
    (e : Happening) (s : Client) → (step e s).lifecycle_instance_id ≡ s.lifecycle_instance_id
unfolding step call reach dispatch refuse send_done send_failed on_completion_timeout follow
    connected receive_failed handle_payload handle_disconnect sweep close close_sweep
step_lifecycle (calls id now r) s = ground arith
step_lifecycle (receives (response r)) s = refl
step_lifecycle (receives (protocol_error id t)) s = refl
step_lifecycle (looks_up limit id new now) s = ground (arith, look_up-cases limit id new now s)
step_lifecycle e s = ground arith

run_lifecycle :
    (es : List Happening) (s : Client) → (run es s).lifecycle_instance_id ≡ s.lifecycle_instance_id
unfolding run
run_lifecycle [] s = refl
run_lifecycle (e ∷ es) s = run_lifecycle es (step e s) ∙ step_lifecycle e s

sound_call :
    (l k : String) (es : List Happening) (c : Call)
    → get k (run es (create l)).calls ≡ some c
    → is_sound l c ≡ true
unfolding create
sound_call l k es c g = ground (
  arith,
  run_lifecycle es (create l),
  all-get (is_sound (run es (create l)).lifecycle_instance_id) k (run es (create l)).calls c
      (run_sound es (create l) refl) g,
)

same_operation : (x y : Option String) → is_some x ≡ true → same_operation_id x y ≡ true → y ≡ x
unfolding same_operation_id
same_operation none y h e = ground arith
same_operation (some a) none h e = ground arith
same_operation (some a) (some b) h e = ground (arith, eq_iff b a)

-- However connections, replies, timers and the closing of the client fall together: the call of a
-- mutation that was handed to a socket is rejected only for what the other side reports. Until it has
-- an outcome it stays pending, and a call that has one is pending no more.
pub sent_mutation_not_rejected :
    (l k : String) (es : List Happening) (c : Call)
    → AreFresh es (create l)
    → get k (run es (create l)).calls ≡ some c
    → ((f : Failure)
        → c.outcome ≡ some (rejected f)
        → c.sent ≡ true
        → is_mutation c.operation ≡ true
        → is_reported f ≡ true)
      × (is_none c.outcome ≡ c.in_map)
unfolding is_sent_mutation
sent_mutation_not_rejected l k es c a g =
    let h = sound_call l k es c g in (λ f o m n. ground arith, ground arith)

-- A call resolves only to a response that names its lifecycle, its request, its operation and, for a
-- mutation, its operation id; and an unknown outcome is only that of a mutation that was sent.
pub responses_match :
    (l k : String) (es : List Happening) (c : Call)
    → AreFresh es (create l)
    → get k (run es (create l)).calls ≡ some c
    → ((r : Response)
        → c.outcome ≡ some (resolved r)
        → (r.lifecycle_instance_id ≡ l)
          × (r.request_id ≡ c.request_id)
          × (r.operation ≡ c.operation)
          × (is_mutation c.operation ≡ true → r.operation_id ≡ c.operation_id))
      × ((id : String)
          → c.outcome ≡ some (unknown id)
          → (is_mutation c.operation ≡ true) × (c.sent ≡ true))
unfolding is_sent_mutation matches same_operation_id
responses_match l k es c a g =
    let h = sound_call l k es c g in
    (
      λ r o. (
        ground (arith, eq_iff r.lifecycle_instance_id l),
        ground (arith, eq_iff r.request_id c.request_id),
        ground (arith, eq_iff r.operation c.operation),
        λ m. same_operation c.operation_id r.operation_id (ground arith) (ground arith),
      ),
      λ id o. (ground arith, ground arith),
    )

-- A request is handed to a socket at most once, and exactly the calls that are marked as sent were.
pub sent_at_most_once :
    (l k : String) (es : List Happening)
    → AreFresh es (create l)
    → count (λ x. x == k) (run es (create l)).sent_log
      ≡ one (was_sent (get k (run es (create l)).calls))
unfolding create get
sent_at_most_once l k es a = run-IsLogged es (create l) refl (λ j. refl) k

-- When `close` is through, every call that was ever made has its outcome.
pub closing_settles_all :
    (l k : String) (es : List Happening) (c : Call)
    → AreFresh es (create l)
    → (run es (create l)).is_closed ≡ true
    → (run es (create l)).is_closing ≡ false
    → get k (run es (create l)).calls ≡ some c
    → is_some c.outcome ≡ true
unfolding create
closing_settles_all l k es c a d n g =
    let h = sound_call l k es c g in
    let over = run-over es (create l) refl in
    ground (arith, all-get is_gone k (run es (create l)).calls c)
