-- ===== src/RpcClient/Closed.antt =====
-- src/infra/rpc-client.ts: the calls of a client that was closed.
use hopper_pi.Prelude.{
  ℕ, String, ◌≡◌, refl, Bool, true, ◌&&◌, ◌||◌, not, List, [], ◌∷◌, all, map, all-map, arith,
  Option-cases, inl, inr,
}
use hopper_pi.Prelude.Table.{get, put, all-put}
use hopper_pi.RpcClient.{Call, Client, call_keyed, protocol_error, response}
use hopper_pi.RpcClient.Pending.{
  finish, reject_pending, resolve_unknown, time_out, on_completion_timeout,
}
use hopper_pi.RpcClient.Calls.{
  CallRequest, is_callable, call, reached, reach, dispatched, dispatch, fail_unsent, refuse,
  look_up-cases, found, take_over, follow,
}
use hopper_pi.RpcClient.Sockets.{
  answer, refuse_by_protocol, handle_payload, handle_disconnect, lose, sweep, receive_failed,
  sent_off, send_done, send_failed, abandon, close, close_sweep, connected,
}
use hopper_pi.RpcClient.Steps.{
  Happening, step, run, calls, reaches, dispatches, refuses, sends, fails_to_send, times_out,
  follows, looks_up, connects, loses, receives, sweeps, closes, close_sweeps,
}
use hopper_pi.RpcClient.Logged.{
  Keeps, time_out-Keeps, lose-Keeps, sent_off-Keeps, fail_unsent-Keeps, reached-Keeps, answer-Keeps,
  refuse_by_protocol-Keeps, take_over-Keeps,
}

abbrev pub is_gone : Call → Bool
is_gone c = not c.in_map

-- Once `close` is through, no call is in the map.
abbrev pub is_over : Client → Bool
is_over s =
    (not s.is_closed || s.is_closing || all is_gone s.calls) && (s.is_closed || not s.is_closing)

dispatched_gone : (c : Call) → is_gone c ≡ true → is_gone (dispatched c) ≡ true
unfolding dispatched
dispatched_gone c h = ground arith

abandon_gone : (cs : List Call) → all is_gone (map abandon cs) ≡ true
unfolding abandon resolve_unknown reject_pending finish
abandon_gone [] = refl
abandon_gone (c ∷ cs) = ground (arith, abandon_gone cs)

module _ (f : Call → Call) (kept : Keeps f) where
  put-gone : (k : String) (cs : List Call) → all is_gone cs ≡ true → all is_gone (put k f cs) ≡ true
  put-gone k cs h = all-put is_gone k f cs (λ c q g. ground (arith, kept.same_map c)) h

  map-gone : (cs : List Call) → all is_gone cs ≡ true → all is_gone (map f cs) ≡ true
  map-gone cs h = all-map is_gone f cs (λ c g. ground (arith, kept.same_map c)) h

call-over :
    (id : String) (now : ℕ) (r : CallRequest) (s : Client)
    → is_over s ≡ true
    → is_over (call id now r s) ≡ true
unfolding call is_callable
call-over id now r s h = ground arith

step-over : (e : Happening) (s : Client) → is_over s ≡ true → is_over (step e s) ≡ true
unfolding step reach dispatch refuse send_done send_failed on_completion_timeout follow connected
    receive_failed handle_payload handle_disconnect sweep close close_sweep
step-over (calls id now r) s h = call-over id now r s h
step-over (reaches id k b) s h = ground (
  arith,
  put-gone (reached s.lifecycle_instance_id k b) (reached-Keeps s.lifecycle_instance_id k b) id
      s.calls,
)
step-over (dispatches id) s h =
    ground (arith, all-put is_gone id dispatched s.calls (λ (c : Call) q g. dispatched_gone c g))
step-over (refuses id) s h = ground (arith, put-gone fail_unsent fail_unsent-Keeps id s.calls)
step-over (sends id) s h = ground (arith, put-gone sent_off sent_off-Keeps id s.calls)
step-over (fails_to_send id) s h = ground (arith, put-gone sent_off sent_off-Keeps id s.calls)
step-over (times_out id) s h = ground (arith, put-gone time_out time_out-Keeps id s.calls)
step-over (follows id) s h = elim (Option-cases (found (get id s.calls))) [
  | inl e ↦ ground arith
  | inr ((k, t), e) ↦ ground (
    arith,
    put-gone (take_over s.lifecycle_instance_id t) (take_over-Keeps s.lifecycle_instance_id t) k
        s.calls,
  )
]
step-over (looks_up limit id new now) s h = elim (look_up-cases limit id new now s) [
  | inl e ↦ ground arith
  | inr (r, m, e) ↦ let over = call-over new now r s h in ground arith
]
step-over (connects k) s h = ground arith
step-over (loses k) s h = ground arith
step-over (receives (protocol_error id t)) s h =
    ground (arith, put-gone (refuse_by_protocol t) (refuse_by_protocol-Keeps t) id s.calls)
step-over (receives (response r)) s h = ground (
  arith,
  put-gone (answer s.lifecycle_instance_id r) (answer-Keeps s.lifecycle_instance_id r) r.request_id
      s.calls,
)
step-over sweeps s h = ground (arith, map-gone lose lose-Keeps s.calls)
step-over closes s h = ground (arith, abandon_gone s.calls)
step-over close_sweeps s h = ground (arith, abandon_gone s.calls)

pub run-over : (es : List Happening) (s : Client) → is_over s ≡ true → is_over (run es s) ≡ true
unfolding run
run-over [] s h = h
run-over (e ∷ es) s h = run-over es (step e s) (step-over e s h)
