-- ===== src/RpcClient/Sound.antt =====
-- What every call of the RPC client (src/infra/rpc-client.ts) keeps in every piece of the client.
use hopper_pi.Prelude.{
  ℕ, String, ◌≡◌, refl, Bool, true, false, ◌&&◌, ◌||◌, not, Option, none, some, List, [], ◌∷◌, ◌==◌,
  eq_refl, eq_iff, is_some, is_none, all, map, all-append, all-map, arith, Option-cases, inl, inr,
}
use hopper_pi.Prelude.Table.{get, put, all-put}
use hopper_pi.RpcClient.{
  Outcome, resolved, unknown, rejected, Failure, protocol, mismatched, Call, Client, is_mutation,
  call_keyed, Response, protocol_error, response, Stage, connecting, admitting,
}
use hopper_pi.RpcClient.Pending.{
  finish, reject_pending, resolve_pending, resolve_unknown, is_sent_mutation, time_out,
  on_completion_timeout,
}
use hopper_pi.RpcClient.Calls.{
  CallRequest, operation_id_of, new_call, call, cancelled, reached, reach, dispatched, dispatch,
  fail_unsent, refuse, look_up-cases, found, take_over, follow,
}
use hopper_pi.RpcClient.Sockets.{
  matches, same_operation_id, answer, refuse_by_protocol, handle_payload, handle_disconnect,
  start_mutation_recovery, lose, sweep, receive_failed, sent_off, send_done, send_failed, abandon,
  close, close_sweep, connected,
}
use hopper_pi.RpcClient.Steps.{
  Happening, step, run, calls, reaches, dispatches, refuses, sends, fails_to_send, times_out,
  follows, looks_up, connects, loses, receives, sweeps, closes, close_sweeps,
}

-- The failures that the other side reports.
abbrev pub is_reported : Failure → Bool
is_reported (protocol reason) = true
is_reported mismatched = true
is_reported _ = false

abbrev pub is_fair : String → Call → Outcome → Bool
is_fair lifecycle c (resolved r) = matches lifecycle r c && r.request_id == c.request_id
is_fair lifecycle c (unknown id) = is_sent_mutation c
is_fair lifecycle c (rejected f) = is_reported f || not (is_sent_mutation c)

-- A call is in the map until it has an outcome, which is fair.
abbrev pub is_consistent : String → Call → Bool
is_consistent lifecycle c = elim c.outcome [
  | none ↦ c.in_map
  | some o ↦ not c.in_map && is_fair lifecycle c o
]

abbrev is_early : Stage → Bool
is_early connecting = true
is_early (admitting socket) = true
is_early _ = false

abbrev pub is_sound : String → Call → Bool
is_sound lifecycle c =
    is_consistent lifecycle c
    && (is_some c.operation_id || not (is_mutation c.operation))
    && (is_none c.operation_id || is_mutation c.operation)
    && not (c.sent && is_early c.stage)
    && (c.sent || is_early c.stage || not c.in_map)

same_self : (o : Option String) → same_operation_id o o ≡ true
unfolding same_operation_id
same_self none = refl
same_self (some id) = eq_refl id

module _ (l : String) (c : Call) where
  time_out_lem : is_sound l c ≡ true → is_sound l (time_out c) ≡ true
  unfolding time_out resolve_unknown reject_pending finish is_sent_mutation matches
  time_out_lem h = ground arith

  abandon_lem : is_sound l c ≡ true → is_sound l (abandon c) ≡ true
  unfolding abandon resolve_unknown reject_pending finish is_sent_mutation matches
  abandon_lem h = ground arith

  lose_lem : is_sound l c ≡ true → is_sound l (lose c) ≡ true
  unfolding lose start_mutation_recovery reject_pending finish is_sent_mutation matches
  lose_lem h = ground arith

  sent_off_lem : is_sound l c ≡ true → is_sound l (sent_off c) ≡ true
  unfolding sent_off is_sent_mutation matches
  sent_off_lem h = ground arith

  fail_unsent_lem : is_sound l c ≡ true → is_sound l (fail_unsent c) ≡ true
  unfolding fail_unsent reject_pending finish is_sent_mutation matches
  fail_unsent_lem h = ground arith

  dispatched_lem : is_sound l c ≡ true → is_sound l (dispatched c) ≡ true
  unfolding dispatched is_sent_mutation matches
  dispatched_lem h = ground arith

  reached_lem :
      (socket : ℕ) (b : Bool) → is_sound l c ≡ true → is_sound l (reached l socket b c) ≡ true
  unfolding reached cancelled resolve_pending finish is_sent_mutation matches
  reached_lem socket b h =
      ground (arith, eq_refl l, eq_refl c.operation, eq_refl c.request_id, same_self c.operation_id)

  answer_lem :
      (r : Response)
      → (c.request_id == r.request_id) ≡ true
      → is_sound l c ≡ true
      → is_sound l (answer l r c) ≡ true
  unfolding answer resolve_pending reject_pending finish is_sent_mutation matches
  answer_lem r k h = ground (arith, eq_iff c.request_id r.request_id, eq_refl r.request_id)

  refuse_by_protocol_lem :
      (t : String) → is_sound l c ≡ true → is_sound l (refuse_by_protocol t c) ≡ true
  unfolding refuse_by_protocol reject_pending finish is_sent_mutation matches
  refuse_by_protocol_lem t h = ground arith

  take_over_lem : (t : String) → is_sound l c ≡ true → is_sound l (take_over l t c) ≡ true
  unfolding take_over resolve_pending finish is_sent_mutation matches
  take_over_lem t h =
      ground (arith, eq_refl l, eq_refl c.operation, eq_refl c.request_id, same_self c.operation_id)

new_call_lem : (l id : String) (now : ℕ) (r : CallRequest) → is_sound l (new_call id now r) ≡ true
unfolding new_call operation_id_of
new_call_lem l id now r = ground arith

-- Every call of the client is sound, whatever the client is about.
abbrev pub are_sound : Client → Bool
are_sound s = all (is_sound s.lifecycle_instance_id) s.calls

call_sound :
    (id : String) (now : ℕ) (r : CallRequest) (s : Client)
    → are_sound s ≡ true
    → are_sound (call id now r s) ≡ true
unfolding call
call_sound id now r s h = ground (
  arith,
  all-append (is_sound s.lifecycle_instance_id) s.calls (new_call id now r ∷ []),
  new_call_lem s.lifecycle_instance_id id now r,
)

module _ (s : Client) (h : are_sound s ≡ true) where
  put_sound :
      (k : String) (f : Call → Call)
      → ((c : Call)
          → (c.request_id == k) ≡ true
          → is_sound s.lifecycle_instance_id c ≡ true
          → is_sound s.lifecycle_instance_id (f c) ≡ true)
      → all (is_sound s.lifecycle_instance_id) (put k f s.calls) ≡ true
  put_sound k f e = all-put (is_sound s.lifecycle_instance_id) k f s.calls e h

  map_sound :
      (f : Call → Call)
      → ((c : Call)
          → is_sound s.lifecycle_instance_id c ≡ true
          → is_sound s.lifecycle_instance_id (f c) ≡ true)
      → all (is_sound s.lifecycle_instance_id) (map f s.calls) ≡ true
  map_sound f e = all-map (is_sound s.lifecycle_instance_id) f s.calls e h

pub step_sound : (e : Happening) (s : Client) → are_sound s ≡ true → are_sound (step e s) ≡ true
unfolding step reach dispatch refuse send_done send_failed on_completion_timeout follow connected
    receive_failed handle_payload handle_disconnect sweep close close_sweep
step_sound (calls id now r) s h = call_sound id now r s h
step_sound (reaches id k b) s h =
    put_sound s h id _ (λ c q g. reached_lem s.lifecycle_instance_id c k b g)
step_sound (dispatches id) s h =
    put_sound s h id _ (λ c q g. dispatched_lem s.lifecycle_instance_id c g)
step_sound (refuses id) s h =
    put_sound s h id _ (λ c q g. fail_unsent_lem s.lifecycle_instance_id c g)
step_sound (sends id) s h = put_sound s h id _ (λ c q g. sent_off_lem s.lifecycle_instance_id c g)
step_sound (fails_to_send id) s h =
    let sound = put_sound s h id sent_off (λ c q g. sent_off_lem s.lifecycle_instance_id c g) in
    ground arith
step_sound (times_out id) s h =
    put_sound s h id _ (λ c q g. time_out_lem s.lifecycle_instance_id c g)
step_sound (follows id) s h = elim (Option-cases (found (get id s.calls))) [
  | inl e ↦ ground arith
  | inr ((k, t), e) ↦
      let sound =
        put_sound s h k (take_over s.lifecycle_instance_id t)
          (λ c q g. take_over_lem s.lifecycle_instance_id c t g) in
      ground arith
]
step_sound (looks_up limit id new now) s h = elim (look_up-cases limit id new now s) [
  | inl e ↦ ground arith
  | inr (r, m, e) ↦ let sound = call_sound new now r s h in ground arith
]
step_sound (connects k) s h = ground arith
step_sound (loses k) s h = ground arith
step_sound (receives (protocol_error id t)) s h =
    put_sound s h id _ (λ c q g. refuse_by_protocol_lem s.lifecycle_instance_id c t g)
step_sound (receives (response r)) s h =
    put_sound s h r.request_id _ (λ c q g. answer_lem s.lifecycle_instance_id c r q g)
step_sound sweeps s h =
    let sound = map_sound s h lose (λ c g. lose_lem s.lifecycle_instance_id c g) in ground arith
step_sound closes s h =
    let sound = map_sound s h abandon (λ c g. abandon_lem s.lifecycle_instance_id c g) in
    ground arith
step_sound close_sweeps s h =
    let sound = map_sound s h abandon (λ c g. abandon_lem s.lifecycle_instance_id c g) in
    ground arith

pub run_sound :
    (es : List Happening) (s : Client) → are_sound s ≡ true → are_sound (run es s) ≡ true
unfolding run
run_sound [] s h = h
run_sound (e ∷ es) s h = run_sound es (step e s) (step_sound e s h)
