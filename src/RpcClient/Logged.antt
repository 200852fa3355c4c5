-- ===== src/RpcClient/Logged.antt =====
-- src/infra/rpc-client.ts: what is handed to a socket, in every order of the pieces.
use hopper_pi.Prelude.{
  ℕ, String, ◌≡◌, refl, sym, ap, ◌∙◌, ◌+◌, Bool, true, false, ◌&&◌, ◌||◌, not, Option, none, some,
  List, [], ◌∷◌, ◌++◌, ◌==◌, eq_iff, all, map, arith, Option-cases, inl, inr, count, one,
}
use hopper_pi.Prelude.Table.{get, put}
use hopper_pi.RpcClient.{Call, Client, call_keyed, Response, protocol_error, response}
use hopper_pi.RpcClient.Pending.{
  finish, reject_pending, resolve_pending, resolve_unknown, time_out, on_completion_timeout,
}
use hopper_pi.RpcClient.Calls.{
  CallRequest, new_call, call, reached, reach, dispatched, is_dispatching, dispatch, fail_unsent,
  refuse, look_up-cases, found, take_over, follow,
}
use hopper_pi.RpcClient.Sockets.{
  answer, refuse_by_protocol, handle_payload, handle_disconnect, start_mutation_recovery, lose,
  sweep, receive_failed, sent_off, send_done, send_failed, abandon, close, close_sweep, connected,
}
use hopper_pi.RpcClient.Steps.{
  Happening, step, run, calls, reaches, dispatches, refuses, sends, fails_to_send, times_out,
  follows, looks_up, connects, loses, receives, sweeps, closes, close_sweeps,
}
use hopper_pi.RpcClient.Sound.{is_sound, are_sound, step_sound}

-- A piece of the client, other than the dispatch, keeps what was sent, and puts nothing back into the
-- map.
pub record Keeps (f : Call → Call) : Type 0 where
  pub same_id : (c : Call) → (f c).request_id ≡ c.request_id
  pub same_sent : (c : Call) → (f c).sent ≡ c.sent
  pub same_map : (c : Call) → (c.in_map || not (f c).in_map) ≡ true

pub time_out-Keeps : Keeps time_out
unfolding time_out resolve_unknown reject_pending finish
time_out-Keeps = record {
  same_id = λ c. ground arith;
  same_sent = λ c. ground arith;
  same_map = λ c. ground arith;
}

pub abandon-Keeps : Keeps abandon
unfolding abandon resolve_unknown reject_pending finish
abandon-Keeps = record {
  same_id = λ c. ground arith;
  same_sent = λ c. ground arith;
  same_map = λ c. ground arith;
}

pub lose-Keeps : Keeps lose
unfolding lose start_mutation_recovery reject_pending finish
lose-Keeps = record {
  same_id = λ c. ground arith;
  same_sent = λ c. ground arith;
  same_map = λ c. ground arith;
}

pub sent_off-Keeps : Keeps sent_off
unfolding sent_off
sent_off-Keeps = record {
  same_id = λ c. ground arith;
  same_sent = λ c. ground arith;
  same_map = λ c. ground arith;
}

pub fail_unsent-Keeps : Keeps fail_unsent
unfolding fail_unsent reject_pending finish
fail_unsent-Keeps = record {
  same_id = λ c. ground arith;
  same_sent = λ c. ground arith;
  same_map = λ c. ground arith;
}

pub reached-Keeps : (l : String) (k : ℕ) (b : Bool) → Keeps (reached l k b)
unfolding reached resolve_pending finish
reached-Keeps l k b = record {
  same_id = λ c. ground arith;
  same_sent = λ c. ground arith;
  same_map = λ c. ground arith;
}

pub answer-Keeps : (l : String) (r : Response) → Keeps (answer l r)
unfolding answer resolve_pending reject_pending finish
answer-Keeps l r = record {
  same_id = λ c. ground arith;
  same_sent = λ c. ground arith;
  same_map = λ c. ground arith;
}

pub refuse_by_protocol-Keeps : (t : String) → Keeps (refuse_by_protocol t)
unfolding refuse_by_protocol reject_pending finish
refuse_by_protocol-Keeps t = record {
  same_id = λ c. ground arith;
  same_sent = λ c. ground arith;
  same_map = λ c. ground arith;
}

pub take_over-Keeps : (l t : String) → Keeps (take_over l t)
unfolding take_over resolve_pending finish
take_over-Keeps l t = record {
  same_id = λ c. ground arith;
  same_sent = λ c. ground arith;
  same_map = λ c. ground arith;
}

abbrev pub was_sent : Option Call → Bool
was_sent none = false
was_sent (some c) = c.sent

module _ (f : Call → Call) (kept : Keeps f) where
  was_sent-put :
      (k j : String) (cs : List Call) → was_sent (get j (put k f cs)) ≡ was_sent (get j cs)
  unfolding get put
  was_sent-put k j [] = refl
  was_sent-put k j (c ∷ cs) = ground (arith, kept.same_id c, kept.same_sent c, was_sent-put k j cs)

  was_sent-map : (j : String) (cs : List Call) → was_sent (get j (map f cs)) ≡ was_sent (get j cs)
  unfolding get
  was_sent-map j [] = refl
  was_sent-map j (c ∷ cs) = ground (arith, kept.same_id c, kept.same_sent c, was_sent-map j cs)

was_sent-new :
    (j id : String) (now : ℕ) (r : CallRequest) (cs : List Call)
    → was_sent (get j (cs ++ new_call id now r ∷ [])) ≡ was_sent (get j cs)
unfolding get new_call
was_sent-new j id now r [] = ground arith
was_sent-new j id now r (c ∷ cs) = ground (arith, was_sent-new j id now r cs)

-- The log has each request once that was sent, and no other.
abbrev pub IsLogged : Client → Type 0
IsLogged s = (j : String) → count (λ x. x == j) s.sent_log ≡ one (was_sent (get j s.calls))

was_sent-dispatched :
    (l k j : String) (cs : List Call)
    → all (is_sound l) cs ≡ true
    → one (was_sent (get j (put k dispatched cs)))
      ≡ one (was_sent (get j cs)) + one (is_dispatching (get k cs) && k == j)
unfolding get put dispatched is_dispatching
was_sent-dispatched l k j [] h = refl
was_sent-dispatched l k j (c ∷ cs) h =
    ground (
      arith,
      eq_iff c.request_id k,
      eq_iff c.request_id j,
      eq_iff k j,
      was_sent-dispatched l k j cs,
    )

call-IsLogged :
    (id : String) (now : ℕ) (r : CallRequest) (s : Client) → IsLogged s → IsLogged (call id now r s)
unfolding call
call-IsLogged id now r s g j = ground (arith, g j, was_sent-new j id now r s.calls)

step-IsLogged : (e : Happening) (s : Client) → are_sound s ≡ true → IsLogged s → IsLogged (step e s)
unfolding step reach dispatch refuse send_done send_failed on_completion_timeout follow connected
    receive_failed handle_payload handle_disconnect sweep close close_sweep
step-IsLogged (calls id now r) s h g j = call-IsLogged id now r s g j
step-IsLogged (reaches id k b) s h g j =
    g j ∙ ap one (sym (was_sent-put _ (reached-Keeps s.lifecycle_instance_id k b) id j s.calls))
step-IsLogged (dispatches id) s h g j =
    ground (arith, g j, was_sent-dispatched s.lifecycle_instance_id id j s.calls)
step-IsLogged (refuses id) s h g j =
    g j ∙ ap one (sym (was_sent-put _ fail_unsent-Keeps id j s.calls))
step-IsLogged (sends id) s h g j = g j ∙ ap one (sym (was_sent-put _ sent_off-Keeps id j s.calls))
step-IsLogged (fails_to_send id) s h g j =
    ground (arith, g j, was_sent-put sent_off sent_off-Keeps id j s.calls)
step-IsLogged (times_out id) s h g j =
    g j ∙ ap one (sym (was_sent-put _ time_out-Keeps id j s.calls))
step-IsLogged (follows id) s h g j = elim (Option-cases (found (get id s.calls))) [
  | inl e ↦ ground (arith, g j)
  | inr ((k, t), e) ↦ ground (
    arith,
    g j,
    was_sent-put (take_over s.lifecycle_instance_id t) (take_over-Keeps s.lifecycle_instance_id t) k
        j s.calls,
  )
]
step-IsLogged (looks_up limit id new now) s h g j = elim (look_up-cases limit id new now s) [
  | inl e ↦ ground (arith, g j)
  | inr (r, m, e) ↦ let logged = call-IsLogged new now r s g j in ground arith
]
step-IsLogged (connects k) s h g j = ground (arith, g j)
step-IsLogged (loses k) s h g j = ground (arith, g j)
step-IsLogged (receives (protocol_error id t)) s h g j =
    g j ∙ ap one (sym (was_sent-put _ (refuse_by_protocol-Keeps t) id j s.calls))
step-IsLogged (receives (response r)) s h g j =
    g j
    ∙ ap one (sym (was_sent-put _ (answer-Keeps s.lifecycle_instance_id r) r.request_id j s.calls))
step-IsLogged sweeps s h g j = ground (arith, g j, was_sent-map lose lose-Keeps j s.calls)
step-IsLogged closes s h g j = ground (arith, g j, was_sent-map abandon abandon-Keeps j s.calls)
step-IsLogged close_sweeps s h g j =
    ground (arith, g j, was_sent-map abandon abandon-Keeps j s.calls)

pub run-IsLogged :
    (es : List Happening) (s : Client) → are_sound s ≡ true → IsLogged s → IsLogged (run es s)
unfolding run
run-IsLogged [] s h g = g
run-IsLogged (e ∷ es) s h g = run-IsLogged es (step e s) (step_sound e s h) (step-IsLogged e s h g)
