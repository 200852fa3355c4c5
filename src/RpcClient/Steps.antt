-- ===== src/RpcClient/Steps.antt =====
-- The pieces of the RPC client (src/infra/rpc-client.ts) in any order.
use hopper_pi.Prelude.{ℕ, String, ◌≡◌, Bool, none, List, [], ◌∷◌}
use hopper_pi.Prelude.Table.{get}
use hopper_pi.RpcClient.{Client, Message, call_keyed}
use hopper_pi.RpcClient.Pending.{on_completion_timeout}
use hopper_pi.RpcClient.Calls.{CallRequest, call, reach, dispatch, refuse, look_up, follow}
use hopper_pi.RpcClient.Sockets.{
  connected, handle_payload, sweep, receive_failed, send_done, send_failed, close, close_sweep,
}

pub data Happening : Type 0 where
  calls : String → ℕ → CallRequest → Happening
  reaches : String → ℕ → Bool → Happening
  dispatches refuses sends fails_to_send times_out follows : String → Happening
  -- With `recoveryRequestTimeoutMs`, the mutation, the lookup's request id and the clock.
  looks_up : ℕ → String → String → ℕ → Happening
  connects loses : ℕ → Happening
  receives : Message → Happening
  sweeps closes close_sweeps : Happening

unfoldable pub step : Happening → Client → Client
step (calls id now r) s = call id now r s
step (reaches id socket is_aborted) s = reach id socket is_aborted s
step (dispatches id) s = dispatch id s
step (refuses id) s = refuse id s
step (sends id) s = send_done id s
step (fails_to_send id) s = send_failed id s
step (times_out id) s = on_completion_timeout id s
step (follows id) s = follow id s
step (looks_up limit id new_id now) s = look_up limit id new_id now s
step (connects socket) s = connected socket s
step (loses socket) s = receive_failed socket s
step (receives m) s = handle_payload m s
step sweeps s = sweep s
step closes s = close s
step close_sweeps s = close_sweep s

unfoldable pub run : List Happening → Client → Client
run [] s = s
run (h ∷ hs) s = run hs (step h s)

-- A new call's request id is not that of an earlier one.
abbrev pub IsNew : Happening → Client → Type 0
IsNew (calls id now r) s = get id s.calls ≡ none
IsNew (looks_up limit id new_id now) s = get new_id s.calls ≡ none
IsNew _ s = Unit {0}

unfoldable pub AreFresh : List Happening → Client → Type 0
AreFresh [] s = Unit {0}
AreFresh (h ∷ hs) s = IsNew h s × AreFresh hs (step h s)
