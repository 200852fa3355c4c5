-- ===== src/RpcClient/Sockets.antt =====
-- src/infra/rpc-client.ts, lines 297 to 401: connecting, receiving, losing and closing the socket.
use hopper_pi.Prelude.{
  ℕ, suc, ◌-◌, String, Bool, true, false, ◌&&◌, ◌||◌, Option, none, some, ◌==◌, is_some, is_none,
  leb, nat_eq, map, if◌then◌else◌,
}
use hopper_pi.Prelude.Table.{get, put}
use hopper_pi.RpcClient.{
  Call, Client, call_keyed, Response, Message, protocol_error, response, disconnected, closed,
  protocol, mismatched, Stage, sending, returned,
}
use hopper_pi.RpcClient.Pending.{
  reject_pending, resolve_pending, resolve_unknown, is_sent_mutation, set_calls,
}

unfoldable pub is_socket : ℕ → Option ℕ → Bool
is_socket socket none = false
is_socket socket (some s) = nat_eq s socket

-- A socket that connects after `close` is closed again.
unfoldable pub connected : ℕ → Client → Client
connected socket s = if s.is_closed then s else record s { socket = some socket }

unfoldable pub same_operation_id : Option String → Option String → Bool
same_operation_id none given = true
same_operation_id (some id) none = false
same_operation_id (some id) (some given) = given == id

unfoldable pub matches : String → Response → Call → Bool
matches lifecycle r c =
    r.lifecycle_instance_id == lifecycle
    && r.operation == c.operation
    && same_operation_id c.operation_id r.operation_id

unfoldable pub answer : String → Response → Call → Call
answer lifecycle r c =
    if c.in_map
    then if matches lifecycle r c then resolve_pending r c else reject_pending mismatched c
    else c

unfoldable pub refuse_by_protocol : String → Call → Call
refuse_by_protocol reason c = if c.in_map then reject_pending (protocol reason) c else c

unfoldable pub handle_payload : Message → Client → Client
handle_payload (protocol_error id reason) s = set_calls (put id (refuse_by_protocol reason)) s
handle_payload (response r) s = set_calls (put r.request_id (answer s.lifecycle_instance_id r)) s

-- Up to the closing of the socket.
unfoldable pub handle_disconnect : ℕ → Client → Client
handle_disconnect socket s =
    if is_socket socket s.socket then record s { socket = none; sweeps = suc s.sweeps } else s

unfoldable pub start_mutation_recovery : Call → Call
start_mutation_recovery c =
    if c.recovering || is_none c.operation_id then c else record c { recovering = true }

unfoldable pub lose : Call → Call
lose c =
    if c.in_map
    then if is_sent_mutation c then start_mutation_recovery c else reject_pending disconnected c
    else c

-- The rest of `handleDisconnect`.
unfoldable pub sweep : Client → Client
sweep s = if leb 1 s.sweeps then record s { calls = map lose s.calls; sweeps = s.sweeps - 1 } else s

unfoldable pub receive_failed : ℕ → Client → Client
receive_failed socket s = if s.is_closed then s else handle_disconnect socket s

socket_of : Stage → Option ℕ
socket_of (sending socket) = some socket
socket_of _ = none

-- The request is out of hands once it is sent.
unfoldable pub sent_off : Call → Call
unfolding socket_of
sent_off c = if is_some (socket_of c.stage) then record c { stage = returned } else c

unfoldable pub send_done : String → Client → Client
send_done id s = set_calls (put id sent_off) s

-- The socket of a call that is still pending while it sends.
unfoldable pub sending_socket : Option Call → Option ℕ
unfolding socket_of
sending_socket none = none
sending_socket (some c) = if c.in_map && c.sent then socket_of c.stage else none

unfoldable pub send_failed : String → Client → Client
send_failed id s = elim (sending_socket (get id s.calls)) [
  | none ↦ send_done id s
  | some socket ↦ handle_disconnect socket (send_done id s)
]

unfoldable pub abandon : Call → Call
abandon c =
    if c.in_map
    then if is_sent_mutation c then resolve_unknown c else reject_pending closed c
    else c

-- Up to the closing of the socket, if there is one.
unfoldable pub close : Client → Client
close s =
    if s.is_closed
    then s
    else if is_some s.socket
    then record s { is_closed = true; socket = none; is_closing = true }
    else record s { is_closed = true; calls = map abandon s.calls }

unfoldable pub close_sweep : Client → Client
close_sweep s =
    if s.is_closing then record s { calls = map abandon s.calls; is_closing = false } else s
