-- ===== src/RpcClient/Tests.antt =====
-- Runs of the RPC client.
use hopper_pi.Prelude.{
  String, ◌≡◌, refl, true, false, is_some, is_none, some, none, List, [], ◌∷◌, ◌==◌, count, one,
}
use hopper_pi.Prelude.Table.{get, put}
use hopper_pi.OperationNames.{
  classify_operation, query_operations, control_operations, mutation_operations,
}
use hopper_pi.RpcClient.{
  Call, Failure, Response, rejected, resolved, unknown, returned, sending, snapshot, completed,
  terminal, response, create, is_mutation, call_keyed,
}
use hopper_pi.RpcClient.Pending.{is_sent_mutation, resolve_unknown, resolve_pending, finish}
use hopper_pi.RpcClient.Calls.{
  CallRequest, call, is_callable, new_call, operation_id_of, reach, reached, dispatch, dispatched,
  is_dispatching, look_up, lookup_name, follow, found, take_over,
}
use hopper_pi.RpcClient.Sockets.{
  connected, is_socket, handle_payload, answer, matches, same_operation_id, handle_disconnect,
  receive_failed, sweep, lose, start_mutation_recovery, close, close_sweep, abandon, send_done,
  sent_off,
}
use hopper_pi.RpcClient.Steps.{
  Happening, AreFresh, step, run, calls, reaches, dispatches, sends, follows, looks_up, connects,
  loses, receives, sweeps, closes, close_sweeps,
}
use hopper_pi.RpcClient.Sound.{is_reported}
use hopper_pi.RpcClient.Logged.{was_sent}
use hopper_pi.RpcClient.Promises.{
  sent_mutation_not_rejected, responses_match, sent_at_most_once, closing_settles_all,
}

abbrev graph : CallRequest
graph = record {
  operation = "applyGraph";
  given_operation_id = none;
  fresh_operation_id = "op1";
  completion_timeout_ms = 100;
  looks_for = none;
}

-- A mutation is sent, its socket is lost, and its result is looked up on another.
abbrev recovered : List Happening
recovered =
    calls "r1" 0 graph
    ∷ connects 1
    ∷ reaches "r1" 1 false
    ∷ dispatches "r1"
    ∷ sends "r1"
    ∷ loses 1
    ∷ sweeps
    ∷ looks_up 50 "r1" "r2" 10
    ∷ connects 2
    ∷ reaches "r2" 2 false
    ∷ dispatches "r2"
    ∷ receives (
        response (record {
          lifecycle_instance_id = "l";
          request_id = "r2";
          operation = "getOperationResult";
          operation_id = none;
          result = completed (terminal "done");
        }))
    ∷ follows "r2"
    ∷ []

abbrev closed_early : List Happening
closed_early =
    calls "r1" 0 graph
    ∷ connects 1
    ∷ reaches "r1" 1 false
    ∷ dispatches "r1"
    ∷ closes
    ∷ close_sweeps
    ∷ []

abbrev graph_call : Call
graph_call = record {
  request_id = "r1";
  operation = "applyGraph";
  operation_id = some "op1";
  deadline_at = 100;
  in_map = false;
  sent = true;
  recovering = true;
  stage = returned;
  outcome = some (
      resolved (record {
        lifecycle_instance_id = "l";
        request_id = "r1";
        operation = "applyGraph";
        operation_id = some "op1";
        result = snapshot "done";
      }));
  looks_for = none;
}

sent_mutation_not_rejected_example :
    ((f : Failure)
      → graph_call.outcome ≡ some (rejected f)
      → graph_call.sent ≡ true
      → is_mutation graph_call.operation ≡ true
      → is_reported f ≡ true)
    × (is_none graph_call.outcome ≡ graph_call.in_map)
unfolding AreFresh run step create call is_callable new_call operation_id_of is_mutation
    classify_operation query_operations control_operations mutation_operations reach reached
    dispatch dispatched is_dispatching connected is_socket handle_payload answer matches
    same_operation_id handle_disconnect receive_failed sweep lose start_mutation_recovery
    is_sent_mutation resolve_pending resolve_unknown finish send_done sent_off look_up lookup_name
    follow found take_over get put close close_sweep abandon
sent_mutation_not_rejected_example =
    sent_mutation_not_rejected "l" "r1" recovered graph_call
      (refl, (tt, (tt, (tt, (tt, (tt, (tt, (refl, (tt, (tt, (tt, (tt, (tt, tt))))))))))))) refl

responses_match_example :
    ((r : Response)
      → graph_call.outcome ≡ some (resolved r)
      → (r.lifecycle_instance_id ≡ "l")
        × (r.request_id ≡ graph_call.request_id)
        × (r.operation ≡ graph_call.operation)
        × (is_mutation graph_call.operation ≡ true → r.operation_id ≡ graph_call.operation_id))
    × ((id : String)
        → graph_call.outcome ≡ some (unknown id)
        → (is_mutation graph_call.operation ≡ true) × (graph_call.sent ≡ true))
unfolding AreFresh run step create call is_callable new_call operation_id_of is_mutation
    classify_operation query_operations control_operations mutation_operations reach reached
    dispatch dispatched is_dispatching connected is_socket handle_payload answer matches
    same_operation_id handle_disconnect receive_failed sweep lose start_mutation_recovery
    is_sent_mutation resolve_pending resolve_unknown finish send_done sent_off look_up lookup_name
    follow found take_over get put close close_sweep abandon
responses_match_example =
    responses_match "l" "r1" recovered graph_call
      (refl, (tt, (tt, (tt, (tt, (tt, (tt, (refl, (tt, (tt, (tt, (tt, (tt, tt))))))))))))) refl

sent_at_most_once_example :
    count (λ x. x == "r1") (run recovered (create "l")).sent_log
    ≡ one (was_sent (get "r1" (run recovered (create "l")).calls))
unfolding AreFresh run step create call is_callable new_call operation_id_of is_mutation
    classify_operation query_operations control_operations mutation_operations reach reached
    dispatch dispatched is_dispatching connected is_socket handle_payload answer matches
    same_operation_id handle_disconnect receive_failed sweep lose start_mutation_recovery
    is_sent_mutation resolve_pending resolve_unknown finish send_done sent_off look_up lookup_name
    follow found take_over get put close close_sweep abandon
sent_at_most_once_example =
    sent_at_most_once "l" "r1" recovered
      (refl, (tt, (tt, (tt, (tt, (tt, (tt, (refl, (tt, (tt, (tt, (tt, (tt, tt)))))))))))))

abbrev given_up : Call
given_up = record graph_call {
  recovering = false;
  outcome = some (unknown "op1");
  stage = sending 1;
}

closing_settles_all_example : is_some given_up.outcome ≡ true
unfolding AreFresh run step create call is_callable new_call operation_id_of is_mutation
    classify_operation query_operations control_operations mutation_operations reach reached
    dispatch dispatched is_dispatching connected is_socket handle_payload answer matches
    same_operation_id handle_disconnect receive_failed sweep lose start_mutation_recovery
    is_sent_mutation resolve_pending resolve_unknown finish send_done sent_off look_up lookup_name
    follow found take_over get put close close_sweep abandon
closing_settles_all_example =
    closing_settles_all "l" "r1" closed_early given_up (refl, (tt, (tt, (tt, (tt, (tt, tt)))))) refl
      refl refl
