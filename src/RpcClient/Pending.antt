-- ===== src/RpcClient/Pending.antt =====
-- src/infra/rpc-client.ts, lines 432 to 472: how a pending request ends. A promise settles once:
-- `settle` keeps an outcome that is there.
use hopper_pi.Prelude.{String, Bool, false, ◌&&◌, Option, none, some, List, if◌then◌else◌}
use hopper_pi.Prelude.Table.{put}
use hopper_pi.RpcClient.{
  Outcome, resolved, unknown, rejected, Failure, timed_out, no_operation_id, Call, Client,
  is_mutation, call_keyed, Response,
}

abbrev pub settle : Outcome → Option Outcome → Option Outcome
settle o none = some o
settle o (some old) = some old

-- finishPending, then `resolve` or `reject`
unfoldable pub finish : Outcome → Call → Call
finish o c = record c { in_map = false; outcome = settle o c.outcome }

unfoldable pub reject_pending : Failure → Call → Call
reject_pending f c = finish (rejected f) c

unfoldable pub resolve_pending : Response → Call → Call
resolve_pending r c = finish (resolved r) c

unfoldable pub resolve_unknown : Call → Call
resolve_unknown c = elim c.operation_id [
  | none ↦ reject_pending no_operation_id c
  | some id ↦ finish (unknown id) c
]

-- classifyOperation(...) === "mutation" && pending.sent
unfoldable pub is_sent_mutation : Call → Bool
is_sent_mutation c = is_mutation c.operation && c.sent

unfoldable pub time_out : Call → Call
time_out c =
    if c.in_map
    then if is_sent_mutation c then resolve_unknown c else reject_pending timed_out c
    else c

abbrev pub set_calls : (List Call → List Call) → Client → Client
set_calls f s = record s { calls = f s.calls }

-- The timer of a call; one that was cleared finds the call gone from `pending`.
unfoldable pub on_completion_timeout : String → Client → Client
on_completion_timeout id s = set_calls (put id time_out) s
