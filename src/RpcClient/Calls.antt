-- ===== src/RpcClient/Calls.antt =====
-- src/infra/rpc-client.ts, lines 210 to 295 and 402 to 432: a call between its awaits, and the loop
-- that recovers the result of a mutation.
use hopper_pi.Prelude.{
  ℕ, ◌+◌, ◌-◌, String, Bool, true, false, ◌&&◌, ◌||◌, not, Option, none, some, [], ◌∷◌, ◌++◌,
  Bool-cases, inl, inr, ◌⊎◌, ◌≡◌, refl, arith, is_some, is_none, leb, ltb, if◌then◌else◌,
}
use hopper_pi.Prelude.Table.{get, put}
use hopper_pi.OperationNames.{
  classify_operation, query_operations, control_operations, mutation_operations,
}
use hopper_pi.RpcClient.{
  Outcome, resolved, refused, Call, Client, is_mutation, call_keyed, Response, completed,
  cancelled_before_start, snapshot, terminal, connecting, admitting, sending, returned,
}
use hopper_pi.RpcClient.Pending.{reject_pending, resolve_pending, set_calls}

pub record CallRequest : Type 0 where
  pub operation : String
  -- options.operationId, and what `operationIdFactory` would make.
  pub given_operation_id : Option String
  pub fresh_operation_id : String
  pub completion_timeout_ms : ℕ
  pub looks_for : Option String

or_fresh : Option String → String → String
or_fresh none fresh = fresh
or_fresh (some id) fresh = id

unfoldable pub operation_id_of : CallRequest → Option String
unfolding or_fresh
operation_id_of r =
    if is_mutation r.operation
    then some (or_fresh r.given_operation_id r.fresh_operation_id)
    else none

unfoldable pub new_call : String → ℕ → CallRequest → Call
new_call id now r = record {
  request_id = id;
  operation = r.operation;
  operation_id = operation_id_of r;
  deadline_at = now + r.completion_timeout_ms;
  in_map = true;
  sent = false;
  recovering = false;
  stage = connecting;
  outcome = none;
  looks_for = r.looks_for;
}

-- What `call` throws on before it registers anything.
unfoldable pub is_callable : CallRequest → Client → Bool
is_callable r s =
    not s.is_closed
    && is_some (classify_operation r.operation)
    && (is_mutation r.operation || is_none r.given_operation_id)
    && ltb 0 r.completion_timeout_ms

-- `id` is what `requestIdFactory` makes, `now` the clock.
unfoldable pub call : String → ℕ → CallRequest → Client → Client
call id now r s = if is_callable r s then set_calls (λ cs. cs ++ new_call id now r ∷ []) s else s

unfoldable pub cancelled : String → Call → Response
cancelled lifecycle c = record {
  lifecycle_instance_id = lifecycle;
  request_id = c.request_id;
  operation = c.operation;
  operation_id = if is_mutation c.operation then c.operation_id else none;
  result = cancelled_before_start;
}

-- `ensureConnected` gave the socket.
unfoldable pub reached : String → ℕ → Bool → Call → Call
reached lifecycle socket is_aborted c = elim c.stage [
  | connecting ↦
      if c.in_map
      then if is_aborted
        then resolve_pending (cancelled lifecycle c) (record c { stage = returned })
        else record c { stage = admitting socket }
      else record c { stage = returned }
  | _ ↦ c
]

unfoldable pub reach : String → ℕ → Bool → Client → Client
reach id socket is_aborted s =
    set_calls (put id (reached s.lifecycle_instance_id socket is_aborted)) s

-- `admitCurrentToolDispatch` passed: delivery is ambiguous from here on.
unfoldable pub dispatched : Call → Call
dispatched c = elim c.stage [
  | admitting socket ↦
      if c.in_map
      then record c { sent = true; stage = sending socket }
      else record c { stage = returned }
  | _ ↦ c
]

unfoldable pub is_dispatching : Option Call → Bool
is_dispatching none = false
is_dispatching (some c) = elim c.stage [ admitting socket ↦ c.in_map | _ ↦ false ]

unfoldable pub dispatch : String → Client → Client
dispatch id s = record s {
  calls = put id dispatched s.calls;
  sent_log = if is_dispatching (get id s.calls) then id ∷ s.sent_log else s.sent_log;
}

-- Connecting, or the admission, failed: nothing was sent.
unfoldable pub fail_unsent : Call → Call
fail_unsent c = elim c.stage [
  | connecting ↦
      if c.in_map
      then reject_pending refused (record c { stage = returned })
      else record c { stage = returned }
  | admitting socket ↦
      if c.in_map
      then reject_pending refused (record c { stage = returned })
      else record c { stage = returned }
  | _ ↦ c
]

unfoldable pub refuse : String → Client → Client
refuse id s = set_calls (put id fail_unsent) s

unfoldable pub lookup_name : String
lookup_name = "getOperationResult"

remaining_at_most : ℕ → ℕ → ℕ
remaining_at_most limit remaining =
    let least = if leb limit remaining then limit else remaining in if leb least 1 then 1 else least

lookup_request : String → ℕ → ℕ → CallRequest
unfolding remaining_at_most lookup_name
lookup_request id limit remaining = record {
  operation = lookup_name;
  given_operation_id = none;
  fresh_operation_id = "";
  completion_timeout_ms = remaining_at_most limit remaining;
  looks_for = some id;
}

may_look_up : ℕ → Bool → Option Call → Bool
may_look_up now is_closed none = false
may_look_up now is_closed (some c) =
    c.recovering && is_some c.operation_id && not is_closed && c.in_map && ltb now c.deadline_at

deadline : Option Call → ℕ
deadline none = 0
deadline (some c) = c.deadline_at

-- A round of `recoverMutation`: the lookup is a call of its own.
unfoldable pub look_up : ℕ → String → String → ℕ → Client → Client
unfolding may_look_up lookup_request deadline
look_up limit id new_id now s =
    if may_look_up now s.is_closed (get id s.calls)
    then call new_id now (lookup_request id limit (deadline (get id s.calls) - now)) s
    else s

-- A lookup is no mutation.
pub look_up-cases :
    (limit : ℕ) (id new_id : String) (now : ℕ) (s : Client)
    → (look_up limit id new_id now s ≡ s)
      ⊎ ((r : CallRequest) × (is_mutation r.operation ≡ false)
          × (look_up limit id new_id now s ≡ call new_id now r s))
unfolding look_up lookup_name is_mutation classify_operation query_operations control_operations
    mutation_operations
look_up-cases limit id new_id now s =
    elim (Bool-cases (may_look_up now s.is_closed (get id s.calls))) [
      | inl e ↦ inr (lookup_request id limit (deadline (get id s.calls) - now), refl, ground arith)
      | inr e ↦ inl (ground arith)
    ]

terminal_result : Option Outcome → Option String
terminal_result (some (resolved r)) = elim r.result [
  | completed data' ↦ elim data' [ terminal t ↦ some t | _ ↦ none ]
  | _ ↦ none
]
terminal_result _ = none

-- What a finished lookup found, and for which call.
unfoldable pub found : Option Call → Option (String × String)
unfolding terminal_result
found none = none
found (some l) = elim l.looks_for [
  | none ↦ none
  | some id ↦ elim (terminal_result l.outcome) [ none ↦ none | some t ↦ some (id, t) ]
]

unfoldable pub take_over : String → String → Call → Call
take_over lifecycle t c =
    resolve_pending
      (record {
        lifecycle_instance_id = lifecycle;
        request_id = c.request_id;
        operation = c.operation;
        operation_id = c.operation_id;
        result = snapshot t;
      })
      c

unfoldable pub follow : String → Client → Client
follow lookup_id s = elim (found (get lookup_id s.calls)) [
  | none ↦ s
  | some (id, t) ↦ set_calls (put id (take_over s.lifecycle_instance_id t)) s
]
