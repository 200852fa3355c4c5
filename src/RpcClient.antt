-- ===== src/RpcClient.antt =====
-- src/infra/rpc-client.ts: the RPC client of the plug-in. Its methods run as pieces between awaits;
-- each piece is a function of the client's state, and Steps puts them into any order.
--   A request id stands for the `PendingRequest` of its call: `requestIdFactory` makes ids that no
-- earlier call has (randomUUID), which the theorems state as `AreFresh`. A message is what
-- `validateRpcResponse` returns; a call is one whose request `validateRpcRequest` accepted.
pub mod Pending
pub mod Calls
pub mod Sockets
pub mod Steps
pub mod Sound
pub mod Logged
pub mod Closed
pub mod Promises
mod Tests
use hopper_pi.Prelude.{ℕ, String, Bool, true, false, ◌&&◌, Option, none, some, List, [], ◌∷◌}
use hopper_pi.Prelude.Table.{Keyed}
use hopper_pi.OperationNames.{OperationClass, query, control, mutation, classify_operation}

-- What `isOperationLookupData` reads from the data of a completed result.
pub data LookupData : Type 0 where
  pending not_found no_lookup : LookupData
  terminal : String → LookupData

-- The result of a response: completed with data, cancelled before dispatch, one taken over from a
-- lookup, or of another class.
pub data RpcResult : Type 0 where
  completed : LookupData → RpcResult
  cancelled_before_start : RpcResult
  snapshot other : String → RpcResult

pub record Response : Type 0 where
  pub lifecycle_instance_id : String
  pub request_id : String
  pub operation : String
  pub operation_id : Option String
  pub result : RpcResult

pub data Message : Type 0 where
  -- With the request id and the reason code.
  protocol_error : String → String → Message
  response : Response → Message

pub data Failure : Type 0 where
  disconnected closed timed_out : Failure
  -- Connecting, the admission of the dispatch or the sending failed.
  refused : Failure
  protocol : String → Failure
  mismatched no_operation_id : Failure

-- What the promise of a call settles to.
pub data Outcome : Type 0 where
  resolved : Response → Outcome
  unknown : String → Outcome
  rejected : Failure → Outcome

-- Where `call` stands; a socket is named by a number.
pub data Stage : Type 0 where
  connecting returned : Stage
  admitting sending : ℕ → Stage

-- A call with its `PendingRequest`; `in_map` says that `pending` still has it.
pub record Call : Type 0 where
  pub request_id : String
  pub operation : String
  pub operation_id : Option String
  pub deadline_at : ℕ
  pub in_map : Bool
  pub sent : Bool
  pub recovering : Bool
  pub stage : Stage
  pub outcome : Option Outcome
  -- The mutation whose result the call looks up, for the calls of `recoverMutation`.
  pub looks_for : Option String

instance abbrev pub call_keyed : Keyed Call
call_keyed = record { key = λ c. c.request_id }

pub record Client : Type 0 where
  pub lifecycle_instance_id : String
  pub calls : List Call
  pub socket : Option ℕ
  pub is_closed : Bool
  -- Disconnections that wait for their socket to close, and `close` doing so.
  pub sweeps : ℕ
  pub is_closing : Bool
  -- The requests handed to a socket, latest first.
  pub sent_log : List String

abbrev is_class_mutation : Option OperationClass → Bool
is_class_mutation (some mutation) = true
is_class_mutation _ = false

unfoldable pub is_mutation : String → Bool
is_mutation operation = is_class_mutation (classify_operation operation)

unfoldable pub create : String → Client
create lifecycle_instance_id = record {
  lifecycle_instance_id = lifecycle_instance_id;
  calls = [];
  socket = none;
  is_closed = false;
  sweeps = 0;
  is_closing = false;
  sent_log = [];
}
