-- ===== src/Journal/Requests.antt =====
-- src/host/shared/journal.ts, lines 153 to 192: requests by identity. The text that `canonical` and
-- SHA-256 make of a payload is the parameter `hash`; a receipt is kept as the value it parses to.
pub mod Once
use hopper_pi.Prelude.{String, Bool, Option, none, some, List, [], ◌∷◌, ◌++◌, ◌==◌, if◌then◌else◌}
use hopper_pi.Prelude.Table.{Keyed, get}
use hopper_pi.Journal.Rows.{Submission, RecordKind}
use hopper_pi.Journal.Database.{
  Tx, ◌>>=◌, ◌>>◌, pure, throw, read, modify, required, Request, Receipt, request_conflict,
  thread_deleted,
}

-- What `recoveryDisposition` is handed.
pub record Evidence : Type 0 where
  pub acknowledged : Bool
  pub original_process_exited : Bool
  pub authenticated_and_fenced : Bool
  pub operations_idle : Bool
  pub scopes_idle : Bool
  pub inspected_baseline : Option String
  pub release_reservations : Bool
  pub details : Option String

pub data RequestPayload : Type 0 where
  create_conversation : String → RequestPayload
  manage_conversation : String → String → RequestPayload
  submit : Submission → RequestPayload
  delegated : Submission → String → List String → RequestPayload
  answered : String → String → RequestPayload
  steered : String → String → String → String → RequestPayload
  cancelled : String → RequestPayload
  recovery : String → Evidence → RequestPayload
  recover_task : String → String → RequestPayload
  recorded : RecordKind → String → String → String → RequestPayload

instance abbrev pub request_keyed : Keyed Request
request_keyed = record { key = λ r. r.id }

-- The receipt of a request that was deleted with its thread cannot be replayed.
unfoldable pub replay : Receipt → Tx Receipt
replay (Receipt.deleted conversation_id) = throw thread_deleted
replay receipt = pure receipt

module _ (hash : RequestPayload → String) where
  matched : RequestPayload → Request → Tx Receipt
  unfolding replay
  matched payload prior =
      if prior.hash == hash payload then replay prior.receipt else throw request_conflict

  -- `work` is done once for each request identity.
  request_from : String → RequestPayload → Tx Receipt → Option Request → Tx Receipt
  unfolding matched
  request_from id payload work (some prior) = matched payload prior
  request_from id payload work none = do
    receipt ← work
    modify (λ d. record d {
      requests = d.requests ++ record { id = id; hash = hash payload; receipt = receipt } ∷ [];
    })
    pure receipt

  unfoldable pub request : String → RequestPayload → Tx Receipt → Tx Receipt
  unfolding request_from
  request id payload work = do
    required id
    prior ← read (λ d. get id d.requests)
    request_from id payload work prior

  found : RequestPayload → Option Request → Tx (Option Receipt)
  unfolding matched
  found payload none = pure none
  found payload (some prior) = do receipt ← matched payload prior; pure (some receipt)

  unfoldable pub find_request : String → RequestPayload → Tx (Option Receipt)
  unfolding found
  find_request id payload = do
    required id
    prior ← read (λ d. get id d.requests)
    found payload prior
