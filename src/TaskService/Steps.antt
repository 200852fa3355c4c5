-- ===== src/TaskService/Steps.antt =====
-- The task service as a step relation: which pieces of src/host/shared/task-service.ts may run next.
-- Each step names what the service is told from outside at that time: the answers of the registry,
-- fresh identifiers, and how drivers and executors ended. `acts` is what others do to the journal in
-- between: drivers that ask and publish, native operations, and the remaining methods.
use hopper_pi.Prelude.{ℕ, String, Option, List}
use hopper_pi.SharedExecution.{TargetBinding}
use hopper_pi.Journal.Rows.{Submission}
use hopper_pi.Journal.Handoffs.{HandoffResult}
use hopper_pi.Journal.History.{Services, Call, perform}
use hopper_pi.TaskService.{Options, Service, Host, Sought, Act}
use hopper_pi.TaskService.Pump.{pump}
use hopper_pi.TaskService.Requests.{
  submit, delegate_to, answer_question, request_cancel, cancel_one, stop, release_recovered,
}
use hopper_pi.TaskService.Executions.{
  Ending, wait_for_children, resume_worker, conclude, conclude_handoff,
}
use hopper_pi.TaskService.Leases.{request_lease, lease_round, end_lease}

pub data Piece : Type 0 where
  pumps : Piece
  acts : Services → Call → Piece
  submits : Submission → String → String → Piece
  delegates : Submission → String → List String → String → String → Piece
  answers : String → String → String → String → Piece
  cancels : String → Piece
  cancels_one : String → Piece
  stops : Piece
  releases : String → Piece
  waits : String → Piece
  resumes : ℕ → Piece
  concludes : String → String → ℕ → Ending → String → Piece
  concludes_handoff :
      String
      → String
      → ℕ
      → String
      → Option TargetBinding
      → String
      → Option HandoffResult
      → String
      → Piece
  requests_lease : String → Sought → Piece
  tries_lease : ℕ → Piece
  ends_lease : ℕ → Piece

-- What a piece leaves, whatever it returns or throws.
abbrev pub after : {A : Type 0} → Act A → Service → Service
after m s = (m s).1

module _ (o : Options) where
  unfoldable pub run_piece : Host → Piece → Service → Service
  run_piece host pumps s = after (pump o host) s
  run_piece host (acts v c) s = record s { db = perform v c s.db }
  run_piece host (submits x k u) s = after (submit o host x k u) s
  run_piece host (delegates x p ds k u) s = after (delegate_to o host x p ds k u) s
  run_piece host (answers r q t u) s = after (answer_question o host r q t u) s
  run_piece host (cancels k) s = after (request_cancel o host k) s
  run_piece host (cancels_one k) s = after (cancel_one o host k) s
  run_piece host stops s = after (stop o host) s
  run_piece host (releases k) s = after (release_recovered o host k) s
  run_piece host (waits k) s = after (wait_for_children o host k) s
  run_piece host (resumes n) s = after (resume_worker o host n) s
  run_piece host (concludes k u n e v) s = after (conclude o host k u n e v) s
  run_piece host (concludes_handoff k u n h b v r t) s =
      after (conclude_handoff o host k u n h b v r t) s
  run_piece host (requests_lease k x) s = after (request_lease o host k x) s
  run_piece host (tries_lease n) s = after (lease_round o host n) s
  run_piece host (ends_lease n) s = after (end_lease o host n) s

  -- The services that a service can become, piece by piece.
  pub data Reaches (s : Service) : Service → Type 0 where
    starts : Reaches s s
    runs : {t : Service} (host : Host) (p : Piece) → Reaches s t → Reaches s (run_piece host p t)
