-- ===== src/Lib.antt =====
-- Hopper lets one agent host drive Rhino and Grasshopper. A task is accepted from a conversation,
-- its turns run, native operations are journalled, and a restart decides what becomes of work that was
-- under way. This library models the parts that decide these things.
--
-- Prelude: tests, lists, tables and objects with keys, shared by the other files.
-- SharedExecution: src/protocol/shared-execution.ts, the bindings and owners that authorise work.
-- SourcePatches: src/services/source-line-patches.ts, edits of a script by lines of its original
--   text; a text is the list of its UTF-16 code units, and `integer` admits natural numbers only.
-- Shutdown: src/host/lifecycle.ts, the coordinator of the host's shutdown; timers and the end of the
--   cleanup are events, which come in any order while they are live.
-- RpcClient: src/infra/rpc-client.ts, the client of the plug-in's RPC; its methods are cut at their
--   awaits into pieces, which come in any order.
-- TaskService: src/host/shared/task-service.ts with the scheduling snapshot of journal-reads.ts, the
--   scheduler on top of the journal. Snapshot reads the tables, Fences the limits and the processes
--   that wait for recovery, Pump is the pass over the queue (`pump`), Requests what callers ask
--   (`submit`, `delegate`, `answer`, `cancel`, `stop`, `releaseRecovered`), Executions `waitForChildren`
--   and the end of `execute`, Leases `withProcessLease`. What runs between two awaits is one action;
--   Steps lets the actions come in any order, with the journal's methods in between. The answers of
--   the registry at each time, and the texts of errors, are parameters (`Host`).
-- CanvasFilter: src/services/canvas-filter.ts, what is left out of the canvas that an agent sees.
-- Registry: src/host/shared/registry.ts, the attached Rhino instances and the bindings they resolve;
--   Steps runs any list of calls, and Kept holds what stays true of a row under them.
-- ToolPolicy: src/services/tool-policy.ts, what the user allows, as versioned snapshots; Updates has
--   its transitions (`patchPolicy`, `publishPluginCredential`, `removePluginCredential`,
--   `resetToolPolicy`), Access what a session may call, Changes runs of transitions. Store is
--   src/services/tool-policy-store.ts, the settings on disk, and Actions the calls of several
--   processes with what befalls the file; that the disk is written or not is an argument (`Faults`).
-- SnapshotPatch: src/protocol/snapshot-patch.ts, the patches by which the browser follows the history.
-- Subgraph: src/services/subgraph.ts, the connected parts of a canvas.
-- OperationPolicy: the table of src/protocol/shared-execution.ts, lines 42 to 142.
-- OperationNames: src/protocol/v2.ts, the operations and their classes.
-- Journal: src/host/shared/journal.ts with the schema of journal-migrations.ts. The database is the
--   record `Db` of its tables, each a list in row order; a method is an action `Tx`, a function from
--   the tables to an error or a result with new tables, and `transaction` is what a caller sees of
--   it. Primary keys, references and unique indexes are tests of the `insert_` actions.
--   Rows, Database and Events hold tables, constraints and the event log; Requests the methods once
--   per request identity; Conversations `registerSession`, `createConversation` and `accept`; Turns
--   `start`, `ask`, `confirmSuspension` and `answer`; Settlement `settle`, `failQueued`,
--   `failRunning`, `uncertain`, `requestCancellation`, `recordUsage` and `publish`; Restart `setSchedulingBlock`,
--   `finishAdmission` and `recover`; Inputs `steer`, `markInput` and `markInputNotApplied`;
--   Delegation `delegate`; Operations `operationIntent`; Outcomes `operationResult`, `reserve`,
--   `markScopeUncertain` and `recoveryDisposition`; Handoffs the three steps of a document handoff;
--   Records the remaining record methods.
--   TaskMachine is the abstract machine of task states; the files under Refinement relate each
--   method to it; History runs any list of calls; Lasting treats, method by method, what none takes
--   back (answers, outcomes, receipts, and how far an input is); Promises, Finality and Once hold
--   what follows.
--
-- Parameters: the hash of a request's payload (canonical JSON and SHA-256), the JSON text of the
-- fields of a scheduling record and of recovery evidence, and the order of `localeCompare`.
-- Identifiers of `randomUUID` and the clock are arguments, of which nothing is assumed.
-- Fuel is the number of rounds of `relevant` in TaskService.Snapshot, one for each task, and of
-- `family` in Settlement, one for each task and one more;
-- a cyclic parent relation, on which the recursive query would not end, is cut off there. The fuel
-- of a walk in Subgraph is the number of components, as each is queued once.
--
-- Not modelled: conversation management and deletion, snapshots for the browser, time stamps,
-- sockets, the web interface, the plug-in in C#, and the parts listed as planned in the manifest.
pub mod Prelude
pub mod SharedExecution
pub mod OperationNames
pub mod OperationPolicy
pub mod Journal
pub mod SourcePatches
pub mod Shutdown
pub mod RpcClient
pub mod TaskService
pub mod CanvasFilter
pub mod Registry
pub mod ToolPolicy
pub mod SnapshotPatch
pub mod Subgraph
