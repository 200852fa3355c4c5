-- ===== src/Journal.antt =====
-- src/host/shared/journal.ts: the task journal, which is the authority for accepted work, dispatch
-- intent and recovery. The database is modelled by its tables, each method by an action on them.
pub mod Rows
pub mod Database
pub mod Events
pub mod Requests
pub mod Conversations
pub mod Turns
pub mod Settlement
pub mod Restart
pub mod Inputs
pub mod Delegation
pub mod Operations
pub mod Outcomes
pub mod Handoffs
pub mod Records
pub mod TaskMachine
pub mod Refinement
pub mod History
pub mod Lasting
pub mod Finality
pub mod Promises
mod Tests
