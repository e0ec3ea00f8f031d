-- ===== src/Proposals.antt =====
-- Versioned CRM proposals over the audit log of an Action: backend/src/btx_omni/modules/work/crm_proposals.py.
pub mod Adapter
pub mod Log
pub mod Snapshot
pub mod Decisions
pub mod Sampling
pub mod Inspecting
pub mod Quiet
pub mod Calls
pub mod Sound
pub mod Steps
pub mod Runs
pub mod Execution
pub mod Repetition
pub mod Completion
mod Scenario
mod Examples
