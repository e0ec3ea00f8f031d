-- ===== src/Work.antt =====
-- Durable Actions (backend/src/btx_omni/modules/work/service.py and domain/work.py).
pub mod Domain
pub mod CrmRecords
pub mod Repository
pub mod Policy
pub mod Mutation
pub mod Transition
pub mod Approval
pub mod Edit
pub mod Subtasks
pub mod Create
pub mod Listing
pub mod Commands
pub mod Validity
pub mod Concurrency
pub mod Gates
pub mod Retries
pub mod Listed
mod Examples
