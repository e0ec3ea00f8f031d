-- ===== src/Journal.antt =====
-- The resumable research journal (backend/src/btx_omni/monitor/research_state.py).
pub mod Records
pub mod Operations
pub mod Sound
pub mod Keeps
pub mod Commands
pub mod Fencing
pub mod Final
pub mod Retry
pub mod Queries
mod Examples
