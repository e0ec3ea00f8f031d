-- ===== src/Usage.antt =====
-- The budget of calls of the language model (backend/src/btx_omni/persistence/ai_usage.py).
pub mod Receipts
pub mod Budget
pub mod Limits
pub mod Final
mod Examples
