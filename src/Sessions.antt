-- ===== src/Sessions.antt =====
-- Signed-in sessions (backend/src/btx_omni/security/sessions.py).
pub mod Store
pub mod Access
mod Examples
