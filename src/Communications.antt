-- ===== src/Communications.antt =====
-- Reviewed email drafts (backend/src/btx_omni/modules/communications/service.py,
-- domain/communications.py and persistence/communications.py).
pub mod Drafts
pub mod Repository
pub mod Service
pub mod Creation
pub mod Commands
pub mod Review
pub mod Deliveries
pub mod Delivery
pub mod Sending
pub mod Listing
mod Examples
