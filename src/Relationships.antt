-- ===== src/Relationships.antt =====
-- The bounded search for relationship routes (backend/src/btx_omni/modules/relationships/routes.py).
pub mod Graph
pub mod Access
pub mod Factors
pub mod Search
pub mod Bounds
pub mod Complete
pub mod Adjacency
pub mod Sound
pub mod Found
mod Examples
