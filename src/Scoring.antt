-- ===== src/Scoring.antt =====
-- The queue of actions (backend/src/btx_omni/modules/scoring/action_priority.py).
pub mod ActionPriority
pub mod Queue
pub mod Order
mod Examples
pub mod Rubric
pub mod Assessment
pub mod Rounding
pub mod Ranges
pub mod Narrowing
pub mod CustomerRisk
pub mod Floors
pub mod PublicRisk
pub mod Severity
mod RiskExamples
