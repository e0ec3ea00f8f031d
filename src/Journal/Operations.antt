-- ===== src/Journal/Operations.antt =====
-- `MonitorResearchJournal`. Each method is one transaction: where it raises, nothing is written.
mod Acquire
mod Steps
unfoldable pub use Acquire.*
unfoldable pub use Steps.*
