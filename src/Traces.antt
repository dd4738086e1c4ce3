-- ===== src/Traces.antt =====
-- The trace view of the user interface: frontend/ui/src/features/traces.
pub mod Tree
pub mod Pending
