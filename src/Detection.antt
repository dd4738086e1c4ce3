-- ===== src/Detection.antt =====
-- The detectors of frontend/worker: what runs on a trace, its root-cause analysis and its digest.
pub mod Run
pub mod Rca
pub mod Digest
pub mod Stream
pub mod Eval
