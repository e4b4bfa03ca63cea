-- ===== src/Timing.antt =====
-- timing-core/src: the storage port, the sequence gate, the crossing processor and the ingest service.
pub mod Storage
pub mod Gate
pub mod Crossing
pub mod Service
