-- ===== src/OutboxWorker.antt =====
-- The worker of the outbox: src/app/services/outbox_worker.py. Each operation has a database session
-- of its own, so several workers interleave at the level of these operations.
pub mod Claim
pub mod Finish
pub mod Process
pub mod Backoff
pub mod Lifecycle
pub mod Laws
pub mod Fencing
pub mod Claimed
pub mod Batch
