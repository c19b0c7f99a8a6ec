-- ===== src/Jobs/Examples.antt =====
-- Runs of the job service on one small store: a job with two items, one scanned and one queued, and
-- a pending message for the queued one.
pub mod Store
mod Cancel
mod Outbox
mod Items
mod Parents
