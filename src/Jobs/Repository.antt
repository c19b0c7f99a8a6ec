-- ===== src/Jobs/Repository.antt =====
-- dsx_connect_ng/dsx_connect_ng/jobs/repository.py: `InMemoryJobRepository`.
pub mod JobTable
pub mod Items
pub mod Summary
pub mod Outbox
pub mod Fair
