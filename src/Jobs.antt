-- ===== src/Jobs.antt =====
-- The job control plane of dsx_connect_ng: records, repository and service.
pub mod Models
pub mod Policy
pub mod World
pub mod Examples
pub mod Repository
pub mod Service
