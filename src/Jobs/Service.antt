-- ===== src/Jobs/Service.antt =====
-- dsx_connect_ng/dsx_connect_ng/jobs/service.py: `JobService`.
pub mod Lookup
pub mod Parent
pub mod Stages
pub mod Cancel
pub mod Envelopes
pub mod Publish
pub mod Requests
pub mod Choices
pub mod FollowOn
pub mod Advance
pub mod ScanOnly
pub mod Submit
pub mod Flush
