-- ===== src/Workers.antt =====
-- The workers of the pipeline: dsx_connect_ng/dsx_connect_ng/workers/.
pub mod Consumer
pub mod PolicyEngine
pub mod Remediation
pub mod Stages
mod Examples
