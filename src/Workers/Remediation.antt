-- ===== src/Workers/Remediation.antt =====
-- dsx_connect_ng/dsx_connect_ng/workers/remediation_worker.py and connector_actions.py.
pub mod Request
pub mod Connector
pub mod Response
pub mod Executor
pub mod Returns
pub mod Plan
pub mod Quiet
pub mod Allowed
