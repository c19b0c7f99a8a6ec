-- ===== src/Transfer.antt =====
-- The guarded transfer: dsx_transfer/dsx_transfer/.
pub mod Models
pub mod Policy
pub mod World
pub mod Checkpoint
pub mod Engine
pub mod ScanGate
pub mod DsxaGate
mod Examples
