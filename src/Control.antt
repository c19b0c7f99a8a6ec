-- ===== src/Control.antt =====
-- The control plane: dsx_connect_ng/dsx_connect_ng/control_plane/.
pub mod Selectors
pub mod Models
pub mod World
pub mod Repository
pub mod Scopes
pub mod Connectors
pub mod Config
mod Examples
