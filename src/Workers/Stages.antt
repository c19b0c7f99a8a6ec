-- ===== src/Workers/Stages.antt =====
-- dsx_connect_ng/dsx_connect_ng/workers/: the handlers of the messages about the stages of an item.
pub mod Messages
pub mod Process
pub mod Delivery
pub mod Settled
pub mod Fast
