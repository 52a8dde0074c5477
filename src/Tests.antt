-- ===== src/Tests.antt =====
-- Concrete inputs: runs of the models, and the theorems at inputs where their conditions hold.
pub mod Reassembly
pub mod Frames
pub mod Flows
pub mod Workers
pub mod Detection
pub mod Dns
pub mod Probing
pub mod Alerts
pub mod Behavior
