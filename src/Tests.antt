-- ===== src/Tests.antt =====
-- Concrete runs of the modelled code, and the theorems at concrete inputs.
pub mod Selecting
pub mod Deciding
pub mod Applying
pub mod Planning
pub mod Slotting
pub mod Noting
pub mod Configuring
pub mod Remembering
pub mod Monitoring
