-- ===== src/Journal.antt =====
-- server/internal/journal: what the simulation stages for the next broadcast.
pub mod Contract
pub mod Policy
pub mod State
pub mod Patches
pub mod Effects
pub mod Batches
pub mod Keyframes
mod Samples
