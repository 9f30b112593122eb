-- ===== src/Sim.antt =====
-- server/internal/sim: the staged-command queue and the loop that feeds the engine.
pub mod Command
pub mod Buffer
pub mod Loop
pub mod Patches
