-- ===== src/World.antt =====
-- server/internal/world: the state that the simulation steps.
pub mod Items
pub mod Inventory
pub mod Equipment
