-- ===== src/Effects.antt =====
-- server/internal/effects/runtime: the effects of the world while they run.
pub mod Grid
pub mod Registry
pub mod Instances
pub mod Manager
use mine_and_die.Prelude.{String}
use mine_and_die.Prelude.Int.{ℤ}

-- `State` of types.go. The fields that the registry and the spatial index do not read are in `rest`.
pub record State (F R : Type 0) : Type 0 where
  pub id : String
  pub type : String
  pub x : F
  pub y : F
  pub width : F
  pub height : F
  pub expires_at : ℤ
  pub rest : R
