-- ===== src/World/Items.antt =====
-- The item data of server/internal/world/state: items.go, and the stack of inventory.go. `F` stands
-- for float64.
use mine_and_die.Prelude.{Bool, List, String}
use mine_and_die.Prelude.Int.{ℤ}

pub record ItemModifier (F : Type 0) : Type 0 where
  pub type : String
  pub magnitude : F
  pub duration_seconds : ℤ

pub record ItemDefinition (F : Type 0) : Type 0 where
  pub id : String
  pub class : String
  pub tier : ℤ
  pub stackable : Bool
  pub fungibility_key : String
  pub equip_slot : String
  pub actions : List String
  pub modifiers : List (ItemModifier F)
  pub recycle_value : F
  pub name : String
  pub description : String

pub record ItemStack : Type 0 where
  pub type : String
  pub fungibility_key : String
  pub quantity : ℤ
