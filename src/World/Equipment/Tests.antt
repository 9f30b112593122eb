-- ===== src/World/Equipment/Tests.antt =====
-- The refinement of the equipment at concrete inputs.
use mine_and_die.Prelude.{◌≡◌, List, [], ◌∷◌, none}
use mine_and_die.Prelude.Int.{pos}
use mine_and_die.World.Items.{ItemStack}
use mine_and_die.World.Equipment.{new_equipment}
use mine_and_die.World.Equipment.Map.{Call, gets, removes, sets, drains, replies, map_replies}
use mine_and_die.World.Equipment.Refine.{equipment_refines}

abbrev dagger : ItemStack
dagger = record {
  type = "iron_dagger";
  fungibility_key = "iron_dagger:1:dagger,iron";
  quantity = pos 0;
}

abbrev calls : List Call
calls =
    sets "Body" dagger
    ∷ sets "MainHand" dagger
    ∷ gets "Body"
    ∷ removes "Body"
    ∷ gets "Body"
    ∷ drains
    ∷ gets "MainHand"
    ∷ []

equipment_refines_example : replies new_equipment calls ≡ map_replies (λ t. none) calls
equipment_refines_example = equipment_refines calls
