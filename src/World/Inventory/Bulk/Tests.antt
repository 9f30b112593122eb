-- ===== src/World/Inventory/Bulk/Tests.antt =====
-- The theorems on the inventory at concrete inputs.
use mine_and_die.Prelude.{
  ℕ, ◌+◌, ◌≡◌, List, [], ◌∷◌, Option, some, none, String, str_dec, ite, true, arith, leb,
  if◌then◌else◌, min,
}
use mine_and_die.Prelude.Int.{pos}
use mine_and_die.World.Items.{ItemDefinition, ItemStack}
use mine_and_die.World.Inventory.{Inventory, new_inventory, not_enough_of}
use mine_and_die.World.Inventory.Slots.{IsIndexed}
use mine_and_die.World.Inventory.Totals.{held}
use mine_and_die.World.Inventory.Bulk.{quantity_of, remove_item_type_quantity}
use mine_and_die.World.Inventory.Bulk.Count.{quantity_of_lem}
use mine_and_die.World.Inventory.Bulk.Exact.{remove_item_type_quantity_lem}
use mine_and_die.World.Inventory.Bulk.Runs.{Call, adds, moves, removes, run, run-IsIndexed}

abbrev gold : ItemDefinition ℕ
gold = record {
  id = "gold";
  class = "processed_material";
  tier = pos 1;
  stackable = true;
  fungibility_key = "gold:1:coin";
  equip_slot = "";
  actions = [];
  modifiers = [];
  recycle_value = 0;
  name = "Gold Coin";
  description = "";
}

abbrev catalog : String → Option (ItemDefinition ℕ)
catalog type = ite (str_dec type "gold") (some gold) none

abbrev coins : ℕ → ItemStack
coins n = record { type = "gold"; fungibility_key = "gold:1:coin"; quantity = pos n }

abbrev calls : List Call
calls = adds (coins 5) ∷ adds (coins 2) ∷ moves (pos 0) (pos 1) ∷ removes (pos 0) (pos 3) ∷ []

run-IsIndexed_example : IsIndexed (run catalog calls new_inventory)
run-IsIndexed_example = run-IsIndexed catalog calls new_inventory tt

-- Two stacks of gold.
abbrev purse : Inventory
purse = record {
  slots = record { slot = pos 0; item = coins 5 } ∷ record { slot = pos 1; item = coins 2 } ∷ [];
}

remove_item_type_quantity_lem_example :
    let h = held "gold" purse.slots in
    let (inv', removed, error) = remove_item_type_quantity "gold" (pos 6) purse in
    (removed ≡ pos (min 6 h))
    × (error ≡ (if leb 6 h then none else some (not_enough_of "gold")))
    × ((t : String) → held t inv'.slots + ite (str_dec "gold" t) (min 6 h) 0 ≡ held t purse.slots)
remove_item_type_quantity_lem_example = remove_item_type_quantity_lem "gold" 6 purse (omega arith)

quantity_of_lem_example : quantity_of "gold" purse ≡ pos (held "gold" purse.slots)
unfolding str_dec
quantity_of_lem_example = quantity_of_lem "gold" purse (omega arith)
