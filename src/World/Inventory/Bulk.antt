-- ===== src/World/Inventory/Bulk.antt =====
-- The methods of inventory.go that go over all slots of an item type, and the totals.
pub mod Runs
pub mod Exact
pub mod Count
mod Tests
use mine_and_die.Prelude.{
  ℕ, suc, zero, List, [], ◌∷◌, ◌++◌, Bool, true, false, ◌||◌, Option, none, some, ite, String,
  length, get_elem?, str_dec, if◌then◌else◌, ◌⊎◌, inl, inr,
}
use mine_and_die.Prelude.Int.{ℤ, pos, leb_ℤ, ltb_ℤ, add_int64, ◌-ℤ◌}
use mine_and_die.World.Items.{ItemStack}
use mine_and_die.World.Inventory.{
  InventorySlot, Inventory, InventoryError, not_positive, not_enough_of, remove_quantity,
}

-- The loop of `QuantityOf`, with the total so far.
quantity_from : String → ℤ → List InventorySlot → ℤ
quantity_from type total [] = total
quantity_from type total (s ∷ slots) =
    ite (str_dec s.item.type type)
      (quantity_from type
        (if ltb_ℤ (pos 0) s.item.quantity then add_int64 total s.item.quantity else total) slots)
      (quantity_from type total slots)

pub quantity_of : String → Inventory → ℤ
unfolding quantity_from
quantity_of type inv = quantity_from type (pos 0) inv.slots

-- Whether the slot at an index, if there is one, holds some of the type.
pub available : String → ℕ → Inventory → Option ℤ
available type i inv = elim (get_elem? inv.slots i) [
  | none ↦ none
  | some s ↦
      ite (str_dec s.item.type type)
        (if leb_ℤ s.item.quantity (pos 0) then none else some s.item.quantity) none
]

-- The removed stack, where the removal succeeds, after the ones removed before it.
collect : List ItemStack → ItemStack ⊎ InventoryError → List ItemStack
collect removed (inr e) = removed
collect removed (inl stack) =
    if ltb_ℤ (pos 0) stack.quantity then removed ++ (stack ∷ []) else removed

-- The loop of `RemoveAllOf` over the indices below `n`, from the last one down.
pub remove_all_below : ℕ → String → Inventory → List ItemStack → Inventory × List ItemStack
unfolding available collect
remove_all_below zero type inv removed = (inv, removed)
remove_all_below (suc i) type inv removed = elim (available type i inv) [
  | none ↦ remove_all_below i type inv removed
  | some quantity ↦
      let (inv', result) = remove_quantity (pos i) quantity inv in
      remove_all_below i type inv' (collect removed result)
]

pub remove_all_of : String → Inventory → Inventory × List ItemStack
unfolding remove_all_below
remove_all_of type inv = remove_all_below (length inv.slots) type inv []

-- The loop of `DrainAll`.
drained_stacks : List InventorySlot → List ItemStack
drained_stacks [] = []
drained_stacks (s ∷ slots) =
    ite (str_dec s.item.type "") (drained_stacks slots) (
      if leb_ℤ s.item.quantity (pos 0) then drained_stacks slots else s.item ∷ drained_stacks slots)

pub drain_all : Inventory → Inventory × List ItemStack
unfolding drained_stacks
drain_all inv = (record { slots = [] }, drained_stacks inv.slots)

abbrev pub min_ℤ : ℤ → ℤ → ℤ
min_ℤ a b = if ltb_ℤ b a then b else a

-- The loop of `RemoveItemTypeQuantity` over the indices below `n`, from the last one down, while
-- some of the quantity remains; with the error of a removal that fails.
pub remove_type_below : ℕ → String → ℤ → Inventory → Inventory × ℤ × Option InventoryError
unfolding available
remove_type_below zero type remaining inv = (inv, remaining, none)
remove_type_below (suc i) type remaining inv =
    if leb_ℤ remaining (pos 0) then (inv, remaining, none) else elim (available type i inv) [
      | none ↦ remove_type_below i type remaining inv
      | some quantity ↦
          let take = min_ℤ quantity remaining in
          let (inv', result) = remove_quantity (pos i) take inv in
          elim result [
            | inl _ ↦ remove_type_below i type (remaining -ℤ take) inv'
            | inr e ↦ (inv', remaining, some e)
          ]
    ]

-- The new inventory, how much was removed, and the error.
pub remove_item_type_quantity : String → ℤ → Inventory → Inventory × ℤ × Option InventoryError
unfolding remove_type_below
remove_item_type_quantity type quantity inv =
    let (inv', remaining, error) = remove_type_below (length inv.slots) type quantity inv in
    if leb_ℤ quantity (pos 0) then (inv, pos 0, some (not_positive quantity)) else elim error [
      | some e ↦ (inv', quantity -ℤ remaining, some e)
      | none ↦
          if ltb_ℤ (pos 0) remaining
          then (inv', quantity -ℤ remaining, some (not_enough_of type))
          else (inv', quantity, none)
    ]
