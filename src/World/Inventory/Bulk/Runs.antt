-- ===== src/World/Inventory/Bulk/Runs.antt =====
-- The index of a slot is its position: the methods that go over all slots, and sequences of calls.
use mine_and_die.Prelude.{
  ℕ, suc, zero, List, [], ◌∷◌, Option, some, String, length, if_cases, option_cases, ◌⊎◌, inl, inr,
}
use mine_and_die.Prelude.Int.{ℤ, pos, leb_ℤ, ltb_ℤ, ◌-ℤ◌}
use mine_and_die.World.Items.{ItemDefinition, ItemStack}
use mine_and_die.World.Inventory.{Inventory, InventoryError, add_stack, move_slot, remove_quantity}
use mine_and_die.World.Inventory.Slots.{
  IsIndexed, add_stack-IsIndexed, move_slot-IsIndexed, remove_quantity-IsIndexed,
}
use mine_and_die.World.Inventory.Bulk.{
  available, remove_all_below, remove_all_of, drain_all, remove_type_below,
  remove_item_type_quantity, min_ℤ,
}

remove_all_below-IsIndexed :
    (n : ℕ) (type : String) (inv : Inventory) (removed : List ItemStack)
    → IsIndexed inv
    → IsIndexed (remove_all_below n type inv removed).0
unfolding remove_all_below
remove_all_below-IsIndexed zero type inv removed h = h
remove_all_below-IsIndexed (suc i) type inv removed h =
    option_cases (λ (r : Inventory × List ItemStack). IsIndexed r.0) (available type i inv) _ _
      (λ e. remove_all_below-IsIndexed i type inv removed h)
      (λ quantity e.
        let (inv', result) = remove_quantity (pos i) quantity inv in
        remove_all_below-IsIndexed i type inv' _ (remove_quantity-IsIndexed (pos i) quantity inv h))

remove_type_below-IsIndexed :
    (n : ℕ) (type : String) (remaining : ℤ) (inv : Inventory)
    → IsIndexed inv
    → IsIndexed (remove_type_below n type remaining inv).0
unfolding remove_type_below
remove_type_below-IsIndexed zero type remaining inv h = h
remove_type_below-IsIndexed (suc i) type remaining inv h =
    if_cases Q (leb_ℤ remaining (pos 0)) _ _ (λ e. h)
      (λ e.
        option_cases Q (available type i inv) _ _
          (λ e. remove_type_below-IsIndexed i type remaining inv h)
          (λ quantity e.
            let take = min_ℤ quantity remaining in
            let k = remove_quantity-IsIndexed (pos i) take inv h in
            answered (pos i) take (remaining -ℤ take) k
              (remove_type_below-IsIndexed i type (remaining -ℤ take) _ k)
              (remove_quantity (pos i) take inv).1))
  where
    Q : Inventory × ℤ × Option InventoryError → Type 0
    Q r = IsIndexed r.0

    answered :
        (index take left : ℤ)
        → IsIndexed (remove_quantity index take inv).0
        → IsIndexed (remove_type_below i type left (remove_quantity index take inv).0).0
        → (r : ItemStack ⊎ InventoryError)
        → Q (elim r [
          | inl _ ↦ remove_type_below i type left (remove_quantity index take inv).0
          | inr e ↦ ((remove_quantity index take inv).0, remaining, some e)
        ])
    answered index take left k m (inl stack) = m
    answered index take left k m (inr e) = k

remove_item_type_quantity-IsIndexed :
    (type : String) (quantity : ℤ) (inv : Inventory)
    → IsIndexed inv
    → IsIndexed (remove_item_type_quantity type quantity inv).0
unfolding remove_item_type_quantity
remove_item_type_quantity-IsIndexed type quantity inv h =
    let r = remove_type_below (length inv.slots) type quantity inv in
    let k = remove_type_below-IsIndexed (length inv.slots) type quantity inv h in
    if_cases Q (leb_ℤ quantity (pos 0)) _ _ (λ e. h)
      (λ e.
        option_cases Q r.2 _ _ (λ e. if_cases Q (ltb_ℤ (pos 0) r.1) _ _ (λ e. k) (λ e. k))
          (λ x e. k))
  where
    Q : Inventory × ℤ × Option InventoryError → Type 0
    Q r = IsIndexed r.0

-- A call of a method that changes the inventory.
pub data Call : Type 0 where
  adds : ItemStack → Call
  moves removes : ℤ → ℤ → Call
  removes_all : String → Call
  removes_type : String → ℤ → Call
  drains : Call

module _ {F : Type 0} (definition_for : String → Option (ItemDefinition F)) where
  abbrev pub call : Call → Inventory → Inventory
  call (adds stack) inv = (add_stack definition_for stack inv).0
  call (moves from to) inv = (move_slot from to inv).0
  call (removes index quantity) inv = (remove_quantity index quantity inv).0
  call (removes_all type) inv = (remove_all_of type inv).0
  call (removes_type type quantity) inv = (remove_item_type_quantity type quantity inv).0
  call drains inv = (drain_all inv).0

  abbrev pub run : List Call → Inventory → Inventory
  run [] inv = inv
  run (c ∷ calls) inv = run calls (call c inv)

  call-IsIndexed : (c : Call) (inv : Inventory) → IsIndexed inv → IsIndexed (call c inv)
  unfolding remove_all_of drain_all
  call-IsIndexed (adds stack) inv h = add_stack-IsIndexed definition_for stack inv h
  call-IsIndexed (moves from to) inv h = move_slot-IsIndexed from to inv h
  call-IsIndexed (removes index quantity) inv h = remove_quantity-IsIndexed index quantity inv h
  call-IsIndexed (removes_all type) inv h =
      remove_all_below-IsIndexed (length inv.slots) type inv [] h
  call-IsIndexed (removes_type type quantity) inv h =
      remove_item_type_quantity-IsIndexed type quantity inv h
  call-IsIndexed drains inv h = tt

  -- Whatever the catalog holds, an inventory whose slots each hold their own position keeps that
  -- through every sequence of calls, those that fail included; a new inventory is one.
  pub run-IsIndexed :
      (calls : List Call) (inv : Inventory) → IsIndexed inv → IsIndexed (run calls inv)
  run-IsIndexed [] inv h = h
  run-IsIndexed (c ∷ calls) inv h = run-IsIndexed calls (call c inv) (call-IsIndexed c inv h)
