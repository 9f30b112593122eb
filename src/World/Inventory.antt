-- ===== src/World/Inventory.antt =====
-- server/internal/world/state/inventory.go. The catalog is a parameter of `add_stack`, the only method
-- that looks into it. An error is a value in place of its text. A subtraction here takes a positive
-- number from a larger one, so it stays in range.
pub mod Slots
pub mod Totals
pub mod Bulk
use mine_and_die.Prelude.{
  ℕ, suc, zero, ◌-◌, List, [], ◌∷◌, ◌++◌, Bool, true, false, ◌&&◌, ◌||◌, Option, none, some, ite,
  String, length, take, drop, get_elem?, set, str_dec, if◌then◌else◌, ltb, leb, ◌==◌, ◌⊎◌, inl, inr,
}
use mine_and_die.Prelude.Int.{ℤ, pos, negsuc, leb_ℤ, ltb_ℤ, add_int64, ◌-ℤ◌, ℤ_discrete}
use mine_and_die.World.Items.{ItemDefinition, ItemStack}

pub record InventorySlot : Type 0 where
  pub slot : ℤ
  pub item : ItemStack

pub record Inventory : Type 0 where
  pub slots : List InventorySlot

pub data InventoryError : Type 0 where
  not_positive : ℤ → InventoryError
  unknown_type : String → InventoryError
  key_mismatch : String → String → InventoryError
  from_out_of_range to_out_of_range slot_out_of_range not_enough_in : ℤ → InventoryError
  not_enough_of : String → InventoryError

abbrev pub new_inventory : Inventory
new_inventory = record { slots = [] }

-- The index as a position, where it is in range.
abbrev pub position : ℤ → List InventorySlot → Option ℕ
position (pos n) slots = if ltb n (length slots) then some n else none
position (negsuc n) slots = none

-- The loop that sets each slot to its index.
abbrev pub renumber : ℕ → List InventorySlot → List InventorySlot
renumber i [] = []
renumber i (s ∷ slots) = record s { slot = pos i } ∷ renumber (suc i) slots

abbrev pub remove_at : ℕ → List InventorySlot → List InventorySlot
remove_at i slots = take i slots ++ drop (suc i) slots

-- The key of the stack, or that of the definition where the stack has none.
abbrev stack_key : String → String → String
stack_key key default = ite (str_dec key "") default key

-- The loop over the slots of a stackable item: the first slot with the key takes the quantity.
pub merge : String → ℤ → List InventorySlot → Option (List InventorySlot × ℤ)
merge key quantity [] = none
merge key quantity (s ∷ slots) =
    let rest = merge key quantity slots in
    ite (str_dec s.item.fungibility_key key)
      (some (
        record s { item = record s.item { quantity = add_int64 s.item.quantity quantity } } ∷ slots,
        s.slot,
      ))
      (elim rest [ none ↦ none | some (slots', i) ↦ some (s ∷ slots', i) ])

pub append_stack : ItemStack → Inventory → Inventory × (ℤ ⊎ InventoryError)
append_stack stack inv = (
  record { slots = inv.slots ++ (record { slot = pos (length inv.slots); item = stack } ∷ []) },
  inl (pos (length inv.slots)),
)

-- The part of `AddStack` after its checks.
pub place : Bool → ItemStack → Inventory → Inventory × (ℤ ⊎ InventoryError)
unfolding merge append_stack
place true stack inv = elim (merge stack.fungibility_key stack.quantity inv.slots) [
  | some (slots, i) ↦ (record { slots = slots }, inl i)
  | none ↦ append_stack stack inv
]
place false stack inv = append_stack stack inv

module _ {F : Type 0} (definition_for : String → Option (ItemDefinition F)) where
  pub add_stack : ItemStack → Inventory → Inventory × (ℤ ⊎ InventoryError)
  unfolding place
  add_stack stack inv =
      if leb_ℤ stack.quantity (pos 0)
      then (inv, inr (not_positive stack.quantity))
      else elim (definition_for stack.type) [
        | none ↦ (inv, inr (unknown_type stack.type))
        | some def ↦
            let key = stack_key stack.fungibility_key def.fungibility_key in
            ite (str_dec key def.fungibility_key)
              (place def.stackable (record stack { fungibility_key = key }) inv)
              (inv, inr (key_mismatch key def.fungibility_key))
      ]

-- Taking the slot at `from` out, and putting it back at `to`.
abbrev pub moved : ℕ → ℕ → List InventorySlot → List InventorySlot
moved from to slots = elim (get_elem? slots from) [
  | none ↦ slots
  | some s ↦
      let rest = remove_at from slots in
      if leb (length rest) to then rest ++ (s ∷ []) else take to rest ++ (s ∷ drop to rest)
]

pub move_slot : ℤ → ℤ → Inventory → Inventory × Option InventoryError
move_slot from to inv = elim (position from inv.slots) [
  | none ↦ (inv, some (from_out_of_range from))
  | some f ↦ elim (position to inv.slots) [
    | none ↦ (inv, some (to_out_of_range to))
    | some t ↦
        if f == t then (inv, none) else (record { slots = renumber 0 (moved f t inv.slots) }, none)
  ]
]

-- The end of `RemoveQuantity`, for the slot `s` at the position `i`.
pub take_from : ℕ → InventorySlot → ℤ → Inventory → Inventory × (ItemStack ⊎ InventoryError)
take_from i s quantity inv =
    let left = s.item.quantity -ℤ quantity in
    let slots = set inv.slots i (record s { item = record s.item { quantity = left } }) in
    (
      ite (ℤ_discrete left (pos 0)) (record { slots = renumber 0 (remove_at i slots) })
          (record { slots = slots }),
      inl (record s.item { quantity = quantity }),
    )

pub remove_quantity : ℤ → ℤ → Inventory → Inventory × (ItemStack ⊎ InventoryError)
unfolding take_from
remove_quantity index quantity inv = elim (position index inv.slots) [
  | none ↦ (inv, inr (slot_out_of_range index))
  | some i ↦
      if leb_ℤ quantity (pos 0)
      then (inv, inr (not_positive quantity))
      else elim (get_elem? inv.slots i) [
        | none ↦ (inv, inr (slot_out_of_range index))
        | some s ↦
            if ltb_ℤ s.item.quantity quantity
            then (inv, inr (not_enough_in index))
            else take_from i s quantity inv
      ]
]
