-- ===== src/World/Equipment.antt =====
-- server/internal/world/state/equipment.go, and the equipment slots of items.go. `sort.Slice` is an
-- insertion sort here: the slots of an equipment differ, so every sort gives the same list.
pub mod Map
pub mod Refine
mod Tests
use mine_and_die.Prelude.{
  ℕ, suc, List, [], ◌∷◌, ◌++◌, Bool, true, false, Option, none, some, ite, String, length,
  get_elem?, str_dec, ltb, ◌==◌, text_less, if◌then◌else◌,
}
use mine_and_die.Prelude.Int.{ℤ, pos, negsuc, leb_ℤ, ℤ_discrete}
use mine_and_die.World.Items.{ItemStack}

pub record EquippedItem : Type 0 where
  pub slot : String
  pub item : ItemStack

pub record Equipment : Type 0 where
  pub slots : List EquippedItem

abbrev pub new_equipment : Equipment
new_equipment = record { slots = [] }

abbrev ordered_equip_slots : List String
ordered_equip_slots =
    "MainHand" ∷ "OffHand" ∷ "Head" ∷ "Body" ∷ "Gloves" ∷ "Boots" ∷ "Accessory" ∷ []

-- The index of a slot in the list, the length of the list if it is not there.
abbrev rank_in : String → List String → ℕ
rank_in slot [] = 0
rank_in slot (s ∷ rest) = ite (str_dec slot s) 0 (suc (rank_in slot rest))

pub equip_slot_rank : String → ℕ
equip_slot_rank slot = rank_in slot ordered_equip_slots

pub equip_slot_from_ordinal : ℤ → Option String
equip_slot_from_ordinal (pos n) = get_elem? ordered_equip_slots n
equip_slot_from_ordinal (negsuc n) = none

-- The order that `sortSlots` sorts by.
slot_less : EquippedItem → EquippedItem → Bool
unfolding text_less equip_slot_rank
slot_less a b =
    if equip_slot_rank a.slot == equip_slot_rank b.slot
    then text_less a.slot b.slot
    else ltb (equip_slot_rank a.slot) (equip_slot_rank b.slot)

sort_in : EquippedItem → List EquippedItem → List EquippedItem
unfolding slot_less
sort_in x [] = x ∷ []
sort_in x (y ∷ slots) = if slot_less y x then y ∷ sort_in x slots else x ∷ y ∷ slots

pub sort_slots : List EquippedItem → List EquippedItem
unfolding sort_in
sort_slots [] = []
sort_slots (x ∷ slots) = sort_in x (sort_slots slots)

-- The loop of `Get`.
pub find_slot : String → List EquippedItem → Option ItemStack
find_slot slot [] = none
find_slot slot (e ∷ slots) = ite (str_dec e.slot slot) (some e.item) (find_slot slot slots)

pub get : String → Equipment → Option ItemStack
unfolding find_slot
get slot e = find_slot slot e.slots

-- A stack of no more than nothing is stored as one item.
abbrev pub at_least_one : ItemStack → ItemStack
at_least_one stack =
    if leb_ℤ stack.quantity (pos 0) then record stack { quantity = pos 1 } else stack

-- The loop of `Set`: the first entry of the slot takes the stack.
pub put : String → ItemStack → List EquippedItem → Option (List EquippedItem)
put slot stack [] = none
put slot stack (e ∷ slots) =
    let rest = put slot stack slots in
    ite (str_dec e.slot slot) (some (record e { item = stack } ∷ slots))
      (elim rest [ none ↦ none | some slots' ↦ some (e ∷ slots') ])

pub set : String → ItemStack → Equipment → Equipment
unfolding put sort_slots
set slot stack e =
    let kept = at_least_one stack in
    elim (put slot kept e.slots) [
      | some slots ↦ record { slots = slots }
      | none ↦ record { slots = sort_slots (e.slots ++ (record { slot = slot; item = kept } ∷ [])) }
    ]

-- The loop of `Remove`: the entries but the first of the slot.
pub without_first : String → List EquippedItem → List EquippedItem
without_first slot [] = []
without_first slot (e ∷ slots) = ite (str_dec e.slot slot) slots (e ∷ without_first slot slots)

-- The entry that goes is the first of the slot, which is the one that `Get` finds.
pub remove : String → Equipment → Equipment × Option ItemStack
unfolding without_first find_slot
remove slot e = (record { slots = without_first slot e.slots }, find_slot slot e.slots)

pub drain_all : Equipment → Equipment × List EquippedItem
drain_all e = (record { slots = [] }, e.slots)

same_item : ItemStack → ItemStack → Bool
same_item a b =
    ite (str_dec a.type b.type)
      (ite (str_dec a.fungibility_key b.fungibility_key)
        (ite (ℤ_discrete a.quantity b.quantity) true false) false)
      false

pub same_slots : List EquippedItem → List EquippedItem → Bool
unfolding same_item
same_slots [] [] = true
same_slots [] (b ∷ others) = false
same_slots (a ∷ slots) [] = false
same_slots (a ∷ slots) (b ∷ others) =
    let rest = same_slots slots others in
    ite (str_dec a.slot b.slot) (if same_item a.item b.item then rest else false) false

pub equipments_equal : Equipment → Equipment → Bool
unfolding same_slots
equipments_equal a b =
    if length a.slots == length b.slots then same_slots a.slots b.slots else false
