-- ===== src/Ground/Drops.antt =====
-- server/internal/items/ground_items.go: what an actor drops, and the snapshot for the broadcast. The
-- callbacks on the actor's inventory and equipment are given by what they return; `none` stands for a
-- callback that is nil.
pub mod Snapshot
pub mod Totals
use mine_and_die.Prelude.{
  Bool, true, false, List, [], ◌∷◌, ◌++◌, Option, none, some, ite, String, str_dec, if◌then◌else◌,
}
use mine_and_die.Prelude.Int.{ℤ, pos, leb_ℤ, ltb_ℤ, add_int64, ℤ_discrete}
use mine_and_die.World.Items.{ItemStack}
use mine_and_die.Ground.Store.{Actor, Ground}
use mine_and_die.Ground.{Setting, upsert_ground_item}

pub record DropResult : Type 0 where
  pub stack_id : String
  pub quantity : ℤ

pub record DropFailure : Type 0 where
  pub reason : String
  pub err : String

pub data DropOutcome : Type 0 where
  dropped : DropResult → DropOutcome
  refused : DropFailure → DropOutcome

abbrev pub gold_item_type : String
gold_item_type = "gold"

abbrev pub invalid_quantity : String
invalid_quantity = "invalid_quantity"

abbrev pub insufficient_gold : String
insufficient_gold = "insufficient_gold"

abbrev pub drop_inventory_error : String
drop_inventory_error = "inventory_error"

-- The first provider that handles the call.
pub first_handled {ℓ} : {A : Type ℓ} → List (Option A) → Option A
first_handled [] = none
first_handled (some stacks ∷ rest) = some stacks
first_handled (none ∷ rest) = first_handled rest

-- The function of `GroundDropRemoveStacksFunc`, for the providers of the player, the NPC and the
-- fallback.
pub remove_stacks : List (String → Option (List ItemStack)) → String → List ItemStack
unfolding first_handled
remove_stacks providers item_type =
    ite (str_dec item_type "") []
      (elim (first_handled (answers providers)) [ none ↦ [] | some stacks ↦ stacks ])
  where
    answers : List (String → Option (List ItemStack)) → List (Option (List ItemStack))
    answers [] = []
    answers (provider ∷ rest) = provider item_type ∷ answers rest

-- The functions of `GroundDropInventoryDrainFunc` and `GroundDropEquipmentDrainFunc`.
pub drain_stacks : List (Option (List ItemStack)) → List ItemStack
unfolding first_handled
drain_stacks answers = elim (first_handled answers) [ none ↦ [] | some stacks ↦ stacks ]

module _ {F : Type 0} (w : Setting F) where
  pub drop_stacks : Actor F → String → List ItemStack → ℤ → Ground F → ℤ × Ground F
  drop_stacks actor reason [] total g = (total, g)
  drop_stacks actor reason (stack ∷ stacks) total g =
      let r = upsert_ground_item w actor stack reason g in
      let skip = drop_stacks actor reason stacks total g in
      let next = drop_stacks actor reason stacks (add_int64 total stack.quantity) r.1 in
      ite (str_dec stack.type "") skip (if leb_ℤ stack.quantity (pos 0) then skip else next)

  pub drop_all_items_of_type :
      Actor F → String → String → Option (String → List ItemStack) → Ground F → ℤ × Ground F
  unfolding drop_stacks
  drop_all_items_of_type actor item_type reason none g = (pos 0, g)
  drop_all_items_of_type actor item_type reason (some remove) g =
      ite (str_dec item_type "") (pos 0, g) (drop_stacks actor reason (remove item_type) (pos 0) g)

  pub drop_all_gold : Actor F → String → Option (String → List ItemStack) → Ground F → ℤ × Ground F
  unfolding drop_all_items_of_type
  drop_all_gold actor reason remove g = drop_all_items_of_type actor gold_item_type reason remove g

  abbrev drained : Option (List ItemStack) → List ItemStack
  drained none = []
  drained (some stacks) = stacks

  pub drop_all_inventory :
      Actor F → String → Option (List ItemStack) → Option (List ItemStack) → Ground F → ℤ × Ground F
  unfolding drop_stacks
  drop_all_inventory actor reason inventory equipment g =
      drop_stacks actor reason (drained inventory ++ drained equipment) (pos 0) g

  -- The gold on the ground, once it is out of the inventory.
  pub drop_gold : Actor F → String → ℤ → Ground F → DropOutcome × Ground F
  drop_gold actor reason removed g =
      let stack : ItemStack = record {
        type = gold_item_type;
        fungibility_key = "";
        quantity = removed;
      } in
      let r = upsert_ground_item w actor stack reason g in
      let id : String = elim r.0 [ none ↦ "" | some id ↦ id ] in
      (dropped (record { stack_id = id; quantity = removed }), r.1)

  pub drop_gold_quantity :
      Actor F → ℤ → String → ℤ → (ℤ → ℤ × Option String) → Ground F → DropOutcome × Ground F
  unfolding drop_gold
  drop_gold_quantity actor quantity reason available remove_quantity g =
      let no : String → String → DropOutcome × Ground F =
        λ why err. (refused (record { reason = why; err = err }), g) in
      let removed = remove_quantity quantity in
      if leb_ℤ quantity (pos 0)
      then no invalid_quantity ""
      else if ltb_ℤ available quantity
      then no insufficient_gold ""
      else elim removed.1 [
        | some err ↦ no drop_inventory_error err
        | none ↦
            ite (ℤ_discrete removed.0 quantity) (drop_gold actor reason removed.0 g)
              (no drop_inventory_error "")
      ]
