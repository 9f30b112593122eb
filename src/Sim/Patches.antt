-- ===== src/Sim/Patches.antt =====
-- Replaying player patches onto a snapshot: server/internal/sim/patches/apply.go, with the data of
-- sim/patch.go, sim/snapshot.go, sim/inventory.go and sim/equipment.go. `F` stands for float64. The
-- copies that the code makes of slices are equal to them.
pub mod Replay
mod Tests
use mine_and_die.Prelude.{
  List, [], ◌∷◌, Bool, Option, none, some, ite, String, str_dec, lookup, insert, delete,
  if◌then◌else◌, ◌⊎◌, inl, inr,
}
use mine_and_die.Prelude.Int.{ℤ}

abbrev pub patch_player_pos : String
patch_player_pos = "player_pos"

abbrev pub patch_player_facing : String
patch_player_facing = "player_facing"

abbrev pub patch_player_intent : String
patch_player_intent = "player_intent"

abbrev pub patch_player_health : String
patch_player_health = "player_health"

abbrev pub patch_player_inventory : String
patch_player_inventory = "player_inventory"

abbrev pub patch_player_equipment : String
patch_player_equipment = "player_equipment"

abbrev pub patch_player_removed : String
patch_player_removed = "player_removed"

pub record ItemStack : Type 0 where
  pub type : String
  pub fungibility_key : String
  pub quantity : ℤ

pub record InventorySlot : Type 0 where
  pub slot : ℤ
  pub item : ItemStack

pub record EquippedItem : Type 0 where
  pub slot : String
  pub item : ItemStack

pub record Player (F : Type 0) : Type 0 where
  pub id : String
  pub x : F
  pub y : F
  pub facing : String
  pub health : F
  pub max_health : F
  pub inventory : List InventorySlot
  pub equipment : List EquippedItem
  pub intent_dx : F
  pub intent_dy : F

pub record PlayerView (F : Type 0) : Type 0 where
  pub player : Player F
  pub intent_dx : F
  pub intent_dy : F

-- A payload is a value of one of the payload types or a pointer to one; `other` stands for all
-- else, such as a nil pointer or the payload of another kind of entity.
pub data Payload (F : Type 0) : Type 0 where
  position : F → F → Payload F
  facing_payload : String → Payload F
  intent : F → F → Payload F
  health_payload : F → F → Payload F
  inventory_payload : List InventorySlot → Payload F
  equipment_payload : List EquippedItem → Payload F
  other : Payload F

pub record Patch (F : Type 0) : Type 0 where
  pub kind : String
  pub entity_id : String
  pub payload : Payload F

pub data PatchError : Type 0 where
  missing_entity : String → PatchError
  unknown_entity : String → String → PatchError
  unexpected_payload : String → PatchError
  unsupported_kind : String → PatchError

abbrev pub Views : Type 0 → Type 0
Views F = List (String × PlayerView F)

module _ {F : Type 0} where
  abbrev payload_as_player_pos : Payload F → Option (F × F)
  payload_as_player_pos (position x y) = some (x, y)
  payload_as_player_pos _ = none

  abbrev payload_as_player_facing : Payload F → Option String
  payload_as_player_facing (facing_payload d) = some d
  payload_as_player_facing _ = none

  abbrev payload_as_player_intent : Payload F → Option (F × F)
  payload_as_player_intent (intent dx dy) = some (dx, dy)
  payload_as_player_intent _ = none

  abbrev payload_as_player_health : Payload F → Option (F × F)
  payload_as_player_health (health_payload h m) = some (h, m)
  payload_as_player_health _ = none

  abbrev payload_as_player_inventory : Payload F → Option (List InventorySlot)
  payload_as_player_inventory (inventory_payload slots) = some slots
  payload_as_player_inventory _ = none

  abbrev payload_as_player_equipment : Payload F → Option (List EquippedItem)
  payload_as_player_equipment (equipment_payload slots) = some slots
  payload_as_player_equipment _ = none

  -- A view changed by the payload, if the payload has the type that the kind asks for.
  with_payload : {A : Type 0} → String → Option A → (A → PlayerView F) → PlayerView F ⊎ PatchError
  with_payload kind none f = inr (unexpected_payload kind)
  with_payload kind (some a) f = inl (f a)

-- `is_positive` is the comparison with zero of a float64.
module _ {F : Type 0} (is_positive : F → Bool) where
  -- The switch over the kinds.
  pub apply_view : Patch F → PlayerView F → PlayerView F ⊎ PatchError
  unfolding with_payload
  apply_view patch view =
      let player = view.player in
      let kind = patch.kind in
      ite (str_dec kind patch_player_pos)
        (with_payload kind (payload_as_player_pos patch.payload)
          (λ p. record view { player = record player { x = p.0; y = p.1 } }))
        (ite (str_dec kind patch_player_facing)
          (with_payload kind (payload_as_player_facing patch.payload)
            (λ d. record view { player = record player { facing = d } }))
          (ite (str_dec kind patch_player_intent)
            (with_payload kind (payload_as_player_intent patch.payload)
              (λ p. record view { intent_dx = p.0; intent_dy = p.1 }))
            (ite (str_dec kind patch_player_health)
              (with_payload kind (payload_as_player_health patch.payload) (λ p. record view {
                player = record player {
                  health = p.0;
                  max_health = if is_positive p.1 then p.1 else player.max_health;
                };
              }))
              (ite (str_dec kind patch_player_inventory)
                (with_payload kind (payload_as_player_inventory patch.payload)
                  (λ slots. record view { player = record player { inventory = slots } }))
                (ite (str_dec kind patch_player_equipment)
                  (with_payload kind (payload_as_player_equipment patch.payload)
                    (λ slots. record view { player = record player { equipment = slots } }))
                  (inr (unsupported_kind kind)))))))

  -- Storing the changed view.
  stored : String → Views F → PlayerView F ⊎ PatchError → Views F ⊎ PatchError
  stored id next (inl view) = inl (insert str_dec id view next)
  stored id next (inr e) = inr e

  -- One round of the loop over the patches.
  pub apply_patch : Patch F → Views F → Views F ⊎ PatchError
  unfolding stored apply_view
  apply_patch patch next =
      let id = patch.entity_id in
      ite (str_dec id "") (inr (missing_entity patch.kind)) (
        ite (str_dec patch.kind patch_player_removed) (inl (delete str_dec id next))
          (elim (lookup str_dec id next) [
            | none ↦ inr (unknown_entity id patch.kind)
            | some view ↦ stored id next (apply_view patch view)
          ]))

  pub apply_players : Views F → List (Patch F) → Views F ⊎ PatchError
  unfolding apply_patch
  apply_players next [] = inl next
  apply_players next (p ∷ patches) = elim (apply_patch p next) [
    | inl next' ↦ apply_players next' patches
    | inr e ↦ inr e
  ]
