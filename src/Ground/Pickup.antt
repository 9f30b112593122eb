-- ===== src/Ground/Pickup.antt =====
-- server/internal/items/ground_items.go: the nearest item, and picking it up. A map is iterated in the
-- order of its list, which is any order. An error of the inventory is its text.
pub mod Listed
pub mod Nearest
pub mod Handled
use mine_and_die.Prelude.{
  Bool, ◌&&◌, ◌||◌, List, [], ◌∷◌, Option, none, some, ite, String, str_dec, if◌then◌else◌,
}
use mine_and_die.Prelude.Int.{ℤ, pos, leb_ℤ}
use mine_and_die.Prelude.Float.{Float64}
use mine_and_die.World.Items.{ItemStack}
use mine_and_die.Ground.Store.{GroundItem, Actor, Ground, remove_ground_item}

-- An item and how far away it is.
pub record Found (F : Type 0) : Type 0 where
  pub item : GroundItem F
  pub distance : F

pub record PickupResult (F : Type 0) : Type 0 where
  pub stack_id : String
  pub quantity : ℤ
  pub distance : F

pub record PickupFailure (F : Type 0) : Type 0 where
  pub reason : String
  pub stack_id : String
  pub distance : F
  pub err : String

pub data Outcome (F : Type 0) : Type 0 where
  picked : PickupResult F → Outcome F
  failed : PickupFailure F → Outcome F

abbrev pub not_found : String
not_found = "not_found"

abbrev pub out_of_range : String
out_of_range = "out_of_range"

abbrev pub inventory_error : String
inventory_error = "inventory_error"

module _ {F : Type 0} (fl : Float64 F) where
  open fl use {lit, sub, lt, eq, hypot, max_float}

  pub distance_to : Actor F → GroundItem F → F
  distance_to actor item = hypot (sub item.x actor.x) (sub item.y actor.y)

  abbrev pub best_distance : Option (Found F) → F
  best_distance none = max_float
  best_distance (some f) = f.distance

  -- The item, where it is nearer than the best one so far.
  pub nearer : Actor F → GroundItem F → Option (Found F) → Option (Found F)
  unfolding distance_to
  nearer actor item best =
      if lt (distance_to actor item) (best_distance best)
      then some (record { item = item; distance = distance_to actor item })
      else best

  -- The loop of `NearestGroundItem`.
  pub search : Actor F → String → List (String × GroundItem F) → Option (Found F) → Option (Found F)
  unfolding nearer
  search actor item_type [] best = best
  search actor item_type ((id, item) ∷ items) best =
      let skip = search actor item_type items best in
      let next = search actor item_type items (nearer actor item best) in
      if leb_ℤ item.qty (pos 0) then skip else ite (str_dec item.type item_type) next skip

  pub nearest_ground_item : List (String × GroundItem F) → Actor F → String → Option (Found F)
  unfolding search
  nearest_ground_item items actor item_type =
      ite (str_dec item_type "") none (search actor item_type items none)

  -- The loop of `PickupNearestItem`: the nearest item, and the nearest one with nothing left.
  pub search_both :
      Actor F
      → String
      → List (String × GroundItem F)
      → Option (Found F)
      → Option (Found F)
      → Option (Found F) × Option (Found F)
  unfolding nearer
  search_both actor item_type [] best depleted = (best, depleted)
  search_both actor item_type ((id, item) ∷ items) best depleted =
      let skip = search_both actor item_type items best depleted in
      let empty = search_both actor item_type items best (nearer actor item depleted) in
      let next = search_both actor item_type items (nearer actor item best) depleted in
      ite (str_dec item.type item_type) (if leb_ℤ item.qty (pos 0) then empty else next) skip

  pub failure : String → String → F → String → Outcome F
  failure reason id distance err =
      failed (record { reason = reason; stack_id = id; distance = distance; err = err })

  -- `PickupNearestItem` without an item that has some quantity.
  pub clear_depleted : Option (Found F) → Ground F → Outcome F × Ground F
  unfolding failure
  clear_depleted none g = (failure not_found "" (lit 0 0) "", g)
  clear_depleted (some f) g =
      (failure not_found f.item.id (lit 0 0) "", remove_ground_item f.item.id g)

  abbrev pub too_far : F → F → Bool
  too_far max distance = (lt (lit 0 0) max || eq (lit 0 0) max) && lt max distance

  -- The transfer of the nearest item.
  pub take_item : F → (ItemStack → Option String) → Found F → Ground F → Outcome F × Ground F
  unfolding failure
  take_item max add_to_inventory f g =
      let id = f.item.id in
      let stack : ItemStack = record {
        type = f.item.type;
        fungibility_key = f.item.fungibility_key;
        quantity = f.item.qty;
      } in
      if too_far max f.distance
      then (failure out_of_range id f.distance "", g)
      else elim (add_to_inventory stack) [
        | some err ↦ (failure inventory_error id f.distance err, g)
        | none ↦ (
          picked (record { stack_id = id; quantity = f.item.qty; distance = f.distance }),
          remove_ground_item id g,
        )
      ]

  pub pickup_nearest_item :
      Actor F → String → F → (ItemStack → Option String) → Ground F → Outcome F × Ground F
  unfolding search_both clear_depleted take_item
  pickup_nearest_item actor item_type max add_to_inventory g =
      let found = search_both actor item_type g.items none none in
      ite (str_dec item_type "") (failure not_found "" (lit 0 0) "", g)
        (elim found.0 [
          | none ↦ clear_depleted found.1 g
          | some f ↦ take_item max add_to_inventory f g
        ])
