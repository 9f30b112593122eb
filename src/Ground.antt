-- ===== src/Ground.antt =====
-- server/internal/items/ground_items.go: the stacks that lie on the ground. An item of the store is
-- found by its id, so the index by tile holds ids in place of pointers. The setters of
-- `UpsertGroundItem` are the ones that record patches, as at all of its calls. The `n`-th random angle
-- and distance are those of `Draws`; `ground_id n` is the text "ground-n" of package fmt.
pub mod Store
pub mod Drops
pub mod Pickup
pub mod Index
mod Tests
use mine_and_die.Prelude.{
  ℕ, ◌+◌, Bool, true, false, not, ◌&&◌, ◌||◌, List, [], ◌∷◌, ◌++◌, Option, none, some, ite, String,
  str_dec, insert, lookup, lookup_or, if◌then◌else◌, add_u64,
}
use mine_and_die.Prelude.Int.{ℤ, pos, leb_ℤ, add_int64}
use mine_and_die.Prelude.Float.{Float64}
use mine_and_die.World.Items.{ItemStack}
use mine_and_die.Ground.Store.{
  Tile, GroundItem, Actor, ScatterConfig, Drop, Patch, Ground, tile_for_position,
  scatter_ground_item_position, restock, indexed, open_tile, index_at,
}

-- The random numbers, by the number of the call.
pub record Draws (F : Type 0) : Type 0 where
  pub angle : ℕ → F
  pub distance : ℕ → F → F → F

-- What the calls of a world have in common.
pub record Setting (F : Type 0) : Type 0 where
  pub fl : Float64 F
  pub draws : Draws F
  pub ground_id : ℕ → String
  pub cfg : ScatterConfig F
  pub ensure_key : ItemStack → Option ItemStack

module _ {F : Type 0} (w : Setting F) where
  -- A stack with a key, or nothing where it has none and gets none.
  pub keyed : ItemStack → Option ItemStack
  keyed stack =
      ite (str_dec stack.fungibility_key "")
        (elim (w.ensure_key stack) [
          | none ↦ none
          | some s ↦ ite (str_dec s.fungibility_key "") none (some s)
        ])
        (some stack)

  -- The stack on the pile that lies there.
  pub merged : Actor F → ItemStack → String → Tile → F → F → String → Ground F → Ground F
  merged actor stack reason tile x y id g =
      let g' = restock w.fl id stack.quantity tile x y g in
      record g' {
        drops =
            g'.drops ++ (record { actor = actor.id; stack = stack; reason = reason; id = id } ∷ []);
      }

  -- The stack as a new item.
  pub added : Actor F → ItemStack → String → Tile → F → F → Ground F → String × Ground F
  added actor stack reason tile x y g =
      let n = add_u64 g.next_id 1 in
      let id = w.ground_id n in
      (
        id,
        record g {
          next_id = n;
          items =
              insert str_dec id
                (record {
                  id = id;
                  type = stack.type;
                  fungibility_key = stack.fungibility_key;
                  x = x;
                  y = y;
                  qty = stack.quantity;
                  tile = tile;
                  version = 0;
                })
                g.items;
          by_tile = indexed tile stack.fungibility_key id g.by_tile;
          drops =
              g.drops
              ++ (record { actor = actor.id; stack = stack; reason = reason; id = id } ∷ []);
        },
      )

  -- `UpsertGroundItem` once the stack has a key.
  pub put_down : Actor F → ItemStack → String → Tile → F → F → Ground F → Option String × Ground F
  unfolding merged added
  put_down actor stack reason tile x y g = elim (index_at tile stack.fungibility_key g.by_tile) [
    | some id ↦ (some id, merged actor stack reason tile x y id g)
    | none ↦ let r = added actor stack reason tile x y g in (some r.0, r.1)
  ]

  -- The id of the item, where there is one.
  pub upsert_ground_item : Actor F → ItemStack → String → Ground F → Option String × Ground F
  unfolding keyed put_down
  upsert_ground_item actor stack reason g =
      let tile = tile_for_position w.fl actor.x actor.y w.cfg.tile_size in
      let distance = w.draws.distance g.draws in
      let place =
        scatter_ground_item_position w.fl actor tile w.cfg (w.draws.angle g.draws) distance in
      let g' = record g { draws = g.draws + 1; by_tile = open_tile tile g.by_tile } in
      if leb_ℤ stack.quantity (pos 0)
      then (none, g)
      else ite (str_dec stack.type "") (none, g)
          (elim (keyed stack) [
            | none ↦ (none, g')
            | some s ↦ put_down actor s reason tile place.0 place.1 g'
          ])
