-- ===== src/Ground/Store.antt =====
-- server/internal/items/ground_items.go: the items, the index by tile, and the setters.
pub mod Laws
pub mod Moved
use mine_and_die.Prelude.{
  ℕ, Bool, true, false, not, ◌&&◌, ◌||◌, List, [], ◌∷◌, ◌++◌, Option, none, some, ite, String,
  str_dec, insert, delete, lookup, lookup_or, if◌then◌else◌, add_u64,
}
use mine_and_die.Prelude.Int.{ℤ, pos, ltb_ℤ, add_int64, ℤ_discrete}
use mine_and_die.Prelude.Float.{Float64}
use mine_and_die.World.Items.{ItemStack}

pub record Tile : Type 0 where
  pub x : ℤ
  pub y : ℤ

pub tile_dec : Discrete Tile
tile_dec = hlevel ℤ_discrete

-- `GroundItemState` with the `GroundItem` that it embeds.
pub record GroundItem (F : Type 0) : Type 0 where
  pub id : String
  pub type : String
  pub fungibility_key : String
  pub x : F
  pub y : F
  pub qty : ℤ
  pub tile : Tile
  pub version : ℕ

pub record Actor (F : Type 0) : Type 0 where
  pub id : String
  pub x : F
  pub y : F

pub record ScatterConfig (F : Type 0) : Type 0 where
  pub tile_size : F
  pub min_distance : F
  pub max_distance : F
  pub padding : F

-- A call of `logDrop`.
pub record Drop : Type 0 where
  pub actor : String
  pub stack : ItemStack
  pub reason : String
  pub id : String

pub data Patch (F : Type 0) : Type 0 where
  ground_item_qty : String → ℤ → Patch F
  ground_item_pos : String → F → F → Patch F

abbrev pub ByTile : Type 0
ByTile = List (Tile × List (String × String))

-- The store, the calls that it made, and how many random positions it drew.
pub record Ground (F : Type 0) : Type 0 where
  pub items : List (String × GroundItem F)
  pub by_tile : ByTile
  pub next_id : ℕ
  pub patches : List (Patch F)
  pub drops : List Drop
  pub draws : ℕ

abbrev pub empty_ground : {F : Type 0} → Ground F
empty_ground = record { items = []; by_tile = []; next_id = 0; patches = []; drops = []; draws = 0 }

-- `itemsByTile[tile][key]`.
pub index_at : Tile → String → ByTile → Option String
index_at tile key by_tile = lookup str_dec key (lookup_or tile_dec [] tile by_tile)

-- A map for the tile, where it has none.
pub open_tile : Tile → ByTile → ByTile
open_tile tile by_tile = elim (lookup tile_dec tile by_tile) [
  | none ↦ insert tile_dec tile [] by_tile
  | some keys ↦ by_tile
]

pub indexed : Tile → String → String → ByTile → ByTile
indexed tile key id by_tile =
    insert tile_dec tile (insert str_dec key id (lookup_or tile_dec [] tile by_tile)) by_tile

-- The end of `RemoveGroundItem`.
pub unindexed : Tile → String → ByTile → ByTile
unindexed tile key by_tile = elim (lookup tile_dec tile by_tile) [
  | none ↦ by_tile
  | some keys ↦ elim (delete str_dec key keys) [
    | [] ↦ delete tile_dec tile by_tile
    | k ∷ rest ↦ insert tile_dec tile (k ∷ rest) by_tile
  ]
]

-- A new quantity, where it is one.
pub changed_quantity : ℤ → ℤ → Option ℤ
changed_quantity qty new =
    let kept = if ltb_ℤ new (pos 0) then pos 0 else new in
    ite (ℤ_discrete qty kept) none (some kept)

module _ {F : Type 0} where
  -- The setter of `GroundItemQuantityJournalSetter`.
  pub set_quantity : String → ℤ → Ground F → Ground F
  unfolding changed_quantity
  set_quantity id new g = elim (lookup str_dec id g.items) [
    | none ↦ g
    | some item ↦ elim (changed_quantity item.qty new) [
      | none ↦ g
      | some qty ↦ record g {
        items =
            insert str_dec id (record item { qty = qty; version = add_u64 item.version 1 }) g.items;
        patches = g.patches ++ (ground_item_qty item.id qty ∷ []);
      }
    ]
  ]

  pub set_tile : String → Tile → Ground F → Ground F
  set_tile id tile g = elim (lookup str_dec id g.items) [
    | none ↦ g
    | some item ↦ record g { items = insert str_dec id (record item { tile = tile }) g.items }
  ]

  -- Go takes the item, and the callers pass one of the store; so an id stands for it here.
  pub remove_ground_item : String → Ground F → Ground F
  unfolding set_quantity unindexed
  remove_ground_item id g = elim (lookup str_dec id g.items) [
    | none ↦ g
    | some item ↦
        let g' = if ltb_ℤ (pos 0) item.qty then set_quantity id (pos 0) g else g in
        record g' {
          items = delete str_dec id g'.items;
          by_tile = unindexed item.tile item.fungibility_key g'.by_tile;
        }
  ]

module _ {F : Type 0} (fl : Float64 F) where
  open fl use {lit, add, sub, mul, div, lt, eq, abs, cos, sin, floor_int, of_int}

  at_most : F → F → Bool
  at_most a b = lt a b || eq a b

  positions_equal : F → F → F → F → Bool
  unfolding at_most
  positions_equal ax ay bx by =
      at_most (abs (sub ax bx)) (lit 1 6) && at_most (abs (sub ay by)) (lit 1 6)

  pub tile_for_position : F → F → F → Tile
  tile_for_position x y tile_size = record {
    x = floor_int (div x tile_size);
    y = floor_int (div y tile_size);
  }

  pub tile_center : Tile → F → F × F
  tile_center tile size = (
    add (mul (of_int tile.x) size) (div size (lit 2 0)),
    add (mul (of_int tile.y) size) (div size (lit 2 0)),
  )

  clamp_float : F → F → F → F
  clamp_float value min max = if lt value min then min else if lt max value then max else value

  pub scatter_ground_item_position : Actor F → Tile → ScatterConfig F → F → (F → F → F) → F × F
  unfolding at_most clamp_float
  scatter_ground_item_position actor tile cfg angle random_distance =
      let distance = random_distance cfg.min_distance cfg.max_distance in
      let x = add actor.x (mul (cos angle) distance) in
      let y = add actor.y (mul (sin angle) distance) in
      let left = mul (of_int tile.x) cfg.tile_size in
      let top = mul (of_int tile.y) cfg.tile_size in
      let padding =
        if at_most cfg.tile_size (mul cfg.padding (lit 2 0)) then lit 0 0 else cfg.padding in
      (
        clamp_float x (add left padding) (sub (add left cfg.tile_size) padding),
        clamp_float y (add top padding) (sub (add top cfg.tile_size) padding),
      )

  -- The setter of `GroundItemPositionJournalSetter`.
  pub set_position : String → F → F → Ground F → Ground F
  unfolding positions_equal
  set_position id x y g = elim (lookup str_dec id g.items) [
    | none ↦ g
    | some item ↦ if positions_equal item.x item.y x y then g else record g {
      items =
          insert str_dec id (record item { x = x; y = y; version = add_u64 item.version 1 })
            g.items;
      patches = g.patches ++ (ground_item_pos item.id x y ∷ []);
    }
  ]

  -- The calls of `UpsertGroundItem` on an item that is there.
  pub restock : String → ℤ → Tile → F → F → Ground F → Ground F
  unfolding set_quantity set_tile set_position
  restock id quantity tile x y g = elim (lookup str_dec id g.items) [
    | none ↦ g
    | some item ↦
        set_position id x y (set_tile id tile (set_quantity id (add_int64 item.qty quantity) g))
  ]
