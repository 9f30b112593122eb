-- ===== src/Ground/Store/Laws.antt =====
-- server/internal/items/ground_items.go: what the writes to the index by tile do.
use mine_and_die.Prelude.{
  ◌≡◌, refl, ap, ap₂, List, [], ◌∷◌, Option, none, some, ite, String, str_dec, arith, insert,
  delete, lookup, lookup_or, lookup-insert, lookup-delete, lookup_or-insert,
}
use mine_and_die.Ground.Store.{Tile, tile_dec, ByTile, index_at, open_tile, indexed, unindexed}

-- Where an item lies and what it is merged with.
abbrev pub Spot : Type 0
Spot = Tile × String

pub spot_dec : Discrete Spot
spot_dec = hlevel (tile_dec, str_dec)

pub index_at-empty : (p : Spot) → index_at p.0 p.1 [] ≡ none
unfolding index_at lookup_or lookup
index_at-empty p = refl

pub index_at-open_tile :
    (tile : Tile) (p : Spot) (m : ByTile) → index_at p.0 p.1 (open_tile tile m) ≡ index_at p.0 p.1 m
unfolding index_at open_tile lookup_or lookup
index_at-open_tile tile p m = ground (arith, lookup-insert tile_dec tile p.0 [] m)

Spot-eq : (p : Spot) (t : Tile) (k : String) → p.0 ≡ t → p.1 ≡ k → p ≡ (t, k)
Spot-eq p t k h g = ap₂ (λ (a : Tile) (b : String). (a, b)) h g

pub index_at-indexed :
    (tile : Tile) (key id : String) (p : Spot) (m : ByTile)
    → index_at p.0 p.1 (indexed tile key id m)
      ≡ ite (spot_dec p (tile, key)) (some id) (index_at p.0 p.1 m)
unfolding index_at indexed
index_at-indexed tile key id p m = ground (
  arith,
  lookup_or-insert tile_dec [] tile p.0 (insert str_dec key id (lookup_or tile_dec [] tile m)) m,
  lookup-insert str_dec key p.1 id (lookup_or tile_dec [] tile m),
  Spot-eq p tile key,
  λ (e : p ≡ (tile, key)). ap (λ (q : Spot). q.0) e,
  λ (e : p ≡ (tile, key)). ap (λ (q : Spot). q.1) e,
)

keys-unindexed :
    (tile : Tile) (key : String) (t : Tile) (m : ByTile)
    → lookup_or tile_dec [] t (unindexed tile key m)
      ≡ ite
          (tile_dec t tile)
          (delete str_dec key (lookup_or tile_dec [] tile m))
          (lookup_or tile_dec [] t m)
unfolding unindexed lookup_or delete
keys-unindexed tile key t m = at (lookup tile_dec tile m) refl
  where
    stored :
        (r : List (String × String))
        → lookup_or tile_dec [] t
            (elim r [ [] ↦ delete tile_dec tile m | k ∷ rest ↦ insert tile_dec tile (k ∷ rest) m ])
          ≡ ite (tile_dec t tile) r (lookup_or tile_dec [] t m)
    stored [] = ground (arith, lookup-delete tile_dec tile t m)
    stored (k ∷ rest) = ground (arith, lookup-insert tile_dec tile t (k ∷ rest) m)

    at :
        (o : Option (List (String × String)))
        → lookup tile_dec tile m ≡ o
        → lookup_or tile_dec [] t (elim o [
          | none ↦ m
          | some keys ↦ elim (delete str_dec key keys) [
            | [] ↦ delete tile_dec tile m
            | k ∷ rest ↦ insert tile_dec tile (k ∷ rest) m
          ]
        ])
          ≡ ite
              (tile_dec t tile)
              (delete str_dec key (elim o [ none ↦ [] | some keys ↦ keys ]))
              (lookup_or tile_dec [] t m)
    at none e = ground (arith, e)
    at (some keys) e = stored (delete str_dec key keys)

pub index_at-unindexed :
    (tile : Tile) (key : String) (p : Spot) (m : ByTile)
    → index_at p.0 p.1 (unindexed tile key m)
      ≡ ite (spot_dec p (tile, key)) none (index_at p.0 p.1 m)
unfolding index_at
index_at-unindexed tile key p m = ground (
  arith,
  keys-unindexed tile key p.0 m,
  lookup-delete str_dec key p.1 (lookup_or tile_dec [] tile m),
  Spot-eq p tile key,
  λ (e : p ≡ (tile, key)). ap (λ (q : Spot). q.0) e,
  λ (e : p ≡ (tile, key)). ap (λ (q : Spot). q.1) e,
)
