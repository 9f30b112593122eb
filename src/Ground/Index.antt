-- ===== src/Ground/Index.antt =====
-- server/internal/items/ground_items.go: the index by tile is the inverse of the items.
pub mod Run
use mine_and_die.Prelude.{
  ℕ, inl, inr, add_u64, Option-cases, ◌+◌, ◌<◌, ◌≤◌, ◌^◌, ◌%◌, ◌≡◌, ◌≢◌, refl, sym, ap, ap₂, subst,
  ◌∙◌, Bool, true, false, List, [], ◌∷◌, ◌++◌, Option, none, some, ite, String, str_dec, arith,
  insert, delete, lookup, lookup_or, lookup-insert, lookup-delete, lookup_or-insert, option_cases,
  if_cases, ite_cases, if◌then◌else◌, length,
}
use mine_and_die.Prelude.Int.{ℤ, pos, leb_ℤ}
use mine_and_die.World.Items.{ItemStack}
use mine_and_die.Ground.Store.{
  Tile, tile_dec, GroundItem, Actor, ByTile, Ground, index_at, open_tile, indexed, unindexed,
  set_quantity, set_tile, set_position, restock, remove_ground_item, empty_ground,
  tile_for_position, scatter_ground_item_position,
}
use mine_and_die.Ground.Store.Moved.{
  Card, card, card_in, card_of, card-insert, IsMoved, IsGone, restock-IsMoved,
  remove_ground_item-cases,
}
use mine_and_die.Ground.Store.Laws.{
  Spot, spot_dec, index_at-open_tile, index_at-indexed, index_at-unindexed,
}
use mine_and_die.Ground.{Setting, keyed, merged, added, put_down, upsert_ground_item}

-- Two partial functions that are inverse to each other.
module _ {A B : Type 0} (dec_A : Discrete A) (dec_B : Discrete B) where
  abbrev pub IsInverse : (A → Option B) → (B → Option A) → Type 0
  IsInverse f g = (a : A) (b : B) → (f a ≡ some b → g b ≡ some a) × (g b ≡ some a → f a ≡ some b)

  -- One more pair.
  pub linked :
      (f : A → Option B) (g : B → Option A) (f' : A → Option B) (g' : B → Option A) (a : A) (b : B)
      → IsInverse f g
      → f a ≡ none
      → g b ≡ none
      → ((i : A) → f' i ≡ ite (dec_A i a) (some b) (f i))
      → ((j : B) → g' j ≡ ite (dec_B j b) (some a) (g j))
      → IsInverse f' g'
  linked f g f' g' a b h u v s t i j = (
    λ e. ground (arith, e, s i, t j, u, v, (h i j).0),
    λ e. ground (arith, e, s i, t j, u, v, (h i j).1),
  )

  -- One pair less.
  unlinked :
      (f : A → Option B) (g : B → Option A) (f' : A → Option B) (g' : B → Option A) (a : A) (b : B)
      → IsInverse f g
      → f a ≡ some b
      → ((i : A) → f' i ≡ ite (dec_A i a) none (f i))
      → ((j : B) → g' j ≡ ite (dec_B j b) none (g j))
      → IsInverse f' g'
  unlinked f g f' g' a b h u s t i j = (
    λ e. ground (arith, e, s i, t j, u, (h i j).0, (h i b).0, (h a b).0),
    λ e. ground (arith, e, s i, t j, u, (h i j).1, (h a j).1, (h a b).0),
  )

module _ {F : Type 0} where
  abbrev pub spot_of : Ground F → String → Option Spot
  spot_of g id = elim (card_of g id) [ none ↦ none | some c ↦ some c.1 ]

  abbrev pub id_at : Ground F → Spot → Option String
  id_at g p = index_at p.0 p.1 g.by_tile

  -- The index finds an item where it lies, and nothing else, and an item is stored under its own id.
  pub IsSynced : Ground F → Type 0
  IsSynced g =
      IsInverse str_dec spot_dec (spot_of g) (id_at g)
      × ((id : String) (c : Card) → card_of g id ≡ some c → c.0 ≡ id)

  pub moved-IsSynced : (g g' : Ground F) → IsMoved g g' → IsSynced g → IsSynced g'
  unfolding IsSynced IsMoved
  moved-IsSynced g g' m h = (
    λ id p.
        let both = h.0 id p in
        (λ e. ground (arith, e, m.0 id, m.1, both.0), λ e. ground (arith, e, m.0 id, m.1, both.1)),
    λ id c e. h.1 id c (sym (m.0 id) ∙ e),
  )

  gone-IsSynced :
      (id : String) (c : Card) (g g' : Ground F)
      → card_of g id ≡ some c
      → IsGone id c g g'
      → IsSynced g
      → IsSynced g'
  unfolding IsSynced IsGone
  gone-IsSynced id c g g' e m h = (
    unlinked str_dec spot_dec (spot_of g) (id_at g) (spot_of g') (id_at g') id c.1 h.0
        (ground (arith, e)) (λ j. ground (arith, m.0 j)) m.1,
    λ j d f. ground (arith, f, m.0 j, h.1 j d),
  )

  pub remove-IsSynced :
      (id : String) (g : Ground F) → IsSynced g → IsSynced (remove_ground_item id g)
  remove-IsSynced id g h = elim (remove_ground_item-cases id g) [
    | inl m ↦ moved-IsSynced g (remove_ground_item id g) m h
    | inr gone ↦ gone-IsSynced id gone.0 g (remove_ground_item id g) gone.1.0 gone.1.1 h
  ]

  pub remove-next_id : (id : String) (g : Ground F) → (remove_ground_item id g).next_id ≡ g.next_id
  unfolding IsMoved IsGone
  remove-next_id id g = elim (remove_ground_item-cases id g) [ inl m ↦ m.2 | inr gone ↦ gone.1.1.2 ]
