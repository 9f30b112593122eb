-- ===== src/Ground/Store/Moved.antt =====
-- server/internal/items/ground_items.go: the setters leave each item where it is.
use mine_and_die.Prelude.{
  ◌⊎◌, inl, inr, ◌≡◌, ◌≢◌, if_neg, refl, ap, ◌∙◌, List, Option, none, some, ite, String, str_dec,
  arith, insert, delete, lookup, lookup-insert, lookup-delete, option_cases, if_cases,
  if◌then◌else◌,
}
use mine_and_die.Prelude.Int.{ℤ, pos, add_int64, ltb_ℤ}
use mine_and_die.Prelude.Float.{Float64}
use mine_and_die.Ground.Store.{
  Tile, ByTile, GroundItem, Ground, unindexed, changed_quantity, set_quantity, set_tile,
  set_position, positions_equal, restock, remove_ground_item, index_at,
}
use mine_and_die.Ground.Store.Laws.{Spot, spot_dec, index_at-unindexed}

-- An item's id, and where it lies.
abbrev pub Card : Type 0
Card = String × Spot

module _ {F : Type 0} where
  abbrev pub card : GroundItem F → Card
  card item = (item.id, (item.tile, item.fungibility_key))

  abbrev pub card_in : List (String × GroundItem F) → String → Option Card
  card_in items id = elim (lookup str_dec id items) [ none ↦ none | some item ↦ some (card item) ]

  abbrev pub card_of : Ground F → String → Option Card
  card_of g = card_in g.items

  -- The same cards under the same index.
  unfoldable pub IsMoved : Ground F → Ground F → Type 0
  IsMoved g g' =
      ((id : String) → card_of g' id ≡ card_of g id)
      × (g'.by_tile ≡ g.by_tile)
      × (g'.next_id ≡ g.next_id)

  stay-IsMoved : (g : Ground F) → IsMoved g g
  unfolding IsMoved
  stay-IsMoved g = (λ id. refl, refl, refl)

  pub IsMoved-trans : (f g h : Ground F) → IsMoved f g → IsMoved g h → IsMoved f h
  unfolding IsMoved
  IsMoved-trans f g h a b = (λ id. b.0 id ∙ a.0 id, b.1 ∙ a.1, b.2 ∙ a.2)

  pub card-insert :
      (id j : String) (item : GroundItem F) (items : List (String × GroundItem F))
      → card_in (insert str_dec id item items) j
        ≡ ite (str_dec j id) (some (card item)) (card_in items j)
  card-insert id j item items = ground (arith, lookup-insert str_dec id j item items)

  pub card-delete :
      (id j : String) (items : List (String × GroundItem F))
      → card_in (delete str_dec id items) j ≡ ite (str_dec j id) none (card_in items j)
  card-delete id j items = ground (arith, lookup-delete str_dec id j items)

  -- A write of an item with the card of the one that was there.
  card-rewrite :
      (id j : String) (old new : GroundItem F) (items : List (String × GroundItem F))
      → lookup str_dec id items ≡ some old
      → card new ≡ card old
      → card_in (insert str_dec id new items) j ≡ card_in items j
  card-rewrite id j old new items h e = ground (arith, card-insert id j new items, h, e)

  pub set_quantity-IsMoved : (id : String) (n : ℤ) (g : Ground F) → IsMoved g (set_quantity id n g)
  unfolding set_quantity IsMoved
  set_quantity-IsMoved id n g =
      option_cases (IsMoved g) (lookup str_dec id g.items) g _ (λ e. stay-IsMoved g)
        (λ item e.
          option_cases (IsMoved g) (changed_quantity item.qty n) g _ (λ f. stay-IsMoved g)
            (λ qty f. (λ j. card-rewrite id j item _ g.items e refl, refl, refl)))

  pub set_tile-IsMoved :
      (id : String) (p : Spot) (c : Card) (g : Ground F)
      → card_of g id ≡ some c
      → c.1 ≡ p
      → IsMoved g (set_tile id p.0 g)
  unfolding set_tile IsMoved
  set_tile-IsMoved id p c g h e =
      option_cases (IsMoved g) (lookup str_dec id g.items) g _ (λ f. stay-IsMoved g)
        (λ item f. (
          λ j.
              card-rewrite id j item _ g.items f
                (ap (λ (s : Tile). (item.id, (s, item.fungibility_key))) (same item f)),
          refl,
          refl,
        ))
    where
      same : (item : GroundItem F) → lookup str_dec id g.items ≡ some item → p.0 ≡ item.tile
      same item f = ground (arith, ap (λ (q : Spot). q.0) e, h, f)

  pub set_position-IsMoved :
      (fl : Float64 F) (id : String) (x y : F) (g : Ground F) → IsMoved g (set_position fl id x y g)
  unfolding set_position IsMoved
  set_position-IsMoved fl id x y g =
      option_cases (IsMoved g) (lookup str_dec id g.items) g _ (λ e. stay-IsMoved g)
        (λ item e.
          if_cases (IsMoved g) (positions_equal fl item.x item.y x y) g _ (λ f. stay-IsMoved g)
            (λ f. (λ j. card-rewrite id j item _ g.items e refl, refl, refl)))

  pub restock-IsMoved :
      (fl : Float64 F) (id : String) (n : ℤ) (p : Spot) (x y : F) (c : Card) (g : Ground F)
      → card_of g id ≡ some c
      → c.1 ≡ p
      → IsMoved g (restock fl id n p.0 x y g)
  unfolding restock IsMoved
  restock-IsMoved fl id n p x y c g h e =
      option_cases (IsMoved g) (lookup str_dec id g.items) g _ (λ f. stay-IsMoved g)
        (λ item f.
          let g1 = set_quantity id (add_int64 item.qty n) g in
          let g2 = set_tile id p.0 g1 in
          let m1 = set_quantity-IsMoved id (add_int64 item.qty n) g in
          let m2 = set_tile-IsMoved id p c g1 (m1.0 id ∙ h) e in
          IsMoved-trans g g1 (set_position fl id x y g2) m1 (
            IsMoved-trans g1 g2 (set_position fl id x y g2) m2 (set_position-IsMoved fl id x y g2)))

  -- The item of the card is gone, from the items and from the index.
  unfoldable pub IsGone : String → Card → Ground F → Ground F → Type 0
  IsGone id c g g' =
      ((j : String) → card_of g' j ≡ ite (str_dec j id) none (card_of g j))
      × ((p : Spot)
          → index_at p.0 p.1 g'.by_tile ≡ ite (spot_dec p c.1) none (index_at p.0 p.1 g.by_tile))
      × (g'.next_id ≡ g.next_id)

  -- What is taken out after moves.
  delete-IsGone :
      (id : String) (item : GroundItem F) (g g' : Ground F)
      → IsMoved g g'
      → IsGone id (card item) g (record g' {
        items = delete str_dec id g'.items;
        by_tile = unindexed item.tile item.fungibility_key g'.by_tile;
      })
  unfolding IsGone IsMoved
  delete-IsGone id item g g' m =
      let s : Spot = (item.tile, item.fungibility_key) in
      (
        λ j. card-delete id j g'.items ∙ ap (ite (str_dec j id) none) (m.0 j),
        λ p.
            index_at-unindexed item.tile item.fungibility_key p g'.by_tile
            ∙ ap (λ (b : ByTile). ite (spot_dec p s) none (index_at p.0 p.1 b)) m.1,
        m.2,
      )

  emptied-IsMoved :
      (id : String) (item : GroundItem F) (g : Ground F)
      → IsMoved g (if ltb_ℤ (pos 0) item.qty then set_quantity id (pos 0) g else g)
  emptied-IsMoved id item g =
      if_cases (IsMoved g) (ltb_ℤ (pos 0) item.qty) (set_quantity id (pos 0) g) g
        (λ e. set_quantity-IsMoved id (pos 0) g) (λ e. stay-IsMoved g)

  -- A removal takes out the item of the id, if there is one.
  pub remove_ground_item-cases :
      (id : String) (g : Ground F)
      → IsMoved g (remove_ground_item id g)
        ⊎ ((c : Card) × ((card_of g id ≡ some c) × IsGone id c g (remove_ground_item id g)))
  unfolding remove_ground_item
  remove_ground_item-cases id g =
      option_cases (λ r. IsMoved g r ⊎ ((c : Card) × ((card_of g id ≡ some c) × IsGone id c g r)))
        (lookup str_dec id g.items) g _ (λ e. inl (stay-IsMoved g))
        (λ item e. inr (
          card item,
          (
            ground (arith, e),
            delete-IsGone id item g
                (if ltb_ℤ (pos 0) item.qty then set_quantity id (pos 0) g else g)
                (emptied-IsMoved id item g),
          ),
        ))

  -- The entry of the id is gone, and no other.
  abbrev pub Without : String → Ground F → Ground F → Type 0
  Without id g g' =
      (j : String) → lookup str_dec j g'.items ≡ ite (str_dec j id) none (lookup str_dec j g.items)

  -- A new quantity changes no other item.
  set_quantity-others :
      (id j : String) (new : ℤ) (g : Ground F)
      → j ≢ id
      → lookup str_dec j (set_quantity id new g).items ≡ lookup str_dec j g.items
  unfolding set_quantity
  set_quantity-others id j new g n =
      option_cases (λ r. lookup str_dec j r.items ≡ lookup str_dec j g.items)
        (lookup str_dec id g.items) g _ (λ e. refl)
        (λ item e.
          option_cases (λ r. lookup str_dec j r.items ≡ lookup str_dec j g.items)
            (changed_quantity item.qty new) g _ (λ h. refl)
            (λ qty h. lookup-insert str_dec id j _ g.items ∙ if_neg (str_dec j id) n _ _))

  pub remove_ground_item-Without :
      (id : String) (g : Ground F) → Without id g (remove_ground_item id g)
  unfolding remove_ground_item
  remove_ground_item-Without id g j =
      option_cases (Gone j) (lookup str_dec id g.items) g _
        (λ e.
          elim (str_dec j id)
            as (λ d. lookup str_dec j g.items ≡ ite d none (lookup str_dec j g.items)) [
              | yes p ↦ rw p e
              | no n ↦ refl
            ])
        (λ item e.
          let g' = if ltb_ℤ (pos 0) item.qty then set_quantity id (pos 0) g else g in
          lookup-delete str_dec id j g'.items
          ∙ (elim (str_dec j id)
              as (λ d.
                ite d none (lookup str_dec j g'.items) ≡ ite d none (lookup str_dec j g.items)) [
                  | yes p ↦ refl
                  | no n ↦
                      if_cases
                        (λ (x : Ground F). lookup str_dec j x.items ≡ lookup str_dec j g.items)
                        (ltb_ℤ (pos 0) item.qty) (set_quantity id (pos 0) g) g
                        (λ h. set_quantity-others id j (pos 0) g n) (λ h. refl)
                ]))
    where
      Gone : String → Ground F → Type 0
      Gone j g' = lookup str_dec j g'.items ≡ ite (str_dec j id) none (lookup str_dec j g.items)
