-- ===== src/Ground/Index/Run.antt =====
-- server/internal/items/ground_items.go: upserts and removals keep the index by tile.
use mine_and_die.Prelude.{
  ℕ, inl, inr, add_u64, Option-cases, ◌+◌, ◌<◌, ◌≤◌, ◌^◌, ◌≡◌, refl, sym, ◌∙◌, List, [], ◌∷◌,
  Option, none, some, ite, String, str_dec, arith, lookup, option_cases, if_cases, ite_cases,
  length,
}
use mine_and_die.Prelude.Int.{pos, leb_ℤ}
use mine_and_die.World.Items.{ItemStack}
use mine_and_die.Ground.Store.{
  Tile, GroundItem, Actor, Ground, index_at, open_tile, remove_ground_item, empty_ground,
  tile_for_position, scatter_ground_item_position,
}
use mine_and_die.Ground.Store.Moved.{
  Card, card, card_of, card-insert, IsMoved, IsGone, restock-IsMoved, remove_ground_item-cases,
}
use mine_and_die.Ground.Store.Laws.{
  Spot, spot_dec, index_at-empty, index_at-open_tile, index_at-indexed,
}
use mine_and_die.Ground.{Setting, keyed, merged, added, put_down, upsert_ground_item}
use mine_and_die.Ground.Index.{
  linked, spot_of, id_at, IsSynced, moved-IsSynced, remove-IsSynced, remove-next_id,
}

pub data Call (F : Type 0) : Type 0 where
  upserts : Actor F → ItemStack → String → Call F
  removes : String → Call F

abbrev pub run : {F : Type 0} → Setting F → List (Call F) → Ground F → Ground F
run w [] g = g
run w (upserts actor stack reason ∷ calls) g =
    let r = upsert_ground_item w actor stack reason g in run w calls r.1
run w (removes id ∷ calls) g = run w calls (remove_ground_item id g)

-- Ids that are not given out yet are not in the store. The texts of different numbers differ.
module _ {F : Type 0} (w : Setting F)
    (distinct : (m n : ℕ) → w.ground_id m ≡ w.ground_id n → m ≡ n) where
  IsFresh : Ground F → Type 0
  IsFresh g = (n : ℕ) → g.next_id < n → card_of g (w.ground_id n) ≡ none

  IsKept : Ground F → Type 0
  IsKept g = IsSynced g × IsFresh g

  -- The number of the next item.
  number : (n : ℕ) → n + 1 < 2 ^ 64 → add_u64 n 1 ≡ n + 1
  number n h = omega arith

  linked-IsKept :
      (n : ℕ) (item : GroundItem F) (g g' : Ground F)
      → n ≡ g.next_id + 1
      → item.id ≡ w.ground_id n
      → index_at item.tile item.fungibility_key g.by_tile ≡ none
      → IsKept g
      → ((j : String)
          → card_of g' j ≡ ite (str_dec j (w.ground_id n)) (some (card item)) (card_of g j))
      → ((p : Spot)
          → id_at g' p
            ≡ ite (spot_dec p (item.tile, item.fungibility_key)) (some (w.ground_id n)) (id_at g p))
      → g'.next_id ≡ n
      → IsKept g'
  unfolding IsKept IsFresh IsSynced
  linked-IsKept n item g g' new named free h cards tiles next =
      let unused = h.1 n (omega arith) in
      (
        (
          linked str_dec spot_dec (spot_of g) (id_at g) (spot_of g') (id_at g') (w.ground_id n)
              (item.tile, item.fungibility_key) h.0.0 (ground (arith, unused)) free
              (λ j. ground (arith, cards j)) tiles,
          λ j c f. ground (arith, f, cards j, named, h.0.1 j c),
        ),
        λ m k. ground (arith, cards (w.ground_id m), distinct m n, h.1 m, k, new, next),
      )

  added-IsKept :
      (actor : Actor F) (stack : ItemStack) (reason : String) (tile : Tile) (x y : F) (g : Ground F)
      → g.next_id + 1 < 2 ^ 64
      → index_at tile stack.fungibility_key g.by_tile ≡ none
      → IsKept g
      → let r = added w actor stack reason tile x y g in IsKept r.1 × (r.1.next_id ≤ g.next_id + 1)
  unfolding added
  added-IsKept actor stack reason tile x y g small free h =
      let n = add_u64 g.next_id 1 in
      let item : GroundItem F = record {
        id = w.ground_id n;
        type = stack.type;
        fungibility_key = stack.fungibility_key;
        x = x;
        y = y;
        qty = stack.quantity;
        tile = tile;
        version = 0;
      } in
      let r = added w actor stack reason tile x y g in
      (
        linked-IsKept n item g r.1 (number g.next_id small) refl free h
            (λ j. card-insert (w.ground_id n) j item g.items)
            (λ p. index_at-indexed tile stack.fungibility_key (w.ground_id n) p g.by_tile) refl,
        omega (arith, number g.next_id small),
      )

  moved-IsKept : (g g' : Ground F) → IsMoved g g' → IsKept g → IsKept g'
  unfolding IsKept IsFresh IsMoved
  moved-IsKept g g' m h =
      (moved-IsSynced g g' m h.0, λ n k. m.0 (w.ground_id n) ∙ h.1 n (omega (arith, m.2, k)))

  card_at :
      (p : Spot) (id : String) (g : Ground F)
      → IsKept g
      → id_at g p ≡ some id
      → (c : Card) × ((card_of g id ≡ some c) × (c.1 ≡ p))
  unfolding IsKept IsSynced
  card_at p id g h e = elim (Option-cases (card_of g id)) [
    | inl f ↦ absurd (ground (arith, f, (h.0.0 id p).1 e))
    | inr found ↦ (found.0, (found.1, ground (arith, found.1, (h.0.0 id p).1 e)))
  ]

  merged-IsKept :
      (actor : Actor F) (stack : ItemStack) (reason : String) (p : Spot) (x y : F) (id : String)
      (g : Ground F)
      → id_at g p ≡ some id
      → IsKept g
      → let g' = merged w actor stack reason p.0 x y id g in
        IsKept g' × (g'.next_id ≤ g.next_id + 1)
  unfolding merged IsMoved
  merged-IsKept actor stack reason p x y id g there h =
      let c = card_at p id g h there in
      let m = restock-IsMoved w.fl id stack.quantity p x y c.0 g c.1.0 c.1.1 in
      (moved-IsKept g (merged w actor stack reason p.0 x y id g) m h, omega (arith, m.2))

  abbrev IsStep : Ground F → Option String × Ground F → Type 0
  IsStep g r = IsKept r.1 × (r.1.next_id ≤ g.next_id + 1)

  put_down-IsStep :
      (actor : Actor F) (stack : ItemStack) (reason : String) (tile : Tile) (x y : F) (g : Ground F)
      → g.next_id + 1 < 2 ^ 64
      → IsKept g
      → IsStep g (put_down w actor stack reason tile x y g)
  unfolding put_down
  put_down-IsStep actor stack reason tile x y g small h =
      let r = added w actor stack reason tile x y g in
      option_cases (IsStep g) (index_at tile stack.fungibility_key g.by_tile) (some r.0, r.1)
        (λ id. (some id, merged w actor stack reason tile x y id g))
        (λ e. added-IsKept actor stack reason tile x y g small e h)
        (λ id e. merged-IsKept actor stack reason (tile, stack.fungibility_key) x y id g e h)

  opened : Tile → Ground F → Ground F
  opened tile g = record g { draws = g.draws + 1; by_tile = open_tile tile g.by_tile }

  opened-IsKept : (tile : Tile) (g : Ground F) → IsKept g → IsKept (opened tile g)
  unfolding opened IsKept IsFresh IsSynced
  opened-IsKept tile g h = (
    (
      λ id p.
          let same = index_at-open_tile tile p g.by_tile in
          (λ e. same ∙ (h.0.0 id p).0 e, λ e. (h.0.0 id p).1 (sym same ∙ e)),
      h.0.1,
    ),
    h.1,
  )

  opened-next_id : (tile : Tile) (g : Ground F) → (opened tile g).next_id ≡ g.next_id
  unfolding opened
  opened-next_id tile g = refl

  upsert-IsStep :
      (actor : Actor F) (stack : ItemStack) (reason : String) (g : Ground F)
      → g.next_id + 1 < 2 ^ 64
      → IsKept g
      → IsStep g (upsert_ground_item w actor stack reason g)
  unfolding upsert_ground_item opened
  upsert-IsStep actor stack reason g small h =
      let tile = tile_for_position w.fl actor.x actor.y w.cfg.tile_size in
      let g' = opened tile g in
      let kept = opened-IsKept tile g h in
      let place =
        scatter_ground_item_position w.fl actor tile w.cfg (w.draws.angle g.draws)
          (w.draws.distance g.draws) in
      let on_key = λ (s : ItemStack). put_down w actor s reason tile place.0 place.1 g' in
      let result : Option String × Ground F = elim (keyed w stack) [
        | none ↦ (none, g')
        | some s ↦ on_key s
      ] in
      if_cases (IsStep g) (leb_ℤ stack.quantity (pos 0)) (none, g)
        (ite (str_dec stack.type "") (none, g) result) (λ e. (h, omega arith))
        (λ e.
          ite_cases (IsStep g) (str_dec stack.type "") (none, g) result (λ f. (h, omega arith))
            (λ f.
              option_cases (IsStep g) (keyed w stack) (none, g') on_key (λ n. (kept, omega arith))
                (λ s n. put_down-IsStep actor s reason tile place.0 place.1 g' small kept)))

  remove-IsKept : (id : String) (g : Ground F) → IsKept g → IsKept (remove_ground_item id g)
  unfolding IsKept IsFresh IsMoved IsGone
  remove-IsKept id g h = (
    remove-IsSynced id g h.0,
    λ n k.
        let unused = h.1 n (omega (arith, remove-next_id id g, k)) in
        elim (remove_ground_item-cases id g) [
          | inl m ↦ m.0 (w.ground_id n) ∙ unused
          | inr gone ↦ ground (arith, gone.1.1.0 (w.ground_id n), unused)
        ],
  )

  empty-IsKept : IsKept empty_ground
  unfolding IsKept IsFresh IsSynced lookup
  empty-IsKept = (
    (
      λ id p. (λ e. absurd (ground (arith, e)), λ e. absurd (ground (arith, e, index_at-empty p))),
      λ id c e. absurd (ground (arith, e)),
    ),
    λ n k. refl,
  )

  -- Where different numbers give different ids, after fewer than 2 ^ 64 upserts and removals on an
  -- empty ground the index by tile finds an item in the tile where it lies under its key, and nothing
  -- else: in particular no two items of a tile have the same key.
  pub run-IsSynced :
      (calls : List (Call F)) → length calls < 2 ^ 64 → IsSynced (run w calls empty_ground)
  unfolding IsKept
  run-IsSynced calls few = (keep calls empty_ground (omega (arith, few)) empty-IsKept).0
    where
      keep :
          (calls : List (Call F)) (g : Ground F)
          → g.next_id + length calls < 2 ^ 64
          → IsKept g
          → IsKept (run w calls g)
      keep [] g small h = h
      keep (upserts actor stack reason ∷ calls) g small h =
          let r = upsert_ground_item w actor stack reason g in
          let s = upsert-IsStep actor stack reason g (omega arith) h in
          keep calls r.1 (omega (arith, s.1)) s.0
      keep (removes id ∷ calls) g small h =
          keep calls (remove_ground_item id g) (omega (arith, remove-next_id id g))
            (remove-IsKept id g h)
