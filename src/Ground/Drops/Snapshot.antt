-- ===== src/Ground/Drops/Snapshot.antt =====
-- server/internal/items/ground_items.go: `GroundItemsSnapshot`.
use mine_and_die.Prelude.{
  Bool, List, [], ◌∷◌, String, str_dec, text_less, text_less-IsOrder, sort_by, insert_by,
  sort_entries, entry_less, sort_entries-eq, All, All-sort_by, ◌≡◌, refl, sym, ap, ◌∙◌, Unique,
  lookup, arith,
}
use mine_and_die.Prelude.Int.{ℤ}
use mine_and_die.Ground.Store.{GroundItem}

-- `GroundItem`, what is sent of an item.
pub record ItemView (F : Type 0) : Type 0 where
  pub id : String
  pub type : String
  pub fungibility_key : String
  pub x : F
  pub y : F
  pub qty : ℤ

module _ {F : Type 0} where
  abbrev pub view : GroundItem F → ItemView F
  view item = record {
    id = item.id;
    type = item.type;
    fungibility_key = item.fungibility_key;
    x = item.x;
    y = item.y;
    qty = item.qty;
  }

  -- The loop over the items.
  abbrev pub views : List (String × GroundItem F) → List (ItemView F)
  views [] = []
  views ((id, item) ∷ items) = view item ∷ views items

  abbrev pub view_less : ItemView F → ItemView F → Bool
  view_less a b = text_less a.id b.id

  pub ground_items_snapshot : List (String × GroundItem F) → List (ItemView F)
  ground_items_snapshot items = sort_by view_less (views items)

  -- An item is stored under its own id.
  abbrev pub HasOwnId : String × GroundItem F → Type 0
  HasOwnId e = e.1.id ≡ e.0

  abbrev less : String × GroundItem F → String × GroundItem F → Bool
  less = entry_less str_dec text_less

  views-insert_by :
      (e : String × GroundItem F) (m : List (String × GroundItem F))
      → HasOwnId e
      → All HasOwnId m
      → insert_by view_less (view e.1) (views m) ≡ views (insert_by less e m)
  unfolding insert_by
  views-insert_by e [] h a = refl
  views-insert_by e (f ∷ m) h a = ground (arith, h, a.0, views-insert_by e m h a.1)

  views-sort :
      (m : List (String × GroundItem F))
      → All HasOwnId m
      → ground_items_snapshot m ≡ views (sort_entries str_dec text_less m)
  unfolding ground_items_snapshot sort_by
  views-sort [] a = refl
  views-sort (e ∷ m) a =
      ap (insert_by view_less (view e.1)) (views-sort m a.1)
      ∙ views-insert_by e (sort_entries str_dec text_less m) a.0 (All-sort_by less HasOwnId m a.1)

  -- The snapshot depends on which item each id has alone: where two maps answer the same, in whatever
  -- order they list their items, and store items under their own ids, it is the same.
  pub ground_items_snapshot-order :
      (l m : List (String × GroundItem F))
      → All HasOwnId l
      → All HasOwnId m
      → Unique str_dec l
      → Unique str_dec m
      → ((id : String) → lookup str_dec id l ≡ lookup str_dec id m)
      → ground_items_snapshot l ≡ ground_items_snapshot m
  ground_items_snapshot-order l m a b u v h =
      views-sort l a
      ∙ ap views (sort_entries-eq str_dec text_less text_less-IsOrder l m u v h)
      ∙ sym (views-sort m b)
