-- ===== src/Ground/Tests.antt =====
-- The laws of the ground items at concrete inputs, with whole numbers for float64 and a row of marks
-- for an id.
use Prim.Native.String.{String}
use mine_and_die.Prelude.{
  ℕ, zero, suc, ◌≡◌, refl, ap, List, [], ◌∷◌, none, some, lookup, str_dec, arith, true, false,
  ne_of_test,
}
use mine_and_die.Prelude.Int.{ℤ, pos, ltb_ℤ}
use mine_and_die.Prelude.Float.{whole_numbers}
use mine_and_die.World.Items.{ItemStack}
use mine_and_die.Ground.Store.{Actor, Ground, GroundItem, empty_ground}
use mine_and_die.Ground.{Setting}
use mine_and_die.Ground.Index.{IsSynced}
use mine_and_die.Ground.Index.Run.{Call, upserts, removes, run, run-IsSynced}
use mine_and_die.Ground.Pickup.{pickup_nearest_item}
use mine_and_die.Ground.Pickup.Nearest.{IsStrict}
use mine_and_die.Ground.Pickup.Handled.{IsHandled, pickup_nearest_item_cases}
use mine_and_die.Ground.Drops.{drop_stacks}
use mine_and_die.Ground.Drops.Totals.{puts, drop_stacks_lem}
use mine_and_die.Ground.Drops.Snapshot.{ground_items_snapshot, ground_items_snapshot-order}

marks : ℕ → String
marks zero = String.[]
marks (suc n) = String.◌∷◌ "x" (marks n)

size : String → ℕ
size String.[] = 0
size (String.◌∷◌ c s) = suc (size s)

size-marks : (n : ℕ) → size (marks n) ≡ n
unfolding size marks
size-marks zero = refl
size-marks (suc n) = ap suc (size-marks n)

marks_injective : (m n : ℕ) → marks m ≡ marks n → m ≡ n
marks_injective m n e = omega (arith, size-marks m, size-marks n, ap size e)

abbrev setting : Setting ℤ
setting = record {
  fl = whole_numbers;
  draws = record { angle = λ n. pos 0; distance = λ n low high. low };
  ground_id = marks;
  cfg = record { tile_size = pos 40; min_distance = pos 2; max_distance = pos 10; padding = pos 4 };
  ensure_key = λ stack. some (record stack { fungibility_key = stack.type });
}

abbrev hero : Actor ℤ
hero = record { id = "hero"; x = pos 5; y = pos 5 }

abbrev stack : String → ℕ → ItemStack
stack type n = record { type = type; fungibility_key = ""; quantity = pos n }

abbrev calls : List (Call ℤ)
calls =
    upserts hero (stack "gold" 5) "drop"
    ∷ upserts hero (stack "potion" 1) "drop"
    ∷ upserts hero (stack "gold" 2) "drop"
    ∷ removes (marks 2)
    ∷ []

run-IsSynced_example : IsSynced (run setting calls empty_ground)
run-IsSynced_example = run-IsSynced setting marks_injective calls (omega arith)

abbrev heap : Ground ℤ
heap = run setting calls empty_ground

lt_strict : IsStrict whole_numbers
lt_strict = record { irrefl = not_below_itself; trans = below }
  where
    not_below_itself : (a : ℤ) → ltb_ℤ a a ≡ false
    not_below_itself a = ground arith

    below : (a b c : ℤ) → ltb_ℤ a b ≡ true → ltb_ℤ b c ≡ true → ltb_ℤ a c ≡ true
    below a b c h k = ground (arith, h, k)

pickup_nearest_item_cases_example :
    IsHandled whole_numbers hero "gold"
      (pos 3)
      (λ s. none)
      heap
      (pickup_nearest_item whole_numbers hero "gold" (pos 3) (λ s. none) heap)
pickup_nearest_item_cases_example =
    pickup_nearest_item_cases whole_numbers hero "gold" (pos 3) (λ s. none) lt_strict heap

abbrev stacks : List ItemStack
stacks = stack "gold" 5 ∷ stack "" 3 ∷ stack "potion" 0 ∷ stack "gold" 4 ∷ []

drop_stacks_lem_example :
    let r = drop_stacks setting hero "death" stacks (pos 0) heap in
    (r.0 ≡ pos 9) × (r.1 ≡ run setting (puts hero "death" stacks) heap)
unfolding str_dec
drop_stacks_lem_example = drop_stacks_lem setting hero "death" stacks 0 heap (omega arith)

abbrev lying : String → ℕ → GroundItem ℤ
lying id n = record {
  id = id;
  type = "gold";
  fungibility_key = "gold";
  x = pos n;
  y = pos n;
  qty = pos n;
  tile = record { x = pos n; y = pos n };
  version = 0;
}

abbrev one_way : List (String × GroundItem ℤ)
one_way = ("a", lying "a" 1) ∷ ("b", lying "b" 2) ∷ []

abbrev other_way : List (String × GroundItem ℤ)
other_way = ("b", lying "b" 2) ∷ ("a", lying "a" 1) ∷ []

swapped : (id : String) → lookup str_dec id one_way ≡ lookup str_dec id other_way
unfolding lookup
swapped id = ground (arith, ne_of_test "a" "b" refl)

ground_items_snapshot-order_example :
    ground_items_snapshot one_way ≡ ground_items_snapshot other_way
unfolding lookup str_dec
ground_items_snapshot-order_example =
    ground_items_snapshot-order one_way other_way (refl, (refl, tt)) (refl, (refl, tt))
      (refl, (refl, tt)) (refl, (refl, tt)) swapped
