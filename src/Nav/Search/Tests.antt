-- ===== src/Nav/Search/Tests.antt =====
-- Searches on a small grid of server/internal/world/navigation.go.
use mine_and_die.Prelude.{ℕ, ◌≡◌, refl, true, false, [], ◌∷◌, ℕ_discrete, lookup, insert}
use mine_and_die.Prelude.Int.{ℤ, pos, ◌+ℤ◌, ◌-ℤ◌, ℤ_discrete}
use mine_and_die.Prelude.Float.{whole_numbers}
use mine_and_die.Nav.{
  Point, Grid, in_bounds, index, nav_neighbor_offsets, can_traverse_diagonal, point_dec,
}
use mine_and_die.Nav.Heap.{push, pop}
use mine_and_die.Nav.Search.{astar, found, closest_walkable}
use mine_and_die.Nav.Search.Correct.{Right, astar-Right}

abbrev cell : ℕ → ℕ → Point
cell col row = record { col = pos col; row = pos row }

-- Three columns and two rows; the middle of the first row is closed.
abbrev wall : Grid ℤ
wall = record {
  cols = 3;
  rows = 2;
  cell_size = pos 32;
  walkable = true ∷ false ∷ true ∷ true ∷ true ∷ true ∷ [];
  width = pos 96;
  height = pos 64;
}

round_the_wall :
    astar whole_numbers wall (cell 2 0) [] (cell 0 0)
    ≡ found (cell 0 0 ∷ cell 0 1 ∷ cell 1 1 ∷ cell 2 1 ∷ cell 2 0 ∷ [])
unfolding astar in_bounds index nav_neighbor_offsets can_traverse_diagonal ◌+ℤ◌ ℕ_discrete ◌-ℤ◌ push
    pop lookup insert point_dec ℤ_discrete
round_the_wall = refl

off_the_wall : closest_walkable whole_numbers wall [] (cell 1 0) ≡ found (cell 2 0)
unfolding closest_walkable in_bounds index nav_neighbor_offsets can_traverse_diagonal ◌+ℤ◌
    ℕ_discrete
off_the_wall = refl

astar-Right_example :
    Right whole_numbers wall
      (cell 0 0)
      (cell 2 0)
      (4 ∷ [])
      (astar whole_numbers wall (cell 2 0) (4 ∷ []) (cell 0 0))
unfolding in_bounds
astar-Right_example = astar-Right whole_numbers wall (cell 0 0) (cell 2 0) (4 ∷ []) refl refl
