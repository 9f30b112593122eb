-- ===== src/Nav/Route/Tests.antt =====
-- Paths for requests to server/internal/world/navigation.go.
use mine_and_die.Prelude.{List, [], ◌∷◌, true, false}
use mine_and_die.Prelude.Int.{ℤ, pos}
use mine_and_die.Prelude.Float.{whole_numbers}
use mine_and_die.Nav.{Grid, Vec2}
use mine_and_die.Nav.Route.{
  ComputePathRequest, PathActor, find_path, dynamic_blocker_positions, compute_navigation_path,
}
use mine_and_die.Nav.Route.Laws.{Guided, find_path-Guided}
use mine_and_die.Nav.Route.Nearby.{Answer, compute_navigation_path-Answer}

abbrev place : ℤ → ℤ → Vec2 ℤ
place x y = record { x = x; y = y }

abbrev field_grid : Grid ℤ
field_grid = record {
  cols = 3;
  rows = 1;
  cell_size = pos 1;
  walkable = true ∷ false ∷ true ∷ [];
  width = pos 3;
  height = pos 1;
}

find_path-Guided_example :
    Guided whole_numbers field_grid
      (place (pos 0) (pos 0))
      (place (pos 2) (pos 0))
      []
      (find_path whole_numbers field_grid (place (pos 0) (pos 0)) (place (pos 2) (pos 0)) [])
find_path-Guided_example =
    find_path-Guided whole_numbers field_grid (place (pos 0) (pos 0)) (place (pos 2) (pos 0)) []

abbrev request : ComputePathRequest ℤ
request = record {
  start = place (pos 20) (pos 20);
  target = place (pos 30) (pos 25);
  width = pos 40;
  height = pos 40;
  obstacles =
      record { id = "o1"; type = "rock"; x = pos 24; y = pos 0; width = pos 2; height = pos 20 }
      ∷ [];
  blockers = [];
}

abbrev actors : List (PathActor ℤ)
actors = record { id = "npc-1"; position = place (pos 22) (pos 30) } ∷ []

compute_navigation_path-Answer_example :
    Answer whole_numbers
      (record request { blockers = dynamic_blocker_positions whole_numbers actors "player-1" })
      (compute_navigation_path whole_numbers request actors "player-1")
compute_navigation_path-Answer_example =
    compute_navigation_path-Answer whole_numbers request actors "player-1"
