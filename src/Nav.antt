-- ===== src/Nav.antt =====
-- server/internal/world/navigation.go: the grid of the cells that a player can stand on. A column or
-- row is an integer, the numbers of columns and rows are positive. A set of cells is a list of
-- indices; no set and an empty one are the same to the code.
pub mod Heap
pub mod Search
pub mod Route
use mine_and_die.Prelude.{
  ℕ, zero, suc, ◌+◌, ◌*◌, Bool, true, false, not, ◌&&◌, ◌||◌, List, [], ◌∷◌, ◌++◌, Option, none,
  some, ite, String, str_dec, ltb, get_or, if◌then◌else◌, count, ℕ_discrete,
}
use mine_and_die.Prelude.Int.{ℤ, pos, negsuc, pos_part, ◌+ℤ◌, leb_ℤ, ltb_ℤ, ℤ_discrete}
use mine_and_die.Prelude.Float.{Float64}

pub record Vec2 (F : Type 0) : Type 0 where
  pub x : F
  pub y : F

pub record Obstacle (F : Type 0) : Type 0 where
  pub id : String
  pub type : String
  pub x : F
  pub y : F
  pub width : F
  pub height : F

pub record Point : Type 0 where
  pub col : ℤ
  pub row : ℤ

pub point_dec : Discrete Point
point_dec = hlevel ℤ_discrete

pub record Neighbor (F : Type 0) : Type 0 where
  pub col : ℤ
  pub row : ℤ
  pub cost : F
  pub diagonal : Bool

pub record Grid (F : Type 0) : Type 0 where
  pub cols : ℕ
  pub rows : ℕ
  pub cell_size : F
  pub walkable : List Bool
  pub width : F
  pub height : F

abbrev pub has : ℕ → List ℕ → Bool
has i set = ltb 0 (count ℕ_discrete i set)

module _ {F : Type 0} where
  pub in_bounds : Grid F → Point → Bool
  in_bounds g p =
      leb_ℤ (pos 0) p.col
      && leb_ℤ (pos 0) p.row
      && ltb_ℤ p.col (pos g.cols)
      && ltb_ℤ p.row (pos g.rows)

  -- The index of a cell in bounds.
  pub index : Grid F → Point → ℕ
  index g p = pos_part p.row * g.cols + pos_part p.col

  abbrev pub walkable_at : Grid F → Point → Bool
  walkable_at g p = get_or g.walkable (index g p) false

  pub is_walkable : Grid F → Point → Bool
  unfolding in_bounds index
  is_walkable g p = in_bounds g p && walkable_at g p

  abbrev pub moved : Point → Neighbor F → Point
  moved p delta = record { col = p.col +ℤ delta.col; row = p.row +ℤ delta.row }

  pub can_traverse_diagonal : Grid F → Point → Neighbor F → List ℕ → Bool
  unfolding in_bounds index
  can_traverse_diagonal g p delta blocked =
      let horiz : Point = record p { col = p.col +ℤ delta.col } in
      let vert : Point = record p { row = p.row +ℤ delta.row } in
      not delta.diagonal
      || in_bounds g horiz
        && in_bounds g vert
        && walkable_at g horiz
        && walkable_at g vert
        && not (has (index g horiz) blocked)
        && not (has (index g vert) blocked)

module _ {F : Type 0} (fl : Float64 F) where
  open fl use {lit, add, sub, mul, div, lt, trunc_int, ceil_int, of_int}

  nav_cell_size : F
  nav_cell_size = lit 32 0

  pub player_half : F
  player_half = lit 14 0

  straight : ℤ → ℤ → Neighbor F
  straight col row = record { col = col; row = row; cost = lit 1 0; diagonal = false }

  pub sqrt2 : F
  sqrt2 = lit 14142135623730950488 19

  diagonal : ℤ → ℤ → Neighbor F
  diagonal col row = record { col = col; row = row; cost = sqrt2; diagonal = true }

  pub nav_neighbor_offsets : List (Neighbor F)
  unfolding straight diagonal
  nav_neighbor_offsets =
      straight (pos 0) (negsuc 0)
      ∷ straight (pos 1) (pos 0)
      ∷ straight (pos 0) (pos 1)
      ∷ straight (negsuc 0) (pos 0)
      ∷ diagonal (pos 1) (negsuc 0)
      ∷ diagonal (pos 1) (pos 1)
      ∷ diagonal (negsuc 0) (pos 1)
      ∷ diagonal (negsuc 0) (negsuc 0)
      ∷ []

  pub clamp : F → F → F → F
  clamp value min max = if lt value min then min else if lt max value then max else value

  pub circle_rect_overlap : F → F → F → Obstacle F → Bool
  unfolding clamp
  circle_rect_overlap cx cy radius obs =
      let dx = sub cx (clamp cx obs.x (add obs.x obs.width)) in
      let dy = sub cy (clamp cy obs.y (add obs.y obs.height)) in
      lt (add (mul dx dx) (mul dy dy)) (mul radius radius)

  -- An obstacle other than lava that a player at this place would touch.
  blocks : F → F → List (Obstacle F) → Bool
  unfolding circle_rect_overlap player_half
  blocks cx cy [] = false
  blocks cx cy (obs ∷ obstacles) =
      ite (str_dec obs.type "lava") false (circle_rect_overlap cx cy player_half obs)
      || blocks cx cy obstacles

  pub center : F → ℤ → F
  center size i = mul (add (of_int i) (lit 5 1)) size

  open_at : List (Obstacle F) → F → F → ℤ → ℤ → Bool
  unfolding blocks center nav_cell_size player_half
  open_at obstacles width height col row =
      let cx = center nav_cell_size col in
      let cy = center nav_cell_size row in
      not (
        lt cx player_half
        || lt (sub width player_half) cx
        || lt cy player_half
        || lt (sub height player_half) cy)
      && not (blocks cx cy obstacles)

  -- The loops over the rows and columns: from `from` on, `n` of them.
  abbrev cells_of_row : (ℕ → ℕ → Bool) → ℕ → ℕ → ℕ → List Bool
  cells_of_row f row from zero = []
  cells_of_row f row from (suc n) = f from row ∷ cells_of_row f row (suc from) n

  abbrev cells_of_rows : (ℕ → ℕ → Bool) → ℕ → ℕ → ℕ → List Bool
  cells_of_rows f cols from zero = []
  cells_of_rows f cols from (suc n) =
      cells_of_row f from 0 cols ++ cells_of_rows f cols (suc from) n

  at_least_one : ℤ → ℕ
  at_least_one n = if leb_ℤ n (pos 0) then 1 else pos_part n

  pub new_nav_grid : List (Obstacle F) → F → F → Grid F
  unfolding open_at at_least_one nav_cell_size
  new_nav_grid obstacles width height =
      let cols = at_least_one (ceil_int (div width nav_cell_size)) in
      let rows = at_least_one (ceil_int (div height nav_cell_size)) in
      record {
        cols = cols;
        rows = rows;
        cell_size = nav_cell_size;
        walkable =
            cells_of_rows (λ col row. open_at obstacles width height (pos col) (pos row)) cols 0
              rows;
        width = width;
        height = height;
      }

  pub world_pos : Grid F → Point → Vec2 F
  unfolding center
  world_pos g p = record { x = center g.cell_size p.col; y = center g.cell_size p.row }

  pub locate : Grid F → Vec2 F → Option Point
  unfolding clamp
  locate g v =
      let top =
        λ (size : F). if lt (sub size (lit 1 0)) (lit 0 0) then lit 0 0 else sub size (lit 1 0) in
      let p : Point = record {
        col = trunc_int (div (clamp v.x (lit 0 0) (top g.width)) g.cell_size);
        row = trunc_int (div (clamp v.y (lit 0 0) (top g.height)) g.cell_size);
      } in
      if in_bounds g p then some p else none
