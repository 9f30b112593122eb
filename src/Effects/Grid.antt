-- ===== src/Effects/Grid.antt =====
-- server/internal/effects/runtime/spatial_index.go: which effects stand in which cell of a grid. A
-- count of effects is a plain number; that a column or row is the last `int` is outside the model.
mod Buckets
pub mod Capacity
mod Distinct
use mine_and_die.Prelude.{
  ℕ, zero, suc, ◌+◌, ◌-◌, Bool, true, false, ◌||◌, List, [], ◌∷◌, ◌++◌, Option, none, some, ite,
  String, str_dec, ltb, leb, if◌then◌else◌, insert, delete, lookup, lookup_or, length, take, set,
  get_or, count,
}
use mine_and_die.Prelude.Int.{ℤ, pos, ◌+ℤ◌, ◌-ℤ◌, leb_ℤ, ℤ_discrete, pos_part}
use mine_and_die.Prelude.Float.{Float64}
use mine_and_die.Effects.{State}

pub record Cell : Type 0 where
  pub x : ℤ
  pub y : ℤ

pub cell_dec : Discrete Cell
cell_dec = hlevel (ℤ_discrete)

abbrev pub Cells : Type 0
Cells = List (Cell × List String)

pub record SpatialIndex (F : Type 0) : Type 0 where
  pub cell_size : F
  pub inv_cell_size : F
  pub max_per_cell : ℕ
  pub cells : Cells
  pub entries : List (String × List Cell)

-- The ids that stand in a cell.
abbrev pub bucket : Cell → Cells → List String
bucket = lookup_or cell_dec []

-- The index of the first `id`.
pub index_of : String → List String → Option ℕ
index_of id [] = none
index_of id (x ∷ xs) =
    ite (str_dec id x) (some 0) (elim (index_of id xs) [ none ↦ none | some i ↦ some (suc i) ])

-- The last id takes the place of the first `id`.
pub swap_out : String → List String → List String
unfolding index_of
swap_out id ids = elim (index_of id ids) [
  | none ↦ ids
  | some i ↦ take (length ids - 1) (set ids i (get_or ids (length ids - 1) ""))
]

-- One round of the loop of `removeFromCells`.
pub take_out : String → Cell → Cells → Cells
unfolding swap_out
take_out id cell cells = elim (bucket cell cells) [
  | [] ↦ cells
  | x ∷ xs ↦ elim (swap_out id (x ∷ xs)) [
    | [] ↦ delete cell_dec cell cells
    | y ∷ ys ↦ insert cell_dec cell (y ∷ ys) cells
  ]
]

pub remove_from_cells : String → List Cell → Cells → Cells
unfolding take_out
remove_from_cells id [] cells = cells
remove_from_cells id (c ∷ rest) cells = remove_from_cells id rest (take_out id c cells)

-- The last loop of `Upsert`.
pub add_to_cells : String → List Cell → Cells → Cells
add_to_cells id [] cells = cells
add_to_cells id (c ∷ rest) cells =
    add_to_cells id rest (insert cell_dec c (bucket c cells ++ (id ∷ [])) cells)

-- The cells of an effect that has an entry.
abbrev pub cells_of : String → List (String × List Cell) → List Cell
cells_of = lookup_or str_dec []

-- The check of `Upsert`, with the cells that it has seen. `old` are the cells of the entry.
pub has_room : ℕ → Cells → List Cell → List Cell → List Cell → Bool
has_room max cells old checked [] = true
has_room max cells old checked (c ∷ rest) =
    let occupancy = length (bucket c cells) - count cell_dec c old in
    if ltb 0 (count cell_dec c checked)
    then has_room max cells old checked rest
    else if leb max occupancy
    then false
    else has_room max cells old (c ∷ checked) rest

pub remove : {F : Type 0} → String → SpatialIndex F → SpatialIndex F
unfolding remove_from_cells
remove id idx = ite (str_dec id "") idx (elim (lookup str_dec id idx.entries) [
  | none ↦ idx
  | some cells ↦ record idx {
    cells = remove_from_cells id cells idx.cells;
    entries = delete str_dec id idx.entries;
  }
])

-- The effect at `cells` in place of where it was.
pub placed : {F : Type 0} → String → List Cell → SpatialIndex F → SpatialIndex F
unfolding remove_from_cells add_to_cells
placed id cells idx = record idx {
  entries = insert str_dec id cells idx.entries;
  cells = add_to_cells id cells (remove_from_cells id (cells_of id idx.entries) idx.cells);
}

-- `Upsert` once the cells of the effect are known.
pub upsert_cells : {F : Type 0} → String → List Cell → SpatialIndex F → Bool × SpatialIndex F
unfolding has_room placed
upsert_cells id new idx =
    if ltb 0 idx.max_per_cell
    then (if has_room idx.max_per_cell idx.cells (cells_of id idx.entries) [] new
        then (true, placed id new idx)
        else (false, idx))
    else (true, placed id new idx)

-- From `from` on, `n` numbers.
pub range : ℤ → ℕ → List ℤ
range from zero = []
range from (suc n) = from ∷ range (from +ℤ pos 1) n

-- One row of the loops of `cellsForEffect`.
pub row_cells : ℤ → List ℤ → List Cell
row_cells row [] = []
row_cells row (col ∷ cols) = record { x = col; y = row } ∷ row_cells row cols

pub grid : List ℤ → List ℤ → List Cell
unfolding row_cells
grid cols [] = []
grid cols (row ∷ rows) = row_cells row cols ++ grid cols rows

-- The numbers from `low` to `high`.
abbrev pub span : ℤ → ℤ → List ℤ
span low high = range low (pos_part (high -ℤ low +ℤ pos 1))

-- The loops over the rows and columns.
pub covered : ℤ → ℤ → ℤ → ℤ → List Cell
unfolding grid range
covered min_x max_x min_y max_y = grid (span min_x max_x) (span min_y max_y)

module _ {F : Type 0} (fl : Float64 F) where
  open fl use {lit, add, mul, div, lt, eq, abs, floor_int}

  pub new_spatial_index : F → ℤ → SpatialIndex F
  new_spatial_index cell_size max =
      let size = if lt cell_size (lit 0 0) || eq cell_size (lit 0 0) then lit 40 0 else cell_size in
      record {
        cell_size = size;
        inv_cell_size = div (lit 1 0) size;
        max_per_cell = if leb_ℤ max (pos 0) then 16 else pos_part max;
        cells = [];
        entries = [];
      }

  coord_to_cell : SpatialIndex F → F → ℤ
  coord_to_cell idx value = floor_int (mul value idx.inv_cell_size)

  module _ {R : Type 0} where
    pub cells_for_effect : SpatialIndex F → State F R → List Cell
    unfolding covered coord_to_cell
    cells_for_effect idx effect =
        let min_extent = mul idx.cell_size (lit 25 2) in
        let width = if lt (abs effect.width) min_extent then min_extent else abs effect.width in
        let height = if lt (abs effect.height) min_extent then min_extent else abs effect.height in
        let min_x = coord_to_cell idx effect.x in
        let min_y = coord_to_cell idx effect.y in
        let max_x = coord_to_cell idx (add effect.x width) in
        let max_y = coord_to_cell idx (add effect.y height) in covered min_x max_x min_y max_y

    pub upsert : State F R → SpatialIndex F → Bool × SpatialIndex F
    unfolding cells_for_effect upsert_cells
    upsert effect idx =
        ite (str_dec effect.id "") (true, idx)
          (upsert_cells effect.id (cells_for_effect idx effect) idx)
