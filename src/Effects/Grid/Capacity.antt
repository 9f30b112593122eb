-- ===== src/Effects/Grid/Capacity.antt =====
-- server/internal/effects/runtime/spatial_index.go: no cell holds more effects than allowed, and the
-- cells and the entries agree.
use mine_and_die.Prelude.{
  ℕ, ◌-◌, ◌<◌, ◌≤◌, ◌≡◌, ◌≢◌, inl, inr, refl, Bool, true, false, List, [], ◌∷◌, none, some, ite,
  String, str_dec, arith, Bool-cases, leb, if_cases, ite_cases, option_cases, if◌then◌else◌, ltb,
  delete, lookup, lookup_or, lookup_or-insert, lookup-delete, lookup-insert, length, count,
}
use mine_and_die.Prelude.Int.{ℤ, pos, negsuc}
use mine_and_die.Prelude.Float.{Float64}
use mine_and_die.Effects.{State}
use mine_and_die.Effects.Grid.{
  Cell, cell_dec, Cells, SpatialIndex, bucket, cells_of, has_room, new_spatial_index,
  cells_for_effect, placed, remove_from_cells, upsert, upsert_cells, remove,
}
use mine_and_die.Effects.Grid.Buckets.{
  count-remove_from_cells, length-remove_from_cells, count-add_to_cells, length-add_to_cells,
}
use mine_and_die.Effects.Grid.Distinct.{count-cells_for_effect}

-- Each id stands in the cells of its entry, and no cell holds more than `max_per_cell` ids.
pub IsSound : {F : Type 0} → SpatialIndex F → Type 0
IsSound idx =
    ((id : String) (c : Cell)
      → count str_dec id (bucket c idx.cells) ≡ count cell_dec c (cells_of id idx.entries))
    × ((c : Cell) → length (bucket c idx.cells) ≤ idx.max_per_cell)

-- Whether an effect has an entry.
abbrev pub has_entry : {F : Type 0} → String → SpatialIndex F → Bool
has_entry id idx = elim (lookup str_dec id idx.entries) [ none ↦ false | some cells ↦ true ]

-- The check covers the cells that it has not seen.
has_room_lem :
    (max : ℕ) (cells : Cells) (old checked new : List Cell) (c : Cell)
    → has_room max cells old checked new ≡ true
    → count cell_dec c checked ≡ 0
    → 0 < count cell_dec c new
    → length (bucket c cells) - count cell_dec c old < max
unfolding has_room
has_room_lem max cells old checked [] c h k n = absurd (omega arith)
has_room_lem max cells old checked (d ∷ rest) c h k n =
    elim (Bool-cases (ltb 0 (count cell_dec d checked))) [
      | inl seen ↦
          has_room_lem max cells old checked rest c (ground (arith, h, seen)) k
            (ground (arith, k, n, seen))
      | inr fresh ↦ elim (Bool-cases (leb max (length (bucket d cells) - count cell_dec d old))) [
        | inl full ↦ absurd (ground (arith, h, fresh, full))
        | inr free ↦ elim (cell_dec c d) [
          | yes e ↦ ground (arith, e, free)
          | no m ↦
              has_room_lem max cells old (d ∷ checked) rest c (ground (arith, h, fresh, free))
                (ground (arith, k, m)) (ground (arith, n, m))
        ]
      ]
    ]

placed-IsSound :
    {F : Type 0} (id : String) (new : List Cell) (idx : SpatialIndex F)
    → IsSound idx
    → ((c : Cell) → count cell_dec c new ≤ 1)
    → ((c : Cell)
        → 0 < count cell_dec c new
        → length (bucket c idx.cells) - count cell_dec c (cells_of id idx.entries)
          < idx.max_per_cell)
    → IsSound (placed id new idx)
unfolding IsSound placed
placed-IsSound id new idx s once room = (
  λ j c. ground (
    arith,
    count-add_to_cells j id c new (remove_from_cells id old idx.cells),
    count-remove_from_cells j id c old idx.cells,
    lookup_or-insert str_dec [] id j new idx.entries,
    s.0 j c,
  ),
  λ c.
      let there = s.0 id c in
      ground (
        arith,
        length-add_to_cells id c new (remove_from_cells id old idx.cells),
        length-remove_from_cells id c old idx.cells (omega arith),
        s.1 c,
        once c,
        room c,
      ),
)
  where
    old : List Cell
    old = cells_of id idx.entries

removed-IsSound :
    {F : Type 0} (id : String) (cells : List Cell) (idx : SpatialIndex F)
    → lookup str_dec id idx.entries ≡ some cells
    → IsSound idx
    → IsSound (record idx {
      cells = remove_from_cells id cells idx.cells;
      entries = delete str_dec id idx.entries;
    })
unfolding IsSound lookup_or
removed-IsSound id cells idx h s = (
  λ j c. ground (
    arith,
    count-remove_from_cells j id c cells idx.cells,
    lookup-delete str_dec id j idx.entries,
    s.0 j c,
    h,
  ),
  λ c.
      let there : count str_dec id (bucket c idx.cells) ≡ count cell_dec c cells =
        ground (arith, s.0 id c, h) in
      let short = length-remove_from_cells id c cells idx.cells (omega arith) in
      omega (arith, s.1 c),
)

pub remove-IsSound :
    {F : Type 0} (id : String) (idx : SpatialIndex F) → IsSound idx → IsSound (remove id idx)
unfolding remove
remove-IsSound id idx s =
    ite_cases IsSound (str_dec id "") idx _ (λ e. s)
      (λ n.
        option_cases IsSound (lookup str_dec id idx.entries) idx
          (λ cells. record idx {
            cells = remove_from_cells id cells idx.cells;
            entries = delete str_dec id idx.entries;
          })
          (λ e. s) (λ cells e. removed-IsSound id cells idx e s))

upsert_cells-IsSound :
    {F : Type 0} (id : String) (new : List Cell) (idx : SpatialIndex F)
    → 0 < idx.max_per_cell
    → ((c : Cell) → count cell_dec c new ≤ 1)
    → IsSound idx
    → let r = upsert_cells id new idx in IsSound r.1
unfolding upsert_cells
upsert_cells-IsSound {F = F} id new idx positive once s =
    if_cases (λ (r : Bool × SpatialIndex F). IsSound r.1) (ltb 0 idx.max_per_cell) _
      (true, placed id new idx)
      (λ e.
        if_cases (λ (r : Bool × SpatialIndex F). IsSound r.1)
          (has_room idx.max_per_cell idx.cells (cells_of id idx.entries) [] new)
          (true, placed id new idx) (false, idx)
          (λ room. placed-IsSound id new idx s once (λ c n.
            has_room_lem idx.max_per_cell idx.cells (cells_of id idx.entries) [] new c room refl n))
          (λ full. s))
      (λ e. absurd (ground (arith, e, positive)))

-- What a call leaves of the limit.
abbrev pub KeepsLimit : {F : Type 0} → SpatialIndex F → SpatialIndex F → Type 0
KeepsLimit idx idx' = idx'.max_per_cell ≡ idx.max_per_cell

upsert_cells-KeepsLimit :
    {F : Type 0} (id : String) (new : List Cell) (idx : SpatialIndex F)
    → let r = upsert_cells id new idx in KeepsLimit idx r.1
unfolding upsert_cells placed
upsert_cells-KeepsLimit id new idx = ground arith

pub remove-KeepsLimit :
    {F : Type 0} (id : String) (idx : SpatialIndex F) → KeepsLimit idx (remove id idx)
unfolding remove
remove-KeepsLimit id idx = ground arith

pub new_spatial_index-IsSound :
    {F : Type 0} (fl : Float64 F) (size : F) (max : ℤ) → IsSound (new_spatial_index fl size max)
unfolding new_spatial_index IsSound lookup_or lookup
new_spatial_index-IsSound fl size max = (λ id c. refl, λ c. omega arith)

pub new_entries :
    {F : Type 0} (fl : Float64 F) (size : F) (max : ℤ) (id : String)
    → false ≡ has_entry id (new_spatial_index fl size max)
unfolding new_spatial_index lookup
new_entries fl size max id = refl

pub new_spatial_index-positive :
    {F : Type 0} (fl : Float64 F) (size : F) (max : ℤ)
    → let idx = new_spatial_index fl size max in 0 < idx.max_per_cell
unfolding new_spatial_index
new_spatial_index-positive fl size (pos n) = ground arith
new_spatial_index-positive fl size (negsuc n) = ground arith

pub has_entry-remove :
    {F : Type 0} (j id : String) (idx : SpatialIndex F)
    → id ≢ ""
    → has_entry j (remove id idx) ≡ ite (str_dec j id) false (has_entry j idx)
unfolding remove
has_entry-remove j id idx n = ground (arith, n, lookup-delete str_dec id j idx.entries)

has_entry-upsert_cells :
    {F : Type 0} (j id : String) (new : List Cell) (idx : SpatialIndex F)
    → let r = upsert_cells id new idx in
      has_entry j r.1 ≡ (if r.0 then ite (str_dec j id) true (has_entry j idx) else has_entry j idx)
unfolding upsert_cells placed
has_entry-upsert_cells j id new idx = ground (arith, lookup-insert str_dec id j new idx.entries)

pub data Call (F R : Type 0) : Type 0 where
  upserts : State F R → Call F R
  removes : String → Call F R

module _ {F R : Type 0} (fl : Float64 F) where
  abbrev pub run : List (Call F R) → SpatialIndex F → SpatialIndex F
  run [] idx = idx
  run (upserts effect ∷ calls) idx = let r = upsert fl effect idx in run calls r.1
  run (removes id ∷ calls) idx = run calls (remove id idx)

  pub upsert-IsSound :
      (effect : State F R) (idx : SpatialIndex F)
      → 0 < idx.max_per_cell
      → IsSound idx
      → let r = upsert fl effect idx in IsSound r.1 × KeepsLimit idx r.1
  unfolding upsert
  upsert-IsSound effect idx positive s =
      ite_cases (λ (r : Bool × SpatialIndex F). IsSound r.1 × KeepsLimit idx r.1)
        (str_dec effect.id "") (true, idx)
        (upsert_cells effect.id (cells_for_effect fl idx effect) idx) (λ e. (s, refl))
        (λ n. (
          upsert_cells-IsSound effect.id (cells_for_effect fl idx effect) idx positive
              (count-cells_for_effect fl idx effect) s,
          upsert_cells-KeepsLimit effect.id (cells_for_effect fl idx effect) idx,
        ))

  pub has_entry-upsert :
      (j : String) (effect : State F R) (idx : SpatialIndex F)
      → effect.id ≢ ""
      → let r = upsert fl effect idx in
        has_entry j r.1
        ≡ (if r.0 then ite (str_dec j effect.id) true (has_entry j idx) else has_entry j idx)
  unfolding upsert
  has_entry-upsert j effect idx n =
      ite_cases
        (λ (r : Bool × SpatialIndex F).
          has_entry j r.1
          ≡ (if r.0 then ite (str_dec j effect.id) true (has_entry j idx) else has_entry j idx))
        (str_dec effect.id "") (true, idx)
        (upsert_cells effect.id (cells_for_effect fl idx effect) idx) (λ e. absurd (n e))
        (λ m. has_entry-upsert_cells j effect.id (cells_for_effect fl idx effect) idx)

  -- After any sequence of upserts and removals on a new index each id stands once in each cell of its
  -- entry and in no other cell, and no cell holds more ids than the limit.
  pub run-IsSound :
      (size : F) (max : ℤ) (calls : List (Call F R))
      → IsSound (run calls (new_spatial_index fl size max))
  run-IsSound size max calls =
      keep calls (new_spatial_index fl size max) (new_spatial_index-positive fl size max)
        (new_spatial_index-IsSound fl size max)
    where
      keep :
          (calls : List (Call F R)) (idx : SpatialIndex F)
          → 0 < idx.max_per_cell
          → IsSound idx
          → IsSound (run calls idx)
      keep [] idx p s = s
      keep (upserts effect ∷ calls) idx p s =
          let r = upsert fl effect idx in
          let sound = upsert-IsSound effect idx p s in
          keep calls r.1 (omega (arith, sound.1)) sound.0
      keep (removes id ∷ calls) idx p s =
          keep calls (remove id idx) (omega (arith, remove-KeepsLimit id idx))
            (remove-IsSound id idx s)
