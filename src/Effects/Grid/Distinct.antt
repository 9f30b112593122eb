-- ===== src/Effects/Grid/Distinct.antt =====
-- server/internal/effects/runtime/spatial_index.go: an effect has no cell twice.
use mine_and_die.Prelude.{
  ℕ, zero, suc, ◌≤◌, ◌≡◌, ◌≢◌, refl, ap, ap₂, sym, subst, List, [], ◌∷◌, ite, arith, count,
  count-append,
}
use mine_and_die.Prelude.Int.{ℤ, pos, negsuc, ◌+ℤ◌, ◌<ℤ◌, ℤ_discrete}
use mine_and_die.Prelude.Float.{Float64}
use mine_and_die.Effects.{State}
use mine_and_die.Effects.Grid.{
  Cell, cell_dec, SpatialIndex, range, row_cells, grid, span, covered, cells_for_effect,
}

lt_next : (z : ℤ) → z <ℤ z +ℤ pos 1
unfolding ◌+ℤ◌
lt_next (pos n) = ground arith
lt_next (negsuc n) = ground arith

lt_trans : (x y z : ℤ) → x <ℤ y → y <ℤ z → x <ℤ z
lt_trans x y z h k = omega arith

lt_ne : (x y : ℤ) → x <ℤ y → x ≢ y
lt_ne x y h e = ground (arith, h, e)

count-range-below : (z from : ℤ) (n : ℕ) → z <ℤ from → count ℤ_discrete z (range from n) ≡ 0
unfolding range
count-range-below z from zero h = refl
count-range-below z from (suc n) h = ground (
  arith,
  lt_ne z from h,
  count-range-below z (from +ℤ pos 1) n (lt_trans z from (from +ℤ pos 1) h (lt_next from)),
)

count-range : (z from : ℤ) (n : ℕ) → count ℤ_discrete z (range from n) ≤ 1
unfolding range
count-range z from zero = omega arith
count-range z from (suc n) = elim (ℤ_discrete z from) [
  | yes e ↦ ground (
    arith,
    e,
    count-range-below z (from +ℤ pos 1) n (subst (λ i. i <ℤ from +ℤ pos 1) (sym e) (lt_next from)),
  )
  | no d ↦ ground (arith, d, count-range z (from +ℤ pos 1) n)
]

Cell-eq : (c : Cell) (x y : ℤ) → c.x ≡ x → c.y ≡ y → c ≡ record { x = x; y = y }
Cell-eq c x y h k = ap₂ (λ (i j : ℤ). record { x = i; y = j }) h k

count-row :
    (c : Cell) (row : ℤ) (cols : List ℤ)
    → count cell_dec c (row_cells row cols) ≡ ite (ℤ_discrete c.y row) (count ℤ_discrete c.x cols) 0
unfolding row_cells
count-row c row [] = ground arith
count-row c row (col ∷ cols) = ground (
  arith,
  count-row c row cols,
  Cell-eq c col row,
  λ (e : c ≡ record { x = col; y = row }). ap (λ (d : Cell). d.x) e,
  λ (e : c ≡ record { x = col; y = row }). ap (λ (d : Cell). d.y) e,
)

count-grid-none :
    (c : Cell) (cols rows : List ℤ)
    → count ℤ_discrete c.y rows ≡ 0
    → count cell_dec c (grid cols rows) ≡ 0
unfolding grid
count-grid-none c cols [] h = refl
count-grid-none c cols (row ∷ rows) h = ground (
  arith,
  count-append cell_dec c (row_cells row cols) (grid cols rows),
  count-row c row cols,
  count-grid-none c cols rows,
  h,
)

count-grid :
    (c : Cell) (cols rows : List ℤ)
    → count ℤ_discrete c.x cols ≤ 1
    → count ℤ_discrete c.y rows ≤ 1
    → count cell_dec c (grid cols rows) ≤ 1
unfolding grid
count-grid c cols [] h k = omega arith
count-grid c cols (row ∷ rows) h k = ground (
  arith,
  count-append cell_dec c (row_cells row cols) (grid cols rows),
  count-row c row cols,
  count-grid-none c cols rows,
  count-grid c cols rows h,
  k,
)

count-covered :
    (c : Cell) (min_x max_x min_y max_y : ℤ)
    → count cell_dec c (covered min_x max_x min_y max_y) ≤ 1
unfolding covered
count-covered c min_x max_x min_y max_y =
    count-grid c (span min_x max_x) (span min_y max_y) (count-range c.x min_x _)
      (count-range c.y min_y _)

pub count-cells_for_effect :
    {F R : Type 0} (fl : Float64 F) (idx : SpatialIndex F) (effect : State F R) (c : Cell)
    → count cell_dec c (cells_for_effect fl idx effect) ≤ 1
unfolding cells_for_effect
count-cells_for_effect fl idx effect c = count-covered c _ _ _ _
