-- ===== src/Nav/Search/Cells.antt =====
-- The cells of the grid of server/internal/world/navigation.go: one index for each, all below their
-- number, and how many a set of indices leaves free.
use mine_and_die.Prelude.{
  ℕ, zero, suc, ◌+◌, ◌*◌, ◌<◌, ◌≤◌, ◌≡◌, refl, sym, ap, true, false, List, [], ◌∷◌, if◌then◌else◌,
  arith,
}
use mine_and_die.Prelude.Int.{pos_part, eq_of_parts, neg_part}
use mine_and_die.Nav.{Point, Grid, in_bounds, index, has}

module _ {F : Type 0} (g : Grid F) where
  record Inside (p : Point) : Type 0 where
    pub col_lt : pos_part p.col < g.cols
    pub row_lt : pos_part p.row < g.rows
    pub col_pos : neg_part p.col ≡ 0
    pub row_pos : neg_part p.row ≡ 0

  in_bounds-Inside : (p : Point) → in_bounds g p ≡ true → Inside p
  unfolding in_bounds
  in_bounds-Inside p h = ground arith

  pub index_lt : (p : Point) → in_bounds g p ≡ true → index g p < g.cols * g.rows
  unfolding index
  index_lt p h = let i = in_bounds-Inside p h in grind (arith, i.col_lt, i.row_lt)

  row_le : (a b c d n : ℕ) → b < n → d < n → a * n + b ≡ c * n + d → a ≤ c
  row_le a b c d n p q e = grind arith

  pub index_inj :
      (p q : Point) → in_bounds g p ≡ true → in_bounds g q ≡ true → index g p ≡ index g q → p ≡ q
  unfolding index
  index_inj p q h k e =
      let i = in_bounds-Inside p h in
      let j = in_bounds-Inside q k in
      let a =
        row_le (pos_part p.row) (pos_part p.col) (pos_part q.row) (pos_part q.col) g.cols i.col_lt
          j.col_lt e in
      let b =
        row_le (pos_part q.row) (pos_part q.col) (pos_part p.row) (pos_part p.col) g.cols j.col_lt
          i.col_lt (sym e) in
      let rows : pos_part p.row ≡ pos_part q.row = omega arith in
      let cols : pos_part p.col ≡ pos_part q.col =
        omega (arith, e, ap (λ (r : ℕ). r * g.cols) rows) in
      let er = eq_of_parts p.row q.row (omega (arith, i.row_pos, j.row_pos)) in
      let ec = eq_of_parts p.col q.col (omega (arith, i.col_pos, j.col_pos)) in
      λ t. record { col = ec t; row = er t }

-- How many of the numbers below `n` are not in the set.
pub free : ℕ → List ℕ → ℕ
free zero set = 0
free (suc n) set = (if has n set then 0 else 1) + free n set

pub free-nil : (n : ℕ) → free n [] ≡ n
unfolding free
free-nil zero = refl
free-nil (suc n) = omega (arith, free-nil n)

free-cons_le : (n i : ℕ) (set : List ℕ) → n ≤ i → free n (i ∷ set) ≡ free n set
unfolding free
free-cons_le zero i set h = refl
free-cons_le (suc n) i set h = ground (arith, free-cons_le n i set)

-- A number that joins the set leaves one less free.
pub free-cons :
    (n i : ℕ) (set : List ℕ) → i < n → has i set ≡ false → suc (free n (i ∷ set)) ≡ free n set
unfolding free
free-cons zero i set h k = absurd (omega arith)
free-cons (suc n) i set h k = ground (arith, free-cons n i set, free-cons_le n i set)
