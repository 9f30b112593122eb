-- ===== src/Nav/Search/Moves.antt =====
-- server/internal/world/navigation.go: what the tests of one step of `astar` come to, `passable`.
use mine_and_die.Prelude.{
  ℕ, ◌≡◌, refl, sym, ◌∙◌, Bool, true, false, not, ◌&&◌, ◌||◌, ◌⊎◌, inl, inr, arith, ite, if_pos,
  if_neg, List,
}
use mine_and_die.Nav.{
  Point, Neighbor, Grid, in_bounds, index, walkable_at, has, point_dec, can_traverse_diagonal,
  moved,
}
use mine_and_die.Nav.Search.{passable}

-- The tests of `passable` as truth values: diagonal, for the two cells beside the move on the grid,
-- walkable and blocked, then for the cell that is entered, and whether that is the goal.
abbrev tests : Bool → Bool → Bool → Bool → Bool → Bool → Bool → Bool → Bool → Bool → Bool → Bool
tests d ih iv wh wv bh bv i w b e =
    (not d || ih && iv && wh && wv && not bh && not bv) && i && w && not (b && not e)

corners_of_tests :
    (d ih iv wh wv bh bv i w b e : Bool)
    → tests d ih iv wh wv bh bv i w b e ≡ true
    → (d ≡ false)
      ⊎ (((ih ≡ true) × (wh ≡ true) × (bh ≡ false)) × ((iv ≡ true) × (wv ≡ true) × (bv ≡ false)))
corners_of_tests false ih iv wh wv bh bv i w b e h = inl refl
corners_of_tests true ih iv wh wv bh bv i w b e h =
    inr ((ground arith, ground arith, ground arith), (ground arith, ground arith, ground arith))

entry_of_tests :
    (d ih iv wh wv bh bv i w b e : Bool)
    → tests d ih iv wh wv bh bv i w b e ≡ true
    → (b ≡ false) ⊎ (e ≡ true)
entry_of_tests d ih iv wh wv bh bv i w false e h = inl refl
entry_of_tests d ih iv wh wv bh bv i w true e h = inr (ground arith)

tests_hold :
    (d ih iv wh wv bh bv i w b e : Bool)
    → i ≡ true
    → w ≡ true
    → (b ≡ false) ⊎ (e ≡ true)
    → (d ≡ false)
      ⊎ (((ih ≡ true) × (wh ≡ true) × (bh ≡ false)) × ((iv ≡ true) × (wv ≡ true) × (bv ≡ false)))
    → tests d ih iv wh wv bh bv i w b e ≡ true
tests_hold d ih iv wh wv bh bv i w b e p q (inl r) (inl s) = ground arith
tests_hold d ih iv wh wv bh bv i w b e p q (inl r) (inr s) =
    ground (arith, s.0.0, s.0.1, s.0.2, s.1.0, s.1.1, s.1.2)
tests_hold d ih iv wh wv bh bv i w b e p q (inr r) (inl s) = ground arith
tests_hold d ih iv wh wv bh bv i w b e p q (inr r) (inr s) =
    ground (arith, s.0.0, s.0.1, s.0.2, s.1.0, s.1.1, s.1.2)

point_test : (p q : Point) → ite (point_dec p q) true false ≡ true → p ≡ q
point_test p q h = elim (point_dec p q) [
  | yes e ↦ e
  | no n ↦ absurd (off (sym (if_neg (point_dec p q) n true false) ∙ h))
]
  where
    off : false ≡ true → ⊥
    off e = cc

-- A cell on the grid that is walkable and not blocked.
abbrev pub Standing : {F : Type 0} → Grid F → List ℕ → Point → Type 0
Standing g blocked p =
    (in_bounds g p ≡ true) × (walkable_at g p ≡ true) × (has (index g p) blocked ≡ false)

module _ {F : Type 0} (g : Grid F) (goal : Point) (blocked : List ℕ) where
  -- The cell that is entered is walkable, and not blocked unless it is the goal. A diagonal move cuts
  -- no corner: a player can stand on both cells beside it.
  pub record Legal (p : Point) (delta : Neighbor F) : Type 0 where
    pub on_grid : in_bounds g (moved p delta) ≡ true
    pub open_cell : walkable_at g (moved p delta) ≡ true
    pub unblocked : (has (index g (moved p delta)) blocked ≡ false) ⊎ (moved p delta ≡ goal)
    pub corners :
        (delta.diagonal ≡ false)
        ⊎ (Standing g blocked (record p { col = (moved p delta).col })
            × Standing g blocked (record p { row = (moved p delta).row }))

  pub passable-Legal :
      (p : Point) (delta : Neighbor F) → passable g goal blocked p delta ≡ true → Legal p delta
  unfolding passable can_traverse_diagonal
  passable-Legal p delta h =
      let q = moved p delta in
      let horiz : Point = record p { col = q.col } in
      let vert : Point = record p { row = q.row } in
      record {
        on_grid = ground (arith, h);
        open_cell = ground (arith, h);
        unblocked = entry (
            entry_of_tests delta.diagonal (in_bounds g horiz) (in_bounds g vert)
              (walkable_at g horiz) (walkable_at g vert) (has (index g horiz) blocked)
              (has (index g vert) blocked) (in_bounds g q) (walkable_at g q)
              (has (index g q) blocked) (ite (point_dec q goal) true false) h);
        corners =
            corners_of_tests delta.diagonal (in_bounds g horiz) (in_bounds g vert)
              (walkable_at g horiz) (walkable_at g vert) (has (index g horiz) blocked)
              (has (index g vert) blocked) (in_bounds g q) (walkable_at g q)
              (has (index g q) blocked) (ite (point_dec q goal) true false) h;
      }
    where
      entry :
          (has (index g (moved p delta)) blocked ≡ false)
            ⊎ (ite (point_dec (moved p delta) goal) true false ≡ true)
          → (has (index g (moved p delta)) blocked ≡ false) ⊎ (moved p delta ≡ goal)
      entry (inl e) = inl e
      entry (inr e) = inr (point_test (moved p delta) goal e)

  pub Legal-passable :
      (p : Point) (delta : Neighbor F) → Legal p delta → passable g goal blocked p delta ≡ true
  unfolding passable can_traverse_diagonal
  Legal-passable p delta l =
      let q = moved p delta in
      let horiz : Point = record p { col = q.col } in
      let vert : Point = record p { row = q.row } in
      tests_hold delta.diagonal (in_bounds g horiz) (in_bounds g vert) (walkable_at g horiz)
        (walkable_at g vert) (has (index g horiz) blocked) (has (index g vert) blocked)
        (in_bounds g q) (walkable_at g q) (has (index g q) blocked)
        (ite (point_dec q goal) true false) l.on_grid l.open_cell (entry l.unblocked) l.corners
    where
      entry :
          (has (index g (moved p delta)) blocked ≡ false) ⊎ (moved p delta ≡ goal)
          → (has (index g (moved p delta)) blocked ≡ false)
            ⊎ (ite (point_dec (moved p delta) goal) true false ≡ true)
      entry (inl e) = inl e
      entry (inr e) = inr (if_pos (point_dec (moved p delta) goal) e true false)
