-- ===== src/Nav/Search/Closest.antt =====
-- server/internal/world/navigation.go, `closestWalkable`: the loop on the queue ends, and the cell
-- that it returns is one to stand on.
use mine_and_die.Prelude.{
  ℕ, zero, suc, ◌+◌, ◌-◌, ◌*◌, ◌<◌, ◌≡◌, refl, true, false, not, ◌&&◌, ◌||◌, List, [], ◌∷◌, ◌++◌,
  if_cases, arith, All, All-append, length, length-append,
}
use mine_and_die.Prelude.Float.{Float64}
use mine_and_die.Nav.{
  Point, Neighbor, Grid, in_bounds, index, walkable_at, has, moved, can_traverse_diagonal,
  nav_neighbor_offsets,
}
use mine_and_die.Nav.Search.{
  Outcome, absent, found, Wave, visit, visit_all, closest_loop, closest_walkable,
}
use mine_and_die.Nav.Search.Cells.{free, free-nil, free-cons, index_lt}

module _ {F : Type 0} (fl : Float64 F) (g : Grid F) (blocked : List ℕ) where
  -- No cell, or one on the grid that is walkable and not blocked.
  pub data Stands (out : Outcome Point) : Type 0 where
    nowhere : out ≡ absent → Stands out
    at :
        (q : Point)
        → out ≡ found q
        → in_bounds g q ≡ true
        → walkable_at g q ≡ true
        → has (index g q) blocked ≡ false
        → Stands out

  -- Every cell of the queue is on the grid; `m` bounds the rounds that are left.
  record Queued (m : ℕ) (w : Wave) : Type 0 where
    pub inside : All (λ p. in_bounds g p ≡ true) w.queue
    pub rounds : free (g.cols * g.rows) w.visited + length w.queue ≡ m

  visit-Queued :
      (m : ℕ) (p : Point) (delta : Neighbor F) (w : Wave)
      → Queued m w
      → Queued m (visit fl g blocked p delta w)
  unfolding visit
  visit-Queued m p delta w k =
      let q = moved p delta in
      if_cases (Queued m)
        (not (can_traverse_diagonal g p delta blocked)
          || not (in_bounds g q)
          || has (index g q) w.visited)
        w (record { visited = index g q ∷ w.visited; queue = w.queue ++ q ∷ [] }) (λ _. k)
        (λ e.
          let h : in_bounds g q ≡ true = ground (arith, e) in
          let n : has (index g q) w.visited ≡ false = ground (arith, e) in
          record {
            inside = All-append (λ p. in_bounds g p ≡ true) w.queue (q ∷ []) k.inside (h, tt);
            rounds = omega (
              arith,
              k.rounds,
              free-cons (g.cols * g.rows) (index g q) w.visited (index_lt g q h) n,
              length-append w.queue (q ∷ []),
            );
          })

  visit_all-Queued :
      (m : ℕ) (p : Point) (deltas : List (Neighbor F)) (w : Wave)
      → Queued m w
      → Queued m (visit_all fl g blocked p deltas w)
  unfolding visit_all
  visit_all-Queued m p [] w k = k
  visit_all-Queued m p (d ∷ ds) w k =
      visit_all-Queued m p ds (visit fl g blocked p d w) (visit-Queued m p d w k)

  loop-Stands :
      (fuel m : ℕ) (visited : List ℕ) (queue : List Point)
      → Queued m (record { visited = visited; queue = queue })
      → m < fuel
      → Stands (closest_loop fl g blocked fuel visited queue)
  unfolding closest_loop
  loop-Stands zero m visited queue k h = absurd (omega arith)
  loop-Stands (suc fuel) m visited [] k h = nowhere refl
  loop-Stands (suc fuel) m visited (p ∷ queue) k h =
      let w : Wave = record { visited = visited; queue = queue } in
      let w' = visit_all fl g blocked p (nav_neighbor_offsets fl) w in
      if_cases Stands (walkable_at g p && not (has (index g p) blocked)) (found p)
        (closest_loop fl g blocked fuel w'.visited w'.queue)
        (λ e. at p refl k.inside.0 (ground (arith, e)) (ground (arith, e)))
        (λ e.
          loop-Stands fuel (m - 1) w'.visited w'.queue
            (visit_all-Queued (m - 1) p (nav_neighbor_offsets fl) w
              (record { inside = k.inside.1; rounds = omega (arith, k.rounds) }))
            (omega (arith, k.rounds)))

  pub closest_walkable-Stands : (p : Point) → Stands (closest_walkable fl g blocked p)
  unfolding closest_walkable
  closest_walkable-Stands p =
      if_cases Stands (in_bounds g p)
        (closest_loop fl g blocked (g.cols * g.rows + 2) (index g p ∷ []) (p ∷ [])) absent
        (λ e.
          loop-Stands (g.cols * g.rows + 2) (free (g.cols * g.rows) (index g p ∷ []) + 1)
            (index g p ∷ []) (p ∷ []) (record { inside = (e, tt); rounds = omega arith })
            (omega (
              arith,
              free-nil (g.cols * g.rows),
              free-cons (g.cols * g.rows) (index g p) [] (index_lt g p e) refl,
            )))
        (λ _. nowhere refl)
