-- ===== src/Nav/Search/Correct.antt =====
-- server/internal/world/navigation.go, `astar`: what the search answers.
use mine_and_die.Prelude.{
  ℕ, zero, suc, ◌+◌, ◌*◌, ◌<◌, ◌≡◌, refl, ap, subst, true, List, [], ◌∷◌, ite, if_cases, ite_cases,
  arith,
}
use mine_and_die.Prelude.Float.{Float64}
use mine_and_die.Nav.{Point, Grid, in_bounds, index, has, nav_neighbor_offsets, point_dec}
use mine_and_die.Nav.Heap.{push, pop}
use mine_and_die.Nav.Heap.Laws.{sum, push_lem}
use mine_and_die.Nav.Search.{
  PathNode, Frontier, Outcome, absent, found, less, relax_all, astar_loop, astar, reconstruct_path,
  heuristic,
}
use mine_and_die.Nav.Search.Walks.{Walk, Reachable, Chain-Walk}
use mine_and_die.Nav.Search.Cells.{free, free-nil, free-cons, index_lt}
use mine_and_die.Nav.Search.Invariant.{
  Inv, unreached, popped, skip_Inv, expand_Inv, started_in, all_relaxed, length-offsets,
  popped_Fits, first_Inv,
}
use mine_and_die.Nav.Search.Relax.{Node}

module _ {F : Type 0} (fl : Float64 F) (g : Grid F) (start goal : Point) (blocked : List ℕ) where
  -- A walk from the start to the goal, or none where there is none.
  pub data Right (out : Outcome (List Point)) : Type 0 where
    path :
        (ps : List Point)
        → out ≡ found (start ∷ ps)
        → Walk fl g start goal blocked start ps goal
        → Right out
    no_path : out ≡ absent → ¬ Reachable fl g start goal blocked → Right out

  -- The first node is at the goal.
  arrived :
      (node : PathNode F)
      → node.point ≡ goal
      → Node fl g start goal blocked node
      → Right (found (reconstruct_path node))
  arrived node p n =
      let r = Chain-Walk fl g start goal blocked node.point node.trail n.chain in
      path r.0 (ap found r.1) (subst (λ q. Walk fl g start goal blocked start r.0 q) p r.2)

  module _ (start_in : in_bounds g start ≡ true) (goal_in : in_bounds g goal ≡ true) where
    loop_Right :
        (fuel : ℕ) (closed : List ℕ) (scores : List (ℕ × F)) (nodes : List (PathNode F))
        → Inv fl g start goal blocked closed (record { scores = scores; open_nodes = nodes })
        → 9 * free (g.cols * g.rows) closed + sum (λ _. 1) nodes < fuel
        → Right (astar_loop fl g goal blocked fuel closed scores nodes)
    unfolding astar_loop Reachable
    loop_Right zero closed scores nodes v h = absurd (omega arith)
    loop_Right (suc fuel) closed scores [] v h = no_path refl (λ r.
        unreached fl g start goal blocked closed (record { scores = scores; open_nodes = [] }) refl
          v r.0 start start_in (started_in fl g start goal blocked closed scores v) r.1)
    loop_Right (suc fuel) closed scores (x ∷ xs) v h =
        let node = (pop (less fl) x xs).0 in
        let rest = (pop (less fl) x xs).1 in
        let i = index g node.point in
        let fr0 : Frontier F = record { scores = scores; open_nodes = rest } in
        let fr = relax_all fl g goal blocked (i ∷ closed) node (nav_neighbor_offsets fl) fr0 in
        let skipped = astar_loop fl g goal blocked fuel closed scores rest in
        let expanded = astar_loop fl g goal blocked fuel (i ∷ closed) fr.scores fr.open_nodes in
        let laws = popped fl g start goal blocked start_in goal_in closed scores x xs v (λ _. 1) in
        if_cases Right (has i closed) skipped
          (ite (point_dec node.point goal) (found (reconstruct_path node)) expanded)
          (λ e.
            loop_Right fuel closed scores rest
              (skip_Inv fl g start goal blocked start_in goal_in closed scores x xs v e)
              (omega (arith, laws.1)))
          (λ e.
            ite_cases Right (point_dec node.point goal) (found (reconstruct_path node)) expanded
              (λ p. arrived node p laws.0)
              (λ n.
                let r =
                  all_relaxed fl g start goal blocked i closed fr0 node laws.0
                    (popped_Fits fl g start goal blocked start_in goal_in closed scores x xs v) in
                loop_Right fuel (i ∷ closed) fr.scores fr.open_nodes
                  (expand_Inv fl g start goal blocked start_in goal_in closed scores x xs v i refl n
                    fr r)
                  (omega (
                    arith,
                    laws.1,
                    r.longer,
                    length-offsets fl g start goal blocked,
                    free-cons (g.cols * g.rows) i closed (index_lt g node.point laws.0.inside) e,
                  ))))

    -- From a cell to a cell, both on the grid, `astar` always ends: it returns a walk of legal moves
    -- that begins at the start and ends at the goal, or it finds none and there is no such walk.
    pub astar-Right : Right (astar fl g goal blocked start)
    unfolding astar
    astar-Right =
        let node : PathNode F = record {
          point = start;
          g = fl.lit 0 0;
          f = heuristic fl start goal;
          trail = [];
        } in
        let pushed = λ (w : PathNode F → ℕ).
          push_lem (less fl) (Node fl g start goal blocked) w node []
            (record { chain = refl; inside = start_in }) tt in
        loop_Right (9 * (g.cols * g.rows) + 2) [] ((index g start, fl.lit 0 0) ∷ [])
          (push (less fl) node [])
          (first_Inv fl g start goal blocked start_in goal_in ((index g start, fl.lit 0 0) ∷ [])
            (fl.lit 0 0) node (push (less fl) node []) refl refl (pushed (λ _. 1)).2
            (λ w. omega (arith, (pushed w).1)))
          (omega (arith, (pushed (λ _. 1)).1, free-nil (g.cols * g.rows)))
