-- ===== src/Nav/Search.antt =====
-- server/internal/world/navigation.go: the shortest-path search `astar` and the search for the
-- closest cell to stand on. A node's chain of parents is the list of their points, `trail`. A search
-- takes fuel, of which a grid needs nine rounds a cell and two more (Search/Correct, Search/Closest).
pub mod Moves
pub mod Walks
mod Cells
mod Relax
mod Invariant
pub mod Correct
pub mod Closest
mod Tests
use mine_and_die.Prelude.{
  ℕ, zero, suc, ◌+◌, ◌*◌, Bool, true, false, not, ◌&&◌, ◌||◌, List, [], ◌∷◌, ◌++◌, Option, none,
  some, ite, if◌then◌else◌, lookup, insert, ℕ_discrete,
}
use mine_and_die.Prelude.Int.{pos, ◌-ℤ◌}
use mine_and_die.Prelude.Float.{Float64}
use mine_and_die.Nav.{
  Point, Neighbor, Grid, in_bounds, index, walkable_at, has, moved, can_traverse_diagonal,
  nav_neighbor_offsets, point_dec, sqrt2,
}
use mine_and_die.Nav.Heap.{push, pop}
use mathlib.Core.List.{reverse}

-- `absent` is the result with `ok` false; `out_of_fuel` is no result.
pub data Outcome (A : Type 0) : Type 0 where
  out_of_fuel : Outcome A
  absent : Outcome A
  found : A → Outcome A

infixl 5 ◌>>=◌
abbrev pub ◌>>=◌ : {A B : Type 0} → Outcome A → (A → Outcome B) → Outcome B
out_of_fuel >>= f = out_of_fuel
absent >>= f = absent
found a >>= f = f a

abbrev pub of_option : {A : Type 0} → Option A → Outcome A
of_option none = absent
of_option (some a) = found a

pub record PathNode (F : Type 0) : Type 0 where
  pub point : Point
  pub g : F
  pub f : F
  pub trail : List Point

abbrev pub reconstruct_path : {F : Type 0} → PathNode F → List Point
reconstruct_path end = reverse (end.point ∷ end.trail)

-- `gScore` and `open`.
pub record Frontier (F : Type 0) : Type 0 where
  pub scores : List (ℕ × F)
  pub open_nodes : List (PathNode F)

module _ {F : Type 0} (g : Grid F) (goal : Point) (blocked : List ℕ) where
  -- The tests of one step of `astar`: a blocked cell may be the goal only.
  pub passable : Point → Neighbor F → Bool
  passable p delta =
      let q = moved p delta in
      can_traverse_diagonal g p delta blocked
      && in_bounds g q
      && walkable_at g q
      && not (has (index g q) blocked && not (ite (point_dec q goal) true false))

module _ {F : Type 0} (fl : Float64 F) where
  open fl use {lit, add, sub, mul, lt, eq, abs, of_int}

  pub heuristic : Point → Point → F
  unfolding sqrt2
  heuristic a b =
      let dx = abs (of_int (a.col -ℤ b.col)) in
      let dy = abs (of_int (a.row -ℤ b.row)) in
      let slope = lit 4142135623730950488 19 in
      if lt dy dx then add dx (mul slope dy) else add dy (mul slope dx)

  abbrev pub less : PathNode F → PathNode F → Bool
  less a b = lt a.f b.f

  -- Whether the known score is at least as good.
  abbrev pub settled : F → Option F → Bool
  settled tentative none = false
  settled tentative (some prev) = lt prev tentative || eq prev tentative

module _ {F : Type 0} (fl : Float64 F) (g : Grid F) (goal : Point) (blocked : List ℕ) where
  open fl use {lit, add}

  -- The node of the neighbour that `delta` leads to.
  abbrev pub successor : PathNode F → Neighbor F → PathNode F
  successor current delta =
      let q = moved current.point delta in
      let tentative = add current.g delta.cost in
      record {
        point = q;
        g = tentative;
        f = add tentative (heuristic fl q goal);
        trail = current.point ∷ current.trail;
      }

  pub relax : List ℕ → PathNode F → Neighbor F → Frontier F → Frontier F
  unfolding passable heuristic
  relax closed current delta fr =
      let next = successor current delta in
      let i = index g next.point in
      if not (passable g goal blocked current.point delta)
        || has i closed
        || settled fl next.g (lookup ℕ_discrete i fr.scores)
      then fr
      else record {
        scores = insert ℕ_discrete i next.g fr.scores;
        open_nodes = push (less fl) next fr.open_nodes;
      }

  pub relax_all : List ℕ → PathNode F → List (Neighbor F) → Frontier F → Frontier F
  unfolding relax
  relax_all closed current [] fr = fr
  relax_all closed current (delta ∷ deltas) fr =
      relax_all closed current deltas (relax closed current delta fr)

  -- A round of the loop on the open nodes: the closed cells, the scores, the heap.
  pub astar_loop : ℕ → List ℕ → List (ℕ × F) → List (PathNode F) → Outcome (List Point)
  unfolding relax_all
  astar_loop zero closed scores nodes = out_of_fuel
  astar_loop (suc fuel) closed scores [] = absent
  astar_loop (suc fuel) closed scores (x ∷ xs) =
      let current = (pop (less fl) x xs).0 in
      let rest = (pop (less fl) x xs).1 in
      let i = index g current.point in
      let skipped = astar_loop fuel closed scores rest in
      let fr =
        relax_all (i ∷ closed) current (nav_neighbor_offsets fl)
          (record { scores = scores; open_nodes = rest }) in
      let expanded = astar_loop fuel (i ∷ closed) fr.scores fr.open_nodes in
      if has i closed
      then skipped
      else ite (point_dec current.point goal) (found (reconstruct_path current)) expanded

  pub astar : Point → Outcome (List Point)
  unfolding astar_loop heuristic
  astar start =
      let node : PathNode F = record {
        point = start;
        g = lit 0 0;
        f = heuristic fl start goal;
        trail = [];
      } in
      astar_loop (9 * (g.cols * g.rows) + 2) [] ((index g start, lit 0 0) ∷ [])
        (push (less fl) node [])

-- `visited` and the queue of `closestWalkable`.
pub record Wave : Type 0 where
  pub visited : List ℕ
  pub queue : List Point

module _ {F : Type 0} (fl : Float64 F) (g : Grid F) (blocked : List ℕ) where
  pub visit : Point → Neighbor F → Wave → Wave
  visit p delta w =
      let q = moved p delta in
      if not (can_traverse_diagonal g p delta blocked)
        || not (in_bounds g q)
        || has (index g q) w.visited
      then w
      else record { visited = index g q ∷ w.visited; queue = w.queue ++ q ∷ [] }

  pub visit_all : Point → List (Neighbor F) → Wave → Wave
  unfolding visit
  visit_all p [] w = w
  visit_all p (delta ∷ deltas) w = visit_all p deltas (visit p delta w)

  pub closest_loop : ℕ → List ℕ → List Point → Outcome Point
  unfolding visit_all
  closest_loop zero visited queue = out_of_fuel
  closest_loop (suc fuel) visited [] = absent
  closest_loop (suc fuel) visited (p ∷ queue) =
      let w = visit_all p (nav_neighbor_offsets fl) (record { visited = visited; queue = queue }) in
      let rest = closest_loop fuel w.visited w.queue in
      if walkable_at g p && not (has (index g p) blocked) then found p else rest

  pub closest_walkable : Point → Outcome Point
  unfolding closest_loop
  closest_walkable p =
      if in_bounds g p then closest_loop (g.cols * g.rows + 2) (index g p ∷ []) (p ∷ []) else absent
