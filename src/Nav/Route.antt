-- ===== src/Nav/Route.antt =====
-- server/internal/world/navigation.go: the paths in world coordinates. `findPath` searches from cell
-- to cell, `ComputePathFrom` tries places near a target that cannot be reached.
pub mod Laws
mod Nearby
mod Tests
use mine_and_die.Prelude.{
  ℕ, zero, suc, ◌+◌, Bool, true, false, not, ◌&&◌, ◌||◌, List, [], ◌∷◌, ◌++◌, Option, none, some,
  String, str_dec, ite, if◌then◌else◌, map, filter,
}
use mine_and_die.Prelude.Int.{ℤ, pos, ◌+ℤ◌, ◌-ℤ◌, ltb_ℤ, pos_part}
use mine_and_die.Prelude.Float.{Float64}
use mine_and_die.Nav.{
  Vec2, Obstacle, Point, Grid, in_bounds, index, walkable_at, has, world_pos, locate, clamp,
  new_nav_grid, player_half, center,
}
use mine_and_die.Nav.Search.{
  Outcome, out_of_fuel, absent, found, ◌>>=◌, of_option, astar, closest_walkable,
}

pub record ComputePathRequest (F : Type 0) : Type 0 where
  pub start : Vec2 F
  pub target : Vec2 F
  pub width : F
  pub height : F
  pub obstacles : List (Obstacle F)
  pub blockers : List (Vec2 F)

pub record PathActor (F : Type 0) : Type 0 where
  pub id : String
  pub position : Vec2 F

-- The integers from `lo` on, `n` of them.
abbrev pub integers : ℕ → ℤ → List ℤ
integers zero lo = []
integers (suc n) lo = lo ∷ integers n (lo +ℤ pos 1)

-- The integers from `lo` to `hi`, none if `hi` is below `lo`.
abbrev pub range : ℤ → ℤ → List ℤ
range lo hi = integers (if ltb_ℤ hi lo then 0 else pos_part (hi -ℤ lo) + 1) lo

-- The best of the places tried: its score, its path and the place.
pub record Best (F : Type 0) : Type 0 where
  pub score : F
  pub path : List (Vec2 F)
  pub goal : Vec2 F

module _ {F : Type 0} (fl : Float64 F) where
  open fl use {lit, add, sub, mul, div, lt, eq, hypot, floor_int, ceil_int, max_float}

  abbrev pub distance : Vec2 F → Vec2 F → F
  distance a b = hypot (sub a.x b.x) (sub a.y b.y)

  -- The target takes the place of the last point if that is at most 1 away.
  pub finish : Vec2 F → List (Vec2 F) → List (Vec2 F)
  finish target [] = target ∷ []
  finish target (p ∷ []) = if lt (lit 1 0) (distance p target) then p ∷ target ∷ [] else target ∷ []
  finish target (p ∷ q ∷ ps) = p ∷ finish target (q ∷ ps)

  pub route : Grid F → Vec2 F → List Point → Outcome (List (Vec2 F))
  unfolding finish
  route g target [] = absent
  route g target (p ∷ []) = found (target ∷ [])
  route g target (p ∷ q ∷ ps) = found (finish target (map (world_pos fl g) (q ∷ ps)))

  module _ (g : Grid F) (start target : Vec2 F) (blocked : List ℕ) where
    abbrev pub settle : Bool → Point → Outcome Point
    settle away p = if away then closest_walkable fl g blocked p else found p

    -- The goal has to be a cell to stand on.
    abbrev pub search_from : Point → Point → Outcome (List Point)
    search_from from to =
        if not (walkable_at g to) || has (index g to) blocked
        then absent
        else astar fl g to blocked from

    pub find_path : Outcome (List (Vec2 F))
    unfolding route
    find_path = do
      from ← of_option (locate fl g start)
      to ← of_option (locate fl g target)
      from' ← settle (not (walkable_at g from)) from
      first ← settle (has (index g from') blocked) from'
      nodes ← search_from first to
      route g target nodes

  add_costs : F → Vec2 F → List (Vec2 F) → F
  add_costs cost previous [] = cost
  add_costs cost previous (node ∷ nodes) = add_costs (add cost (distance node previous)) node nodes

  pub path_travel_cost : Vec2 F → List (Vec2 F) → F
  unfolding add_costs
  path_travel_cost start path = add_costs (lit 0 0) start path

  -- Whether the blocker at `b` touches the middle of this walkable cell.
  abbrev pub touches : Grid F → Vec2 F → Point → Bool
  touches g b p =
      in_bounds g p
      && walkable_at g p
      && (let d =
            distance (record { x = center fl g.cell_size p.col; y = center fl g.cell_size p.row })
              b in
          lt d (player_half fl) || eq d (player_half fl))

  abbrev pub mark_cells : Grid F → Vec2 F → ℤ → List ℤ → List ℕ → List ℕ
  mark_cells g b row [] blocked = blocked
  mark_cells g b row (col ∷ cols) blocked =
      let p : Point = record { col = col; row = row } in
      mark_cells g b row cols (if touches g b p then index g p ∷ blocked else blocked)

  abbrev pub mark_rows : Grid F → Vec2 F → List ℤ → List ℤ → List ℕ → List ℕ
  mark_rows g b [] cols blocked = blocked
  mark_rows g b (row ∷ rows) cols blocked =
      mark_rows g b rows cols (mark_cells g b row cols blocked)

  pub mark : Grid F → Vec2 F → List ℕ → List ℕ
  mark g b blocked =
      let low = λ (v : F). floor_int (div (sub v (player_half fl)) g.cell_size) in
      let high = λ (v : F). ceil_int (div (add v (player_half fl)) g.cell_size) in
      mark_rows g b (range (low b.y) (high b.y)) (range (low b.x) (high b.x)) blocked

  pub build_dynamic_blockers : Grid F → List (Vec2 F) → List ℕ → List ℕ
  unfolding mark
  build_dynamic_blockers g [] blocked = blocked
  build_dynamic_blockers g (b ∷ blockers) blocked =
      build_dynamic_blockers g blockers (mark g b blocked)

  pub in_world : ComputePathRequest F → F → F → Vec2 F
  unfolding clamp
  in_world req x y = record {
    x = clamp fl x (player_half fl) (sub req.width (player_half fl));
    y = clamp fl y (player_half fl) (sub req.height (player_half fl));
  }

  pub offsets : F → List (Vec2 F)
  offsets step =
      let z = lit 0 0 in
      let back = sub z step in
      let twice = mul (lit 2 0) step in
      let at = λ (x y : F). let v : Vec2 F = record { x = x; y = y } in v in
      at step z
      ∷ at back z
      ∷ at z step
      ∷ at z back
      ∷ at step step
      ∷ at step back
      ∷ at back step
      ∷ at back back
      ∷ at twice z
      ∷ at (sub z twice) z
      ∷ at z twice
      ∷ at z (sub z twice)
      ∷ []

  module _ (req : ComputePathRequest F) (g : Grid F) (target : Vec2 F) (blocked : List ℕ) where
    pub better : Vec2 F → Best F → List (Vec2 F) → Best F
    unfolding path_travel_cost
    better alt best candidate =
        let score = add (distance alt target) (path_travel_cost req.start candidate) in
        if lt score best.score then record { score = score; path = candidate; goal = alt } else best

    abbrev pub consider : Vec2 F → Best F → Outcome (List (Vec2 F)) → Outcome (Best F)
    consider alt best out_of_fuel = out_of_fuel
    consider alt best absent = found best
    consider alt best (found candidate) = found (better alt best candidate)

    pub try_offset : Vec2 F → Best F → Outcome (Best F)
    unfolding in_world find_path better
    try_offset offset best =
        let alt = in_world req (add target.x offset.x) (add target.y offset.y) in
        if lt (distance alt target) (lit 1 0)
        then found best
        else consider alt best (find_path g req.start alt blocked)

    pub try_offsets : List (Vec2 F) → Best F → Outcome (Best F)
    unfolding try_offset
    try_offsets [] best = found best
    try_offsets (offset ∷ rest) best = try_offset offset best >>= try_offsets rest

    abbrev pub chosen : List (Vec2 F) → Vec2 F → Outcome (List (Vec2 F) × Vec2 F)
    chosen [] goal = absent
    chosen (p ∷ ps) goal = found (p ∷ ps, goal)

    pub nearby : Outcome (List (Vec2 F) × Vec2 F)
    unfolding try_offsets offsets
    nearby =
        try_offsets (offsets g.cell_size)
          (record { score = max_float; path = []; goal = record { x = lit 0 0; y = lit 0 0 } })
        >>= λ best. chosen best.path best.goal

    abbrev pub or_nearby : Outcome (List (Vec2 F)) → Outcome (List (Vec2 F) × Vec2 F)
    or_nearby out_of_fuel = out_of_fuel
    or_nearby (found path) = found (path, target)
    or_nearby absent = nearby

  pub compute_path_from : ComputePathRequest F → Outcome (List (Vec2 F) × Vec2 F)
  unfolding new_nav_grid in_world build_dynamic_blockers find_path nearby
  compute_path_from req =
      let g = new_nav_grid fl req.obstacles req.width req.height in
      let target = in_world req req.target.x req.target.y in
      let blocked = build_dynamic_blockers g req.blockers [] in
      or_nearby req g target blocked (find_path g req.start target blocked)

  pub dynamic_blocker_positions : List (PathActor F) → String → List (Vec2 F)
  dynamic_blocker_positions [] ignore_id = []
  dynamic_blocker_positions (a ∷ actors) ignore_id =
      let rest = dynamic_blocker_positions actors ignore_id in
      ite (str_dec a.id ignore_id) rest (a.position ∷ rest)

  pub compute_navigation_path :
      ComputePathRequest F → List (PathActor F) → String → Outcome (List (Vec2 F) × Vec2 F)
  unfolding compute_path_from dynamic_blocker_positions
  compute_navigation_path req actors ignore_id =
      compute_path_from (record req { blockers = dynamic_blocker_positions actors ignore_id })
