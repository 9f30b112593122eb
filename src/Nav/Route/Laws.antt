-- ===== src/Nav/Route/Laws.antt =====
-- server/internal/world/navigation.go: what `findPath` and `ComputePathFrom` return.
use mine_and_die.Prelude.{
  ℕ, ◌≡◌, ◌⊎◌, inl, inr, refl, sym, ap, subst, Bool, true, false, not, ◌||◌, List, [], ◌∷◌, ◌++◌,
  if◌then◌else◌, Option, none, some, if_cases, Option-cases, arith, map,
}
use mine_and_die.Prelude.Float.{Float64}
use mine_and_die.Nav.{
  Vec2, Point, Grid, in_bounds, index, walkable_at, has, locate, world_pos, center,
}
use mine_and_die.Nav.Search.{Outcome, absent, found, astar, closest_walkable, ◌>>=◌}
use mine_and_die.Nav.Search.Moves.{Standing}
use mine_and_die.Nav.Search.Walks.{Walk, Reachable}
use mine_and_die.Nav.Search.Correct.{Right, path, no_path, astar-Right}
use mine_and_die.Nav.Search.Closest.{Stands, nowhere, at, closest_walkable-Stands}
use mine_and_die.Nav.Route.{distance, finish, route, settle, search_from, find_path}

abbrev pub last? : {A : Type 0} → List A → Option A
last? [] = none
last? (x ∷ []) = some x
last? (x ∷ y ∷ ys) = last? (y ∷ ys)

module _ {F : Type 0} (fl : Float64 F) where
  open fl use {lit, lt, add, sub, mul, of_int, hypot}

  last?-finish : (target : Vec2 F) (ps : List (Vec2 F)) → last? (finish fl target ps) ≡ some target
  unfolding finish
  last?-finish target [] = refl
  last?-finish target (p ∷ []) =
      if_cases (λ l. last? l ≡ some target) (lt (lit 1 0) (distance fl p target)) (p ∷ target ∷ [])
        (target ∷ []) (λ _. refl) (λ _. refl)
  last?-finish target (p ∷ q ∷ []) =
      if_cases (λ l. last? (p ∷ l) ≡ some target) (lt (lit 1 0) (distance fl q target))
        (q ∷ target ∷ []) (target ∷ []) (λ _. refl) (λ _. refl)
  last?-finish target (p ∷ q ∷ r ∷ ps) = last?-finish target (q ∷ r ∷ ps)

  -- The middle of a cell: its column and row, each and a half, in cell sizes.
  abbrev pub middle : Grid F → Point → Vec2 F
  middle g p = record {
    x = mul (add (of_int p.col) (lit 5 1)) g.cell_size;
    y = mul (add (of_int p.row) (lit 5 1)) g.cell_size;
  }

  -- The middles of the cells, and then the target, which takes the place of the last middle if that
  -- is at most 1 away from it.
  abbrev pub Waypoints : Grid F → Vec2 F → List Point → List (Vec2 F) → Type 0
  Waypoints g target ps points =
      ((ps ≡ []) × (points ≡ target ∷ []))
      ⊎ ((front : List Point) × (final : Point) × (ps ≡ front ++ (final ∷ []))
          × (points
              ≡ map (middle g) front
                ++ (let m = middle g final in
                    if lt (lit 1 0) (hypot (sub m.x target.x) (sub m.y target.y))
                    then m ∷ target ∷ []
                    else target ∷ [])))

  finish-Waypoints :
      (g : Grid F) (target : Vec2 F) (p : Point) (ps : List Point)
      → Waypoints g target (p ∷ ps) (finish fl target (map (world_pos fl g) (p ∷ ps)))
  unfolding finish world_pos center
  finish-Waypoints g target p [] = inr ([], p, refl, refl)
  finish-Waypoints g target p (q ∷ ps) =
      later (finish fl target (map (world_pos fl g) (q ∷ ps))) (finish-Waypoints g target q ps)
    where
      later :
          (points : List (Vec2 F))
          → Waypoints g target (q ∷ ps) points
          → Waypoints g target (p ∷ q ∷ ps) (world_pos fl g p ∷ points)
      later points (inl (e, h)) = cc
      later points (inr (front, final, e, h)) =
          inr (p ∷ front, final, ap (◌∷◌ p) e, ap (◌∷◌ (middle g p)) h)

  locate-in_bounds :
      (g : Grid F) (v : Vec2 F) (p : Point) → locate fl g v ≡ some p → in_bounds g p ≡ true
  unfolding locate
  locate-in_bounds g v p e = ground (arith, e)

module _ {F : Type 0} (fl : Float64 F) (g : Grid F) (start target : Vec2 F) (blocked : List ℕ) where
  -- No path, and then none from the start's cell to the target's, if a player can stand on both; or
  -- one whose points are the middles of the cells of a legal walk from a cell to stand on, the
  -- start's own where that will do, to the target's, and then the target.
  pub data Guided (out : Outcome (List (Vec2 F))) : Type 0 where
    none_found :
        out ≡ absent
        → ((from to : Point)
            → locate fl g start ≡ some from
            → locate fl g target ≡ some to
            → Standing g blocked from
            → Standing g blocked to
            → ¬ Reachable fl g from to blocked)
        → Guided out
    guided :
        (own from to : Point) (ps : List Point) (points : List (Vec2 F))
        → out ≡ found points
        → locate fl g start ≡ some own
        → (Standing g blocked own → from ≡ own)
        → Standing g blocked from
        → locate fl g target ≡ some to
        → Standing g blocked to
        → Walk fl g from to blocked from ps to
        → Waypoints fl g target ps points
        → last? points ≡ some target
        → Guided out

  -- With the cells of the start and the target fixed.
  module _ (own to : Point) (origin : locate fl g start ≡ some own)
      (located : locate fl g target ≡ some to) where
    unreached :
        (out : Outcome (List (Vec2 F)))
        → out ≡ absent
        → (Standing g blocked own → Standing g blocked to → ¬ Reachable fl g own to blocked)
        → Guided out
    unreached out e n = none_found e (λ a b ea eb sa sb.
        let pa : own ≡ a = cc in
        let pb : to ≡ b = cc in
        subst (λ a. Standing g blocked a → ¬ Reachable fl g a b blocked) pa
          (λ sa. subst (λ b. Standing g blocked b → ¬ Reachable fl g own b blocked) pb (n sa) sb)
          sa)

    module _ (first : Point) (same : Standing g blocked own → first ≡ own)
        (s : Standing g blocked first) where
      routed :
          (ps : List Point)
          → Standing g blocked to
          → Walk fl g first to blocked first ps to
          → Guided (route fl g target (first ∷ ps))
      unfolding route
      routed [] t w =
          guided own first to [] (target ∷ []) refl origin same s located t w (inl (refl, refl))
            refl
      routed (p ∷ ps) t w =
          guided own first to (p ∷ ps) (finish fl target (map (world_pos fl g) (p ∷ ps))) refl
            origin same s located t w (finish-Waypoints fl g target p ps)
            (last?-finish fl target (map (world_pos fl g) (p ∷ ps)))

      answered :
          (o : Outcome (List Point))
          → Standing g blocked to
          → Right fl g first to blocked o
          → Guided (o >>= route fl g target)
      answered o t (path ps e w) =
          subst (λ o. Guided (o >>= route fl g target)) (sym e) (routed ps t w)
      answered o t (no_path e n) =
          unreached (o >>= route fl g target) (ap (λ o. o >>= route fl g target) e)
            (λ so st. subst (λ p. ¬ Reachable fl g p to blocked) (same so) n)

      last_leg : Guided (search_from fl g start target blocked first to >>= route fl g target)
      last_leg =
          let i = locate-in_bounds fl g target to located in
          if_cases (λ o. Guided (o >>= route fl g target))
            (not (walkable_at g to) || has (index g to) blocked) absent
            (astar fl g to blocked first)
            (λ e. unreached absent refl (λ so st.
              absurd (blocked_goal (walkable_at g to) (has (index g to) blocked) e st.1 st.2)))
            (λ e.
              answered (astar fl g to blocked first) (i, ground (arith, e), ground (arith, e))
                (astar-Right fl g first to blocked s.0 i))
        where
          blocked_goal : (w b : Bool) → (not w || b) ≡ true → w ≡ true → b ≡ false → ⊥
          blocked_goal w b e p q = ground arith

    -- A cell that does not do is replaced by the closest one to stand on.
    settled :
        (Q : Point → Type 0) (away : Bool) (p : Point) (k : Point → Outcome (List (Vec2 F)))
        → in_bounds g p ≡ true
        → (away ≡ true → ¬ Standing g blocked own)
        → (away ≡ false → Q p)
        → (¬ Standing g blocked own → (q : Point) → Standing g blocked q → Q q)
        → ((q : Point) → in_bounds g q ≡ true → Q q → Guided (k q))
        → Guided (settle fl g start target blocked away p >>= k)
    settled Q away p k i bad stay moved h =
        if_cases (λ o. Guided (o >>= k)) away (closest_walkable fl g blocked p) (found p)
          (λ e.
            closest (bad e) (closest_walkable fl g blocked p)
              (closest_walkable-Stands fl g blocked p))
          (λ e. h p i (stay e))
      where
        closest :
            ¬ Standing g blocked own
            → (o : Outcome Point) → Stands fl g blocked o
            → Guided (o >>= k)
        closest n o (nowhere e) = unreached (o >>= k) (ap (λ o. o >>= k) e) (λ so st. absurd (n so))
        closest n o (at q e b w u) =
            subst (λ o. Guided (o >>= k)) (sym e) (h q b (moved n q (b, w, u)))

    from_own : Guided (do
      from' ← settle fl g start target blocked (not (walkable_at g own)) own
      first ← settle fl g start target blocked (has (index g from') blocked) from'
      nodes ← search_from fl g start target blocked first to
      route fl g target nodes)
    from_own =
        settled (λ q. (walkable_at g q ≡ true) × (Standing g blocked own → q ≡ own))
          (not (walkable_at g own)) own _ (locate-in_bounds fl g start own origin)
          (λ e so. not_walkable (walkable_at g own) e so.1) (λ h. (ground arith, λ _. refl))
          (λ n q s. (s.1, λ so. absurd (n so)))
          (λ q i w.
            settled
              (λ r.
                (walkable_at g r ≡ true)
                × (has (index g r) blocked ≡ false)
                × (Standing g blocked own → r ≡ own))
              (has (index g q) blocked) q _ i (λ e so. is_blocked q e (w.1 so) so.2)
              (λ h. (w.0, h, w.1)) (λ n r s. (s.1, s.2, λ so. absurd (n so)))
              (λ r j s. last_leg r s.2 (j, s.0, s.1)))
      where
        not_walkable : (w : Bool) → not w ≡ true → w ≡ true → ⊥
        not_walkable w e h = ground arith

        is_blocked :
            (q : Point)
            → has (index g q) blocked ≡ true
            → q ≡ own
            → has (index g own) blocked ≡ false
            → ⊥
        is_blocked q e p h = cc

  -- `findPath` always ends. Either it returns a path that follows legal moves to the target's cell,
  -- from the start's own cell if a player can stand there and else from another such cell: its points
  -- are the middles of the cells moved to, one after the other, and then the target itself, which
  -- takes the place of the last middle if that is at most 1 away. Or it returns none, and then no legal moves lead from the start's
  -- cell to the target's, both being cells to stand on.
  pub find_path-Guided : Guided (find_path fl g start target blocked)
  unfolding find_path
  find_path-Guided = elim (Option-cases (locate fl g start)) [
    | inl e ↦ rw e (none_found refl (λ a b ea. cc))
    | inr (own, e) ↦ elim (Option-cases (locate fl g target)) [
      | inl e' ↦ rw (e, e') (none_found refl (λ a b ea eb. cc))
      | inr (to, e') ↦ rw (e, e') (from_own own to e e')
    ]
  ]
