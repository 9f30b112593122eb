-- ===== src/Nav/Route/Nearby.antt =====
-- server/internal/world/navigation.go, `ComputePathFrom`: the places near a target out of reach.
use mine_and_die.Prelude.{◌≡◌, ◌⊎◌, inl, inr, refl, ◌∙◌, List, [], ◌∷◌, some, String, if_cases}
use mine_and_die.Prelude.Float.{Float64}
use mine_and_die.Nav.{Vec2, Grid, new_nav_grid}
use mine_and_die.Nav.Search.{Outcome, absent, found, ◌>>=◌}
use mine_and_die.Nav.Route.{
  ComputePathRequest, PathActor, Best, distance, find_path, in_world, better, consider, or_nearby,
  try_offset, try_offsets, chosen, offsets, nearby, path_travel_cost, compute_path_from,
  build_dynamic_blockers, dynamic_blocker_positions, compute_navigation_path,
}
use mine_and_die.Nav.Route.Laws.{Guided, none_found, guided, last?, find_path-Guided}

module _ {F : Type 0} (fl : Float64 F) where
  open fl use {lit, add, sub, lt}

  abbrev pub grid_of : ComputePathRequest F → Grid F
  grid_of req = new_nav_grid fl req.obstacles req.width req.height

  abbrev pub blocked_of : ComputePathRequest F → List (Prim.Native.Nat.ℕ)
  blocked_of req = build_dynamic_blockers fl (grid_of req) req.blockers []

  -- What `findPath` says of a request's start and this place.
  abbrev pub leads : ComputePathRequest F → Vec2 F → Outcome (List (Vec2 F))
  leads req place = find_path fl (grid_of req) req.start place (blocked_of req)

  abbrev pub wanted : ComputePathRequest F → Vec2 F
  wanted req = in_world fl req req.target.x req.target.y

  -- No path, and then none to the target; or one that `findPath` gives for the goal that is returned
  -- with it, which is the target unless that has no path.
  pub data Answer (req : ComputePathRequest F) (out : Outcome (List (Vec2 F) × Vec2 F))
      : Type 0 where
    nothing : out ≡ absent → leads req (wanted req) ≡ absent → Answer req out
    answer :
        (path : List (Vec2 F)) (goal : Vec2 F)
        → out ≡ found (path, goal)
        → leads req goal ≡ found path
        → last? path ≡ some goal
        → (goal ≡ wanted req) ⊎ (leads req (wanted req) ≡ absent)
        → Answer req out

  data Path? (req : ComputePathRequest F) (place : Vec2 F) (out : Outcome (List (Vec2 F)))
      : Type 0 where
    without : out ≡ absent → Path? req place out
    with_path :
        (path : List (Vec2 F)) → out ≡ found path → last? path ≡ some place → Path? req place out

  Guided-Path? :
      (req : ComputePathRequest F) (place : Vec2 F) (out : Outcome (List (Vec2 F)))
      → Guided fl (grid_of req) req.start place (blocked_of req) out
      → Path? req place out
  Guided-Path? req place out (none_found e n) = without e
  Guided-Path? req place out (guided own from to ps points e o s a l b w r z) = with_path points e z

  module _ (req : ComputePathRequest F) where
    leads-Path? : (place : Vec2 F) → Path? req place (leads req place)
    leads-Path? place =
        Guided-Path? req place (leads req place)
          (find_path-Guided fl (grid_of req) req.start place (blocked_of req))

    -- The best place so far has its path.
    data Kept (best : Best F) : Type 0 where
      no_best : best.path ≡ [] → Kept best
      with_best :
          leads req best.goal ≡ found best.path → last? best.path ≡ some best.goal → Kept best

    data Tried (out : Outcome (Best F)) : Type 0 where
      tried : (best : Best F) → out ≡ found best → Kept best → Tried out

    better-Kept :
        (alt : Vec2 F) (best : Best F) (candidate : List (Vec2 F))
        → Kept best
        → leads req alt ≡ found candidate
        → last? candidate ≡ some alt
        → Kept (better fl req (grid_of req) (wanted req) (blocked_of req) alt best candidate)
    unfolding better
    better-Kept alt best candidate k e z =
        let score = add (distance fl alt (wanted req)) (path_travel_cost fl req.start candidate) in
        if_cases Kept (lt score best.score) (record { score = score; path = candidate; goal = alt })
          best (λ _. with_best e z) (λ _. k)

    consider-Tried :
        (alt : Vec2 F) (best : Best F) (out : Outcome (List (Vec2 F)))
        → Kept best
        → leads req alt ≡ out
        → Path? req alt out
        → Tried (consider fl req (grid_of req) (wanted req) (blocked_of req) alt best out)
    consider-Tried alt best out k e (without a) = rw a (tried best refl k)
    consider-Tried alt best out k e (with_path path a z) = rw a (
        tried (better fl req (grid_of req) (wanted req) (blocked_of req) alt best path) refl
          (better-Kept alt best path k (e ∙ a) z))

    try_offset-Tried :
        (offset : Vec2 F) (best : Best F)
        → Kept best
        → Tried (try_offset fl req (grid_of req) (wanted req) (blocked_of req) offset best)
    unfolding try_offset
    try_offset-Tried offset best k =
        let alt = in_world fl req (add (wanted req).x offset.x) (add (wanted req).y offset.y) in
        if_cases Tried (lt (distance fl alt (wanted req)) (lit 1 0)) (found best)
          (consider fl req (grid_of req) (wanted req) (blocked_of req) alt best (leads req alt))
          (λ _. tried best refl k)
          (λ _. consider-Tried alt best (leads req alt) k refl (leads-Path? alt))

    try_offsets-Tried :
        (places : List (Vec2 F)) (best : Best F)
        → Kept best
        → Tried (try_offsets fl req (grid_of req) (wanted req) (blocked_of req) places best)
    unfolding try_offsets
    try_offsets-Tried [] best k = tried best refl k
    try_offsets-Tried (place ∷ places) best k =
        next (try_offset fl req (grid_of req) (wanted req) (blocked_of req) place best) places
          (try_offset-Tried place best k) (λ b. try_offsets-Tried places b)
      where
        next :
            (out : Outcome (Best F)) (places : List (Vec2 F))
            → Tried out
            → ((b : Best F)
                → Kept b
                → Tried (try_offsets fl req (grid_of req) (wanted req) (blocked_of req) places b))
            → Tried (out >>= try_offsets fl req (grid_of req) (wanted req) (blocked_of req) places)
        next out places (tried b e k) f = rw e (f b k)

    chosen-Answer :
        (path : List (Vec2 F)) (goal : Vec2 F)
        → leads req (wanted req) ≡ absent
        → (path ≡ []) ⊎ ((leads req goal ≡ found path) × (last? path ≡ some goal))
        → Answer req (chosen fl req (grid_of req) (wanted req) (blocked_of req) path goal)
    chosen-Answer [] goal a k = nothing refl a
    chosen-Answer (p ∷ ps) goal a (inl e) = absurd (not_empty e)
      where
        not_empty : p ∷ ps ≡ [] → ⊥
        not_empty e = cc
    chosen-Answer (p ∷ ps) goal a (inr k) = answer (p ∷ ps) goal refl k.0 k.1 (inr a)

    best-Answer :
        (out : Outcome (Best F))
        → leads req (wanted req) ≡ absent
        → Tried out
        → Answer req (
            out >>= λ best.
            chosen fl req (grid_of req) (wanted req) (blocked_of req) best.path best.goal)
    best-Answer out a (tried best e (no_best n)) =
        rw e (chosen-Answer best.path best.goal a (inl n))
    best-Answer out a (tried best e (with_best l z)) =
        rw e (chosen-Answer best.path best.goal a (inr (l, z)))

    nearby-Answer :
        leads req (wanted req) ≡ absent
        → Answer req (nearby fl req (grid_of req) (wanted req) (blocked_of req))
    unfolding nearby
    nearby-Answer a =
        let none_yet : Best F = record {
          score = fl.max_float;
          path = [];
          goal = record { x = lit 0 0; y = lit 0 0 };
        } in
        let places = offsets fl (grid_of req).cell_size in
        best-Answer (try_offsets fl req (grid_of req) (wanted req) (blocked_of req) places none_yet)
          a (try_offsets-Tried places none_yet (no_best refl))

    first_choice :
        (out : Outcome (List (Vec2 F)))
        → leads req (wanted req) ≡ out
        → Path? req (wanted req) out
        → Answer req (or_nearby fl req (grid_of req) (wanted req) (blocked_of req) out)
    first_choice out l (without e) = rw e (nearby-Answer (l ∙ e))
    first_choice out l (with_path path e z) =
        rw e (answer path (wanted req) refl (l ∙ e) z (inl refl))

  -- `ComputeNavigationPath` always ends. It returns a path together with a goal: the path is the one
  -- that `findPath` gives for that goal and its last point is the goal, which is the target, clamped
  -- to the world, unless `findPath` gives no path to the target. It returns no path only if
  -- `findPath` gives none to the target. The blockers are the other actors' places.
  pub compute_navigation_path-Answer :
      (req : ComputePathRequest F) (actors : List (PathActor F)) (ignore_id : String)
      → Answer
          (record req { blockers = dynamic_blocker_positions fl actors ignore_id })
          (compute_navigation_path fl req actors ignore_id)
  unfolding compute_navigation_path compute_path_from
  compute_navigation_path-Answer req actors ignore_id =
      let full : ComputePathRequest F = record req {
        blockers = dynamic_blocker_positions fl actors ignore_id;
      } in
      first_choice full (leads full (wanted full)) refl (leads-Path? full (wanted full))
