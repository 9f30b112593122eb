-- ===== src/Nav/Search/Invariant.antt =====
-- server/internal/world/navigation.go, `astar`: the invariant of the loop on the open nodes, and how
-- a round keeps it.
use mine_and_die.Prelude.{
  ℕ, ◌+◌, ◌<◌, ◌≡◌, ◌≢◌, refl, sym, ap, ◌∙◌, subst, true, List, [], ◌∷◌, arith, length, All, count,
  ℕ_discrete, get_elem?, lookup,
}
use mine_and_die.Prelude.Float.{Float64}
use mine_and_die.Nav.{Point, Grid, in_bounds, index, has, moved, nav_neighbor_offsets}
use mine_and_die.Nav.Heap.{pop}
use mine_and_die.Nav.Heap.Laws.{sum, pop_lem}
use mine_and_die.Nav.Search.{PathNode, Frontier, less, relax_all}
use mine_and_die.Nav.Search.Moves.{Legal, Legal-passable}
use mine_and_die.Nav.Search.Walks.{Move, Walk}
use mine_and_die.Nav.Search.Cells.{index_inj}
use mine_and_die.Nav.Search.Relax.{Node, at_cell, Seen, Fits, AllRelaxed, relax_all_lem}

module _ {F : Type 0} (fl : Float64 F) (g : Grid F) (start goal : Point) (blocked : List ℕ) where
  pub record Inv (closed : List ℕ) (fr : Frontier F) : Type 0 where
    pub fits : Fits fl g start goal blocked closed fr
    pub edges :
        (p q : Point)
        → in_bounds g p ≡ true
        → 0 < count ℕ_discrete (index g p) closed
        → Move fl g start goal blocked p q
        → Seen fl g start goal blocked (index g q) closed fr.open_nodes
    pub started : Seen fl g start goal blocked (index g start) closed fr.open_nodes
    pub goal_out : count ℕ_discrete (index g goal) closed ≡ 0

  Move-in_bounds : (p q : Point) → Move fl g start goal blocked p q → in_bounds g q ≡ true
  Move-in_bounds p q m = subst (λ r. in_bounds g r ≡ true) m.lands m.legal.on_grid

  -- With no open node, no walk leaves the closed cells.
  module _ (closed : List ℕ) (fr : Frontier F) (empty : fr.open_nodes ≡ [])
      (v : Inv closed fr) where
    pub unreached :
        (ps : List Point) (p : Point)
        → in_bounds g p ≡ true
        → 0 < count ℕ_discrete (index g p) closed
        → Walk fl g start goal blocked p ps goal
        → ⊥
    unfolding Seen
    unreached [] p i c w =
        absurd (omega (arith, v.goal_out, ap (λ q. count ℕ_discrete (index g q) closed) w))
    unreached (r ∷ ps) p i c w =
        let s =
          subst
            (λ l.
              0
              < count ℕ_discrete (index g r) closed
                + sum (at_cell fl g start goal blocked (index g r)) l)
            empty (v.edges p r i c w.0) in
        unreached ps r (Move-in_bounds p r w.0) (omega (arith, s)) w.1

  module _ (start_in : in_bounds g start ≡ true) (goal_in : in_bounds g goal ≡ true)
      (closed : List ℕ) (scores : List (ℕ × F)) (x : PathNode F) (xs : List (PathNode F))
      (v : Inv closed (record { scores = scores; open_nodes = x ∷ xs })) where
    pub popped :
        (w : PathNode F → ℕ)
        → Node fl g start goal blocked (pop (less fl) x xs).0
          × (w (pop (less fl) x xs).0 + sum w (pop (less fl) x xs).1 ≡ w x + sum w xs)
          × All (Node fl g start goal blocked) (pop (less fl) x xs).1
    popped w = pop_lem (less fl) (Node fl g start goal blocked) w x xs v.fits.nodes

    -- The popped node's cell was closed before.
    pub skip_Inv :
        has (index g (pop (less fl) x xs).0.point) closed ≡ true
        → Inv closed (record { scores = scores; open_nodes = (pop (less fl) x xs).1 })
    unfolding Seen
    skip_Inv h =
        let less_by_one : (j : ℕ)
            → Seen fl g start goal blocked j closed (x ∷ xs)
            → Seen fl g start goal blocked j closed (pop (less fl) x xs).1 =
          λ j s. ground (arith, (popped (at_cell fl g start goal blocked j)).1) in
        record {
          fits = record {
            nodes = (popped (λ _. 1)).2;
            scored = λ i y e. less_by_one i (v.fits.scored i y e);
          };
          edges = λ p q i c m. less_by_one (index g q) (v.edges p q i c m);
          started = less_by_one (index g start) v.started;
          goal_out = v.goal_out;
        }

    -- The popped node's cell is closed now.
    pub expand_Inv :
        (i : ℕ)
        → i ≡ index g (pop (less fl) x xs).0.point
        → (pop (less fl) x xs).0.point ≢ goal
        → (fr : Frontier F)
        → AllRelaxed fl g start goal blocked
            (i ∷ closed)
            (pop (less fl) x xs).0
            (nav_neighbor_offsets fl)
            (record { scores = scores; open_nodes = (pop (less fl) x xs).1 })
            fr
        → Inv (i ∷ closed) fr
    unfolding Seen
    expand_Inv i ei ne fr r =
        let node = (pop (less fl) x xs).0 in
        let later : (j : ℕ)
            → Seen fl g start goal blocked j closed (x ∷ xs)
            → Seen fl g start goal blocked j (i ∷ closed) fr.open_nodes =
          λ j s. r.larger j (ground (arith, (popped (at_cell fl g start goal blocked j)).1)) in
        record {
          fits = r.fits;
          edges = λ p q h c m. elim (ℕ_discrete (index g p) i) [
            | yes e ↦
                let same = index_inj g p node.point h (popped (λ _. 1)).0.inside (e ∙ ei) in
                subst (λ c. Seen fl g start goal blocked (index g c) (i ∷ closed) fr.open_nodes)
                  (ap (λ b. moved b m.delta) (sym same) ∙ m.lands)
                  (r.covered m.number m.delta m.listed (
                    Legal-passable g goal blocked node.point m.delta
                      (subst (λ b. Legal g goal blocked b m.delta) same m.legal)))
            | no e ↦ later (index g q) (v.edges p q h (ground arith) m)
          ];
          started = later (index g start) v.started;
          goal_out = elim (ℕ_discrete (index g goal) i) [
            | yes e ↦
                absurd (
                  ne
                    (sym (index_inj g goal node.point goal_in (popped (λ _. 1)).0.inside (e ∙ ei))))
            | no e ↦ ground (arith, v.goal_out)
          ];
        }

  pub started_in :
      (closed : List ℕ) (scores : List (ℕ × F))
      → Inv closed (record { scores = scores; open_nodes = [] })
      → 0 < count ℕ_discrete (index g start) closed
  unfolding Seen
  started_in closed scores v = omega (arith, v.started)

  -- A neighbour loop over all offsets, from the nodes that the pop left.
  pub all_relaxed :
      (i : ℕ) (closed : List ℕ) (fr : Frontier F) (node : PathNode F)
      → Node fl g start goal blocked node
      → Fits fl g start goal blocked (i ∷ closed) fr
      → AllRelaxed fl g start goal blocked
          (i ∷ closed)
          node
          (nav_neighbor_offsets fl)
          fr
          (relax_all fl g goal blocked (i ∷ closed) node (nav_neighbor_offsets fl) fr)
  all_relaxed i closed fr node at f =
      relax_all_lem fl g start goal blocked (i ∷ closed) node at 0 (nav_neighbor_offsets fl) fr
        (λ k. ap (get_elem? (nav_neighbor_offsets fl)) (omega arith)) f

  pub length-offsets : length (nav_neighbor_offsets fl) ≡ 8
  unfolding nav_neighbor_offsets
  length-offsets = refl

  module _ (start_in : in_bounds g start ≡ true) (goal_in : in_bounds g goal ≡ true) where
    pub popped_Fits :
        (closed : List ℕ) (scores : List (ℕ × F)) (x : PathNode F) (xs : List (PathNode F))
        → Inv closed (record { scores = scores; open_nodes = x ∷ xs })
        → Fits fl g start goal blocked
            (index g (pop (less fl) x xs).0.point ∷ closed)
            (record { scores = scores; open_nodes = (pop (less fl) x xs).1 })
    unfolding Seen
    popped_Fits closed scores x xs v = record {
      nodes = (popped start_in goal_in closed scores x xs v (λ _. 1)).2;
      scored = λ j y e. ground (
        arith,
        v.fits.scored j y e,
        (popped start_in goal_in closed scores x xs v (at_cell fl g start goal blocked j)).1,
      );
    }

    pub first_Inv :
        (scores : List (ℕ × F)) (v : F) (node : PathNode F) (nodes : List (PathNode F))
        → scores ≡ (index g start, v) ∷ []
        → node.point ≡ start
        → All (Node fl g start goal blocked) nodes
        → ((w : PathNode F → ℕ) → sum w nodes ≡ w node)
        → Inv [] (record { scores = scores; open_nodes = nodes })
    unfolding Seen lookup
    first_Inv scores v node nodes e p a s =
        let i = index g start in
        let here : (j : ℕ) → j ≡ i → Seen fl g start goal blocked j [] nodes =
          λ j k. ground (arith, s (at_cell fl g start goal blocked j), ap (index g) p) in
        record {
          fits = record {
            nodes = a;
            scored = λ j y k. here j (ground (arith, k, ap (lookup ℕ_discrete j) e));
          };
          edges = λ b c i l m. absurd (omega (arith, l));
          started = here i refl;
          goal_out = refl;
        }
