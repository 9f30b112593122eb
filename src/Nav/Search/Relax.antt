-- ===== src/Nav/Search/Relax.antt =====
-- server/internal/world/navigation.go: what the loop over the neighbours of a cell does in `astar`.
-- Every node that it adds has a legal chain of parents, and every cell that a legal move leads to
-- is closed or among the open nodes afterwards.
use mine_and_die.Prelude.{
  ℕ, zero, suc, ◌+◌, ◌<◌, ◌≤◌, ◌≡◌, inl, inr, refl, ap, subst, true, not, ◌||◌, List, [], ◌∷◌, some,
  ite, if_cases, Option-cases, arith, All, get_elem?, count, ℕ_discrete, lookup, insert,
  lookup-insert, sym, ◌∙◌, length,
}
use mine_and_die.Prelude.Float.{Float64}
use mine_and_die.Nav.{Point, Neighbor, Grid, in_bounds, index, has, moved, nav_neighbor_offsets}
use mine_and_die.Nav.Heap.{push}
use mine_and_die.Nav.Heap.Laws.{sum, push_lem}
use mine_and_die.Nav.Search.{
  PathNode, Frontier, passable, less, settled, successor, relax, relax_all,
}
use mine_and_die.Nav.Search.Moves.{passable-Legal}
use mine_and_die.Nav.Search.Walks.{Chain}

each_of_cons :
    {A : Type 0} (P : A → Type 0) (x : A) (xs : List A)
    → P x
    → ((k : ℕ) (a : A) → get_elem? xs k ≡ some a → P a)
    → (k : ℕ) (a : A) → get_elem? (x ∷ xs) k ≡ some a
    → P a
each_of_cons P x xs p h zero a e = subst P (cc) p
each_of_cons P x xs p h (suc k) a e = h k a e

module _ {F : Type 0} (fl : Float64 F) (g : Grid F) (start goal : Point) (blocked : List ℕ) where
  pub record Node (n : PathNode F) : Type 0 where
    pub chain : Chain fl g start goal blocked n.point n.trail
    pub inside : in_bounds g n.point ≡ true

  abbrev pub at_cell : ℕ → PathNode F → ℕ
  at_cell i n = ite (ℕ_discrete i (index g n.point)) 1 0

  -- A cell is closed or open.
  unfoldable pub Seen : ℕ → List ℕ → List (PathNode F) → Type 0
  Seen i closed nodes = 0 < count ℕ_discrete i closed + sum (at_cell i) nodes

  pub record Fits (closed : List ℕ) (fr : Frontier F) : Type 0 where
    pub nodes : All Node fr.open_nodes
    pub scored :
        (i : ℕ) (v : F) → lookup ℕ_discrete i fr.scores ≡ some v → Seen i closed fr.open_nodes

  -- What one neighbour changes.
  record Relaxed (closed : List ℕ) (current : PathNode F) (delta : Neighbor F) (fr out : Frontier F)
      : Type 0 where
    pub fits : Fits closed out
    pub larger : (i : ℕ) → Seen i closed fr.open_nodes → Seen i closed out.open_nodes
    pub longer : sum (λ _. 1) out.open_nodes ≤ suc (sum (λ _. 1) fr.open_nodes)
    pub covered :
        passable g goal blocked current.point delta ≡ true
        → Seen (index g (moved current.point delta)) closed out.open_nodes

  module _ (closed : List ℕ) (current : PathNode F) (k : ℕ) (delta : Neighbor F)
      (listed : get_elem? (nav_neighbor_offsets fl) k ≡ some delta) (at : Node current)
      (fr : Frontier F) (f : Fits closed fr) where
    successor-Node :
        passable g goal blocked current.point delta ≡ true
        → Node (successor fl g goal blocked current delta)
    successor-Node h = record {
      chain = (
        record {
          number = k;
          delta = delta;
          listed = listed;
          legal = passable-Legal g goal blocked current.point delta h;
          lands = refl;
        },
        at.chain,
      );
      inside = (passable-Legal g goal blocked current.point delta h).on_grid;
    }

    added :
        passable g goal blocked current.point delta ≡ true
        → Relaxed closed current delta fr (record {
          scores =
              insert ℕ_discrete
                (index g (moved current.point delta))
                (successor fl g goal blocked current delta).g
                fr.scores;
          open_nodes = push (less fl) (successor fl g goal blocked current delta) fr.open_nodes;
        })
    unfolding Seen
    added h =
        let next = successor fl g goal blocked current delta in
        let i = index g next.point in
        let laws = λ (w : PathNode F → ℕ).
          push_lem (less fl) Node w next fr.open_nodes (successor-Node h) f.nodes in
        let here : Seen i closed (push (less fl) next fr.open_nodes) =
          ground (arith, (laws (at_cell i)).1) in
        let grows : (j : ℕ)
            → Seen j closed fr.open_nodes
            → Seen j closed (push (less fl) next fr.open_nodes) =
          λ j s. omega (arith, (laws (at_cell j)).1) in
        record {
          fits = record {
            nodes = (laws (λ _. 1)).2;
            scored = λ j v e. elim (ℕ_discrete j i) [
              | yes p ↦ subst (λ c. Seen c closed (push (less fl) next fr.open_nodes)) (sym p) here
              | no p ↦
                  grows j
                    (f.scored j v (ground (arith, lookup-insert ℕ_discrete i j next.g fr.scores)))
            ];
          };
          larger = grows;
          longer = omega (arith, (laws (λ _. 1)).1);
          covered = λ _. here;
        }

    -- A neighbour that the code passes over.
    kept :
        (passable g goal blocked current.point delta ≡ true
          → Seen (index g (moved current.point delta)) closed fr.open_nodes)
        → Relaxed closed current delta fr fr
    kept h = record { fits = f; larger = λ i s. s; longer = omega arith; covered = h }

    skipped_why :
        (not (passable g goal blocked current.point delta)
            || has (index g (moved current.point delta)) closed
            || settled fl
                (successor fl g goal blocked current delta).g
                (lookup ℕ_discrete (index g (moved current.point delta)) fr.scores))
          ≡ true
        → passable g goal blocked current.point delta ≡ true
        → Seen (index g (moved current.point delta)) closed fr.open_nodes
    unfolding Seen
    skipped_why e h =
        let i = index g (moved current.point delta) in
        elim (Option-cases (lookup ℕ_discrete i fr.scores)) [
          | inl o ↦ ground (arith, o)
          | inr (v, o) ↦ f.scored i v o
        ]

    relax_lem : Relaxed closed current delta fr (relax fl g goal blocked closed current delta fr)
    unfolding relax
    relax_lem =
        let i = index g (moved current.point delta) in
        let next = successor fl g goal blocked current delta in
        let test =
          not (passable g goal blocked current.point delta)
          || has i closed
          || settled fl next.g (lookup ℕ_discrete i fr.scores) in
        if_cases (Relaxed closed current delta fr) test fr
          (record {
            scores = insert ℕ_discrete i next.g fr.scores;
            open_nodes = push (less fl) next fr.open_nodes;
          })
          (λ e. kept (skipped_why e)) (λ e. added (ground arith))

  -- What all neighbours of the list change.
  pub record AllRelaxed (closed : List ℕ) (current : PathNode F) (deltas : List (Neighbor F))
      (fr out : Frontier F) : Type 0 where
    pub fits : Fits closed out
    pub larger : (i : ℕ) → Seen i closed fr.open_nodes → Seen i closed out.open_nodes
    pub longer : sum (λ _. 1) out.open_nodes ≤ length deltas + sum (λ _. 1) fr.open_nodes
    pub covered :
        (k : ℕ) (delta : Neighbor F)
        → get_elem? deltas k ≡ some delta
        → passable g goal blocked current.point delta ≡ true
        → Seen (index g (moved current.point delta)) closed out.open_nodes

  module _ (closed : List ℕ) (current : PathNode F) (at : Node current) where
    -- `deltas` are the offsets from the one numbered `m` on.
    pub relax_all_lem :
        (m : ℕ) (deltas : List (Neighbor F)) (fr : Frontier F)
        → ((k : ℕ) → get_elem? (nav_neighbor_offsets fl) (k + m) ≡ get_elem? deltas k)
        → Fits closed fr
        → AllRelaxed closed current deltas fr (relax_all fl g goal blocked closed current deltas fr)
    unfolding relax_all
    relax_all_lem m [] fr at_m f = record {
      fits = f;
      larger = λ i s. s;
      longer = omega arith;
      covered = λ k delta e. cc;
    }
    relax_all_lem m (d ∷ ds) fr at_m f =
        let one = relax_lem closed current (0 + m) d (at_m 0) at fr f in
        let rest =
          relax_all_lem (suc m) ds (relax fl g goal blocked closed current d fr)
            (λ k. ap (get_elem? (nav_neighbor_offsets fl)) (omega arith) ∙ at_m (suc k)) one.fits in
        record {
          fits = rest.fits;
          larger = λ i s. rest.larger i (one.larger i s);
          longer = omega (arith, rest.longer, one.longer);
          covered =
              each_of_cons
                (λ delta.
                  passable g goal blocked current.point delta ≡ true
                  → Seen (index g (moved current.point delta)) closed
                      (relax_all fl g goal blocked closed current ds
                        (relax fl g goal blocked closed current d fr)).open_nodes)
                d ds (λ h. rest.larger (index g (moved current.point d)) (one.covered h))
                rest.covered;
        }
