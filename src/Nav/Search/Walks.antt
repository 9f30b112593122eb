-- ===== src/Nav/Search/Walks.antt =====
-- The legal moves on the grid of server/internal/world/navigation.go, and walks of such moves.
use mine_and_die.Prelude.{ℕ, ◌≡◌, refl, sym, ap, ◌∙◌, subst, List, [], ◌∷◌, ◌++◌, some, get_elem?}
use mine_and_die.Prelude.Float.{Float64}
use mine_and_die.Nav.{Point, Neighbor, Grid, moved, nav_neighbor_offsets}
use mine_and_die.Nav.Search.Moves.{Legal}
use mathlib.Core.List.{reverse, reverse-cons}

module _ {F : Type 0} (fl : Float64 F) (g : Grid F) (start goal : Point) (blocked : List ℕ) where
  pub record Move (p q : Point) : Type 0 where
    pub number : ℕ
    pub delta : Neighbor F
    pub listed : get_elem? (nav_neighbor_offsets fl) number ≡ some delta
    pub legal : Legal g goal blocked p delta
    pub lands : moved p delta ≡ q

  -- `ps` are the cells that follow `p`, the last of which is `q`.
  abbrev pub Walk : Point → List Point → Point → Type 0
  Walk p [] q = p ≡ q
  Walk p (r ∷ ps) q = Move p r × Walk r ps q

  unfoldable pub Reachable : Type 0
  Reachable = (ps : List Point) × Walk start ps goal

  -- The cells before `q`, the nearest first, as the parents of a node give them.
  abbrev pub Chain : Point → List Point → Type 0
  Chain q [] = start ≡ q
  Chain q (p ∷ t) = Move p q × Chain p t

  Walk-snoc : (a p q : Point) (ps : List Point) → Walk a ps p → Move p q → Walk a (ps ++ q ∷ []) q
  Walk-snoc a p q [] w m = (subst (λ b. Move b q) (sym w) m, refl)
  Walk-snoc a p q (r ∷ ps) w m = (w.0, Walk-snoc r p q ps w.1 m)

  -- The list of a node's chain, turned round, is a walk from the start.
  pub Chain-Walk :
      (q : Point) (t : List Point)
      → Chain q t
      → (ps : List Point) × (reverse (q ∷ t) ≡ start ∷ ps) × Walk start ps q
  Chain-Walk q [] c = ([], ap (λ b. b ∷ []) (sym c), c)
  Chain-Walk q (p ∷ t) c =
      let r = Chain-Walk p t c.1 in
      (
        r.0 ++ q ∷ [],
        reverse-cons q (p ∷ t) ∙ ap (λ l. l ++ q ∷ []) r.1,
        Walk-snoc start p q r.0 r.2 c.0,
      )
