-- ===== src/Ground/Pickup/Listed.antt =====
-- server/internal/items/ground_items.go: what the search of a pickup finds lies on the ground.
use mine_and_die.Prelude.{
  ◌≡◌, ◌⊎◌, inl, inr, refl, subst, List, [], ◌∷◌, Option, none, some, String, str_dec, arith, All,
  if_cases, ite_cases, if◌then◌else◌,
}
use mine_and_die.Prelude.Int.{pos, leb_ℤ, ◌<ℤ◌, ◌≤ℤ◌}
use mine_and_die.Prelude.Float.{Float64}
use mine_and_die.Ground.Store.{GroundItem, Actor}
use mine_and_die.Ground.Pickup.{Found, best_distance, distance_to, nearer, search_both}

module _ {F : Type 0} where
  -- The item is one of those.
  pub Listed : GroundItem F → List (String × GroundItem F) → Type 0
  Listed item [] = ⊥
  Listed item ((id, x) ∷ items) = (x ≡ item) ⊎ Listed item items

  pub All-Listed :
      (R : GroundItem F → Type 0) (items : List (String × GroundItem F)) (item : GroundItem F)
      → All (λ (e : String × GroundItem F). R e.1) items
      → Listed item items
      → R item
  unfolding Listed
  All-Listed R [] item a l = absurd l
  All-Listed R ((id, x) ∷ items) item a (inl e) = subst R e a.0
  All-Listed R ((id, x) ∷ items) item a (inr l) = All-Listed R items item a.1 l

  -- Whatever was found has the property.
  abbrev pub Holds : (Found F → Type 0) → Option (Found F) → Type 0
  Holds P none = Unit
  Holds P (some f) = P f

  module _ (fl : Float64 F) (actor : Actor F) (item_type : String) where
    open fl use {sub, hypot, lt}

    abbrev pub found_at : GroundItem F → Found F
    found_at item = record {
      item = item;
      distance = hypot (sub item.x actor.x) (sub item.y actor.y);
    }

    nearer-Holds :
        (P : Found F → Type 0) (item : GroundItem F) (best : Option (Found F))
        → P (found_at item)
        → Holds P best
        → Holds P (nearer fl actor item best)
    unfolding nearer distance_to
    nearer-Holds P item best p h =
        let near = lt (found_at item).distance (best_distance fl best) in
        if_cases (Holds P) near (some (found_at item)) best (λ e. p) (λ e. h)

    -- Two properties, of the items with some quantity and of those without, hold of what the search
    -- finds of each.
    pub search_both-Holds :
        (P Q : Found F → Type 0) (items : List (String × GroundItem F))
        (best depleted : Option (Found F))
        → ((item : GroundItem F)
            → Listed item items
            → item.type ≡ item_type
            → pos 0 <ℤ item.qty
            → P (found_at item))
        → ((item : GroundItem F)
            → Listed item items
            → item.type ≡ item_type
            → item.qty ≤ℤ pos 0
            → Q (found_at item))
        → Holds P best
        → Holds Q depleted
        → let r = search_both fl actor item_type items best depleted in Holds P r.0 × Holds Q r.1
    unfolding search_both Listed
    search_both-Holds P Q [] best depleted p q b d = (b, d)
    search_both-Holds P Q ((id, item) ∷ items) best depleted p q b d =
        let at = λ (x y : Option (Found F)). search_both fl actor item_type items x y in
        let R = λ (r : Option (Found F) × Option (Found F)). Holds P r.0 × Holds Q r.1 in
        let go = λ (x y : Option (Found F)) (h : Holds P x) (k : Holds Q y).
          search_both-Holds P Q items x y (λ i l. p i (inr l)) (λ i l. q i (inr l)) h k in
        ite_cases R (str_dec item.type item_type)
          (if leb_ℤ item.qty (pos 0)
            then at best (nearer fl actor item depleted)
            else at (nearer fl actor item best) depleted)
          (at best depleted)
          (λ t.
            if_cases R (leb_ℤ item.qty (pos 0)) _ _
              (λ e.
                go best (nearer fl actor item depleted) b
                  (nearer-Holds Q item depleted (q item (inl refl) t (ground (arith, e))) d))
              (λ e.
                go (nearer fl actor item best) depleted
                  (nearer-Holds P item best (p item (inl refl) t (ground (arith, e))) b) d))
          (λ n. go best depleted b d)
