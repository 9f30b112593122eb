-- ===== src/Ground/Pickup/Nearest.antt =====
-- server/internal/items/ground_items.go: what is picked up is the nearest item of its type.
use mine_and_die.Prelude.{
  ◌≡◌, inl, inr, true, false, List, [], ◌∷◌, Option, String, str_dec, arith, All, if_cases,
  ite_cases, if◌then◌else◌, Bool-cases,
}
use mine_and_die.Prelude.Int.{pos, leb_ℤ}
use mine_and_die.Prelude.Float.{Float64}
use mine_and_die.Ground.Store.{GroundItem, Actor}
use mine_and_die.Ground.Pickup.{Found, distance_to, best_distance, nearer, search_both}

module _ {F : Type 0} (fl : Float64 F) where
  open fl use {lt}

  -- A strict order, which the floats have, NaN included.
  pub record IsStrict : Type 0 where
    pub irrefl : (a : F) → lt a a ≡ false
    pub trans : (a b c : F) → lt a b ≡ true → lt b c ≡ true → lt a c ≡ true

  -- An item that can be picked up.
  abbrev pub IsWanted : String → GroundItem F → Type 0
  IsWanted item_type item = (item.type ≡ item_type) × (leb_ℤ item.qty (pos 0) ≡ false)

  -- Nothing that can be picked up is nearer than what was found.
  abbrev pub IsNearest : Actor F → String → List (String × GroundItem F) → Option (Found F) → Type 0
  IsNearest actor item_type items best =
      All
        (λ (e : String × GroundItem F).
          IsWanted item_type e.1 → lt (distance_to fl actor e.1) (best_distance fl best) ≡ false)
        items

  module _ (o : IsStrict) where
    -- Not nearer than one is not nearer than a nearer one.
    farther :
        (d : F) (actor : Actor F) (item : GroundItem F) (best : Option (Found F))
        → lt d (best_distance fl best) ≡ false
        → lt d (best_distance fl (nearer fl actor item best)) ≡ false
    unfolding nearer
    farther d actor item best h =
        if_cases (λ (r : Option (Found F)). lt d (best_distance fl r) ≡ false)
          (lt (distance_to fl actor item) (best_distance fl best)) _ best
          (λ e. elim (Bool-cases (lt d (distance_to fl actor item))) [
            | inr far ↦ far
            | inl near ↦ absurd (
                ground
                  (arith, h, o.trans d (distance_to fl actor item) (best_distance fl best) near e))
          ])
          (λ e. h)

    -- An item is not nearer than the best one after it was looked at.
    looked_at :
        (actor : Actor F) (item : GroundItem F) (best : Option (Found F))
        → lt (distance_to fl actor item) (best_distance fl (nearer fl actor item best)) ≡ false
    unfolding nearer
    looked_at actor item best =
        if_cases
          (λ (r : Option (Found F)). lt (distance_to fl actor item) (best_distance fl r) ≡ false)
          (lt (distance_to fl actor item) (best_distance fl best)) _ best
          (λ e. o.irrefl (distance_to fl actor item)) (λ e. e)

    search_both-keeps :
        (actor : Actor F) (item_type : String) (items : List (String × GroundItem F))
        (best depleted : Option (Found F)) (d : F)
        → lt d (best_distance fl best) ≡ false
        → let r = search_both fl actor item_type items best depleted in
          lt d (best_distance fl r.0) ≡ false
    unfolding search_both
    search_both-keeps actor item_type [] best depleted d h = h
    search_both-keeps actor item_type ((id, item) ∷ items) best depleted d h =
        let at = λ (b : Option (Found F)) (e : Option (Found F)).
          search_both fl actor item_type items b e in
        let P = λ (r : Option (Found F) × Option (Found F)). lt d (best_distance fl r.0) ≡ false in
        ite_cases P (str_dec item.type item_type)
          (if leb_ℤ item.qty (pos 0)
            then at best (nearer fl actor item depleted)
            else at (nearer fl actor item best) depleted)
          (at best depleted)
          (λ e.
            if_cases P (leb_ℤ item.qty (pos 0)) (at best (nearer fl actor item depleted))
              (at (nearer fl actor item best) depleted)
              (λ f.
                search_both-keeps actor item_type items best (nearer fl actor item depleted) d h)
              (λ f.
                search_both-keeps actor item_type items (nearer fl actor item best) depleted d
                  (farther d actor item best h)))
          (λ n. search_both-keeps actor item_type items best depleted d h)

    pub search_both-IsNearest :
        (actor : Actor F) (item_type : String) (items : List (String × GroundItem F))
        (best depleted : Option (Found F))
        → let r = search_both fl actor item_type items best depleted in
          IsNearest actor item_type items r.0
    unfolding search_both
    search_both-IsNearest actor item_type [] best depleted = tt
    search_both-IsNearest actor item_type ((id, item) ∷ items) best depleted =
        let at = λ (b : Option (Found F)) (e : Option (Found F)).
          search_both fl actor item_type items b e in
        let P = λ (r : Option (Found F) × Option (Found F)).
          IsNearest actor item_type ((id, item) ∷ items) r.0 in
        ite_cases P (str_dec item.type item_type)
          (if leb_ℤ item.qty (pos 0)
            then at best (nearer fl actor item depleted)
            else at (nearer fl actor item best) depleted)
          (at best depleted)
          (λ e.
            if_cases P (leb_ℤ item.qty (pos 0)) (at best (nearer fl actor item depleted))
              (at (nearer fl actor item best) depleted)
              (λ f. (
                λ w. absurd (ground (arith, w.1, f)),
                search_both-IsNearest actor item_type items best (nearer fl actor item depleted),
              ))
              (λ f. (
                λ w.
                    search_both-keeps actor item_type items (nearer fl actor item best) depleted
                      (distance_to fl actor item) (looked_at actor item best),
                search_both-IsNearest actor item_type items (nearer fl actor item best) depleted,
              )))
          (λ n. (λ w. absurd (n w.0), search_both-IsNearest actor item_type items best depleted))
