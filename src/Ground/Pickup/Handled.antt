-- ===== src/Ground/Pickup/Handled.antt =====
-- server/internal/items/ground_items.go: every outcome of a pickup.
use mine_and_die.Prelude.{
  ◌≡◌, ◌⊎◌, inl, inr, refl, true, false, Option, none, some, String, str_dec, if_cases, ite_cases,
  option_cases, subst, arith,
}
use mine_and_die.Prelude.Float.{Float64}
use mine_and_die.World.Items.{ItemStack}
use mine_and_die.Prelude.Int.{pos, ◌<ℤ◌, ◌≤ℤ◌}
use mine_and_die.Ground.Store.{GroundItem, Actor, Ground, remove_ground_item}
use mine_and_die.Ground.Store.Moved.{Without, remove_ground_item-Without}
use mine_and_die.Ground.Pickup.Listed.{Listed, All-Listed, Holds, search_both-Holds}
use mine_and_die.Ground.Pickup.{
  Found, best_distance, distance_to, Outcome, picked, failed, search_both, clear_depleted, too_far,
  take_item, pickup_nearest_item, failure, not_found, out_of_range, inventory_error, PickupResult,
  PickupFailure,
}
use mine_and_die.Ground.Pickup.Nearest.{IsStrict, IsWanted, IsNearest, search_both-IsNearest}

module _ {F : Type 0} (fl : Float64 F) where
  abbrev pub stack_of : Found F → ItemStack
  stack_of f = record {
    type = f.item.type;
    fungibility_key = f.item.fungibility_key;
    quantity = f.item.qty;
  }

  open fl use {lit, sub, lt, eq, hypot, max_float}

  abbrev pub away : Actor F → GroundItem F → F
  away actor item = hypot (sub item.x actor.x) (sub item.y actor.y)

  -- No item on the ground that can be picked up is nearer than that.
  abbrev pub Unbeaten : Actor F → String → Ground F → F → Type 0
  Unbeaten actor item_type g d =
      (item : GroundItem F)
      → Listed item g.items
      → item.type ≡ item_type
      → pos 0 <ℤ item.qty
      → lt (away actor item) d ≡ false

  -- An item on the ground that can be picked up, and none is nearer.
  abbrev pub IsBest : Actor F → String → Ground F → Found F → Type 0
  IsBest actor item_type g f =
      Listed f.item g.items
      × (f.item.type ≡ item_type)
      × (pos 0 <ℤ f.item.qty)
      × (f.distance ≡ away actor f.item)
      × Unbeaten actor item_type g f.distance

  -- There is a limit on the distance, zero included, and it is less than that.
  abbrev pub Beyond : F → F → Type 0
  Beyond max d = ((lt (lit 0 0) max ≡ true) ⊎ (eq (lit 0 0) max ≡ true)) × (lt max d ≡ true)

  module _ (actor : Actor F) (item_type : String) (max : F) (take : ItemStack → Option String) where
    -- A pickup that hands something out.
    pub record Success (g : Ground F) (p : PickupResult F) (g' : Ground F) : Type 0 where
      pub found : Found F
      pub best : IsBest actor item_type g found
      pub result : p ≡ record {
        stack_id = found.item.id;
        quantity = found.item.qty;
        distance = found.distance;
      }
      pub near : ¬ Beyond max found.distance
      pub taken : take (stack_of found) ≡ none
      pub left : Without p.stack_id g g'

    -- An item of the type with nothing left is removed.
    abbrev pub Cleared : Ground F → PickupFailure F → Ground F → Type 0
    Cleared g p g' =
        (item : GroundItem F) × Listed item g.items
        × (item.type ≡ item_type)
        × (item.qty ≤ℤ pos 0)
        × (p.stack_id ≡ item.id)
        × Without item.id g g'

    -- A pickup that hands nothing out, and why.
    pub data Refusal (g : Ground F) (p : PickupFailure F) (g' : Ground F) : Type 0 where
      no_type : item_type ≡ "" → p.reason ≡ not_found → g' ≡ g → Refusal g p g'
      nothing :
          Unbeaten actor item_type g max_float
          → p.reason ≡ not_found
          → (g' ≡ g) ⊎ Cleared g p g'
          → Refusal g p g'
      far :
          (f : Found F)
          → IsBest actor item_type g f
          → Beyond max f.distance
          → p.reason ≡ out_of_range
          → p.stack_id ≡ f.item.id
          → g' ≡ g
          → Refusal g p g'
      refused :
          (f : Found F)
          → IsBest actor item_type g f
          → ¬ Beyond max f.distance
          → take (stack_of f) ≡ some p.err
          → p.reason ≡ inventory_error
          → p.stack_id ≡ f.item.id
          → g' ≡ g
          → Refusal g p g'

    pub IsHandled : Ground F → Outcome F × Ground F → Type 0
    IsHandled g (picked p, g') = Success g p g'
    IsHandled g (failed p, g') = Refusal g p g'

    take_item-IsHandled :
        (f : Found F) (g : Ground F)
        → IsBest actor item_type g f
        → IsHandled g (take_item fl max take f g)
    unfolding take_item failure IsHandled
    take_item-IsHandled f g best =
        let id = f.item.id in
        let success : Outcome F × Ground F = (
          picked (record { stack_id = id; quantity = f.item.qty; distance = f.distance }),
          remove_ground_item id g,
        ) in
        let no : String → Outcome F × Ground F =
          λ err. (failure fl inventory_error id f.distance err, g) in
        let given : Outcome F × Ground F = elim (take (stack_of f)) [
          | none ↦ success
          | some err ↦ no err
        ] in
        if_cases (IsHandled g) (too_far fl max f.distance)
          (failure fl out_of_range id f.distance "", g) given
          (λ e. far f best (beyond e) refl refl refl)
          (λ e.
            option_cases (IsHandled g) (take (stack_of f)) success no
              (λ h. record {
                found = f;
                best = best;
                result = refl;
                near = within e;
                taken = h;
                left = remove_ground_item-Without id g;
              })
              (λ err h. refused f best (within e) h refl refl refl))
      where
        beyond : too_far fl max f.distance ≡ true → Beyond max f.distance
        beyond e = ground (arith, e)

        within : too_far fl max f.distance ≡ false → ¬ Beyond max f.distance
        within e = λ b. ground (arith, e, b)

    -- What the search may find: items to pick up, and items with nothing left.
    abbrev Wanted : Ground F → Found F → Type 0
    Wanted g f =
        Listed f.item g.items
        × (f.item.type ≡ item_type)
        × (pos 0 <ℤ f.item.qty)
        × (f.distance ≡ away actor f.item)

    abbrev Depleted : Ground F → Found F → Type 0
    Depleted g f = Listed f.item g.items × (f.item.type ≡ item_type) × (f.item.qty ≤ℤ pos 0)

    clear_depleted-IsHandled :
        (found : Option (Found F)) (g : Ground F)
        → Unbeaten actor item_type g max_float
        → Holds (Depleted g) found
        → IsHandled g (clear_depleted fl found g)
    unfolding clear_depleted failure IsHandled
    clear_depleted-IsHandled none g h d = nothing h refl (inl refl)
    clear_depleted-IsHandled (some f) g h d =
        nothing h refl (inr (f.item, d.0, d.1, d.2, refl, remove_ground_item-Without f.item.id g))

    unbeaten :
        (g : Ground F) (best : Option (Found F))
        → IsNearest fl actor item_type g.items best
        → Unbeaten actor item_type g (best_distance fl best)
    unfolding distance_to
    unbeaten g best h item l t q =
        All-Listed
          (λ x. IsWanted fl item_type x → lt (away actor x) (best_distance fl best) ≡ false) g.items
          item h l (t, ground (arith, q))

    -- Where the floats are in a strict order: a pickup that succeeds hands over the whole quantity of
    -- an item on the ground that is of the type, is no farther away than the limit, if the limit is
    -- not negative, and has none of the type with some quantity nearer to the actor; the inventory
    -- has taken it, and the entry of its id, and no other, is removed from the ground. One that fails
    -- does so as there is no type, no item nearer than the largest float, the nearest item is past the
    -- limit, or the inventory refuses it; the ground stays as it is, but that where no item was
    -- found, one of the type with nothing left may be removed.
    pub pickup_nearest_item_cases :
        (o : IsStrict fl) (g : Ground F)
        → IsHandled g (pickup_nearest_item fl actor item_type max take g)
    unfolding pickup_nearest_item failure IsHandled
    pickup_nearest_item_cases o g =
        let found = search_both fl actor item_type g.items none none in
        let near = search_both-IsNearest fl o actor item_type g.items none none in
        let (right, spent) =
          search_both-Holds fl actor item_type (Wanted g) (Depleted g) g.items none none
            (λ x l t q. (l, t, q, refl)) (λ x l t q. (l, t, q)) tt tt in
        let given : Outcome F × Ground F = elim found.0 [
          | none ↦ clear_depleted fl found.1 g
          | some f ↦ take_item fl max take f g
        ] in
        ite_cases (IsHandled g) (str_dec item_type "") (failure fl not_found "" (fl.lit 0 0) "", g)
          given (λ e. no_type e refl refl)
          (λ n.
            option_cases (IsHandled g) found.0 (clear_depleted fl found.1 g)
              (λ f. take_item fl max take f g)
              (λ e.
                clear_depleted-IsHandled found.1 g
                  (unbeaten g none (subst (IsNearest fl actor item_type g.items) e near)) spent)
              (λ f e.
                let w = subst (Holds (Wanted g)) e right in
                take_item-IsHandled f g (
                  w.0,
                  w.1,
                  w.2,
                  w.3,
                  unbeaten g (some f) (subst (IsNearest fl actor item_type g.items) e near),
                )))
