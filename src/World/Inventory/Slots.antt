-- ===== src/World/Inventory/Slots.antt =====
-- The index of a slot is its position: the methods that change one slot, or two.
use mine_and_die.Prelude.{
  ℕ, suc, zero, ◌+◌, ◌≡◌, refl, ap, subst, List, [], ◌∷◌, ◌++◌, Bool, true, false, Option, none,
  some, String, length, set, get_elem?, ite_cases, if_cases, option_cases, arith, ◌⊎◌, str_dec,
  ◌==◌, inl,
}
use mine_and_die.Prelude.Int.{ℤ, pos, leb_ℤ, ltb_ℤ, ◌-ℤ◌, ℤ_discrete}
use mine_and_die.World.Items.{ItemDefinition, ItemStack}
use mine_and_die.World.Inventory.{
  InventorySlot, Inventory, InventoryError, position, renumber, merge, append_stack, place,
  add_stack, move_slot, take_from, remove_quantity,
}

abbrev IndexedFrom : ℕ → List InventorySlot → Type 0
IndexedFrom i [] = Unit
IndexedFrom i (s ∷ slots) = (s.slot ≡ pos i) × IndexedFrom (suc i) slots

-- Each slot holds its own position.
abbrev pub IsIndexed : Inventory → Type 0
IsIndexed inv = IndexedFrom 0 inv.slots

renumber-IndexedFrom : (i : ℕ) (slots : List InventorySlot) → IndexedFrom i (renumber i slots)
renumber-IndexedFrom i [] = tt
renumber-IndexedFrom i (s ∷ slots) = (refl, renumber-IndexedFrom (suc i) slots)

snoc-IndexedFrom :
    (i : ℕ) (slots : List InventorySlot) (s : InventorySlot)
    → s.slot ≡ pos (i + length slots)
    → IndexedFrom i slots
    → IndexedFrom i (slots ++ (s ∷ []))
snoc-IndexedFrom i [] s e h = (ground (arith, e), tt)
snoc-IndexedFrom i (t ∷ slots) s e h =
    (h.0, snoc-IndexedFrom (suc i) slots s (ground (arith, e)) h.1)

set-IndexedFrom :
    (i n : ℕ) (slots : List InventorySlot) (s : InventorySlot) (item : ItemStack)
    → get_elem? slots n ≡ some s
    → IndexedFrom i slots
    → IndexedFrom i (set slots n (record s { item = item }))
set-IndexedFrom i n [] s item e h = tt
set-IndexedFrom i zero (t ∷ slots) s item e h = (ground (arith, e, h.0), h.1)
set-IndexedFrom i (suc n) (t ∷ slots) s item e h =
    (h.0, set-IndexedFrom (suc i) n slots s item e h.1)

abbrev MergedFrom : ℕ → Option (List InventorySlot × ℤ) → Type 0
MergedFrom i none = Unit
MergedFrom i (some (slots, k)) = IndexedFrom i slots

merge-IndexedFrom :
    (i : ℕ) (key : String) (q : ℤ) (slots : List InventorySlot)
    → IndexedFrom i slots
    → MergedFrom i (merge key q slots)
unfolding merge
merge-IndexedFrom i key q [] h = tt
merge-IndexedFrom i key q (s ∷ slots) h =
    ite_cases (MergedFrom i) (str_dec s.item.fungibility_key key) _ _ (λ e. h)
      (λ n. step (merge key q slots) (merge-IndexedFrom (suc i) key q slots h.1))
  where
    step :
        (r : Option (List InventorySlot × ℤ))
        → MergedFrom (suc i) r
        → MergedFrom i (elim r [ none ↦ none | some (slots', k) ↦ some (s ∷ slots', k) ])
    step none m = tt
    step (some (slots', k)) m = (h.0, m)

append_stack-IsIndexed :
    (stack : ItemStack) (inv : Inventory) → IsIndexed inv → IsIndexed (append_stack stack inv).0
unfolding append_stack
append_stack-IsIndexed stack inv h =
    snoc-IndexedFrom 0 inv.slots (record { slot = pos (length inv.slots); item = stack })
      (ap pos (omega arith)) h

place-IsIndexed :
    (b : Bool) (stack : ItemStack) (inv : Inventory)
    → IsIndexed inv
    → IsIndexed (place b stack inv).0
unfolding place
place-IsIndexed false stack inv h = append_stack-IsIndexed stack inv h
place-IsIndexed true stack inv h =
    option_cases (λ (r : Inventory × (ℤ ⊎ InventoryError)). IsIndexed r.0) merged
      (append_stack stack inv) (λ r. (record { slots = r.0 }, inl r.1))
      (λ e. append_stack-IsIndexed stack inv h)
      (λ r e.
        subst (MergedFrom 0) e
          (merge-IndexedFrom 0 stack.fungibility_key stack.quantity inv.slots h))
  where
    merged : Option (List InventorySlot × ℤ)
    merged = merge stack.fungibility_key stack.quantity inv.slots

module _ {F : Type 0} (definition_for : String → Option (ItemDefinition F)) where
  pub add_stack-IsIndexed :
      (stack : ItemStack) (inv : Inventory)
      → IsIndexed inv
      → IsIndexed (add_stack definition_for stack inv).0
  unfolding add_stack
  add_stack-IsIndexed stack inv h =
      if_cases Q (leb_ℤ stack.quantity (pos 0)) _ _ (λ e. h)
        (λ e.
          option_cases Q (definition_for stack.type) _ _ (λ e. h)
            (λ def e.
              ite_cases Q (str_dec _ def.fungibility_key) _ _
                (λ p. place-IsIndexed def.stackable _ inv h) (λ n. h)))
    where
      Q : Inventory × (ℤ ⊎ InventoryError) → Type 0
      Q r = IsIndexed r.0

pub move_slot-IsIndexed :
    (from to : ℤ) (inv : Inventory) → IsIndexed inv → IsIndexed (move_slot from to inv).0
unfolding move_slot
move_slot-IsIndexed from to inv h =
    option_cases Q (position from inv.slots) _ _ (λ e. h)
      (λ f e.
        option_cases Q (position to inv.slots) _ _ (λ e. h)
          (λ t e. if_cases Q (f == t) _ _ (λ e. h) (λ e. renumber-IndexedFrom 0 _)))
  where
    Q : Inventory × Option InventoryError → Type 0
    Q r = IsIndexed r.0

pub remove_quantity-IsIndexed :
    (index quantity : ℤ) (inv : Inventory)
    → IsIndexed inv
    → IsIndexed (remove_quantity index quantity inv).0
unfolding remove_quantity take_from
remove_quantity-IsIndexed index quantity inv h =
    option_cases Q (position index inv.slots) _ _ (λ e. h)
      (λ i e.
        if_cases Q (leb_ℤ quantity (pos 0)) _ _ (λ e. h)
          (λ e.
            option_cases Q (get_elem? inv.slots i) _ _ (λ e. h)
              (λ s found.
                if_cases Q (ltb_ℤ s.item.quantity quantity) _ _ (λ e. h)
                  (λ e.
                    ite_cases IsIndexed (ℤ_discrete (s.item.quantity -ℤ quantity) (pos 0)) _ _
                      (λ z. renumber-IndexedFrom 0 _)
                      (λ z. set-IndexedFrom 0 i inv.slots s _ found h)))))
  where
    Q : Inventory × (ItemStack ⊎ InventoryError) → Type 0
    Q r = IsIndexed r.0
