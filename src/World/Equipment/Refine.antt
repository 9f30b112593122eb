-- ===== src/World/Equipment/Refine.antt =====
-- An equipment is a finite map from slots to stacks.
use text.Mathlib.TextPositions.{compare_refl}
use std.Path.{fun_ext}
use mine_and_die.Prelude.{
  ℕ, ◌+◌, ◌≤◌, ◌≡◌, ◌≢◌, refl, ap, subst, ◌∙◌, List, [], ◌∷◌, ◌++◌, true, Option, none, some, ite,
  String, str_dec, arith, if_cases, ite_cases, ap₂, text_less,
}
use mine_and_die.World.Equipment.Map.{
  Call, stack, handed, stacks_of, counted, once_or_not, gets, removes, sets, drains, replies,
  updated, map_replies,
}
use mine_and_die.World.Items.{ItemStack}
use mine_and_die.World.Equipment.{
  EquippedItem, Equipment, new_equipment, slot_less, sort_in, sort_slots, find_slot, get,
  at_least_one, put, set, without_first, remove, drain_all,
}

-- The entries of a slot.
abbrev entries : String → List EquippedItem → ℕ
entries t [] = 0
entries t (e ∷ slots) = ite (str_dec e.slot t) 1 0 + entries t slots

slot_less-ne : (a b : EquippedItem) → slot_less a b ≡ true → a.slot ≢ b.slot
unfolding slot_less text_less
slot_less-ne a b h e = ground (arith, h, e, compare_refl b.slot)

find_slot-sort_in :
    (t : String) (x : EquippedItem) (slots : List EquippedItem)
    → find_slot t (sort_in x slots) ≡ find_slot t (x ∷ slots)
unfolding find_slot sort_in
find_slot-sort_in t x [] = refl
find_slot-sort_in t x (y ∷ slots) =
    if_cases (λ r. find_slot t r ≡ find_slot t (x ∷ y ∷ slots)) (slot_less y x) _ _
      (λ less. ground (arith, find_slot-sort_in t x slots, slot_less-ne y x less)) (λ no. refl)

entries-sort_in :
    (t : String) (x : EquippedItem) (slots : List EquippedItem)
    → entries t (sort_in x slots) ≡ entries t (x ∷ slots)
unfolding sort_in
entries-sort_in t x [] = refl
entries-sort_in t x (y ∷ slots) =
    if_cases (λ r. entries t r ≡ entries t (x ∷ y ∷ slots)) (slot_less y x) _ _
      (λ less. omega (arith, entries-sort_in t x slots)) (λ no. refl)

find_slot-sort_slots :
    (t : String) (slots : List EquippedItem) → find_slot t (sort_slots slots) ≡ find_slot t slots
unfolding find_slot sort_slots
find_slot-sort_slots t [] = refl
find_slot-sort_slots t (x ∷ slots) =
    find_slot-sort_in t x (sort_slots slots)
    ∙ ap (λ r. ite (str_dec x.slot t) (some x.item) r) (find_slot-sort_slots t slots)

entries-sort_slots :
    (t : String) (slots : List EquippedItem) → entries t (sort_slots slots) ≡ entries t slots
unfolding sort_slots
entries-sort_slots t [] = refl
entries-sort_slots t (x ∷ slots) =
    omega (arith, entries-sort_in t x (sort_slots slots), entries-sort_slots t slots)

find_slot-none :
    (t : String) (slots : List EquippedItem) → entries t slots ≡ 0 → find_slot t slots ≡ none
unfolding find_slot
find_slot-none t [] h = refl
find_slot-none t (e ∷ slots) h = ground (arith, find_slot-none t slots, h)

-- The list with one entry more, and what `Set` finds of the slot before that.
find_slot-snoc :
    (t s : String) (item : ItemStack) (slots : List EquippedItem)
    → find_slot t (slots ++ (record { slot = s; item = item } ∷ []))
      ≡ elim (find_slot t slots) [ some i ↦ some i | none ↦ ite (str_dec s t) (some item) none ]
unfolding find_slot
find_slot-snoc t s item [] = refl
find_slot-snoc t s item (e ∷ slots) = ground (arith, find_slot-snoc t s item slots)

entries-snoc :
    (t s : String) (item : ItemStack) (slots : List EquippedItem)
    → entries t (slots ++ (record { slot = s; item = item } ∷ []))
      ≡ entries t slots + ite (str_dec s t) 1 0
entries-snoc t s item [] = omega arith
entries-snoc t s item (e ∷ slots) = omega (arith, entries-snoc t s item slots)

-- Whether `put` finds the slot, and what it does if so.
abbrev PutCases : String → ItemStack → List EquippedItem → Option (List EquippedItem) → Type 0
PutCases s item slots none = entries s slots ≡ 0
PutCases s item slots (some slots') =
    (t : String)
    → (find_slot t slots' ≡ ite (str_dec s t) (some item) (find_slot t slots))
      × (entries t slots' ≡ entries t slots)

put_cases :
    (s : String) (item : ItemStack) (slots : List EquippedItem)
    → PutCases s item slots (put s item slots)
unfolding put find_slot
put_cases s item [] = refl
put_cases s item (e ∷ slots) =
    ite_cases (PutCases s item (e ∷ slots)) (str_dec e.slot s) _ _
      (λ here. λ t. (ground (arith, here), refl))
      (λ n. later n (put s item slots) (put_cases s item slots))
  where
    later :
        e.slot ≢ s
        → (r : Option (List EquippedItem)) → PutCases s item slots r
        → PutCases s item (e ∷ slots) (elim r [ none ↦ none | some slots' ↦ some (e ∷ slots') ])
    later n none c = ground (arith, c, n)
    later n (some slots') c = λ t. (ground (arith, (c t).0, n), omega (arith, (c t).1))

find_slot-without_first :
    (t s : String) (slots : List EquippedItem)
    → entries s slots ≤ 1
    → find_slot t (without_first s slots) ≡ ite (str_dec s t) none (find_slot t slots)
unfolding find_slot without_first
find_slot-without_first t s [] h = ground arith
find_slot-without_first t s (e ∷ slots) h =
    ground (arith, find_slot-without_first t s slots, find_slot-none s slots, h)

entries-without_first :
    (t s : String) (slots : List EquippedItem) → entries t (without_first s slots) ≤ entries t slots
unfolding without_first
entries-without_first t s [] = omega arith
entries-without_first t s (e ∷ slots) = ground (arith, entries-without_first t s slots)

-- The equipment holds what the map answers, and no slot twice.
record Represents (e : Equipment) (m : String → Option ItemStack) : Type 0 where
  pub found : (t : String) → find_slot t e.slots ≡ m t
  pub once : (t : String) → entries t e.slots ≤ 1

-- A drain hands out the stack of each slot, once.
stacks_of-absent :
    (t : String) (slots : List EquippedItem) → entries t slots ≡ 0 → stacks_of t slots ≡ []
stacks_of-absent t [] h = refl
stacks_of-absent t (e ∷ slots) h = ground (arith, stacks_of-absent t slots, h)

stacks_of-once :
    (t : String) (slots : List EquippedItem)
    → entries t slots ≤ 1
    → stacks_of t slots ≡ once_or_not (find_slot t slots)
unfolding find_slot
stacks_of-once t [] h = refl
stacks_of-once t (e ∷ slots) h = ground (arith, stacks_of-once t slots, stacks_of-absent t slots, h)

at_least_one-counted : (item : ItemStack) → at_least_one item ≡ counted item
at_least_one-counted item = ground arith

set-Represents :
    (s : String) (item : ItemStack) (e : Equipment) (m : String → Option ItemStack)
    → Represents e m
    → Represents (set s item e) (updated s (some (counted item)) m)
unfolding set
set-Represents s item e m r =
    subst (λ x. Represents (set s item e) (updated s (some x) m)) (at_least_one-counted item)
      (placed (put s kept e.slots) (put_cases s kept e.slots))
  where
    kept : ItemStack
    kept = at_least_one item

    longer : List EquippedItem
    longer = e.slots ++ (record { slot = s; item = kept } ∷ [])

    placed :
        (o : Option (List EquippedItem))
        → PutCases s kept e.slots o
        → Represents
            (elim o as (λ _. Equipment) [
              | some slots ↦ record { slots = slots }
              | none ↦ record { slots = sort_slots longer }
            ])
            (updated s (some kept) m)
    placed (some slots) c = record {
      found = λ t. (c t).0 ∙ ap (ite (str_dec s t) (some kept)) (r.found t);
      once = λ t. omega (arith, (c t).1, r.once t);
    }
    placed none c = record {
      found = λ t.
          find_slot-sort_slots t longer
          ∙ find_slot-snoc t s kept e.slots
          ∙ added t (str_dec s t) (m t) (r.found t);
      once = λ t. single t (str_dec s t);
    }
      where
        absent : find_slot s e.slots ≡ none
        absent = find_slot-none s e.slots c

        added :
            (t : String) (d : Dec (s ≡ t)) (v : Option ItemStack)
            → find_slot t e.slots ≡ v
            → (elim (find_slot t e.slots) as (λ _. Option ItemStack) [
              | some i ↦ some i
              | none ↦ ite d (some kept) none
            ])
              ≡ ite d (some kept) v
        added t (yes q) v f = ground (arith, subst (λ i. find_slot i e.slots ≡ none) q absent)
        added t (no n) v f = ground (arith, f)

        single : (t : String) → Dec (s ≡ t) → entries t (sort_slots longer) ≤ 1
        single t d =
            ground (arith, entries-sort_slots t longer, entries-snoc t s kept e.slots, r.once t, c)

remove-Represents :
    (s : String) (e : Equipment) (m : String → Option ItemStack)
    → Represents e m
    → Represents (remove s e).0 (updated s none m)
unfolding remove
remove-Represents s e m r = record {
  found =
      λ t. find_slot-without_first t s e.slots (r.once s) ∙ ap (ite (str_dec s t) none) (r.found t);
  once = λ t. omega (arith, entries-without_first t s e.slots, r.once t);
}

replies_lem :
    (calls : List Call) (e : Equipment) (m : String → Option ItemStack)
    → Represents e m
    → replies e calls ≡ map_replies m calls
unfolding replies map_replies get remove drain_all find_slot
replies_lem [] e m r = refl
replies_lem (gets s ∷ calls) e m r =
    ap₂ (λ x xs. stack x ∷ xs) (r.found s) (replies_lem calls e m r)
replies_lem (removes s ∷ calls) e m r =
    ap₂ (λ x xs. stack x ∷ xs) (r.found s)
      (replies_lem calls (remove s e).0 _ (remove-Represents s e m r))
replies_lem (sets s item ∷ calls) e m r =
    replies_lem calls (set s item e) _ (set-Represents s item e m r)
replies_lem (drains ∷ calls) e m r =
    ap₂ (λ x xs. handed x ∷ xs)
      (fun_ext (λ t. stacks_of-once t e.slots (r.once t) ∙ ap once_or_not (r.found t)))
      (replies_lem calls new_equipment (λ t. none)
        (record { found = λ t. refl; once = λ t. omega arith }))

-- A new equipment answers every sequence of calls as an empty finite map from slots to stacks does:
-- `Get` answers what was last set and not removed since, `Remove` answers that and forgets it, and
-- `DrainAll` hands out the stack of each slot that has one, once, and forgets all. A stack of no
-- more than nothing counts as one item.
pub equipment_refines :
    (calls : List Call) → replies new_equipment calls ≡ map_replies (λ t. none) calls
unfolding find_slot
equipment_refines calls =
    replies_lem calls new_equipment (λ t. none)
      (record { found = λ t. refl; once = λ t. omega arith })
