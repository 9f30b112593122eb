-- ===== src/World/Inventory/Bulk/Exact.antt =====
-- `RemoveItemTypeQuantity` removes exactly what is asked for, or all there is.
use mine_and_die.Prelude.{
  ℕ, suc, zero, ◌+◌, ◌-◌, ◌<◌, ◌≡◌, refl, ap, sym, subst, ◌∙◌, Option, none, some, ite, String,
  str_dec, take, get_elem?, length, arith, Option-cases, if_cases, option_cases, leb, if◌then◌else◌,
  ◌⊎◌, inl, inr, min,
}
use mine_and_die.Prelude.Int.{ℤ, pos, pos_part, ◌-ℤ◌, ltb_ℤ, leb_ℤ}
use mine_and_die.World.Items.{ItemStack}
use mine_and_die.World.Inventory.{
  InventorySlot, Inventory, InventoryError, not_enough_of, take_from, remove_quantity,
}
use mine_and_die.World.Inventory.Totals.{
  amount, held, held-take-some, held-take-none, held-take-length, IsTaken, take_from-IsTaken,
  remove_quantity-take_from,
}
use mine_and_die.World.Inventory.Bulk.{
  available, remove_type_below, remove_item_type_quantity, min_ℤ,
}

available-none :
    (type : String) (i : ℕ) (inv : Inventory)
    → available type i inv ≡ none
    → held type (take (suc i) inv.slots) ≡ held type (take i inv.slots)
unfolding available
available-none type i inv e = elim (Option-cases (get_elem? inv.slots i)) [
  | inl g ↦ held-take-none type i inv.slots g
  | inr (s, g) ↦ ground (arith, e, g, held-take-some type i inv.slots s g)
]

-- A slot that holds some of the type.
record Found (type : String) (i : ℕ) (quantity : ℤ) (inv : Inventory) : Type 0 where
  pub s : InventorySlot
  pub k : ℕ
  pub there : get_elem? inv.slots i ≡ some s
  pub same : s.item.type ≡ type
  pub stock : s.item.quantity ≡ pos k
  pub value : quantity ≡ pos k
  pub some_left : 0 < k

available-Found :
    (type : String) (i : ℕ) (quantity : ℤ) (inv : Inventory)
    → available type i inv ≡ some quantity
    → Found type i quantity inv
unfolding available
available-Found type i quantity inv e = elim (Option-cases (get_elem? inv.slots i)) [
  | inl g ↦ absurd (ground (arith, e, g))
  | inr (s, g) ↦ record {
    s = s;
    k = pos_part s.item.quantity;
    there = g;
    same = ground (arith, e, g);
    stock = ground (arith, e, g);
    value = ground (arith, e, g);
    some_left = ground (arith, e, g);
  }
]

-- Of `m` wanted, with `h` at hand, what remains wanted and what is gone.
abbrev Outcome : String → ℕ → ℕ → Inventory → Inventory × ℤ × Option InventoryError → Type 0
Outcome type m h inv (inv', remaining, error) =
    (remaining ≡ pos (m - h))
    × (error ≡ none)
    × ((t : String) → held t inv'.slots + ite (str_dec type t) (min m h) 0 ≡ held t inv.slots)

-- One removal, and what the rest of the loop then does.
then-Outcome :
    (type : String) (i m : ℕ) (quantity : ℤ) (inv inv' : Inventory) (f : Found type i quantity inv)
    (r : Inventory × ℤ × Option InventoryError)
    → IsTaken i (min f.k m) f.s inv inv'
    → Outcome type (m - min f.k m) (held type (take i inv'.slots)) inv' r
    → Outcome type m (held type (take (suc i) inv.slots)) inv r
then-Outcome type i m quantity inv inv' f (inv'', remaining, error) taken (a, b, c) =
    let more = held-take-some type i inv.slots f.s f.there in
    let stock : amount type f.s ≡ f.k = ground (arith, f.same, f.stock) in
    let before = taken.before type in
    (
      a ∙ ap pos (omega (arith, more, stock, before)),
      b,
      λ t. ground (arith, c t, taken.total t, more, stock, before, f.same),
    )

min_ℤ-pos : (k m : ℕ) → min_ℤ (pos k) (pos m) ≡ pos (min k m)
min_ℤ-pos k m = ground arith

left-pos : (k m : ℕ) → pos m -ℤ pos (min k m) ≡ pos (m - min k m)
unfolding ◌-ℤ◌
left-pos k m = ground arith

remove_type_below_lem :
    (n : ℕ) (type : String) (m : ℕ) (inv : Inventory)
    → Outcome type m (held type (take n inv.slots)) inv (remove_type_below n type (pos m) inv)
unfolding remove_type_below take_from
remove_type_below_lem zero type m inv = (ap pos (omega arith), refl, λ t. ground arith)
remove_type_below_lem (suc i) type m inv =
    if_cases Q (leb_ℤ (pos m) (pos 0)) _ _
      (λ e. (ap pos (ground (arith, e)), refl, λ t. ground (arith, e)))
      (λ e.
        option_cases Q (available type i inv) _ _
          (λ a.
            subst (λ h. Outcome type m h inv (remove_type_below i type (pos m) inv))
              (sym (available-none type i inv a)) (remove_type_below_lem i type m inv))
          (λ quantity a.
            let f = available-Found type i quantity inv a in
            let k = min f.k m in
            let after = take_from i f.s (pos k) inv in
            subst (λ x. Q (branch (remove_quantity (pos i) x inv) (pos m -ℤ x)))
              (sym (ap (λ x. min_ℤ x (pos m)) f.value ∙ min_ℤ-pos f.k m))
              (subst (λ x. Q (branch x (pos m -ℤ pos k)))
                (sym (
                  remove_quantity-take_from i k f.k f.s inv f.there f.stock
                    (ground (arith, e, f.some_left)) (omega arith)))
                (subst (λ x. Q (branch after x)) (sym (left-pos f.k m))
                  (then-Outcome type i m quantity inv after.0 f _
                    (take_from-IsTaken i k f.k f.s inv f.there f.stock (omega arith))
                    (remove_type_below_lem i type (m - k) after.0))))))
  where
    Q : Inventory × ℤ × Option InventoryError → Type 0
    Q = Outcome type m (held type (take (suc i) inv.slots)) inv

    branch : Inventory × (ItemStack ⊎ InventoryError) → ℤ → Inventory × ℤ × Option InventoryError
    branch (inv', result) left = elim result [
      | inl _ ↦ remove_type_below i type left inv'
      | inr e ↦ (inv', pos m, some e)
    ]

-- Asked to remove a positive quantity of an item type, the inventory removes that much, or all it
-- holds of the type where it holds less, which is then the error; it answers how much it removed;
-- and what it holds of any other type stays.
pub remove_item_type_quantity_lem :
    (type : String) (q : ℕ) (inv : Inventory)
    → 0 < q
    → let h = held type inv.slots in
      let (inv', removed, error) = remove_item_type_quantity type (pos q) inv in
      (removed ≡ pos (min q h))
      × (error ≡ (if leb q h then none else some (not_enough_of type)))
      × ((t : String) → held t inv'.slots + ite (str_dec type t) (min q h) 0 ≡ held t inv.slots)
unfolding remove_item_type_quantity ◌-ℤ◌
remove_item_type_quantity_lem type q inv p =
    if_cases Q (leb_ℤ (pos q) (pos 0)) _ _ (λ e. absurd (ground (arith, e, p)))
      (λ e.
        subst (λ x. Q (answer x)) (sym (o.1))
          (if_cases Q (ltb_ℤ (pos 0) r.1) _ _
            (λ more. (ground (arith, o.0, more, whole), ground (arith, o.0, more, whole), back))
            (λ done. (ground (arith, o.0, done, whole), ground (arith, o.0, done, whole), back))))
  where
    Q : Inventory × ℤ × Option InventoryError → Type 0
    Q (inv', removed, error) =
        (removed ≡ pos (min q (held type inv.slots)))
        × (error ≡ (if leb q (held type inv.slots) then none else some (not_enough_of type)))
        × ((t : String)
            → held t inv'.slots + ite (str_dec type t) (min q (held type inv.slots)) 0
              ≡ held t inv.slots)

    r : Inventory × ℤ × Option InventoryError
    r = remove_type_below (length inv.slots) type (pos q) inv

    whole : held type (take (length inv.slots) inv.slots) ≡ held type inv.slots
    whole = held-take-length type inv.slots

    o : Outcome type q (held type (take (length inv.slots) inv.slots)) inv r
    o = remove_type_below_lem (length inv.slots) type q inv

    back :
        (t : String)
        → held t r.0.slots + ite (str_dec type t) (min q (held type inv.slots)) 0 ≡ held t inv.slots
    back =
        subst
          (λ h.
            (t : String) → held t r.0.slots + ite (str_dec type t) (min q h) 0 ≡ held t inv.slots)
          whole o.2

    answer : Option InventoryError → Inventory × ℤ × Option InventoryError
    answer error = elim error [
      | some e ↦ (r.0, pos q -ℤ r.1, some e)
      | none ↦
          if ltb_ℤ (pos 0) r.1
          then (r.0, pos q -ℤ r.1, some (not_enough_of type))
          else (r.0, pos q, none)
    ]
