-- ===== src/World/Inventory/Bulk/Count.antt =====
-- `QuantityOf` counts what the inventory holds of a type.
use mine_and_die.Prelude.{
  ℕ, ◌+◌, ◌<◌, ◌≡◌, ap, ◌∙◌, List, [], ◌∷◌, String, str_dec, arith, ite_cases, ◌^◌, if◌then◌else◌,
}
use mine_and_die.Prelude.Int.{ℤ, pos, negsuc, pos_part, ltb_ℤ, add_int64, add_int64-pos}
use mine_and_die.World.Inventory.{InventorySlot, Inventory}
use mine_and_die.World.Inventory.Totals.{amount, held}
use mine_and_die.World.Inventory.Bulk.{quantity_from, quantity_of}

-- A positive quantity is added to the total.
counted :
    (n : ℕ) (z : ℤ)
    → n + pos_part z < 2 ^ 63
    → (if ltb_ℤ (pos 0) z then add_int64 (pos n) z else pos n) ≡ pos (n + pos_part z)
counted n (pos k) h = ground (arith, add_int64-pos n k)
counted n (negsuc k) h = ground arith

quantity_from_lem :
    (type : String) (n : ℕ) (slots : List InventorySlot)
    → n + held type slots < 2 ^ 63
    → quantity_from type (pos n) slots ≡ pos (n + held type slots)
unfolding quantity_from
quantity_from_lem type n [] h = ap pos (omega arith)
quantity_from_lem type n (s ∷ slots) h =
    ite_cases (λ r. r ≡ pos (n + held type (s ∷ slots))) (str_dec s.item.type type) _ _
      (λ e.
        let here : amount type s ≡ pos_part s.item.quantity = ground (arith, e) in
        ap (λ x. quantity_from type x slots) (counted n s.item.quantity (omega (arith, h, here)))
        ∙ quantity_from_lem type (n + pos_part s.item.quantity) slots (omega (arith, h, here))
        ∙ ap pos (omega (arith, here)))
      (λ e.
        let here : amount type s ≡ 0 = ground (arith, e) in
        quantity_from_lem type n slots (omega (arith, h, here)) ∙ ap pos (omega (arith, here)))

-- The quantity of an item type is the sum over its slots, where that sum is below 2 ^ 63.
pub quantity_of_lem :
    (type : String) (inv : Inventory)
    → held type inv.slots < 2 ^ 63
    → quantity_of type inv ≡ pos (held type inv.slots)
unfolding quantity_of
quantity_of_lem type inv h =
    quantity_from_lem type 0 inv.slots (omega (arith, h)) ∙ ap pos (omega arith)
