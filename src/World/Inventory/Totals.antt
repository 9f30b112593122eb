-- ===== src/World/Inventory/Totals.antt =====
-- How much of an item type an inventory holds, as a plain sum, and what changing a slot does to it.
use mine_and_die.Prelude.{
  ℕ, suc, zero, ◌+◌, ◌<◌, ◌≤◌, ◌≡◌, refl, ap, ◌∙◌, List, [], ◌∷◌, none, some, ite, String, str_dec,
  take, set, get_elem?, length, arith, ite_cases,
}
use mine_and_die.Prelude.Int.{ℤ, pos, negsuc, pos_part, ◌-ℤ◌, ℤ_discrete}
use mine_and_die.World.Inventory.{
  InventorySlot, Inventory, renumber, remove_at, take_from, remove_quantity,
}

-- How much of the type the slot holds; a negative quantity counts as none.
abbrev pub amount : String → InventorySlot → ℕ
amount type s = ite (str_dec s.item.type type) (pos_part s.item.quantity) 0

abbrev pub held : String → List InventorySlot → ℕ
held type [] = 0
held type (s ∷ slots) = amount type s + held type slots

held-renumber :
    (type : String) (i : ℕ) (slots : List InventorySlot)
    → held type (renumber i slots) ≡ held type slots
held-renumber type i [] = refl
held-renumber type i (s ∷ slots) = ap (◌+◌ (amount type s)) (held-renumber type (suc i) slots)

held-take-renumber :
    (type : String) (n i : ℕ) (slots : List InventorySlot)
    → held type (take n (renumber i slots)) ≡ held type (take n slots)
held-take-renumber type zero i slots = refl
held-take-renumber type (suc n) i [] = refl
held-take-renumber type (suc n) i (s ∷ slots) =
    ap (◌+◌ (amount type s)) (held-take-renumber type n (suc i) slots)

held-set :
    (type : String) (i : ℕ) (slots : List InventorySlot) (s r : InventorySlot)
    → get_elem? slots i ≡ some s
    → held type (set slots i r) + amount type s ≡ held type slots + amount type r
held-set type i [] s r e = ground (arith, e)
held-set type zero (t ∷ slots) s r e = ground (arith, e)
held-set type (suc i) (t ∷ slots) s r e = omega (arith, held-set type i slots s r e)

held-remove_at :
    (type : String) (i : ℕ) (slots : List InventorySlot) (s : InventorySlot)
    → get_elem? slots i ≡ some s
    → held type (remove_at i slots) + amount type s ≡ held type slots
held-remove_at type i [] s e = ground (arith, e)
held-remove_at type zero (t ∷ slots) s e = ground (arith, e)
held-remove_at type (suc i) (t ∷ slots) s e = omega (arith, held-remove_at type i slots s e)

take-set :
    (i : ℕ) (slots : List InventorySlot) (r : InventorySlot) → take i (set slots i r) ≡ take i slots
take-set zero slots r = refl
take-set (suc i) [] r = refl
take-set (suc i) (t ∷ slots) r = ap (◌∷◌ t) (take-set i slots r)

get_elem?-set :
    (i : ℕ) (slots : List InventorySlot) (s r : InventorySlot)
    → get_elem? slots i ≡ some s
    → get_elem? (set slots i r) i ≡ some r
get_elem?-set i [] s r e = ground (arith, e)
get_elem?-set zero (t ∷ slots) s r e = refl
get_elem?-set (suc i) (t ∷ slots) s r e = get_elem?-set i slots s r e

take-remove_at :
    (i : ℕ) (slots : List InventorySlot) (s : InventorySlot)
    → get_elem? slots i ≡ some s
    → take i (remove_at i slots) ≡ take i slots
take-remove_at zero slots s e = refl
take-remove_at (suc i) [] s e = refl
take-remove_at (suc i) (t ∷ slots) s e = ap (◌∷◌ t) (take-remove_at i slots s e)

pub held-take-some :
    (type : String) (i : ℕ) (slots : List InventorySlot) (s : InventorySlot)
    → get_elem? slots i ≡ some s
    → held type (take (suc i) slots) ≡ held type (take i slots) + amount type s
held-take-some type i [] s e = ground (arith, e)
held-take-some type zero (t ∷ slots) s e = ground (arith, e)
held-take-some type (suc i) (t ∷ slots) s e = omega (arith, held-take-some type i slots s e)

pub held-take-none :
    (type : String) (i : ℕ) (slots : List InventorySlot)
    → get_elem? slots i ≡ none
    → held type (take (suc i) slots) ≡ held type (take i slots)
held-take-none type zero [] e = refl
held-take-none type (suc i) [] e = refl
held-take-none type zero (t ∷ slots) e = ground (arith, e)
held-take-none type (suc i) (t ∷ slots) e = omega (arith, held-take-none type i slots e)

pub held-take-length :
    (type : String) (slots : List InventorySlot)
    → held type (take (length slots) slots) ≡ held type slots
held-take-length type [] = refl
held-take-length type (s ∷ slots) = ap (◌+◌ (amount type s)) (held-take-length type slots)

get_elem?-bound :
    (i : ℕ) (slots : List InventorySlot) (s : InventorySlot)
    → get_elem? slots i ≡ some s
    → i < length slots
get_elem?-bound i [] s e = ground (arith, e)
get_elem?-bound zero (t ∷ slots) s e = omega arith
get_elem?-bound (suc i) (t ∷ slots) s e = omega (arith, get_elem?-bound i slots s e)

-- What a removal of `k` from the slot `s` at the position `i` does: it takes `k` from what the
-- inventory holds of the slot's type, and nothing from any other type; and what stands before the
-- slot holds what it did.
pub record IsTaken (i k : ℕ) (s : InventorySlot) (inv inv' : Inventory) : Type 0 where
  pub total :
      (type : String)
      → held type inv'.slots + ite (str_dec s.item.type type) k 0 ≡ held type inv.slots
  pub before : (type : String) → held type (take i inv'.slots) ≡ held type (take i inv.slots)

taken_parts : (z : ℤ) (k a : ℕ) → z ≡ pos a → k ≤ a → pos_part (z -ℤ pos k) + k ≡ pos_part z
unfolding ◌-ℤ◌
taken_parts (pos n) k a e h = ground (arith, e)
taken_parts (negsuc n) k a e h = ground (arith, e)

pub take_from-IsTaken :
    (i k a : ℕ) (s : InventorySlot) (inv : Inventory)
    → get_elem? inv.slots i ≡ some s
    → s.item.quantity ≡ pos a
    → k ≤ a
    → IsTaken i k s inv (take_from i s (pos k) inv).0
unfolding take_from
take_from-IsTaken i k a s inv e q h =
    ite_cases (IsTaken i k s inv) (ℤ_discrete (s.item.quantity -ℤ pos k) (pos 0)) _ _
      (λ z. record {
        total = λ type. ground (
          arith,
          held-renumber type 0 (remove_at i slots),
          held-remove_at type i slots left found,
          held-set type i inv.slots s left e,
          parts,
        );
        before = λ type.
            held-take-renumber type i 0 (remove_at i slots)
            ∙ ap (held type) (take-remove_at i slots left found ∙ take-set i inv.slots left);
      })
      (λ z. record {
        total = λ type. ground (arith, held-set type i inv.slots s left e, parts);
        before = λ type. ap (held type) (take-set i inv.slots left);
      })
  where
    left : InventorySlot
    left = record s { item = record s.item { quantity = s.item.quantity -ℤ pos k } }

    slots : List InventorySlot
    slots = set inv.slots i left

    found : get_elem? slots i ≡ some left
    found = get_elem?-set i inv.slots s left e

    parts : pos_part (s.item.quantity -ℤ pos k) + k ≡ pos_part s.item.quantity
    parts = taken_parts s.item.quantity k a q h

-- A removal that asks for no more than the slot holds.
pub remove_quantity-take_from :
    (i k a : ℕ) (s : InventorySlot) (inv : Inventory)
    → get_elem? inv.slots i ≡ some s
    → s.item.quantity ≡ pos a
    → 0 < k
    → k ≤ a
    → remove_quantity (pos i) (pos k) inv ≡ take_from i s (pos k) inv
unfolding remove_quantity
remove_quantity-take_from i k a s inv e q p h =
    ground (arith, e, q, get_elem?-bound i inv.slots s e)
