-- ===== src/Prelude/Counts.antt =====
-- How often an element stands in a list.
use Prim.Native.Nat.{ℕ, zero, suc, ◌+◌, ◌<◌}
use mathlib.Core.Path.{◌≡◌}
use mathlib.Core.Logic.{ite}
use mathlib.Core.List.{List, [], ◌∷◌, ◌++◌}
use native.Mathlib.Omega.{arith}
use mine_and_die.Prelude.Lists.{length, get_or, set, take}

module _ {ℓ} {A : Type ℓ} (dec : Discrete A) where
  abbrev pub count : A → List A → ℕ
  count a [] = 0
  count a (x ∷ xs) = ite (dec a x) 1 0 + count a xs

  pub count-append : (a : A) (xs ys : List A) → count a (xs ++ ys) ≡ count a xs + count a ys
  count-append a [] ys = omega arith
  count-append a (x ∷ xs) ys = omega (arith, count-append a xs ys)

  -- A write takes one element out and puts one in.
  pub count-set :
      (a : A) (xs : List A) (i : ℕ) (v d : A)
      → i < length xs
      → count a (set xs i v) + ite (dec a (get_or xs i d)) 1 0 ≡ count a xs + ite (dec a v) 1 0
  count-set a [] i v d h = absurd (omega arith)
  count-set a (x ∷ xs) zero v d h = omega arith
  count-set a (x ∷ xs) (suc i) v d h = omega (arith, count-set a xs i v d (omega arith))

  -- The list without its last element.
  pub count-take :
      (a : A) (n : ℕ) (xs : List A) (d : A)
      → length xs ≡ suc n
      → count a (take n xs) + ite (dec a (get_or xs n d)) 1 0 ≡ count a xs
  count-take a n [] d h = absurd (omega arith)
  count-take a zero (x ∷ []) d h = omega arith
  count-take a zero (x ∷ y ∷ ys) d h = absurd (omega arith)
  count-take a (suc n) (x ∷ xs) d h = omega (arith, count-take a n xs d (omega arith))
