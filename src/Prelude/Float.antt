-- ===== src/Prelude/Float.antt =====
-- float64, which the development takes as a parameter: the operations that the program uses, with no
-- laws. `lit m k` is the literal m / 10^k.
use Prim.Native.Nat.{ℕ, ◌^◌}
use mathlib.Core.Bool.{Bool}
use mine_and_die.Prelude.Int.{ℤ, pos, ◌+ℤ◌, ◌-ℤ◌, ltb_ℤ, pos_part, neg_part}
use mine_and_die.Prelude.Tests.{◌==◌, if◌then◌else◌}

pub record Float64 (F : Type 0) : Type 0 where
  pub lit : ℕ → ℕ → F
  pub add : F → F → F
  pub sub : F → F → F
  pub mul : F → F → F
  pub div : F → F → F
  pub pow : F → F → F
  pub lt : F → F → Bool
  pub eq : F → F → Bool
  pub abs : F → F
  pub hypot : F → F → F
  pub cos : F → F
  pub sin : F → F
  pub max_float : F
  pub floor_int : F → ℤ
  pub ceil_int : F → ℤ
  pub trunc_int : F → ℤ
  pub of_int : ℤ → F

-- Whole numbers, for the tests: a literal keeps the digits before the point.
abbrev pub whole_numbers : Float64 ℤ
whole_numbers = record {
  lit = λ m k. if k == 0 then pos m else pos 0;
  add = ◌+ℤ◌;
  sub = ◌-ℤ◌;
  mul = λ a b. pos (Prim.Native.Nat.◌*◌ (pos_part a) (pos_part b));
  div = λ a b. a;
  pow = λ a b. a;
  lt = ltb_ℤ;
  eq = λ a b. if ltb_ℤ a b then Bool.false else if ltb_ℤ b a then Bool.false else Bool.true;
  abs = λ a. pos (Prim.Native.Nat.◌+◌ (pos_part a) (neg_part a));
  hypot = λ a b. pos (
      Prim.Native.Nat.◌+◌ (Prim.Native.Nat.◌+◌ (pos_part a) (neg_part a))
        (Prim.Native.Nat.◌+◌ (pos_part b) (neg_part b)));
  cos = λ a. a;
  sin = λ a. a;
  max_float = pos (2 ^ 1023);
  floor_int = λ a. a;
  ceil_int = λ a. a;
  trunc_int = λ a. a;
  of_int = λ a. a;
}
