-- ===== src/Prelude/Texts.antt =====
-- The order of texts: Go compares strings byte by byte, which is the order of their characters.
use Prim.Native.Nat.{Ordering}
use Prim.Native.String.{String, compare}
use Prim.Native.String.compare
use mathlib.Core.Path.{◌≡◌}
use mathlib.Core.Bool.{Bool, true, false}
use native.Mathlib.Omega.{arith}
use text.Mathlib.TextEquality.{path_by_compare}
use text.Mathlib.TextPositions.{compare_refl}

unfoldable pub text_less : String → String → Bool
text_less s t = elim (compare s t) [ Ordering.lt ↦ true | _ ↦ false ]

pub text_less_irrefl : (s : String) → text_less s s ≡ false
unfolding text_less
text_less_irrefl s = ground (arith, compare_refl s)

compare_trans :
    (s t u : String)
    → compare s t ≡ Ordering.lt
    → compare t u ≡ Ordering.lt
    → compare s u ≡ Ordering.lt
compare_trans String.[] String.[] u h k = ground (arith, h, compare.nil-nil)
compare_trans String.[] (String.◌∷◌ d t) String.[] h k = ground (arith, k, compare.cons-nil d t)
compare_trans String.[] (String.◌∷◌ d t) (String.◌∷◌ e u) h k = compare.nil-cons e u
compare_trans (String.◌∷◌ c s) String.[] u h k = ground (arith, h, compare.cons-nil c s)
compare_trans (String.◌∷◌ c s) (String.◌∷◌ d t) String.[] h k =
    ground (arith, k, compare.cons-nil d t)
compare_trans (String.◌∷◌ c s) (String.◌∷◌ d t) (String.◌∷◌ e u) h k = ground (
  arith,
  h,
  k,
  compare.cons-cons c d s t,
  compare.cons-cons d e t u,
  compare.cons-cons c e s u,
  compare_trans s t u,
)

pub text_less_trans :
    (s t u : String) → text_less s t ≡ true → text_less t u ≡ true → text_less s u ≡ true
unfolding text_less
text_less_trans s t u h k = ground (arith, compare_trans s t u, h, k)

compare_connex :
    (s t : String) → text_less s t ≡ false → text_less t s ≡ false → compare s t ≡ Ordering.eq
unfolding text_less
compare_connex String.[] String.[] h k = compare.nil-nil
compare_connex String.[] (String.◌∷◌ d t) h k = ground (arith, h, compare.nil-cons d t)
compare_connex (String.◌∷◌ c s) String.[] h k = ground (arith, k, compare.nil-cons c s)
compare_connex (String.◌∷◌ c s) (String.◌∷◌ d t) h k =
    ground (arith, h, k, compare.cons-cons c d s t, compare.cons-cons d c t s, compare_connex s t)

-- Texts of which neither is less are equal.
pub text_less_connex : (s t : String) → text_less s t ≡ false → text_less t s ≡ false → s ≡ t
text_less_connex s t h k = path_by_compare s t (compare_connex s t h k)
