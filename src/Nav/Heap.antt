-- ===== src/Nav/Heap.antt =====
-- container/heap of Go's library, as server/internal/world/navigation.go uses it: `Push` and `Pop`
-- with the loops `up` and `down`. An index that is out of bounds reads `d`; none is.
pub mod Laws
use mine_and_die.Prelude.{
  ℕ, zero, suc, ◌+◌, ◌-◌, ◌*◌, ◌/◌, Bool, true, false, not, ◌&&◌, ◌||◌, List, [], ◌∷◌, ◌++◌, ltb,
  leb, ◌==◌, get_or, set, take, length, if◌then◌else◌,
}

module _ {A : Type 0} (less : A → A → Bool) (d : A) where
  abbrev pub swap : List A → ℕ → ℕ → List A
  swap h i j = set (set h i (get_or h j d)) j (get_or h i d)

  -- `j` is at least halved, so `j` rounds are enough.
  pub up : ℕ → List A → ℕ → List A
  up zero h j = h
  up (suc fuel) h j =
      let i = (j - 1) / 2 in
      let rest = up fuel (swap h i j) i in
      if i == j || not (less (get_or h j d) (get_or h i d)) then h else rest

  -- The smaller child of `i` below `n`.
  abbrev pub child : List A → ℕ → ℕ → ℕ
  child h i n =
      let left = 2 * i + 1 in
      if ltb (left + 1) n && less (get_or h (left + 1) d) (get_or h left d) then left + 1 else left

  -- `i` goes up to at most `n`, so `n` rounds are enough.
  pub down : ℕ → List A → ℕ → ℕ → List A
  down zero h i n = h
  down (suc fuel) h i n =
      let j = child h i n in
      let rest = down fuel (swap h i j) j n in
      if leb n (2 * i + 1) || not (less (get_or h j d) (get_or h i d)) then h else rest

module _ {A : Type 0} (less : A → A → Bool) where
  unfoldable pub push : A → List A → List A
  unfolding up
  push x h = up less x (suc (length h)) (h ++ (x ∷ [])) (length h)

  -- `Pop` of the heap `x ∷ xs`.
  unfoldable pub pop : A → List A → A × List A
  unfolding down
  pop x xs =
      let n = length xs in
      let h = down less x (suc n) (swap less x (x ∷ xs) 0 n) 0 n in (get_or h n x, take n h)
