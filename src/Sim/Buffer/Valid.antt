-- ===== src/Sim/Buffer/Valid.antt =====
-- The representation invariant of the command buffer: no index leaves the ring.
use mine_and_die.Prelude.{
  ℕ, zero, suc, ◌+◌, ◌%◌, ◌≤◌, ◌<◌, ◌≡◌, ap, List, Option, arith, length, length-set,
  length-replicate,
}
use mine_and_die.Prelude.Int.{ℤ, pos, negsuc}
use mine_and_die.Sim.Buffer.{Buffer, MetricCall, new_buffer, push, drain}
use native.Mathlib.Nat.{mod-lt, mod-add-mod}

pub record IsValid {A : Type 0} (b : Buffer A) : Type 0 where
  pub room : 0 < length b.slots
  pub head_in : b.head < length b.slots
  pub count_in : b.count ≤ length b.slots
  pub tail_at : b.tail ≡ (b.head + b.count) % length b.slots

-- The index that `Push` writes lies in the ring.
pub tail_in : {A : Type 0} (b : Buffer A) → IsValid b → b.tail < length b.slots
tail_in b v = grind (arith, mod-lt)

pub new_buffer-IsValid :
    {A : Type 0} (blank : A) (cap : ℤ) (m : Option (List MetricCall))
    → IsValid (new_buffer blank cap m)
unfolding new_buffer
new_buffer-IsValid blank (pos zero) m = omega arith
new_buffer-IsValid blank (pos (suc n)) m = ground (arith, length-replicate (suc n) blank)
new_buffer-IsValid blank (negsuc n) m = omega arith

next_tail : (h c n : ℕ) → ((h + c) % n + 1) % n ≡ (h + (c + 1)) % n
next_tail h c n = rw mod-add-mod (ap (λ k. k % n) (omega arith))

-- `Push` keeps the invariant.
pub push-IsValid : {A : Type 0} (x : A) (b : Buffer A) → IsValid b → IsValid (push x b).0
unfolding push
push-IsValid x b v =
    ground (arith, length-set b.slots b.tail x, next_tail b.head b.count (length b.slots))

-- `Drain` keeps the invariant.
pub drain-IsValid : {A : Type 0} (blank : A) (b : Buffer A) → IsValid b → IsValid (drain blank b).0
unfolding drain
drain-IsValid blank b v = ground arith
