-- ===== src/Sim/Buffer/Refine.antt =====
-- The ring behaves as the bounded queue.
use mine_and_die.Prelude.{
  ℕ, zero, suc, ◌+◌, ◌-◌, ◌%◌, ◌≤◌, ◌<◌, ◌≡◌, ◌≢◌, refl, ap, ap₂, ◌∙◌, sym, List, [], ◌∷◌, ◌++◌,
  Option, arith, length, set, length-set, length-replicate, get_or-set_self, get_or-set_ne, dec_lt,
  ℕ_discrete, true, false, ◌⊎◌, inl, inr,
}
use mine_and_die.Prelude.Int.{ℤ}
use mine_and_die.Sim.Buffer.{
  Buffer, MetricCall, Call, pushes, drains, lens, new_buffer, push, drain, len, read_ring, run,
  capacity_of,
}
use mine_and_die.Sim.Buffer.Queue
use mine_and_die.Sim.Buffer.Valid.{IsValid, new_buffer-IsValid, push-IsValid, drain-IsValid}
use native.Mathlib.Nat.{mod-lt, mod-eq_of_lt, mod-add-mod, mod-eq-sub-mod}

-- The commands held, oldest first.
abbrev pub contents : {A : Type 0} → A → Buffer A → List A
contents blank b = read_ring blank b.slots b.head 0 b.count

pub length-contents :
    {A : Type 0} (blank : A) (s : List A) (h i n : ℕ) → length (read_ring blank s h i n) ≡ n
unfolding read_ring
length-contents blank s h i zero = refl
length-contents blank s h i (suc n) = ap suc (length-contents blank s h (i + 1) n)

-- Fewer than `n` steps round the ring do not lead back to the start.
around-ne : {n a k : ℕ} → a < n → suc k < n → (a + suc k) % n ≢ a
around-ne {n} {a} {k} ha hk = elim (dec_lt (a + suc k) n) [
  | yes p ↦ omega (arith, mod-eq_of_lt p)
  | no p ↦ omega (
    arith,
    mod-eq-sub-mod {n = a + suc k} {m = n} (omega arith),
    mod-eq_of_lt {n = a + suc k - n} {m = n} (omega arith),
  )
]

apart : (n a k : ℕ) → 0 < n → suc k < n → (a + suc k) % n ≢ a % n
apart n a k hn hk e =
    around-ne {n = n} {a = a % n} {k = k} (mod-lt a hn) hk (mod-add-mod a n (suc k) ∙ e)

-- Writing just past a window extends it by the entry written.
read_ring-set :
    {A : Type 0} (blank x : A) (s : List A) (h i n t : ℕ)
    → n < length s
    → t ≡ (h + (i + n)) % length s
    → read_ring blank (set s t x) h i (suc n) ≡ read_ring blank s h i n ++ (x ∷ [])
unfolding read_ring
read_ring-set blank x s h i zero t hn e =
    ap (λ y. y ∷ [])
      (rw (length-set s t x, here, ← e) (get_or-set_self s t x blank (rw e (mod-lt _ hn))))
  where
    here : (h + i) % length s ≡ (h + (i + 0)) % length s
    here = ap (λ k. k % length s) (omega arith)
read_ring-set blank x s h i (suc n) t hn e =
    ap₂ ◌∷◌ (rw (length-set s t x) (get_or-set_ne s x blank other)) (
      read_ring-set blank x s h (i + 1) n t (omega arith)
        (e ∙ ap (λ k. k % length s) (omega arith)))
  where
    other : t ≢ (h + i) % length s
    other p =
        apart (length s) (h + i) n (omega arith) hn
          (ap (λ k. k % length s) (omega arith) ∙ sym e ∙ p)

-- A push answers as the queue's does, and leaves the queue's new content.
push_refines :
    {A : Type 0} (blank x : A) (b : Buffer A)
    → IsValid b
    → let (b', r) = push x b in
      (contents blank b', r) ≡ Queue.push (length b.slots) x (contents blank b)
unfolding push Queue.push
push_refines blank x b v = ground (
  arith,
  length-contents blank b.slots b.head 0 b.count,
  length-set b.slots b.tail x,
  read_ring-set blank x b.slots b.head 0 b.count b.tail,
)

-- A push is refused exactly at the capacity, and then the content stays.
pub push_cases :
    {A : Type 0} (blank x : A) (b : Buffer A)
    → IsValid b
    → ((push x b).1 ≡ false)
        × (length b.slots ≤ b.count)
        × (contents blank (push x b).0 ≡ contents blank b)
      ⊎ ((push x b).1 ≡ true)
        × (b.count < length b.slots)
        × (contents blank (push x b).0 ≡ contents blank b ++ (x ∷ []))
        × ((push x b).0.count ≡ b.count + 1)
unfolding push
push_cases blank x b v = elim (ℕ_discrete b.count (length b.slots)) [
  | yes p ↦ inl (ground arith, ground arith, ground arith)
  | no p ↦ inr (
    ground arith,
    ground arith,
    ground
        (arith, length-set b.slots b.tail x, read_ring-set blank x b.slots b.head 0 b.count b.tail),
    ground arith,
  )
]

-- A drain hands over the queue in order and leaves it empty.
pub drain_refines :
    {A : Type 0} (blank : A) (b : Buffer A)
    → let (b', xs) = drain blank b in (xs ≡ contents blank b) × (contents blank b' ≡ [])
unfolding drain read_ring
drain_refines blank b = ground arith

capacity-push : {A : Type 0} (x : A) (b : Buffer A) → length (push x b).0.slots ≡ length b.slots
unfolding push
capacity-push x b = ground (arith, length-set b.slots b.tail x)

capacity-drain :
    {A : Type 0} (blank : A) (b : Buffer A) → length (drain blank b).0.slots ≡ length b.slots
unfolding drain
capacity-drain blank b = ground arith

module _ {A : Type 0} (blank : A) where
  pub contents-new_buffer :
      (cap : ℤ) (m : Option (List MetricCall)) → contents blank (new_buffer blank cap m) ≡ []
  unfolding new_buffer read_ring
  contents-new_buffer cap m = refl

  run_refines_from :
      (calls : List (Call A)) (b : Buffer A)
      → IsValid b
      → run blank b calls ≡ Queue.run (length b.slots) (contents blank b) calls
  unfolding run Queue.run len
  run_refines_from [] b v = refl
  run_refines_from (pushes x ∷ calls) b v = rw (
    run_refines_from calls (push x b).0 (push-IsValid x b v),
    ← push_refines blank x b v,
    capacity-push,
  )
  run_refines_from (drains ∷ calls) b v = rw (
    run_refines_from calls (drain blank b).0 (drain-IsValid blank b v),
    capacity-drain,
    (drain_refines blank b).1,
    (drain_refines blank b).0,
  )
  run_refines_from (lens ∷ calls) b v =
      rw (run_refines_from calls b v, length-contents blank b.slots b.head 0 b.count, len)

  -- A new buffer answers every sequence of calls as an empty bounded queue of its capacity does:
  -- commands come out in the order of their pushes, a push is refused exactly at the capacity, and
  -- a drain empties the buffer. A capacity below one counts as one.
  pub run_refines :
      (cap : ℤ) (m : Option (List MetricCall)) (calls : List (Call A))
      → run blank (new_buffer blank cap m) calls ≡ Queue.run (capacity_of cap) [] calls
  unfolding new_buffer read_ring
  run_refines cap m calls =
      run_refines_from calls (new_buffer blank cap m) (new_buffer-IsValid blank cap m)
      ∙ ap (λ n. Queue.run n [] calls) (length-replicate (capacity_of cap) blank)
