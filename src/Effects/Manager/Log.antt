-- ===== src/Effects/Manager/Log.antt =====
-- The events of one instance in what the manager of server/internal/world/effects/manager.go emits:
-- their sequence numbers, how many of them are ends, and how many come after an end.
use mine_and_die.Prelude.{
  ℕ, zero, suc, ◌+◌, ◌≡◌, refl, ap, Bool, true, false, List, [], ◌∷◌, ◌++◌, String, str_dec, ite,
  if◌then◌else◌, ltb, arith,
}
use mine_and_die.Prelude.Int.{ℤ, pos, add_int64}
use mine_and_die.Effects.Manager.{LifecycleEvent, spawned, updated, ended}

abbrev pub event_id : LifecycleEvent → String
event_id (spawned e) = e.spawned.id
event_id (updated e) = e.id
event_id (ended e) = e.id

abbrev pub event_seq : LifecycleEvent → ℤ
event_seq (spawned e) = e.seq
event_seq (updated e) = e.seq
event_seq (ended e) = e.seq

abbrev pub is_end : LifecycleEvent → Bool
is_end (spawned e) = false
is_end (updated e) = false
is_end (ended e) = true

-- The sequence numbers of the events of `id`.
unfoldable pub numbers : String → List LifecycleEvent → List ℤ
numbers id [] = []
numbers id (e ∷ es) = ite (str_dec (event_id e) id) (event_seq e ∷ numbers id es) (numbers id es)

abbrev pub end_weight : String → LifecycleEvent → ℕ
end_weight id e = ite (str_dec (event_id e) id) (if is_end e then 1 else 0) 0

unfoldable pub ends : String → List LifecycleEvent → ℕ
ends id [] = 0
ends id (e ∷ es) = end_weight id e + ends id es

-- The events of `id` that an end of it precedes, `before` ends being there already.
unfoldable pub late : String → ℕ → List LifecycleEvent → ℕ
late id before [] = 0
late id before (e ∷ es) =
    ite (str_dec (event_id e) id) (if ltb 0 before then 1 else 0) 0
    + late id (before + end_weight id e) es

-- What a 64-bit counter reads after so many steps, and all that it has read.
unfoldable pub nth_seq : ℕ → ℤ
nth_seq zero = pos 0
nth_seq (suc n) = add_int64 (nth_seq n) (pos 1)

unfoldable pub first_seqs : ℕ → List ℤ
first_seqs zero = []
first_seqs (suc n) = first_seqs n ++ nth_seq (suc n) ∷ []

pub numbers-snoc :
    (id : String) (es : List LifecycleEvent) (e : LifecycleEvent)
    → numbers id (es ++ e ∷ [])
      ≡ numbers id es ++ ite (str_dec (event_id e) id) (event_seq e ∷ []) []
unfolding numbers
numbers-snoc id [] e = refl
numbers-snoc id (a ∷ es) e =
    elim (str_dec (event_id a) id)
      as (λ d.
        ite d (event_seq a ∷ numbers id (es ++ e ∷ [])) (numbers id (es ++ e ∷ []))
        ≡ ite d (event_seq a ∷ numbers id es) (numbers id es)
          ++ ite (str_dec (event_id e) id) (event_seq e ∷ []) []) [
            | yes p ↦ ap (◌∷◌ (event_seq a)) (numbers-snoc id es e)
            | no n ↦ numbers-snoc id es e
          ]

pub ends-snoc :
    (id : String) (es : List LifecycleEvent) (e : LifecycleEvent)
    → ends id (es ++ e ∷ []) ≡ ends id es + end_weight id e
unfolding ends
ends-snoc id [] e = omega arith
ends-snoc id (a ∷ es) e = omega (arith, ends-snoc id es e)

pub late-snoc :
    (id : String) (before : ℕ) (es : List LifecycleEvent) (e : LifecycleEvent)
    → late id before (es ++ e ∷ [])
      ≡ late id before es
        + ite (str_dec (event_id e) id) (if ltb 0 (before + ends id es) then 1 else 0) 0
unfolding late ends
late-snoc id before [] e = ground arith
late-snoc id before (a ∷ es) e =
    let same : before + end_weight id a + ends id es ≡ before + (end_weight id a + ends id es) =
      omega arith in
    omega (
      arith,
      late-snoc id (before + end_weight id a) es e,
      ap {B = ℕ} (λ (n : ℕ). ite (str_dec (event_id e) id) (if ltb 0 n then 1 else 0) 0) same,
    )
