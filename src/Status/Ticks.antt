-- ===== src/Status/Ticks.antt =====
-- server/internal/world/status/status_effects.go: the loop over the ticks ends, and which ticks it
-- makes.
use mine_and_die.Prelude.{
  ℕ, ℕ_discrete, zero, suc, ◌+◌, ◌<◌, ◌≤◌, ◌≡◌, ap, ◌⊎◌, inl, inr, refl, true, false, not, ◌&&◌,
  List, [], ◌∷◌, Option, none, some, arith, ltb, ◌==◌, if◌then◌else◌, if_cases,
}
use mine_and_die.Prelude.Int.{pos, pos_part, ltb_ℤ, ◌<ℤ◌}
use mine_and_die.Status.{Instance, tick, tick_loop, run_ticks}

-- A tick is due up to now, and up to the end of the instance if it has one.
abbrev pub IsDue : ℕ → ℕ → ℕ → Type 0
IsDue now expires at = (at ≤ now) × ((expires ≡ 0) ⊎ (at ≤ expires))

-- The times from `next` on, one interval apart, as long as they are due.
abbrev pub IsSchedule : ℕ → ℕ → ℕ → ℕ → List ℕ → Type 0
IsSchedule interval now expires next [] = ¬ (IsDue now expires next)
IsSchedule interval now expires next (at ∷ times) =
    (at ≡ next) × IsDue now expires next × IsSchedule interval now expires (next + interval) times

-- The ticks at these times, one after the other.
abbrev pub all_ticks : {S : Type 0} → Instance S → ℕ → List ℕ → S → S
all_ticks inst interval [] s = s
all_ticks inst interval (at ∷ times) s = all_ticks inst interval times (tick inst interval at s)

module _ {S : Type 0} (inst : Instance S) (interval now expires : ℕ) where
  -- What the loop comes to.
  abbrev pub IsTicked : ℕ → S → Option S → Type 0
  IsTicked next s r =
      (times : List ℕ) × ((r ≡ some (all_ticks inst interval times s))
        × IsSchedule interval now expires next times)

  pub tick_loop-IsTicked :
      (fuel next : ℕ) (s : S)
      → 0 < interval
      → now + 2 ≤ fuel + next
      → 0 < fuel
      → IsTicked next s (tick_loop inst interval now expires fuel next s)
  unfolding tick_loop
  tick_loop-IsTicked zero next s p enough f = absurd (omega arith)
  tick_loop-IsTicked (suc fuel) next s p enough f =
      let s' = tick inst interval next s in
      let rest = tick_loop inst interval now expires fuel (next + interval) s' in
      let again = if next + interval == next then some s' else rest in
      let up_to_end = if not (expires == 0) && ltb expires next then some s else again in
      if_cases (IsTicked next s) (ltb now next) (some s) up_to_end
        (λ e. ([], (refl, λ due. absurd (ground (arith, e, due.0)))))
        (λ e.
          if_cases (IsTicked next s) (not (expires == 0) && ltb expires next) (some s) again
            (λ g. ([], (refl, λ due. over g due.1)))
            (λ g.
              if_cases (IsTicked next s) (next + interval == next) (some s') rest
                (λ k. absurd (ground (arith, k, p)))
                (λ k.
                  let later =
                    tick_loop-IsTicked fuel (next + interval) s' p (omega arith)
                      (ground (arith, e, enough)) in
                  (
                    next ∷ later.0,
                    (later.1.0, (refl, (ground (arith, e), in_time g), later.1.1)),
                  ))))
    where
      over : (not (expires == 0) && ltb expires next) ≡ true → ¬ ((expires ≡ 0) ⊎ (next ≤ expires))
      over g (inl z) = absurd (ground (arith, g, z))
      over g (inr l) = absurd (ground (arith, g, l))

      in_time : (not (expires == 0) && ltb expires next) ≡ false → (expires ≡ 0) ⊎ (next ≤ expires)
      in_time g = elim (ℕ_discrete expires 0) [ yes z ↦ inl z | no n ↦ inr (ground (arith, g, n)) ]

abbrev or_else : {S : Type 0} → S → Option S → S
or_else s none = s
or_else s (some s') = s'

-- The loop over the ticks of an instance with a positive interval and a next tick ends, and it makes
-- the ticks that are due from the next one on, one interval apart, in order, and no others.
pub run_ticks_lem :
    {S : Type 0} (inst : Instance S) (now : ℕ) (s : S)
    → pos 0 <ℤ inst.tick_interval
    → 0 < inst.next_tick s
    → let interval = pos_part inst.tick_interval in
      (times : List ℕ) × ((run_ticks inst now s ≡ all_ticks inst interval times s)
        × IsSchedule interval now (inst.expires_at s) (inst.next_tick s) times)
unfolding run_ticks
run_ticks_lem inst now s p q =
    let interval = pos_part inst.tick_interval in
    let next = inst.next_tick s in
    let ends = inst.expires_at s in
    let looped =
      tick_loop-IsTicked inst interval now ends (suc now) next s (omega arith) (omega arith)
        (omega arith) in
    if_cases
      (λ r.
        (times : List ℕ) × ((r ≡ all_ticks inst interval times s)
          × IsSchedule interval now ends next times))
      (ltb_ℤ (pos 0) inst.tick_interval && not (next == 0)) _ s
      (λ e. (looped.0, (ap (λ o. or_else s o) looped.1.0, looped.1.1)))
      (λ e. absurd (ground (arith, e, p, q)))
