-- ===== src/Journal/Keyframes/Stale.antt =====
-- server/internal/journal/journal.go: how many keyframes go for their age and for the limit on count.
use mine_and_die.Prelude.{
  ℕ, suc, ◌<◌, ◌≡◌, ◌≢◌, ap, List, [], ◌∷◌, if_cases, ite_cases, length, length-append, length-drop,
  take, drop, take-append-drop, arith, false, true, ◌-◌, All,
}
use mine_and_die.Prelude.Int.{ℤ, pos, ◌-ℤ◌, ◌<ℤ◌, ltb_ℤ, ℤ_discrete}
use mine_and_die.Journal.State.{Keyframe}
use mine_and_die.Journal.Keyframes.{count_expired, cutoff_of, expired, overflow}

module _ {P : Type 0} where
  -- There is a limit on age, the cutoff is not the zero time, and the frame is from before it.
  abbrev pub Stale : ℕ → ℤ → Keyframe P → Type 0
  Stale max_age now f =
      (0 < max_age) × (now -ℤ pos max_age ≢ pos 0) × (f.recorded_at <ℤ now -ℤ pos max_age)

  abbrev pub FirstFresh : ℕ → ℤ → List (Keyframe P) → Type 0
  FirstFresh max_age now [] = Unit
  FirstFresh max_age now (f ∷ fs) = ¬ Stale max_age now f

  Stale-expired :
      (max_age : ℕ) (now : ℤ) (f : Keyframe P)
      → cutoff_of max_age now ≢ pos 0
      → ltb_ℤ f.recorded_at (cutoff_of max_age now) ≡ true
      → Stale max_age now f
  Stale-expired max_age now f n h = ground (arith, n, h)

  fresh-kept :
      (max_age : ℕ) (now : ℤ) (f : Keyframe P)
      → ltb_ℤ f.recorded_at (cutoff_of max_age now) ≡ false
      → ¬ Stale max_age now f
  fresh-kept max_age now f h = λ s. ground (arith, h, s)

  count_expired-Stale :
      (max_age : ℕ) (now : ℤ) (fs : List (Keyframe P))
      → cutoff_of max_age now ≢ pos 0
      → let n = count_expired (cutoff_of max_age now) fs in
        All (Stale max_age now) (take n fs) × FirstFresh max_age now (drop n fs)
  unfolding count_expired
  count_expired-Stale max_age now [] z = (tt, tt)
  count_expired-Stale max_age now (f ∷ fs) z =
      let c = cutoff_of max_age now in
      let (a, b) = count_expired-Stale max_age now fs z in
      if_cases
        (λ n. All (Stale max_age now) (take n (f ∷ fs)) × FirstFresh max_age now (drop n (f ∷ fs)))
        (ltb_ℤ f.recorded_at c) (suc (count_expired c fs)) 0
        (λ h. ((Stale-expired max_age now f z h, a), b)) (λ h. (tt, fresh-kept max_age now f h))

  -- The frames that go for their age are the leading stale ones.
  pub expired-Stale :
      (max_age : ℕ) (now : ℤ) (fs : List (Keyframe P))
      → let n = expired (cutoff_of max_age now) fs in
        All (Stale max_age now) (take n fs) × FirstFresh max_age now (drop n fs)
  unfolding expired
  expired-Stale max_age now fs =
      ite_cases (λ n. All (Stale max_age now) (take n fs) × FirstFresh max_age now (drop n fs))
        (ℤ_discrete (cutoff_of max_age now) (pos 0)) 0 (count_expired (cutoff_of max_age now) fs)
        (λ z. (tt, first fs z)) (count_expired-Stale max_age now fs)
    where
      none_stale : (f : Keyframe P) → cutoff_of max_age now ≡ pos 0 → ¬ Stale max_age now f
      none_stale f z = λ s. ground (arith, z, s)

      first : (fs : List (Keyframe P)) → cutoff_of max_age now ≡ pos 0 → FirstFresh max_age now fs
      first [] z = tt
      first (f ∷ fs) z = none_stale f z

  pub overflow_lem :
      (max_frames : ℕ) (fs : List (Keyframe P))
      → 0 < max_frames
      → length (take (overflow max_frames fs) fs) ≡ length fs - max_frames
  unfolding overflow
  overflow_lem max_frames fs h =
      let n = overflow max_frames fs in
      ground (
        arith,
        length-append (take n fs) (drop n fs),
        ap length (take-append-drop n fs),
        length-drop n fs,
      )
