-- ===== src/Journal/Keyframes/Age.antt =====
-- The limit on the age of the keyframes, for a clock that does not go back.
use mine_and_die.Prelude.{
  ℕ, zero, suc, ◌≢◌, List, [], ◌∷◌, ◌++◌, if_cases, ite_cases, All, All-append, drop, arith, ◌==◌,
}
use mine_and_die.Prelude.Int.{ℤ, pos, ◌≤ℤ◌, ltb_ℤ, ℤ_discrete}
use mine_and_die.Journal.State.{Journal, Keyframe}
use mine_and_die.Journal.Keyframes.{
  count_expired, cutoff_of, expired, overflow, record_keyframe, KeyframeRecordResult,
}

module _ {P : Type 0} where
  -- The frames were recorded at a time that is no less, each, than that of the one before.
  abbrev pub OrderedFrom : ℤ → List (Keyframe P) → Type 0
  OrderedFrom t [] = Unit
  OrderedFrom t (f ∷ fs) = (t ≤ℤ f.recorded_at) × OrderedFrom f.recorded_at fs

  OrderedFrom-mono :
      (s t : ℤ) (fs : List (Keyframe P)) → s ≤ℤ t → OrderedFrom t fs → OrderedFrom s fs
  OrderedFrom-mono s t [] h o = tt
  OrderedFrom-mono s t (f ∷ fs) h o = (omega (arith, o.0, h), o.1)

  OrderedFrom-All :
      (t : ℤ) (fs : List (Keyframe P))
      → OrderedFrom t fs
      → All (λ (f : Keyframe P). t ≤ℤ f.recorded_at) fs
  OrderedFrom-All t [] o = tt
  OrderedFrom-All t (f ∷ fs) o =
      (o.0, OrderedFrom-All t fs (OrderedFrom-mono t f.recorded_at fs o.0 o.1))

  OrderedFrom-snoc :
      (t : ℤ) (fs : List (Keyframe P)) (g : Keyframe P)
      → t ≤ℤ g.recorded_at
      → OrderedFrom t fs
      → All (λ (f : Keyframe P). f.recorded_at ≤ℤ g.recorded_at) fs
      → OrderedFrom t (fs ++ (g ∷ []))
  OrderedFrom-snoc t [] g h o a = (h, tt)
  OrderedFrom-snoc t (f ∷ fs) g h o a = (o.0, OrderedFrom-snoc f.recorded_at fs g a.0 o.1 a.1)

  OrderedFrom-drop :
      (t : ℤ) (n : ℕ) (fs : List (Keyframe P)) → OrderedFrom t fs → OrderedFrom t (drop n fs)
  OrderedFrom-drop t zero fs o = o
  OrderedFrom-drop t (suc n) [] o = tt
  OrderedFrom-drop t (suc n) (f ∷ fs) o =
      OrderedFrom-drop t n fs (OrderedFrom-mono t f.recorded_at fs o.0 o.1)

  All-drop :
      (Q : Keyframe P → Type 0) (n : ℕ) (fs : List (Keyframe P)) → All Q fs → All Q (drop n fs)
  All-drop Q zero fs a = a
  All-drop Q (suc n) [] a = tt
  All-drop Q (suc n) (f ∷ fs) a = All-drop Q n fs a.1

  drop-count_expired :
      (t cutoff : ℤ) (fs : List (Keyframe P))
      → OrderedFrom t fs
      → OrderedFrom cutoff (drop (count_expired cutoff fs) fs)
  unfolding count_expired
  drop-count_expired t cutoff [] o = tt
  drop-count_expired t cutoff (f ∷ fs) o =
      if_cases (λ (n : ℕ). OrderedFrom cutoff (drop n (f ∷ fs))) (ltb_ℤ f.recorded_at cutoff) _ _
        (λ e. drop-count_expired f.recorded_at cutoff fs o.1) (λ e. (ground arith, o.1))

module _ {D P : Type 0} where
  -- The frames of the journal were recorded in the order of their times, from `t` up to `now`.
  abbrev pub IsOrdered : ℤ → ℤ → Journal D P → Type 0
  IsOrdered t now j =
      (t ≤ℤ now)
      × OrderedFrom t j.keyframes
      × All (λ (f : Keyframe P). f.recorded_at ≤ℤ now) j.keyframes

  abbrev appended : ℤ → Keyframe P → Journal D P → List (Keyframe P)
  appended now frame j = j.keyframes ++ (record frame { recorded_at = now } ∷ [])

  appended-OrderedFrom :
      (t now : ℤ) (frame : Keyframe P) (j : Journal D P)
      → IsOrdered t now j
      → OrderedFrom t (appended now frame j)
  appended-OrderedFrom t now frame j (h, o, a) =
      OrderedFrom-snoc t j.keyframes (record frame { recorded_at = now }) h o a

  -- Keyframes that were recorded in order, none later than the time of the call, are so after a
  -- keyframe is recorded.
  pub record_keyframe-IsOrdered :
      (t now : ℤ) (frame : Keyframe P) (j : Journal D P)
      → IsOrdered t now j
      → IsOrdered t now (record_keyframe now frame j).0
  unfolding record_keyframe
  record_keyframe-IsOrdered t now frame j (h, o, a) =
      if_cases (λ (r : Journal D P × KeyframeRecordResult). IsOrdered t now r.0) (j.max_frames == 0)
        _ _ (λ z. (h, tt, tt))
        (λ z.
          let n = expired (cutoff_of j.max_age now) (appended now frame j) in
          let m = overflow j.max_frames (drop n (appended now frame j)) in
          (
            h,
            OrderedFrom-drop t m _
                (OrderedFrom-drop t n _ (appended-OrderedFrom t now frame j (h, o, a))),
            All-drop _ m _ (
                All-drop _ n _ (
                  All-append (λ (f : Keyframe P). f.recorded_at ≤ℤ now) j.keyframes _ a
                    (omega arith, tt))),
          ))

  -- Where the buffered keyframes were recorded in order, none later than the time of the call, no
  -- keyframe that is buffered after a recording is older than the cutoff, which is the time of the
  -- call less the largest age. It takes a cutoff other than Go's zero time, which stands for none.
  pub record_keyframe-cutoff_of :
      (t now : ℤ) (frame : Keyframe P) (j : Journal D P)
      → IsOrdered t now j
      → cutoff_of j.max_age now ≢ pos 0
      → All
          (λ (f : Keyframe P). cutoff_of j.max_age now ≤ℤ f.recorded_at)
          (record_keyframe now frame j).0.keyframes
  unfolding record_keyframe expired
  record_keyframe-cutoff_of t now frame j ordered limited =
      if_cases
        (λ (r : Journal D P × KeyframeRecordResult).
          All (λ (f : Keyframe P). cutoff_of j.max_age now ≤ℤ f.recorded_at) r.0.keyframes)
        (j.max_frames == 0) _ _ (λ z. tt)
        (λ z.
          ite_cases
            (λ (n : ℕ).
              All (λ (f : Keyframe P). cutoff_of j.max_age now ≤ℤ f.recorded_at)
                (drop (overflow j.max_frames (drop n (appended now frame j)))
                  (drop n (appended now frame j))))
            (ℤ_discrete (cutoff_of j.max_age now) (pos 0)) _ _ (λ e. absurd (limited e))
            (λ e. All-drop _ (overflow j.max_frames _) _ (
              OrderedFrom-All (cutoff_of j.max_age now) _ (
                drop-count_expired t (cutoff_of j.max_age now) _
                  (appended-OrderedFrom t now frame j ordered)))))
