-- ===== src/Journal/Keyframes/Laws.antt =====
-- What a recorded keyframe does to the buffer: which frames go, which stay, and what is reported.
use mine_and_die.Prelude.{
  ℕ, zero, suc, ◌≤◌, ◌<◌, ◌≡◌, ◌≢◌, refl, sym, ap, ◌∙◌, List, [], ◌∷◌, ◌++◌, map, if_cases,
  ite_cases, length, length-append, length-drop, take, drop, take-append-drop, arith, some, none,
  subst, ap₂, ◌==◌, false, ◌-◌, All, append_assoc,
}
use mine_and_die.Prelude.Int.{ℤ, pos, -ℤ_parts, ltb_ℤ, ℤ_discrete}
use mine_and_die.Journal.Keyframes.Stale.{Stale, FirstFresh, expired-Stale, overflow_lem}
use mine_and_die.Journal.State.{Journal, Keyframe}
use mine_and_die.Journal.Keyframes.{
  count_expired, cutoff_of, expired, overflow, eviction, record_keyframe, keyframe_by_sequence,
  keyframe_window, KeyframeRecordResult, find_sequence,
}

pub cutoff-now :
    (max_age : ℕ) (now : ℤ)
    → cutoff_of max_age now ≢ pos 0
    → ltb_ℤ now (cutoff_of max_age now) ≡ false
cutoff-now max_age now n = ground (arith, -ℤ_parts now (pos max_age))

module _ {P : Type 0} where
  -- The frame that stands last is not past the cutoff, so the loop stops at it or before.
  count_expired-last :
      (cutoff : ℤ) (fs : List (Keyframe P)) (f : Keyframe P)
      → ltb_ℤ f.recorded_at cutoff ≡ false
      → count_expired cutoff (fs ++ (f ∷ [])) ≤ length fs
  unfolding count_expired
  count_expired-last cutoff [] f h = ground (arith, h)
  count_expired-last cutoff (g ∷ fs) f h = ground (arith, count_expired-last cutoff fs f h)

  pub expired-last :
      (max_age : ℕ) (now : ℤ) (fs : List (Keyframe P)) (f : Keyframe P)
      → f.recorded_at ≡ now
      → expired (cutoff_of max_age now) (fs ++ (f ∷ [])) ≤ length fs
  unfolding expired
  expired-last max_age now fs f e =
      ite_cases (λ (r : ℕ). r ≤ length fs) (ℤ_discrete (cutoff_of max_age now) (pos 0)) _ _
        (λ z. omega arith)
        (λ n. count_expired-last (cutoff_of max_age now) fs f (rw (e, cutoff-now max_age now n)))

  pub drop-append :
      (n : ℕ) (xs ys : List (Keyframe P)) → n ≤ length xs → drop n (xs ++ ys) ≡ drop n xs ++ ys
  drop-append zero xs ys h = refl
  drop-append (suc n) [] ys h = absurd (omega arith)
  drop-append (suc n) (x ∷ xs) ys h = drop-append n xs ys (omega arith)

  overflow-le :
      (max_frames : ℕ) (fs : List (Keyframe P)) (f : Keyframe P)
      → overflow max_frames (fs ++ (f ∷ [])) ≤ length fs
  unfolding overflow
  overflow-le max_frames fs f = ground (arith, length-append fs (f ∷ []))

  overflow-bound :
      (max_frames : ℕ) (fs : List (Keyframe P))
      → 0 < max_frames
      → length (drop (overflow max_frames fs) fs) ≤ max_frames
  unfolding overflow
  overflow-bound max_frames fs h = ground (arith, length-drop (overflow max_frames fs) fs)

-- What a recorded keyframe leaves and reports, where the buffer holds any: the oldest frames go,
-- first the leading stale ones and then as many as are over the limit, each reported once and in
-- order; the new frame stays, last; the limit holds; and the size and the two sequence numbers are
-- the window's.
pub record IsRecorded {D P : Type 0} (stored : Keyframe P) (j k : Journal D P)
    (result : KeyframeRecordResult) : Type 0 where
  pub too_old : List (Keyframe P)
  pub too_many : List (Keyframe P)
  pub kept : List (Keyframe P)
  pub split : too_old ++ (too_many ++ kept) ≡ j.keyframes
  pub old : All (Stale j.max_age stored.recorded_at) too_old
  pub young : FirstFresh j.max_age stored.recorded_at (too_many ++ (kept ++ (stored ∷ [])))
  pub excess : length too_many ≡ length (too_many ++ (kept ++ (stored ∷ []))) - j.max_frames
  pub buffer : k.keyframes ≡ kept ++ (stored ∷ [])
  pub evicted : result.evicted ≡ map (eviction "expired") too_old ++ map (eviction "count") too_many
  pub bound : length k.keyframes ≤ k.max_frames
  pub window : (result.size, result.oldest_sequence, result.newest_sequence) ≡ keyframe_window k

module _ {P : Type 0} where
  take-append : (n : ℕ) (xs ys : List (Keyframe P)) → n ≤ length xs → take n (xs ++ ys) ≡ take n xs
  take-append zero xs ys h = refl
  take-append (suc n) [] ys h = absurd (omega arith)
  take-append (suc n) (x ∷ xs) ys h = ap (◌∷◌ x) (take-append n xs ys (omega arith))

  find_sequence-last :
      (s : ℕ) (fs : List (Keyframe P)) (f : Keyframe P)
      → f.sequence ≡ s
      → find_sequence s fs ≡ none
      → find_sequence s (fs ++ (f ∷ [])) ≡ some f
  find_sequence-last s [] f e n = ground arith
  find_sequence-last s (g ∷ fs) f e n = ground (arith, find_sequence-last s fs f e)

  find_sequence-append_none :
      (s : ℕ) (fs gs : List (Keyframe P))
      → find_sequence s (fs ++ gs) ≡ none
      → find_sequence s gs ≡ none
  find_sequence-append_none s [] gs n = n
  find_sequence-append_none s (f ∷ fs) gs n = ground (arith, find_sequence-append_none s fs gs)

module _ {D P : Type 0} where
  -- Where the journal keeps any keyframes, a recorded keyframe takes the time of the call and stays
  -- as the newest one. The frames that go are the oldest: first the leading frames from before the
  -- cutoff, where there is a limit on age and the cutoff is not the zero time, and then as many as
  -- the rest, the new one included, is over the limit on count; and each is reported once, in
  -- order, with its reason. The buffer is then within the limit; and the reported size, oldest and newest sequence numbers are those of the window.
  pub record_keyframe-IsRecorded :
      (now : ℤ) (frame : Keyframe P) (j : Journal D P)
      → 0 < j.max_frames
      → let (k, result) = record_keyframe now frame j in
        IsRecorded (record frame { recorded_at = now }) j k result
  unfolding record_keyframe keyframe_window
  record_keyframe-IsRecorded now frame j h =
      if_cases (λ (r : Journal D P × KeyframeRecordResult). IsRecorded stored j r.0 r.1)
        (j.max_frames == 0) _ _ (λ z. absurd (ground arith))
        (λ z. record {
          too_old = take e j.keyframes;
          too_many = take o (drop e j.keyframes);
          kept = drop o (drop e j.keyframes);
          split =
              ap (◌++◌ (take e j.keyframes)) (take-append-drop o (drop e j.keyframes))
              ∙ take-append-drop e j.keyframes;
          old =
              subst (All (Stale j.max_age now)) (take-append e j.keyframes (stored ∷ []) early)
                (expired-Stale j.max_age now frames).0;
          young =
              subst (FirstFresh j.max_age now) (fresh ∙ sym rest)
                (expired-Stale j.max_age now frames).1;
          excess =
              ap length (sym over)
              ∙ overflow_lem j.max_frames (drop e frames) h
              ∙ ap (λ x. length x - j.max_frames) (fresh ∙ sym rest);
          buffer = ap (drop o) fresh ∙ drop-append o (drop e j.keyframes) (stored ∷ []) few;
          evicted =
              ap₂ (λ x y. map (eviction "expired") x ++ map (eviction "count") y)
                (take-append e j.keyframes (stored ∷ []) early) over;
          bound = overflow-bound j.max_frames (drop e frames) h;
          window = refl;
        })
    where
      stored : Keyframe P
      stored = record frame { recorded_at = now }

      frames : List (Keyframe P)
      frames = j.keyframes ++ (stored ∷ [])

      e : ℕ
      e = expired (cutoff_of j.max_age now) frames

      o : ℕ
      o = overflow j.max_frames (drop e frames)

      early : e ≤ length j.keyframes
      early = expired-last j.max_age now j.keyframes stored refl

      fresh : drop e frames ≡ drop e j.keyframes ++ (stored ∷ [])
      fresh = drop-append e j.keyframes (stored ∷ []) early

      few : o ≤ length (drop e j.keyframes)
      few =
          subst (λ x. overflow j.max_frames x ≤ length (drop e j.keyframes)) (sym fresh)
            (overflow-le j.max_frames (drop e j.keyframes) stored)

      over : take o (drop e frames) ≡ take o (drop e j.keyframes)
      over = ap (take o) fresh ∙ take-append o (drop e j.keyframes) (stored ∷ []) few

      rest :
          take o (drop e j.keyframes) ++ (drop o (drop e j.keyframes) ++ (stored ∷ []))
          ≡ drop e j.keyframes ++ (stored ∷ [])
      rest =
          sym
            (append_assoc (take o (drop e j.keyframes)) (drop o (drop e j.keyframes)) (stored ∷ []))
          ∙ ap (λ x. x ++ (stored ∷ [])) (take-append-drop o (drop e j.keyframes))

  -- Where the journal keeps any keyframes, a keyframe recorded under a sequence number other than
  -- zero that no buffered frame has is found again under that number, with the time of the call.
  pub keyframe_by_sequence-record_keyframe :
      (now : ℤ) (frame : Keyframe P) (j : Journal D P)
      → 0 < j.max_frames
      → frame.sequence ≢ 0
      → keyframe_by_sequence frame.sequence j ≡ none
      → keyframe_by_sequence frame.sequence (record_keyframe now frame j).0
        ≡ some (record frame { recorded_at = now })
  unfolding keyframe_by_sequence
  keyframe_by_sequence-record_keyframe now frame j h n missing =
      if_cases (λ r. r ≡ some (record frame { recorded_at = now })) (frame.sequence == 0) _ _
        (λ z. absurd (ground arith))
        (λ z.
          let r = record_keyframe-IsRecorded now frame j h in
          ap (find_sequence frame.sequence) r.buffer
          ∙ find_sequence-last frame.sequence r.kept (record frame { recorded_at = now }) refl
              (find_sequence-append_none frame.sequence r.too_many r.kept (
                find_sequence-append_none frame.sequence r.too_old (r.too_many ++ r.kept)
                  (rw r.split absent))))
    where
      absent : find_sequence frame.sequence j.keyframes ≡ none
      absent = ground (arith, missing)
