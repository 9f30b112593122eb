-- ===== src/Journal/Keyframes.antt =====
-- The keyframes of server/internal/journal/journal.go: recording within the limits on count and age,
-- and reading. Where a method answers with a keyframe and a flag, the model answers an option.
mod Stale
pub mod Laws
pub mod Age
mod Tests
use mine_and_die.Prelude.{
  ℕ, suc, ◌-◌, List, [], ◌∷◌, ◌++◌, Bool, ite, Option, none, some, String, length, map, take, drop,
  get_or, if◌then◌else◌, ltb, ◌==◌, ℕ_discrete,
}
use mine_and_die.Prelude.Int.{ℤ, pos, ltb_ℤ, ◌-ℤ◌, ℤ_discrete}
use mine_and_die.Journal.State.{Journal, Keyframe}

pub record KeyframeEviction : Type 0 where
  pub sequence : ℕ
  pub tick : ℕ
  pub reason : String

pub record KeyframeRecordResult : Type 0 where
  pub size : ℕ
  pub oldest_sequence : ℕ
  pub newest_sequence : ℕ
  pub evicted : List KeyframeEviction

abbrev pub empty_result : KeyframeRecordResult
empty_result = record { size = 0; oldest_sequence = 0; newest_sequence = 0; evicted = [] }

-- Go's zero time as the cutoff stands for no limit on age.
abbrev pub cutoff_of : ℕ → ℤ → ℤ
cutoff_of max_age now = if ltb 0 max_age then now -ℤ pos max_age else pos 0

module _ {P : Type 0} where
  abbrev pub eviction : String → Keyframe P → KeyframeEviction
  eviction reason frame = record { sequence = frame.sequence; tick = frame.tick; reason = reason }

  -- How many frames the loop over the expired ones passes: the leading ones from before the cutoff.
  pub count_expired : ℤ → List (Keyframe P) → ℕ
  count_expired cutoff [] = 0
  count_expired cutoff (f ∷ fs) =
      if ltb_ℤ f.recorded_at cutoff then suc (count_expired cutoff fs) else 0

  pub expired : ℤ → List (Keyframe P) → ℕ
  unfolding count_expired
  expired cutoff frames = ite (ℤ_discrete cutoff (pos 0)) 0 (count_expired cutoff frames)

  pub overflow : ℕ → List (Keyframe P) → ℕ
  overflow max_frames frames =
      if ltb 0 max_frames
      then (if ltb max_frames (length frames) then length frames - max_frames else 0)
      else 0

  -- The sequence number of the frame at an index, 0 if there is none.
  abbrev pub sequence_at : List (Keyframe P) → ℕ → ℕ
  sequence_at [] i = 0
  sequence_at (f ∷ fs) i = (get_or (f ∷ fs) i f).sequence

  abbrev pub find_sequence : ℕ → List (Keyframe P) → Option (Keyframe P)
  find_sequence sequence [] = none
  find_sequence sequence (f ∷ fs) =
      ite (ℕ_discrete f.sequence sequence) (some f) (find_sequence sequence fs)

module _ {D P : Type 0} where
  -- `now` is the time that the call reads.
  pub record_keyframe : ℤ → Keyframe P → Journal D P → Journal D P × KeyframeRecordResult
  unfolding expired overflow
  record_keyframe now frame j =
      let frames = j.keyframes ++ (record frame { recorded_at = now } ∷ []) in
      let e = expired (cutoff_of j.max_age now) frames in
      let fresh = drop e frames in
      let o = overflow j.max_frames fresh in
      let kept = drop o fresh in
      if j.max_frames == 0 then (record j { keyframes = [] }, empty_result) else (
        record j { keyframes = kept },
        record {
          size = length kept;
          oldest_sequence = sequence_at kept 0;
          newest_sequence = sequence_at kept (length kept - 1);
          evicted =
              map (eviction "expired") (take e frames) ++ map (eviction "count") (take o fresh);
        },
      )

  pub keyframes : Journal D P → List (Keyframe P)
  keyframes j = j.keyframes

  pub keyframe_by_sequence : ℕ → Journal D P → Option (Keyframe P)
  keyframe_by_sequence sequence j =
      if sequence == 0 then none else find_sequence sequence j.keyframes

  pub keyframe_window : Journal D P → ℕ × ℕ × ℕ
  keyframe_window j = (
    length j.keyframes,
    sequence_at j.keyframes 0,
    sequence_at j.keyframes (length j.keyframes - 1),
  )
