-- ===== src/Journal/Keyframes/Tests.antt =====
-- The theorems on keyframes at concrete inputs.
use mine_and_die.Prelude.{ℕ, ◌≡◌, ◌≢◌, refl, some, [], ◌∷◌, All, arith}
use mine_and_die.Prelude.Int.{pos, ◌≤ℤ◌, ◌-ℤ◌}
use mine_and_die.Journal.State.{Journal, Keyframe, new_journal}
use mine_and_die.Journal.Samples.{frame_of, empty_journal}
use mine_and_die.Journal.Keyframes.{cutoff_of, record_keyframe, keyframe_by_sequence}
use mine_and_die.Journal.Keyframes.Laws.{
  IsRecorded, record_keyframe-IsRecorded, keyframe_by_sequence-record_keyframe,
}
use mine_and_die.Journal.Keyframes.Age.{record_keyframe-cutoff_of}

record_keyframe-IsRecorded_example :
    let (k, result) = record_keyframe (pos 30) (frame_of 7) empty_journal in
    IsRecorded (record (frame_of 7) { recorded_at = pos 30 }) empty_journal k result
unfolding new_journal
record_keyframe-IsRecorded_example =
    record_keyframe-IsRecorded (pos 30) (frame_of 7) empty_journal (omega arith)

keyframe_by_sequence-record_keyframe_example :
    keyframe_by_sequence 7 (record_keyframe (pos 30) (frame_of 7) empty_journal).0
    ≡ some (record (frame_of 7) { recorded_at = pos 30 })
unfolding new_journal keyframe_by_sequence
keyframe_by_sequence-record_keyframe_example =
    keyframe_by_sequence-record_keyframe (pos 30) (frame_of 7) empty_journal (omega arith)
      (omega arith) refl

-- Two frames, of which the first is past the largest age at the time 30.
abbrev filled : Journal ℕ ℕ
filled = record empty_journal {
  keyframes =
      record (frame_of 1) { recorded_at = pos 5 }
      ∷ record (frame_of 2) { recorded_at = pos 25 }
      ∷ [];
}

record_keyframe-cutoff_of_example :
    All
      (λ (f : Keyframe ℕ). cutoff_of 10 (pos 30) ≤ℤ f.recorded_at)
      (record_keyframe (pos 30) (frame_of 3) filled).0.keyframes
unfolding new_journal ◌-ℤ◌
record_keyframe-cutoff_of_example =
    record_keyframe-cutoff_of (pos 0) (pos 30) (frame_of 3) filled
      (omega arith, (omega arith, (omega arith, tt)), (omega arith, (omega arith, tt))) limited
  where
    limited : cutoff_of 10 (pos 30) ≢ pos 0
    limited = ground arith
