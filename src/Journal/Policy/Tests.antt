-- ===== src/Journal/Policy/Tests.antt =====
-- Tests of the resync policy, and its theorems at concrete inputs.
use mine_and_die.Prelude.{◌≡◌, refl, true, List, [], ◌∷◌, arith, some, inr}
use mine_and_die.Journal.Policy.{new_policy, consume, add_reason, note_event, note_lost_spawn}
use mine_and_die.Journal.Policy.Laws.{
  Note, event, lost, consume-note_lost_spawn, apply, apply_all, IsSound, apply_all-IsSound,
}

abbrev notes : List Note
notes = event ∷ event ∷ lost "journal_unknown_id_update" "effect-7" ∷ []

pending_test : (apply_all notes new_policy).pending ≡ true
unfolding apply_all apply new_policy note_event note_lost_spawn
pending_test = refl

apply_all-IsSound_example : IsSound (apply_all notes new_policy)
apply_all-IsSound_example = apply_all-IsSound notes (omega arith)

consume-note_lost_spawn_example :
    consume (note_lost_spawn "journal_update_after_end" "effect-7" new_policy) ≡ (
      new_policy,
      some (record {
        lost_spawns = 1;
        total_events = 0;
        reasons =
            add_reason (record { kind = "journal_update_after_end"; effect_id = "effect-7" }) [];
      }),
    )
unfolding new_policy
consume-note_lost_spawn_example =
    consume-note_lost_spawn "journal_update_after_end" "effect-7" new_policy (omega arith)
      (omega arith) (inr (omega arith))
