-- ===== src/Journal/Effects/Tests.antt =====
-- The theorems on the effect events and their batches at concrete inputs.
use mine_and_die.Prelude.{
  ℕ, ◌≡◌, refl, inl, ◌++◌, [], ◌∷◌, some, none, arith, str_dec, lookup, insert, delete, lookup_or,
  ne_of_test, ℕ_discrete,
}
use mine_and_die.Prelude.Int.{pos, ◌+ℤ◌, ◌-ℤ◌, add_int64, ℤ_discrete}
use mine_and_die.Journal.State.{Journal, new_journal}
use mine_and_die.Journal.Samples.{spawn_of, update_of, end_of, empty_journal}
use mine_and_die.Journal.Effects.{
  record_effect_spawn, record_effect_update, record_effect_end, begin_spawn, assign_spawn_seq,
  next_effect_seq, set_cursor, clear_pending, note_event, end_named, known_cursor,
  prune_recently_ended, prune, assign_seq, append_end,
}
use mine_and_die.Journal.Effects.Cursor.{update_seq, SameEvents}
use mine_and_die.Journal.Effects.Ended.{record_effect_update-record_effect_end}
use mine_and_die.Journal.Batches.{drain_effect_events, restore_effect_events}
use mine_and_die.Journal.Batches.Rollback.{
  last_end, IsSynced, SameJournal, restore_effect_events-drain_effect_events,
}
use mine_and_die.Journal.Batches.Respawn.{respawn_lost}
use mine_and_die.Journal.Effects.Live.{
  StagedUpdate, record_effect_update-record_effect_spawn, spawn_seq,
}

abbrev spawned : Journal ℕ ℕ
spawned = (record_effect_spawn (spawn_of "x") empty_journal).0

abbrev ended : Journal ℕ ℕ
ended = (record_effect_end (end_of "x") spawned).0

ended_end :
    record_effect_end (end_of "x") spawned ≡ (ended, some (record (end_of "x") { seq = pos 2 }))
unfolding record_effect_spawn begin_spawn assign_spawn_seq next_effect_seq set_cursor
    record_effect_end end_named known_cursor prune_recently_ended prune assign_seq append_end lookup
    insert delete lookup_or str_dec ℤ_discrete ℕ_discrete new_journal clear_pending add_int64 ◌+ℤ◌
    ◌-ℤ◌ note_event
ended_end = refl

ended-IsSynced : IsSynced ended
unfolding record_effect_spawn begin_spawn assign_spawn_seq next_effect_seq set_cursor
    record_effect_end end_named known_cursor prune_recently_ended prune assign_seq append_end lookup
    insert delete lookup_or str_dec ℤ_discrete ℕ_discrete new_journal clear_pending add_int64 ◌+ℤ◌
    ◌-ℤ◌ note_event last_end
ended-IsSynced = record {
  ids = refl;
  named = (ne_of_test "x" "" refl, tt);
  marked = λ id t e. e;
  unique = (refl, tt);
}

record_effect_update-record_effect_end_example :
    ((record_effect_update (update_of "x") ended).1 ≡ none)
    × SameEvents ended (record_effect_update (update_of "x") ended).0
unfolding ◌+ℤ◌
record_effect_update-record_effect_end_example =
    record_effect_update-record_effect_end (end_of "x") (record (end_of "x") { seq = pos 2 })
      (update_of "x") spawned ended ended_end refl (omega arith)

record_effect_update-record_effect_spawn_example :
    let (j, stored) = record_effect_spawn (spawn_of "x") ended in
    ((j.spawns ≡ ended.spawns ++ (record (spawn_of "x") { seq = spawn_seq (pos 0) } ∷ []))
      × (j.updates ≡ ended.updates)
      × (stored ≡ some (record (spawn_of "x") { seq = spawn_seq (pos 0) })))
    × StagedUpdate
        (update_of "x")
        (update_seq (spawn_seq (pos 0)) (pos 0))
        ended
        (record_effect_update (update_of "x") j)
record_effect_update-record_effect_spawn_example =
    record_effect_update-record_effect_spawn (spawn_of "x") (update_of "x") ended
      (ne_of_test "x" "" refl) refl (inl (omega arith))

restore_effect_events-drain_effect_events_example :
    let (j, batch) = drain_effect_events ended in SameJournal ended (restore_effect_events batch j)
restore_effect_events-drain_effect_events_example =
    restore_effect_events-drain_effect_events ended ended-IsSynced

respawn_lost_example :
    let (j, batch) = drain_effect_events (record_effect_spawn (spawn_of "x") ended).0 in
    ((record_effect_update (update_of "x") j).1
      ≡ some (record (update_of "x") { seq = update_seq (spawn_seq (pos 0)) (pos 0) }))
    × ((record_effect_update
          (update_of "x")
          (drain_effect_events (restore_effect_events batch j)).0).1
        ≡ none)
respawn_lost_example =
    respawn_lost (end_of "x") (record (end_of "x") { seq = pos 2 }) (spawn_of "x") (update_of "x")
      spawned ended ended_end refl refl (inl (omega arith))
