-- ===== src/Journal/Batches.antt =====
-- The event batches of server/internal/journal/journal.go: draining the recorded effect events,
-- putting a drained batch back, and the resync hint.
pub mod Rollback
pub mod Respawn
pub mod Untouched
use mine_and_die.Prelude.{
  List, [], ◌∷◌, ◌++◌, Bool, true, false, Option, none, some, ite, String, str_dec, lookup, insert,
  delete, if◌then◌else◌,
}
use mine_and_die.Prelude.Int.{ℤ, ltb_ℤ}
use mine_and_die.Journal.Contract.{EffectEndEvent}
use mine_and_die.Journal.Policy
use mine_and_die.Journal.Policy.{ResyncSignal}
use mine_and_die.Journal.State.{Journal}
use mine_and_die.Journal.Effects.{EffectEventBatch, empty_batch}

abbrev is_empty {ℓ} : {A : Type ℓ} → List A → Bool
is_empty [] = true
is_empty (x ∷ xs) = false

-- Go's `delete` of each id in turn.
pub delete_all : List String → List (String × ℤ) → List (String × ℤ)
delete_all [] m = m
delete_all (id ∷ ids) m = delete_all ids (delete str_dec id m)

-- Whether an id is in the set `seen`.
pub contains : String → List String → Bool
contains id [] = false
contains id (x ∷ xs) = ite (str_dec id x) true (contains id xs)

-- The ids of the ends put back, in order, but for empty ones.
pub restored_ids : List EffectEndEvent → List String
restored_ids [] = []
restored_ids (e ∷ es) = ite (str_dec e.id "") (restored_ids es) (e.id ∷ restored_ids es)

-- The first loop over `batch.Ends`, on the map of the recently ended.
pub mark_ended : List EffectEndEvent → List (String × ℤ) → List (String × ℤ)
mark_ended [] m = m
mark_ended (e ∷ es) m = mark_ended es (ite (str_dec e.id "") m (insert str_dec e.id e.tick m))

-- The loop over `j.endedIDs`: the ids that are neither empty nor seen.
pub unseen_ids : List String → List String → List String
unfolding contains
unseen_ids seen [] = []
unseen_ids seen (id ∷ ids) =
    ite (str_dec id "") (unseen_ids seen ids)
      (if contains id seen then unseen_ids seen ids else id ∷ unseen_ids seen ids)

-- The step of the loop over `batch.LastSeqByID`.
restore_cursor : String → ℤ → List (String × ℤ) → List (String × ℤ)
restore_cursor id seq m = elim (lookup str_dec id m) [
  | none ↦ insert str_dec id seq m
  | some current ↦ if ltb_ℤ seq current then m else insert str_dec id seq m
]

pub restore_cursors : List (String × ℤ) → List (String × ℤ) → List (String × ℤ)
unfolding restore_cursor
restore_cursors [] m = m
restore_cursors ((id, seq) ∷ saved) m =
    restore_cursors saved (ite (str_dec id "") m (restore_cursor id seq m))

module _ {D P : Type 0} where
  abbrev no_events : Journal D P → Bool
  no_events j =
      if is_empty j.spawns then (if is_empty j.updates then is_empty j.ends else false) else false

  pub snapshot_effect_events : Journal D P → EffectEventBatch
  snapshot_effect_events j = if no_events j then empty_batch else record {
    spawns = j.spawns;
    updates = j.updates;
    ends = j.ends;
    last_seq_by_id = j.effect_seq;
  }

  pub drain_effect_events : Journal D P → Journal D P × EffectEventBatch
  drain_effect_events j = if no_events j then (j, empty_batch) else (
    record j {
      spawns = [];
      updates = [];
      ends = [];
      effect_seq = delete_all j.ended_ids j.effect_seq;
      recently_ended = delete_all j.ended_ids j.recently_ended;
      ended_ids = [];
    },
    record { spawns = j.spawns; updates = j.updates; ends = j.ends; last_seq_by_id = j.effect_seq },
  )

  restore_ends : List EffectEndEvent → Journal D P → Journal D P
  unfolding restored_ids mark_ended unseen_ids
  restore_ends ends j = if is_empty ends then j else record j {
    ends = ends ++ j.ends;
    recently_ended = mark_ended ends j.recently_ended;
    ended_ids = restored_ids ends ++ unseen_ids (restored_ids ends) j.ended_ids;
  }

  -- Of an empty part of the batch nothing is put back, so the guard on an empty batch, which only
  -- saves the lock, is in the parts.
  pub restore_effect_events : EffectEventBatch → Journal D P → Journal D P
  unfolding restore_ends restore_cursors
  restore_effect_events batch j =
      let k = restore_ends batch.ends j in
      record k {
        spawns = batch.spawns ++ j.spawns;
        updates = batch.updates ++ j.updates;
        effect_seq = restore_cursors batch.last_seq_by_id j.effect_seq;
      }

  pub consume_resync_hint : Journal D P → Journal D P × Option ResyncSignal
  consume_resync_hint j = elim j.resync [
    | none ↦ (j, none)
    | some p ↦ let (q, signal) = Policy.consume p in (record j { resync = some q }, signal)
  ]
