-- ===== src/Journal/Effects.antt =====
-- The effect lifecycle events of server/internal/journal/journal.go: recording, draining, putting
-- back, and the resync hint. Where a method answers with an empty event, the model answers `none`.
pub mod Cursor
pub mod Ended
pub mod Live
pub mod Accept
mod Tests
use mine_and_die.Prelude.{
  List, [], ◌∷◌, ◌++◌, Bool, true, false, ◌&&◌, ◌||◌, Option, none, some, ite, String, str_dec,
  lookup, insert, delete, lookup_or, if◌then◌else◌,
}
use mine_and_die.Prelude.Int.{ℤ, pos, negsuc, leb_ℤ, ltb_ℤ, add_int64, ◌-ℤ◌, ℤ_discrete}
use mine_and_die.Journal.Contract.{EffectSpawnEvent, EffectUpdateEvent, EffectEndEvent}
use mine_and_die.Journal.Policy
use mine_and_die.Journal.Policy.{ResyncSignal}
use mine_and_die.Journal.State.{Journal}

abbrev pub recently_ended_window : ℤ
recently_ended_window = pos 4

abbrev pub nonmonotonic_seq : String
nonmonotonic_seq = "journal_nonmonotonic_seq"

abbrev pub unknown_id_update : String
unknown_id_update = "journal_unknown_id_update"

abbrev pub update_after_end : String
update_after_end = "journal_update_after_end"

-- The loop of `pruneRecentlyEndedLocked`.
pub prune : ℤ → List (String × ℤ) → List (String × ℤ)
prune cutoff [] = []
prune cutoff ((id, tick) ∷ m) =
    if ltb_ℤ (pos 0) tick && leb_ℤ tick cutoff then prune cutoff m else (id, tick) ∷ prune cutoff m

-- The loop of `clearPendingEndLocked`.
unfoldable pub clear_pending : String → List String → List String
clear_pending id [] = []
clear_pending id (x ∷ xs) = ite (str_dec x id) (clear_pending id xs) (x ∷ clear_pending id xs)

pub record EffectEventBatch : Type 0 where
  pub spawns : List EffectSpawnEvent
  pub updates : List EffectUpdateEvent
  pub ends : List EffectEndEvent
  pub last_seq_by_id : List (String × ℤ)

abbrev pub empty_batch : EffectEventBatch
empty_batch = record { spawns = []; updates = []; ends = []; last_seq_by_id = [] }

module _ {D P : Type 0} where
  -- Go's `j.effectSeq[id]`.
  abbrev pub cursor : String → Journal D P → ℤ
  cursor id j = lookup_or str_dec (pos 0) id j.effect_seq

  pub note_event : Journal D P → Journal D P
  note_event j = record j {
    resync = elim j.resync [ none ↦ none | some p ↦ some (Policy.note_event p) ];
  }

  pub note_lost_spawn : String → String → Journal D P → Journal D P
  note_lost_spawn kind id j = record j {
    resync = elim j.resync [ none ↦ none | some p ↦ some (Policy.note_lost_spawn kind id p) ];
  }

  pub record_drop : String → Journal D P → Journal D P
  record_drop metric j = ite (str_dec metric "") j (record j {
    telemetry = elim j.telemetry [ none ↦ none | some ms ↦ some (ms ++ (metric ∷ [])) ];
  })

  pub prune_recently_ended : ℤ → Journal D P → Journal D P
  unfolding prune
  prune_recently_ended current j =
      if leb_ℤ current (pos 0)
      then j
      else record j { recently_ended = prune (current -ℤ recently_ended_window) j.recently_ended }

  pub set_cursor : String → ℤ → Journal D P → Journal D P
  set_cursor id seq j = record j { effect_seq = insert str_dec id seq j.effect_seq }

  -- The sequence number of an event, and the journal with the cursor moved to it.
  pub next_effect_seq : String → Journal D P → Journal D P × ℤ
  unfolding set_cursor
  next_effect_seq id j =
      ite (str_dec id "") (j, pos 0)
        (set_cursor id (add_int64 (cursor id j) (pos 1)) j, add_int64 (cursor id j) (pos 1))

  -- A spawn takes the sequence number of its event if that is positive, else the next one.
  pub assign_spawn_seq : String → ℤ → Journal D P → Journal D P × ℤ
  unfolding next_effect_seq set_cursor
  assign_spawn_seq id seq j =
      if leb_ℤ seq (pos 0) then next_effect_seq id j else (set_cursor id seq j, seq)

  pub begin_spawn : String → Journal D P → Journal D P
  unfolding clear_pending note_event set_cursor
  begin_spawn id j =
      let k = note_event j in
      set_cursor id (pos 0) (record k {
        ended_ids = clear_pending id k.ended_ids;
        recently_ended = delete str_dec id k.recently_ended;
      })

  pub record_effect_spawn : EffectSpawnEvent → Journal D P → Journal D P × Option EffectSpawnEvent
  unfolding begin_spawn assign_spawn_seq
  record_effect_spawn event j =
      let id = event.spawned.id in
      let (k, seq) = assign_spawn_seq id event.seq (begin_spawn id j) in
      let stored = record event { seq = seq } in
      ite (str_dec id "") (j, none) (record k { spawns = k.spawns ++ (stored ∷ []) }, some stored)

  -- The event is counted as a loss under the metric.
  pub lose : String → String → Journal D P → Journal D P
  unfolding record_drop note_lost_spawn
  lose metric id j = note_lost_spawn metric id (record_drop metric j)

  -- The cursor that `RecordEffectUpdate` and `RecordEffectEnd` find: `none` if there is none or it
  -- is zero.
  pub known_cursor : String → Journal D P → Option ℤ
  known_cursor id j = elim (lookup str_dec id j.effect_seq) [
    | none ↦ none
    | some last ↦ ite (ℤ_discrete last (pos 0)) none (some last)
  ]

  -- The sequence number of an update or an end, `none` if the event's own is not above `last`.
  pub assign_seq : String → ℤ → ℤ → Journal D P → Journal D P × Option ℤ
  unfolding next_effect_seq set_cursor record_drop
  assign_seq id seq last j =
      if leb_ℤ seq (pos 0)
      then (let (k, next) = next_effect_seq id j in (k, some next))
      else if leb_ℤ seq last
      then (record_drop nonmonotonic_seq j, none)
      else (set_cursor id seq j, some seq)

  pub append_update :
      EffectUpdateEvent → Journal D P × Option ℤ → Journal D P × Option EffectUpdateEvent
  append_update event (j, none) = (j, none)
  append_update event (j, some seq) =
      let stored = record event { seq = seq } in
      (record j { updates = j.updates ++ (stored ∷ []) }, some stored)

  -- `RecordEffectUpdate` from the look at the recently ended effects on.
  pub update_known : EffectUpdateEvent → ℤ → Journal D P → Journal D P × Option EffectUpdateEvent
  unfolding lose assign_seq append_update
  update_known event last j = elim (lookup str_dec event.id j.recently_ended) [
    | some _ ↦ (lose update_after_end event.id j, none)
    | none ↦ append_update event (assign_seq event.id event.seq last j)
  ]

  pub update_named : EffectUpdateEvent → Journal D P → Journal D P × Option EffectUpdateEvent
  unfolding known_cursor lose prune_recently_ended update_known
  update_named event j = elim (known_cursor event.id j) [
    | none ↦ (lose unknown_id_update event.id j, none)
    | some last ↦ update_known event last (prune_recently_ended event.tick j)
  ]

  pub record_effect_update :
      EffectUpdateEvent → Journal D P → Journal D P × Option EffectUpdateEvent
  unfolding note_event update_named
  record_effect_update event j =
      ite (str_dec event.id "") (j, none) (update_named event (note_event j))

  pub append_end : EffectEndEvent → Journal D P × Option ℤ → Journal D P × Option EffectEndEvent
  append_end event (j, none) = (j, none)
  append_end event (j, some seq) =
      let stored = record event { seq = seq } in
      (
        record j {
          ends = j.ends ++ (stored ∷ []);
          ended_ids = j.ended_ids ++ (event.id ∷ []);
          recently_ended = insert str_dec event.id event.tick j.recently_ended;
        },
        some stored,
      )

  pub end_named : EffectEndEvent → Journal D P → Journal D P × Option EffectEndEvent
  unfolding known_cursor lose prune_recently_ended assign_seq append_end
  end_named event j = elim (known_cursor event.id j) [
    | none ↦ (lose unknown_id_update event.id j, none)
    | some last ↦
        append_end event (assign_seq event.id event.seq last (prune_recently_ended event.tick j))
  ]

  pub record_effect_end : EffectEndEvent → Journal D P → Journal D P × Option EffectEndEvent
  unfolding note_event end_named
  record_effect_end event j = ite (str_dec event.id "") (j, none) (end_named event (note_event j))
