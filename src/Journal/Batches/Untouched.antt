-- ===== src/Journal/Batches/Untouched.antt =====
-- server/internal/journal/journal.go: a drain of the events leaves the effects that run as they are.
use mine_and_die.Prelude.{
  ◌≡◌, refl, false, List, [], ◌∷◌, ◌++◌, append-nil, String, str_dec, if_cases, lookup, count,
  arith,
}
use mine_and_die.Journal.State.{Journal}
use mine_and_die.Journal.Effects.{empty_batch, EffectEventBatch}
use mine_and_die.Journal.Effects.Accept.{Running}
use mine_and_die.Journal.Batches.{contains, delete_all, no_events, drain_effect_events}
use mine_and_die.Journal.Batches.Rollback.{lookup-delete_all}

contains-count :
    (id : String) (ids : List String) → count str_dec id ids ≡ 0 → contains id ids ≡ false
unfolding contains
contains-count id [] h = refl
contains-count id (x ∷ xs) h = ground (arith, contains-count id xs)

pub drain_effect_events-Running :
    {D P : Type 0} (i : String) (j : Journal D P)
    → Running i j
    → Running i (drain_effect_events j).0
      × (lookup str_dec i (drain_effect_events j).0.effect_seq ≡ lookup str_dec i j.effect_seq)
unfolding drain_effect_events
drain_effect_events-Running {D} {P} i j h =
    let free = contains-count i j.ended_ids h.waiting in
    if_cases
      (λ (r : Journal D P × EffectEventBatch).
        Running i r.0 × (lookup str_dec i r.0.effect_seq ≡ lookup str_dec i j.effect_seq))
      (no_events j) (j, empty_batch)
      (
        record j {
          spawns = [];
          updates = [];
          ends = [];
          effect_seq = delete_all j.ended_ids j.effect_seq;
          recently_ended = delete_all j.ended_ids j.recently_ended;
          ended_ids = [];
        },
        record {
          spawns = j.spawns;
          updates = j.updates;
          ends = j.ends;
          last_seq_by_id = j.effect_seq;
        },
      )
      (λ _. (h, refl))
      (λ _. (
        record {
          recent = ground (arith, lookup-delete_all j.ended_ids j.recently_ended i, free, h.recent);
          waiting = refl;
        },
        ground (arith, lookup-delete_all j.ended_ids j.effect_seq i, free),
      ))

-- A drain hands out the staged events.
pub drain_effect_events-lists :
    {D P : Type 0} (j : Journal D P)
    → let (k, batch) = drain_effect_events j in
      (batch.spawns ++ k.spawns ≡ j.spawns)
      × (batch.updates ++ k.updates ≡ j.updates)
      × (batch.ends ++ k.ends ≡ j.ends)
unfolding drain_effect_events
drain_effect_events-lists {D} {P} j =
    if_cases
      (λ (r : Journal D P × EffectEventBatch).
        (r.1.spawns ++ r.0.spawns ≡ j.spawns)
        × (r.1.updates ++ r.0.updates ≡ j.updates)
        × (r.1.ends ++ r.0.ends ≡ j.ends))
      (no_events j) _ _ (λ _. (refl, refl, refl))
      (λ _. (append-nil j.spawns, append-nil j.updates, append-nil j.ends))
