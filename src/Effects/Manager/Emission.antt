-- ===== src/Effects/Manager/Emission.antt =====
-- server/internal/world/effects/manager.go: what the manager emits, and the numbers that it gives.
use mine_and_die.Prelude.{
  Bool, ◌&&◌, List, [], ◌∷◌, ◌++◌, String, str_dec, ite, if◌then◌else◌, insert, lookup_or,
}
use mine_and_die.Prelude.Int.{ℤ, pos, add_int64}
use mine_and_die.Journal.Contract.{
  EffectInstance, EffectSpawnEvent, EffectUpdateEvent, EffectEndEvent,
}

pub data LifecycleEvent : Type 0 where
  spawned : EffectSpawnEvent → LifecycleEvent
  updated : EffectUpdateEvent → LifecycleEvent
  ended : EffectEndEvent → LifecycleEvent

-- The callback `emit`: whether there is one, and what it was given.
pub record Sink : Type 0 where
  pub listening : Bool
  pub events : List LifecycleEvent

-- The numbers of an instance's events, and an event that takes the next one.
abbrev pub next_sequence_for : String → List (String × ℤ) → ℤ
next_sequence_for id seqs =
    ite (str_dec id "") (pos 0) (add_int64 (lookup_or str_dec (pos 0) id seqs) (pos 1))

abbrev pub taken : String → List (String × ℤ) → List (String × ℤ)
taken id seqs = ite (str_dec id "") seqs (insert str_dec id (next_sequence_for id seqs) seqs)

-- The sequence numbers and the callback.
pub record Output : Type 0 where
  pub seqs : List (String × ℤ)
  pub sink : Sink

-- With the flag of the replication set and a callback, an event takes the next number.
unfoldable pub emit : Bool → String → (ℤ → LifecycleEvent) → Output → Output
emit wanted id event out =
    if wanted && out.sink.listening
    then record {
      seqs = taken id out.seqs;
      sink = record out.sink {
        events = out.sink.events ++ event (next_sequence_for id out.seqs) ∷ [];
      };
    }
    else out

unfoldable pub send_spawns : ℤ → List EffectInstance → Output → Output
unfolding emit
send_spawns tick [] out = out
send_spawns tick (inst ∷ rest) out = send_spawns tick rest (
    emit inst.replication.send_spawn inst.id
      (λ seq. spawned (record { tick = tick; seq = seq; spawned = inst })) out)
