-- ===== src/Feed.antt =====
-- server/simulation.go, `recordEffectLifecycleEvent`: the events of the effect manager go into the
-- journal. The counter of spawns by producer is left out.
mod Numbers
mod Accepted
mod Delivered
mod Recorded
mod Tests
use mine_and_die.Prelude.{List, ◌≡◌, [], ◌∷◌, ◌++◌, Option, none, some}
use mathlib.Core.Option
use mine_and_die.Journal.Contract.{EffectSpawnEvent, EffectUpdateEvent, EffectEndEvent}
use mine_and_die.Journal.State.{Journal}
use mine_and_die.Journal.Effects.{
  EffectEventBatch, record_effect_spawn, record_effect_update, record_effect_end,
}
use mine_and_die.Journal.Batches.{drain_effect_events}
use mine_and_die.Effects.Manager.{LifecycleEvent, spawned, updated, ended}

-- What reaches the journal: an event of the manager, or a drain for the broadcast.
pub data Step : Type 0 where
  records : LifecycleEvent → Step
  drains : Step

abbrev pub events_of : List Step → List LifecycleEvent
events_of [] = []
events_of (records e ∷ steps) = e ∷ events_of steps
events_of (drains ∷ steps) = events_of steps

abbrev pub noted : Option LifecycleEvent → List LifecycleEvent → List LifecycleEvent
noted none events = events
noted (some e) events = e ∷ events

module _ {D P : Type 0} where
  -- The journal, and the event as it was recorded.
  pub record_lifecycle_event : LifecycleEvent → Journal D P → Journal D P × Option LifecycleEvent
  record_lifecycle_event (spawned e) j =
      let r = record_effect_spawn e j in (r.0, Option.map spawned r.1)
  record_lifecycle_event (updated e) j =
      let r = record_effect_update e j in (r.0, Option.map updated r.1)
  record_lifecycle_event (ended e) j = let r = record_effect_end e j in (r.0, Option.map ended r.1)

  -- The events that are recorded, in order.
  pub record_all : List Step → Journal D P → List LifecycleEvent
  unfolding record_lifecycle_event
  record_all [] j = []
  record_all (records e ∷ steps) j =
      let r = record_lifecycle_event e j in noted r.1 (record_all steps r.0)
  record_all (drains ∷ steps) j = record_all steps (drain_effect_events j).0

-- What `f` gives for the elements, one after the other.
pub gather {ℓ κ} : {A : Type ℓ} {B : Type κ} → (A → List B) → List A → List B
gather f [] = []
gather f (x ∷ xs) = f x ++ gather f xs

-- The event, where it is of the one kind.
abbrev pub spawn_in : LifecycleEvent → List EffectSpawnEvent
spawn_in (spawned e) = e ∷ []
spawn_in (updated e) = []
spawn_in (ended e) = []

abbrev pub update_in : LifecycleEvent → List EffectUpdateEvent
update_in (spawned e) = []
update_in (updated e) = e ∷ []
update_in (ended e) = []

abbrev pub end_in : LifecycleEvent → List EffectEndEvent
end_in (spawned e) = []
end_in (updated e) = []
end_in (ended e) = e ∷ []

module _ {D P : Type 0} where
  -- The journal after the steps, and the batches that the drains hand out.
  pub deliver : List Step → Journal D P → Journal D P × List EffectEventBatch
  unfolding record_lifecycle_event
  deliver [] j = (j, [])
  deliver (records e ∷ steps) j = deliver steps (record_lifecycle_event e j).0
  deliver (drains ∷ steps) j =
      let (k, batch) = drain_effect_events j in
      let (j', batches) = deliver steps k in (j', batch ∷ batches)

  -- Each event is in a batch or still staged, in its order among those of its kind, and nothing else
  -- is.
  pub Delivered : List LifecycleEvent → Journal D P × List EffectEventBatch → Type 0
  Delivered log (j, batches) =
      (gather (λ b. b.spawns) batches ++ j.spawns ≡ gather spawn_in log)
      × (gather (λ b. b.updates) batches ++ j.updates ≡ gather update_in log)
      × (gather (λ b. b.ends) batches ++ j.ends ≡ gather end_in log)
