-- ===== src/Effects/Manager.antt =====
-- server/internal/world/effects/manager.go: the manager of the effect instances. It turns queued
-- intents into instances, runs their hooks, ends them, and numbers what it emits. A hook is a
-- parameter: it works on its instance, on the states that the manager keeps for the instances, on the
-- registry and on the world around. `Sprintf("contract-effect-%d", n)` is the parameter `name`, and
-- `shuffle` is the order in which Go iterates the map of the instances.
mod Emission
pub mod Log
pub mod Entries
pub mod Tracks
pub mod Valid
mod Spawning
mod Announcing
mod Ticking
pub mod Numbered
pub mod Runs
pub mod Tests
pub use Emission.{LifecycleEvent, spawned, updated, ended, Sink, Output}
unfoldable pub use Emission.{next_sequence_for, taken, emit, send_spawns}
use mine_and_die.Prelude.{
  ℕ, ◌+◌, ◌%◌, ◌^◌, Bool, true, false, ◌&&◌, List, [], ◌∷◌, ◌++◌, Option, none, some, String,
  str_dec, ite, if◌then◌else◌, lookup, insert, delete, lookup_or, length,
}
use mine_and_die.Prelude.Int.{ℤ, pos, add_int64}
use mine_and_die.Journal.Contract.{
  EffectInstance, EffectSpawnEvent, EffectUpdateEvent, EffectEndEvent,
}
use mine_and_die.Effects.{State}
use mine_and_die.Effects.Registry.{Registry, unregister_effect}
use mine_and_die.Effects.Instances.{
  EffectIntent, Definitions, instantiate, should_invoke_on_tick, evaluate_end_policy,
}

-- A value that the manager keeps for an instance.
pub data InstanceValue (F R Y : Type 0) : Type 0 where
  runtime_effect : State F R → InstanceValue F R Y
  other : Y → InstanceValue F R Y

module _ (F R Y W : Type 0) where
  -- What a hook can write to, besides its instance. The queue of intents is not among it: a hook that
  -- enqueues an intent on the manager while it ticks is outside the model.
  pub record Surroundings : Type 0 where
    pub instance_state : List (String × InstanceValue F R Y)
    pub registry : Registry F R
    pub world : W

  -- A hook at a tick and a time.
  abbrev pub Hook : Type 0
  Hook = ℤ → ℤ → EffectInstance → Surroundings → EffectInstance × Surroundings

  pub record HookSet : Type 0 where
    pub on_spawn : Option Hook
    pub on_tick : Option Hook

  pub record ManagerConfig : Type 0 where
    pub definitions : Definitions
    pub hooks : List (String × HookSet)
    pub owner_missing : W → Option (String → Bool)

  pub record Manager : Type 0 where
    pub intent_queue : List EffectIntent
    pub instances : List (String × EffectInstance)
    pub seq_by_instance : List (String × ℤ)
    pub surroundings : Surroundings
    pub total_enqueued : ℤ
    pub total_drained : ℤ
    pub last_tick_processed : ℤ
    pub next_instance_id : ℕ

abbrev pub Shuffle : Type 0
Shuffle = List (String × EffectInstance) → List (String × EffectInstance)

module _ {F R Y W : Type 0} where
  unfoldable pub new_manager : Registry F R → W → Manager F R Y W
  new_manager registry world = record {
    intent_queue = [];
    instances = [];
    seq_by_instance = [];
    surroundings = record { instance_state = []; registry = registry; world = world };
    total_enqueued = pos 0;
    total_drained = pos 0;
    last_tick_processed = pos 0;
    next_instance_id = 0;
  }

  pub enqueue_intent : EffectIntent → Manager F R Y W → Manager F R Y W
  enqueue_intent intent m = record m {
    intent_queue = m.intent_queue ++ intent ∷ [];
    total_enqueued = add_int64 m.total_enqueued (pos 1);
  }

  pub reset_pending_intents : Manager F R Y W → Manager F R Y W
  reset_pending_intents m = record m { intent_queue = [] }

  -- `SetInstanceState` and `ClearInstanceState`; no value is Go's nil.
  pub set_instance_state :
      String → Option (InstanceValue F R Y) → Surroundings F R Y W → Surroundings F R Y W
  set_instance_state id none s =
      ite (str_dec id "") s (record s { instance_state = delete str_dec id s.instance_state })
  set_instance_state id (some value) s =
      ite (str_dec id "") s (record s { instance_state = insert str_dec id value s.instance_state })

  abbrev pub run_hook : Option (Hook F R Y W) → Hook F R Y W
  run_hook none tick now inst s = (inst, s)
  run_hook (some hook) tick now inst s = hook tick now inst s

  abbrev pub spawn_of : Option (HookSet F R Y W) → Option (Hook F R Y W)
  spawn_of none = none
  spawn_of (some set) = set.on_spawn

  abbrev pub tick_of : Option (HookSet F R Y W) → Option (Hook F R Y W)
  tick_of none = none
  tick_of (some set) = set.on_tick

module _ {F R Y W : Type 0} (cfg : ManagerConfig F R Y W) where
  abbrev pub named : String → Option (HookSet F R Y W)
  named hook = ite (str_dec hook "") none (lookup str_dec hook cfg.hooks)

  pub invoke_on_spawn : Hook F R Y W
  invoke_on_spawn tick now inst s = elim inst.definition [
    | none ↦ (inst, s)
    | some def ↦ run_hook (spawn_of (named def.hooks.on_spawn)) tick now inst s
  ]

  pub invoke_on_tick : Hook F R Y W
  invoke_on_tick tick now inst s = elim inst.definition [
    | none ↦ (inst, s)
    | some def ↦ run_hook (tick_of (named def.hooks.on_tick)) tick now inst s
  ]

module _ {F R Y W : Type 0} (cfg : ManagerConfig F R Y W) (name : ℕ → String)
    (shuffle : Shuffle) where
  -- The loop over the drained intents: the manager and the new instances.
  abbrev pub joined : ℤ → ℤ → EffectInstance → Manager F R Y W → Manager F R Y W × EffectInstance
  joined tick now inst m =
      let r = invoke_on_spawn cfg tick now inst m.surroundings in
      (
        record m {
          instances = insert str_dec inst.id r.0 m.instances;
          seq_by_instance = insert str_dec inst.id (pos 0) m.seq_by_instance;
          surroundings = r.1;
        },
        r.0,
      )

  pub spawn_all :
      ℤ → ℤ → List EffectIntent → Manager F R Y W → Manager F R Y W × List EffectInstance
  unfolding invoke_on_spawn
  spawn_all tick now [] m = (m, [])
  spawn_all tick now (intent ∷ rest) m =
      let n = (m.next_instance_id + 1) % 2 ^ 64 in
      let m' : Manager F R Y W = record m { next_instance_id = n } in
      let skipped = spawn_all tick now rest m' in
      elim (instantiate cfg.definitions (name n) intent tick) [
        | none ↦ skipped
        | some inst ↦
            let j = joined tick now inst m' in
            let r = spawn_all tick now rest j.0 in (r.0, j.1 ∷ r.1)
      ]

  -- One instance in the loop of a tick.
  pub record Step : Type 0 where
    pub inst : EffectInstance
    pub surroundings : Surroundings F R Y W
    pub output : Output
    pub over : Bool

  pub tick_instance : ℤ → ℤ → EffectInstance → Surroundings F R Y W → Output → Step
  unfolding invoke_on_tick emit
  tick_instance tick now inst s out =
      let due = should_invoke_on_tick inst in
      let run = if due.0 then invoke_on_tick cfg tick now due.1 s else (due.1, s) in
      let out' =
        emit (run.0.replication.send_updates && due.0) run.0.id
          (λ seq. updated (record {
            tick = tick;
            seq = seq;
            id = run.0.id;
            delivery_state = some run.0.delivery_state;
            behavior_state = some run.0.behavior_state;
            params = [];
          }))
          out in
      let decision = evaluate_end_policy (cfg.owner_missing run.1.world) tick run.0 in
      elim decision.0 [
        | none ↦ record { inst = decision.1; surroundings = run.1; output = out'; over = false }
        | some reason ↦ record {
          inst = decision.1;
          surroundings = run.1;
          output =
              emit decision.1.replication.send_end decision.1.id
                (λ seq.
                  ended (record { tick = tick; seq = seq; id = decision.1.id; reason = reason }))
                out';
          over = true;
        }
      ]

  -- What the loop leaves: the instances, the ids of those that ended, and the rest.
  pub record Ticked : Type 0 where
    pub instances : List (String × EffectInstance)
    pub over : List String
    pub surroundings : Surroundings F R Y W
    pub output : Output

  pub tick_all : ℤ → ℤ → List (String × EffectInstance) → Surroundings F R Y W → Output → Ticked
  unfolding tick_instance
  tick_all tick now [] s out = record { instances = []; over = []; surroundings = s; output = out }
  tick_all tick now ((key, inst) ∷ rest) s out =
      let one = tick_instance tick now inst s out in
      let r = tick_all tick now rest one.surroundings one.output in
      record r {
        instances = (key, one.inst) ∷ r.instances;
        over = if one.over then one.inst.id ∷ r.over else r.over;
      }

  -- `UnregisterEffect` for an instance whose state is an effect, and the state removed.
  abbrev pub released : String → Surroundings F R Y W → Surroundings F R Y W
  released id s =
      let s' = set_instance_state id none s in
      elim (ite (str_dec id "") none (lookup str_dec id s.instance_state)) [
        | none ↦ s'
        | some (runtime_effect effect) ↦ record s' {
          registry = unregister_effect effect s'.registry;
        }
        | some (other value) ↦ s'
      ]

  pub clean_up : List String → Manager F R Y W → Manager F R Y W
  unfolding set_instance_state
  clean_up [] m = m
  clean_up (id ∷ ids) m = clean_up ids (record m {
    instances = delete str_dec id m.instances;
    seq_by_instance = delete str_dec id m.seq_by_instance;
    surroundings = released id m.surroundings;
  })

  -- `RunTick`.
  pub run_tick : ℤ → ℤ → Manager F R Y W → Sink → Manager F R Y W × Sink
  unfolding spawn_all send_spawns tick_all clean_up
  run_tick tick now m sink =
      let drained = m.intent_queue in
      let r =
        spawn_all tick now drained (record m { last_tick_processed = tick; intent_queue = [] }) in
      let out = send_spawns tick r.1 (record { seqs = r.0.seq_by_instance; sink = sink }) in
      let t = tick_all tick now (shuffle r.0.instances) r.0.surroundings out in
      (
        clean_up t.over (record r.0 {
          instances = t.instances;
          seq_by_instance = t.output.seqs;
          surroundings = t.surroundings;
          total_drained = add_int64 r.0.total_drained (pos (length drained));
        }),
        t.output.sink,
      )
