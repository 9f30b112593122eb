-- ===== src/Effects/Manager/Valid.antt =====
-- The invariant of the manager of server/internal/world/effects/manager.go: each instance stands under
-- its id and is live, and ids that were not given out have no events.
use mine_and_die.Prelude.{
  ℕ, ◌<◌, ◌≤◌, ◌^◌, ◌≡◌, ◌≢◌, List, [], String, str_dec, count, All, Option, none, some, lookup,
  refl, option_cases, arith,
}
use mine_and_die.Prelude.Int.{ℤ}
use mine_and_die.Journal.Contract.{EffectInstance}
use mine_and_die.Effects.Manager.{
  Manager, Surroundings, Hook, HookSet, named, run_hook, spawn_of, tick_of, ManagerConfig, Sink,
  Output, Shuffle, invoke_on_spawn, invoke_on_tick,
}
use mine_and_die.Effects.Manager.Log.{numbers, ends, late}
use mine_and_die.Effects.Manager.Entries.{keys}
use mine_and_die.Effects.Manager.Tracks.{view, IsLive, IsSound}

-- The ids that `Sprintf` makes of two numbers are different, and none is empty.
pub record IsNaming (name : ℕ → String) : Type 0 where
  pub injective : (m n : ℕ) → name m ≡ name n → m ≡ n
  pub named : (n : ℕ) → name n ≢ ""

-- An iteration over a map meets each of its entries, once.
pub record IsIteration (shuffle : Shuffle) : Type 1 where
  pub counts :
      (j : String) (l : List (String × EffectInstance))
      → count str_dec j (keys (shuffle l)) ≡ count str_dec j (keys l)
  pub every :
      (P : String × EffectInstance → Type 0) (l : List (String × EffectInstance))
      → All P l
      → All P (shuffle l)

-- A hook leaves the id of its instance as it is.
abbrev pub LeavesId : {F R Y W : Type 0} → Hook F R Y W → Type 0
LeavesId {F} {R} {Y} {W} hook =
    (tick now : ℤ) (inst : EffectInstance) (s : Surroundings F R Y W)
    → (hook tick now inst s).0.id ≡ inst.id

-- No hook of the manager renames its instance.
pub record KeepsIds {F R Y W : Type 0} (cfg : ManagerConfig F R Y W) : Type 0 where
  pub on_spawn :
      (key : String) (set : HookSet F R Y W) (hook : Hook F R Y W)
      → lookup str_dec key cfg.hooks ≡ some set
      → set.on_spawn ≡ some hook
      → LeavesId hook
  pub on_tick :
      (key : String) (set : HookSet F R Y W) (hook : Hook F R Y W)
      → lookup str_dec key cfg.hooks ≡ some set
      → set.on_tick ≡ some hook
      → LeavesId hook

module _ {F R Y W : Type 0} (cfg : ManagerConfig F R Y W) (keeps : KeepsIds cfg) where
  run_hook-id :
      (hook : Option (Hook F R Y W))
      → ((h : Hook F R Y W) → hook ≡ some h → LeavesId h)
      → LeavesId (run_hook hook)
  run_hook-id none f tick now inst s = refl
  run_hook-id (some hook) f tick now inst s = f hook refl tick now inst s

  on_spawn-id :
      (key : String) (set : Option (HookSet F R Y W))
      → ((x : HookSet F R Y W) → set ≡ some x → lookup str_dec key cfg.hooks ≡ some x)
      → LeavesId (run_hook (spawn_of set))
  on_spawn-id key none f = run_hook-id none (λ h e. cc)
  on_spawn-id key (some set) f =
      run_hook-id set.on_spawn (λ h e. keeps.on_spawn key set h (f set refl) e)

  on_tick-id :
      (key : String) (set : Option (HookSet F R Y W))
      → ((x : HookSet F R Y W) → set ≡ some x → lookup str_dec key cfg.hooks ≡ some x)
      → LeavesId (run_hook (tick_of set))
  on_tick-id key none f = run_hook-id none (λ h e. cc)
  on_tick-id key (some set) f =
      run_hook-id set.on_tick (λ h e. keeps.on_tick key set h (f set refl) e)

  named-lookup :
      (key : String) (x : HookSet F R Y W)
      → named cfg key ≡ some x
      → lookup str_dec key cfg.hooks ≡ some x
  named-lookup key x e = ground (arith, e)

  pub invoke_on_spawn-id : LeavesId (invoke_on_spawn cfg)
  unfolding invoke_on_spawn
  invoke_on_spawn-id tick now inst s =
      option_cases (λ (r : EffectInstance × Surroundings F R Y W). r.0.id ≡ inst.id) inst.definition
        (inst, s) (λ def. run_hook (spawn_of (named cfg def.hooks.on_spawn)) tick now inst s)
        (λ _. refl)
        (λ def _.
          on_spawn-id def.hooks.on_spawn (named cfg def.hooks.on_spawn)
            (named-lookup def.hooks.on_spawn) tick now inst s)

  pub invoke_on_tick-id : LeavesId (invoke_on_tick cfg)
  unfolding invoke_on_tick
  invoke_on_tick-id tick now inst s =
      option_cases (λ (r : EffectInstance × Surroundings F R Y W). r.0.id ≡ inst.id) inst.definition
        (inst, s) (λ def. run_hook (tick_of (named cfg def.hooks.on_tick)) tick now inst s)
        (λ _. refl)
        (λ def _.
          on_tick-id def.hooks.on_tick (named cfg def.hooks.on_tick)
            (named-lookup def.hooks.on_tick) tick now inst s)

abbrev pub Keyed : String × EffectInstance → Type 0
Keyed e = (e.0 ≡ e.1.id) × (e.0 ≢ "")

module _ {F R Y W : Type 0} where
  abbrev pub output : Manager F R Y W → Sink → Output
  output m sink = record { seqs = m.seq_by_instance; sink = sink }

  -- No instance has this id, and no event.
  pub record IsFresh (j : String) (m : Manager F R Y W) (sink : Sink) : Type 0 where
    pub no_key : count str_dec j (keys m.instances) ≡ 0
    pub no_number : numbers j sink.events ≡ []
    pub no_end : ends j sink.events ≡ 0
    pub none_late : late j 0 sink.events ≡ 0

  pub record Valid (name : ℕ → String) (m : Manager F R Y W) (sink : Sink) : Type 0 where
    pub keyed : All Keyed m.instances
    pub distinct : (j : String) → count str_dec j (keys m.instances) ≤ 1
    pub live :
        (j : String) → 0 < count str_dec j (keys m.instances) → IsLive (view j (output m sink))
    pub sound : (j : String) → IsSound (view j (output m sink))
    pub fresh : (n : ℕ) → m.next_instance_id < n → n < 2 ^ 64 → IsFresh (name n) m sink
