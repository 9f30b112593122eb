-- ===== src/Effects/Manager/Tests.antt =====
-- The manager of server/internal/world/effects/manager.go at a concrete sequence of calls.
use mine_and_die.Prelude.{
  ℕ, zero, suc, ◌≡◌, refl, ap, subst, str_dec, ◌∙◌, true, false, List, [], ◌∷◌, none, some, lookup,
  insert, delete, lookup_or, String, arith,
}
use mine_and_die.Prelude.Int.{ℤ, pos, add_int64, ◌+ℤ◌, ◌-ℤ◌}
use mine_and_die.Prelude.Float.{whole_numbers}
use mine_and_die.Journal.Contract.{EffectGeometry, EffectDefinition, end_duration}
use mine_and_die.Effects.Grid.{new_spatial_index}
use mine_and_die.Effects.Registry.{Registry, new_registry}
use mine_and_die.Effects.Instances.{
  EffectIntent, no_conditions, instantiate, should_invoke_on_tick, evaluate_end_policy,
}
use mine_and_die.Effects.Manager.{
  ManagerConfig, Shuffle, Hook, HookSet, LifecycleEvent, new_manager,
}
use mine_and_die.Effects.Manager.Log.{numbers, late, first_seqs}
use mine_and_die.Effects.Manager.Valid.{IsNaming, IsIteration, KeepsIds, LeavesId}
use mine_and_die.Effects.Manager.Runs.{Call, enqueues, ticks, run, run-numbered}

-- Names of growing length.
unfoldable pub tally : ℕ → String
tally zero = "x"
tally (suc n) = String.◌∷◌ "x" (tally n)

text_length : String → ℕ
text_length String.[] = 0
text_length (String.◌∷◌ c s) = suc (text_length s)

text_length-tally : (n : ℕ) → text_length (tally n) ≡ suc n
unfolding text_length tally
text_length-tally zero = refl
text_length-tally (suc n) = ap suc (text_length-tally n)

pub tally-IsNaming : IsNaming tally
unfolding text_length
tally-IsNaming = record {
  injective = λ m n e. omega (arith, text_length-tally m, text_length-tally n, ap text_length e);
  named = λ n e. absurd (omega (arith, text_length-tally n, ap text_length e));
}

abbrev pub in_order : Shuffle
in_order l = l

pub in_order-IsIteration : IsIteration in_order
in_order-IsIteration = record { counts = λ j l. refl; every = λ P l h. h }

-- A hook that colours its instance.
abbrev pub colours : Hook ℤ ℕ ℕ ℕ
colours tick now inst s = (record inst { colors = "red" ∷ [] }, s)

abbrev pub burning : HookSet ℤ ℕ ℕ ℕ
burning = record { on_spawn = none; on_tick = some colours }

abbrev pub geometry : EffectGeometry
geometry = record {
  shape = "circle";
  offset_x = pos 0;
  offset_y = pos 0;
  facing = pos 0;
  arc = pos 0;
  length = pos 0;
  width = pos 0;
  height = pos 0;
  radius = pos 32;
  extent = pos 0;
  variants = [];
}

-- It burns for two ticks.
abbrev pub fire : EffectDefinition
fire = record {
  type_id = "fire";
  delivery = "area";
  shape = "circle";
  motion = "none";
  impact = "none";
  lifetime_ticks = pos 2;
  pierce_count = pos 0;
  params = [];
  hooks = record { on_spawn = ""; on_tick = "burn"; on_hit = ""; on_expire = "" };
  client = record {
    send_spawn = true;
    send_updates = true;
    send_end = true;
    managed_by_client = false;
    update_fields = [];
  };
  ending = record { kind = end_duration; conditions = no_conditions };
}

abbrev pub fires : ManagerConfig ℤ ℕ ℕ ℕ
fires = record {
  definitions = record { contract = ("fire", fire) ∷ []; catalog = none };
  hooks = ("burn", burning) ∷ [];
  owner_missing = λ w. none;
}

only_burning :
    (key : String) (set : HookSet ℤ ℕ ℕ ℕ)
    → lookup str_dec key fires.hooks ≡ some set
    → burning ≡ set
unfolding lookup
only_burning key set e = ground (arith, e)

pub fires-KeepsIds : KeepsIds fires
fires-KeepsIds = record {
  on_spawn = λ key set hook e h.
      absurd (none_ne hook (ap (λ (x : HookSet ℤ ℕ ℕ ℕ). x.on_spawn) (only_burning key set e) ∙ h));
  on_tick = λ key set hook e h.
      let same : colours ≡ hook =
        some_inj hook (ap (λ (x : HookSet ℤ ℕ ℕ ℕ). x.on_tick) (only_burning key set e) ∙ h) in
      subst (λ (x : Hook ℤ ℕ ℕ ℕ). LeavesId x) same (λ tick now inst s. refl);
}
  where
    none_ne : (hook : Hook ℤ ℕ ℕ ℕ) → none ≡ some hook → ⊥
    none_ne hook e = cc

    some_inj : (hook : Hook ℤ ℕ ℕ ℕ) → some colours ≡ some hook → colours ≡ hook
    some_inj hook e = cc

abbrev pub ignite : EffectIntent
ignite = record {
  entry_id = "";
  type_id = "fire";
  delivery = "";
  source_actor_id = "player-1";
  target_actor_id = "";
  geometry = geometry;
  duration_ticks = pos 0;
  tick_cadence = pos 1;
  params = [];
}

abbrev pub calls : List Call
calls =
    enqueues ignite
    ∷ ticks (pos 7) (pos 100) true
    ∷ enqueues ignite
    ∷ ticks (pos 8) (pos 166) true
    ∷ ticks (pos 9) (pos 232) true
    ∷ []

abbrev pub registry : Registry ℤ ℕ
registry = new_registry (new_spatial_index whole_numbers (pos 1) (pos 2))

abbrev emitted : List LifecycleEvent
emitted = run fires tally in_order calls (new_manager registry 0) []

-- A spawn, two updates and an end.
first_fire : numbers (tally 1) emitted ≡ pos 1 ∷ pos 2 ∷ pos 3 ∷ pos 4 ∷ []
unfolding run numbers tally instantiate should_invoke_on_tick evaluate_end_policy lookup insert
    delete lookup_or add_int64 ◌+ℤ◌ ◌-ℤ◌ str_dec new_manager
first_fire = refl

run-numbered_example :
    (k : ℕ) × (numbers (tally 1) (run fires tally in_order calls (new_manager registry 0) [])
      ≡ first_seqs k)
    × (late (tally 1) 0 (run fires tally in_order calls (new_manager registry 0) []) ≡ 0)
unfolding tally
run-numbered_example =
    run-numbered fires fires-KeepsIds tally tally-IsNaming in_order in_order-IsIteration registry 0
      calls (omega arith) (tally 1)
