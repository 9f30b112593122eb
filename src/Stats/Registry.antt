-- ===== src/Stats/Registry.antt =====
-- server/stats/registry.go: the archetypes and what a component starts with.
use mine_and_die.Prelude.Float.{Float64}
use mine_and_die.Stats.Types.{PerStat, DerivedSet, Component}
use mine_and_die.Stats.{new_component, resolve}

pub data Archetype : Type 0 where
  archetype_player : Archetype
  archetype_goblin : Archetype
  archetype_rat : Archetype

module _ {F : Type 0} (fl : Float64 F) where
  open fl use {lit}

  pub default_base : Archetype → PerStat F
  default_base archetype_player = record {
    might = lit 20 0;
    resonance = lit 16 0;
    focus = lit 12 0;
    speed = lit 11 0;
  }
  default_base archetype_goblin = record {
    might = lit 12 0;
    resonance = lit 6 0;
    focus = lit 7 0;
    speed = lit 8 0;
  }
  default_base archetype_rat = record {
    might = lit 36 1;
    resonance = lit 24 1;
    focus = lit 3 0;
    speed = lit 6 0;
  }

  pub default_component : Archetype → Component F
  default_component archetype = resolve fl 0 (new_component fl (default_base archetype))

  pub default_derived : Archetype → DerivedSet F
  default_derived archetype = let c = default_component archetype in c.derived

  pub default_max_health : Archetype → F
  default_max_health archetype = let derived = default_derived archetype in derived.max_health
