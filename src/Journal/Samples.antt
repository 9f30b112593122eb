-- ===== src/Journal/Samples.antt =====
-- Concrete effects, patches and keyframes for the tests of the journal.
use mine_and_die.Prelude.{ℕ, [], none, String, false}
use mine_and_die.Prelude.Int.{pos}
use mine_and_die.Journal.Contract.{
  EffectGeometry, EffectMotionState, end_duration, EffectInstance, EffectSpawnEvent,
  EffectUpdateEvent, EffectEndEvent,
}
use mine_and_die.Journal.State.{Patch, Keyframe, Journal, new_journal}

abbrev geometry : EffectGeometry
geometry = record {
  shape = "circle";
  offset_x = pos 0;
  offset_y = pos 0;
  facing = pos 0;
  arc = pos 0;
  length = pos 0;
  width = pos 0;
  height = pos 0;
  radius = pos 3;
  extent = pos 0;
  variants = [];
}

abbrev motion : EffectMotionState
motion = record {
  position_x = pos 0;
  position_y = pos 0;
  velocity_x = pos 0;
  velocity_y = pos 0;
  range_remaining = pos 0;
  travelled_length = pos 0;
}

abbrev pub fireball : String → EffectInstance
fireball id = record {
  id = id;
  entry_id = "fireball";
  definition_id = "fireball";
  definition = none;
  start_tick = pos 1;
  delivery_state = record {
    geometry = geometry;
    motion = motion;
    attached_actor_id = "";
    follow = "";
  };
  behavior_state = record {
    ticks_remaining = pos 9;
    cooldown_ticks = pos 0;
    tick_cadence = pos 0;
    accumulated_damage = pos 0;
    stacks = [];
    extra = [];
  };
  params = [];
  colors = [];
  follow_actor_id = "";
  owner_actor_id = "player-1";
  replication = record {
    send_spawn = false;
    send_updates = false;
    send_end = false;
    managed_by_client = false;
    update_fields = [];
  };
  ending = record {
    kind = end_duration;
    conditions = record {
      on_unequip = false;
      on_owner_death = false;
      on_owner_lost = false;
      on_zone_change = false;
      on_explicit_cancel = false;
    };
  };
}

abbrev pub spawn_of : String → EffectSpawnEvent
spawn_of id = record { tick = pos 5; seq = pos 0; spawned = fireball id }

abbrev pub update_of : String → EffectUpdateEvent
update_of id = record {
  tick = pos 6;
  seq = pos 0;
  id = id;
  delivery_state = none;
  behavior_state = none;
  params = [];
}

abbrev pub end_of : String → EffectEndEvent
end_of id = record { tick = pos 6; seq = pos 0; id = id; reason = "expired" }

abbrev pub patch_of : String → ℕ → Patch ℕ
patch_of id n = record { kind = "player_pos"; entity_id = id; payload = n }

abbrev pub frame_of : ℕ → Keyframe ℕ
frame_of n = record {
  tick = n;
  sequence = n;
  players = 0;
  npcs = 0;
  obstacles = 0;
  ground_items = 0;
  config = 0;
  recorded_at = pos 0;
}

-- Room for two keyframes, for up to ten nanoseconds.
abbrev pub empty_journal : Journal ℕ ℕ
empty_journal = new_journal (pos 2) (pos 10)
