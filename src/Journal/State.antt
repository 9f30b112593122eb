-- ===== src/Journal/State.antt =====
-- The state of server/internal/journal/journal.go. `D` stands for the payload of a patch and `P` for
-- the parts of a keyframe, which the journal only stores. A time is the nanoseconds since Go's zero
-- time. The journal's mutex is held through each call, so one call is one step. The deep copies that
-- the journal makes of its events are equal to them, so a copied event is the event.
use mine_and_die.Prelude.{ℕ, List, [], Option, none, some, String}
use mine_and_die.Prelude.Int.{ℤ, pos, negsuc}
use mine_and_die.Journal.Contract.{EffectSpawnEvent, EffectUpdateEvent, EffectEndEvent}
use mine_and_die.Journal.Policy.{Policy, new_policy}

pub record Patch (D : Type 0) : Type 0 where
  pub kind : String
  pub entity_id : String
  pub payload : D

pub record Keyframe (P : Type 0) : Type 0 where
  pub tick : ℕ
  pub sequence : ℕ
  pub players : P
  pub npcs : P
  pub obstacles : P
  pub ground_items : P
  pub config : P
  pub recorded_at : ℤ

-- `telemetry` holds the drops reported so far; `none` stands for a nil interface.
pub record Journal (D P : Type 0) : Type 0 where
  pub patches : List (Patch D)
  pub keyframes : List (Keyframe P)
  pub max_frames : ℕ
  pub max_age : ℕ
  pub effect_seq : List (String × ℤ)
  pub spawns : List EffectSpawnEvent
  pub updates : List EffectUpdateEvent
  pub ends : List EffectEndEvent
  pub ended_ids : List String
  pub recently_ended : List (String × ℤ)
  pub telemetry : Option (List String)
  pub resync : Option Policy

-- A negative number counts as zero.
abbrev pub at_least_zero : ℤ → ℕ
at_least_zero (pos n) = n
at_least_zero (negsuc n) = 0

unfoldable pub new_journal : {D P : Type 0} → ℤ → ℤ → Journal D P
new_journal keyframe_capacity max_age = record {
  patches = [];
  keyframes = [];
  max_frames = at_least_zero keyframe_capacity;
  max_age = at_least_zero max_age;
  effect_seq = [];
  spawns = [];
  updates = [];
  ends = [];
  ended_ids = [];
  recently_ended = [];
  telemetry = none;
  resync = some new_policy;
}

unfoldable pub attach_telemetry : {D P : Type 0} → Option (List String) → Journal D P → Journal D P
attach_telemetry t j = record j { telemetry = t }
