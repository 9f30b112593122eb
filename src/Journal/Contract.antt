-- ===== src/Journal/Contract.antt =====
-- The data of server/effects/contract/types.go that the journal stores. `Seq` and `Tick` are int64.
-- A string type is a text, a pointer an option, and a map an association list.
use mine_and_die.Prelude.{Bool, List, Option, String}
use mine_and_die.Prelude.Int.{ℤ}

pub record EndConditions : Type 0 where
  pub on_unequip : Bool
  pub on_owner_death : Bool
  pub on_owner_lost : Bool
  pub on_zone_change : Bool
  pub on_explicit_cancel : Bool

pub data EndPolicyKind : Type 0 where
  end_duration end_instant end_condition : EndPolicyKind

pub record EndPolicy : Type 0 where
  pub kind : EndPolicyKind
  pub conditions : EndConditions

pub record EffectGeometry : Type 0 where
  pub shape : String
  pub offset_x : ℤ
  pub offset_y : ℤ
  pub facing : ℤ
  pub arc : ℤ
  pub length : ℤ
  pub width : ℤ
  pub height : ℤ
  pub radius : ℤ
  pub extent : ℤ
  pub variants : List (String × ℤ)

pub record EffectMotionState : Type 0 where
  pub position_x : ℤ
  pub position_y : ℤ
  pub velocity_x : ℤ
  pub velocity_y : ℤ
  pub range_remaining : ℤ
  pub travelled_length : ℤ

pub record EffectDeliveryState : Type 0 where
  pub geometry : EffectGeometry
  pub motion : EffectMotionState
  pub attached_actor_id : String
  pub follow : String

pub record EffectBehaviorState : Type 0 where
  pub ticks_remaining : ℤ
  pub cooldown_ticks : ℤ
  pub tick_cadence : ℤ
  pub accumulated_damage : ℤ
  pub stacks : List (String × ℤ)
  pub extra : List (String × ℤ)

pub record ReplicationSpec : Type 0 where
  pub send_spawn : Bool
  pub send_updates : Bool
  pub send_end : Bool
  pub managed_by_client : Bool
  pub update_fields : List (String × Bool)

pub record EffectHooks : Type 0 where
  pub on_spawn : String
  pub on_tick : String
  pub on_hit : String
  pub on_expire : String

pub record EffectDefinition : Type 0 where
  pub type_id : String
  pub delivery : String
  pub shape : String
  pub motion : String
  pub impact : String
  pub lifetime_ticks : ℤ
  pub pierce_count : ℤ
  pub params : List (String × ℤ)
  pub hooks : EffectHooks
  pub client : ReplicationSpec
  pub ending : EndPolicy

pub record EffectInstance : Type 0 where
  pub id : String
  pub entry_id : String
  pub definition_id : String
  pub definition : Option EffectDefinition
  pub start_tick : ℤ
  pub delivery_state : EffectDeliveryState
  pub behavior_state : EffectBehaviorState
  pub params : List (String × ℤ)
  pub colors : List String
  pub follow_actor_id : String
  pub owner_actor_id : String
  pub replication : ReplicationSpec
  pub ending : EndPolicy

pub record EffectSpawnEvent : Type 0 where
  pub tick : ℤ
  pub seq : ℤ
  pub spawned : EffectInstance

pub record EffectUpdateEvent : Type 0 where
  pub tick : ℤ
  pub seq : ℤ
  pub id : String
  pub delivery_state : Option EffectDeliveryState
  pub behavior_state : Option EffectBehaviorState
  pub params : List (String × ℤ)

pub record EffectEndEvent : Type 0 where
  pub tick : ℤ
  pub seq : ℤ
  pub id : String
  pub reason : String
