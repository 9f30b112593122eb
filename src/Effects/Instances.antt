-- ===== src/Effects/Instances.antt =====
-- server/internal/world/effects/manager.go: what the manager does with one effect instance, from the
-- intent that asks for it to the policy that ends it. The effect contract is that of
-- server/effects/contract/types.go, the catalog that of server/effects/catalog/resolver.go.
use mine_and_die.Prelude.{
  ◌≡◌, refl, arith, Bool, true, false, ◌&&◌, List, Option, none, some, String, str_dec, ite,
  if◌then◌else◌, lookup,
}
use mine_and_die.Prelude.Int.{ℤ, pos, ◌-ℤ◌, leb_ℤ, ltb_ℤ}
use mine_and_die.Journal.Contract.{
  EndPolicy, EndPolicyKind, end_duration, end_instant, end_condition, EndConditions, EffectGeometry,
  EffectMotionState, ReplicationSpec, EffectDefinition, EffectInstance,
}

pub record EffectIntent : Type 0 where
  pub entry_id : String
  pub type_id : String
  pub delivery : String
  pub source_actor_id : String
  pub target_actor_id : String
  pub geometry : EffectGeometry
  pub duration_ticks : ℤ
  pub tick_cadence : ℤ
  pub params : List (String × ℤ)

-- `Entry` of the catalog.
pub record CatalogEntry : Type 0 where
  pub contract_id : String
  pub definition : Option EffectDefinition

-- The definitions of a manager: those of the contract and those of the catalog.
pub record Definitions : Type 0 where
  pub contract : List (String × EffectDefinition)
  pub catalog : Option (List (String × CatalogEntry))

-- The catalog's word on an id: its contract and its definition.
abbrev pub catalogued : Option CatalogEntry → String → Option EffectDefinition × String
catalogued none id = (none, id)
catalogued (some entry) id = (entry.definition, entry.contract_id)

abbrev pub entry_of : Option (List (String × CatalogEntry)) → String → Option CatalogEntry
entry_of none id = none
entry_of (some entries) id = lookup str_dec id entries

abbrev pub first_of : Option EffectDefinition → Option EffectDefinition → Option EffectDefinition
first_of none other = other
first_of (some definition) other = some definition

pub resolve_definition : Definitions → String → Option EffectDefinition × String
resolve_definition defs type_id =
    let found = catalogued (entry_of defs.catalog type_id) type_id in
    ite (str_dec type_id "") (none, "")
      (first_of (lookup str_dec found.1 defs.contract) found.0, found.1)

abbrev pub no_conditions : EndConditions
no_conditions = record {
  on_unequip = false;
  on_owner_death = false;
  on_owner_lost = false;
  on_zone_change = false;
  on_explicit_cancel = false;
}

-- What an instance has without a definition.
abbrev pub client_of : Option EffectDefinition → ReplicationSpec
client_of none = record {
  send_spawn = true;
  send_updates = true;
  send_end = true;
  managed_by_client = false;
  update_fields = List.[];
}
client_of (some definition) = definition.client

abbrev pub end_of : Option EffectDefinition → EndPolicy
end_of none = record { kind = end_duration; conditions = no_conditions }
end_of (some definition) = definition.ending

abbrev pub delivery_of : Option EffectDefinition → String
delivery_of none = ""
delivery_of (some definition) = definition.delivery

abbrev pub lifetime_of : Option EffectDefinition → ℤ → ℤ
lifetime_of none ticks = ticks
lifetime_of (some definition) ticks = definition.lifetime_ticks

abbrev pub lasts : EndPolicyKind → Bool
lasts end_duration = true
lasts end_instant = false
lasts end_condition = false

-- The first text, or the second where the first is empty.
abbrev pub or_else : String → String → String
or_else s t = ite (str_dec s "") t s

pub normalized_tick_cadence : ℤ → ℤ
normalized_tick_cadence raw = if leb_ℤ raw (pos 0) then pos 1 else raw

abbrev pub at_rest : EffectMotionState
at_rest = record {
  position_x = pos 0;
  position_y = pos 0;
  velocity_x = pos 0;
  velocity_y = pos 0;
  range_remaining = pos 0;
  travelled_length = pos 0;
}

-- `instantiateIntent` with the id that it makes.
pub instance_for : Definitions → String → EffectIntent → ℤ → String → EffectInstance
unfolding resolve_definition normalized_tick_cadence
instance_for defs id intent tick entry_id =
    let r = resolve_definition defs entry_id in
    let kind = or_else (or_else intent.delivery (delivery_of r.0)) "area" in
    let cadence = normalized_tick_cadence intent.tick_cadence in
    let ticks =
      if leb_ℤ intent.duration_ticks (pos 0) && lasts (end_of r.0).kind
      then lifetime_of r.0 intent.duration_ticks
      else intent.duration_ticks in
    record {
      id = id;
      entry_id = entry_id;
      definition_id = or_else (or_else r.1 intent.type_id) entry_id;
      definition = r.0;
      start_tick = tick;
      delivery_state = record {
        geometry = intent.geometry;
        motion = at_rest;
        attached_actor_id = intent.target_actor_id;
        follow = ite (str_dec kind "target") "target" "none";
      };
      behavior_state = record {
        ticks_remaining = ticks;
        cooldown_ticks = if ltb_ℤ (pos 1) cadence then cadence else pos 0;
        tick_cadence = cadence;
        accumulated_damage = pos 0;
        stacks = List.[];
        extra = intent.params;
      };
      params = intent.params;
      colors = List.[];
      follow_actor_id = intent.target_actor_id;
      owner_actor_id = intent.source_actor_id;
      replication = client_of r.0;
      ending = end_of r.0;
    }

unfoldable pub instantiate : Definitions → String → EffectIntent → ℤ → Option EffectInstance
unfolding instance_for
instantiate defs id intent tick =
    let entry_id = or_else intent.entry_id intent.type_id in
    ite (str_dec entry_id "") none (some (instance_for defs id intent tick entry_id))

-- Whether the tick hook is due, with the cooldown moved on.
unfoldable pub should_invoke_on_tick : EffectInstance → Bool × EffectInstance
should_invoke_on_tick inst =
    let b = inst.behavior_state in
    let set = λ (due : Bool) (cadence cooldown : ℤ).
      let out : Bool × EffectInstance = (
        due,
        record inst {
          behavior_state = record b { tick_cadence = cadence; cooldown_ticks = cooldown };
        },
      ) in
      out in
    if leb_ℤ b.tick_cadence (pos 1)
    then set true (if leb_ℤ b.tick_cadence (pos 0) then pos 1 else b.tick_cadence) (pos 0)
    else if leb_ℤ b.cooldown_ticks (pos 1)
    then set true b.tick_cadence b.tick_cadence
    else set false b.tick_cadence (b.cooldown_ticks -ℤ pos 1)

-- The reason to end, if there is one, by the kind of the end policy.
pub decide_end : EndPolicyKind → Bool → ℤ → EffectInstance → Option String × EffectInstance
decide_end end_instant owner_lost tick inst =
    (if leb_ℤ inst.start_tick tick then some "expired" else none, inst)
decide_end end_duration owner_lost tick inst =
    let left = inst.behavior_state.ticks_remaining in
    let next = if ltb_ℤ (pos 0) left then left -ℤ pos 1 else left in
    (
      if leb_ℤ next (pos 0) then some "expired" else none,
      record inst { behavior_state = record inst.behavior_state { ticks_remaining = next } },
    )
decide_end end_condition owner_lost tick inst =
    (if inst.ending.conditions.on_owner_lost && owner_lost then some "ownerLost" else none, inst)

abbrev pub is_missing : Option (String → Bool) → String → Bool
is_missing none id = false
is_missing (some owner_missing) id = owner_missing id

unfoldable pub evaluate_end_policy :
    Option (String → Bool) → ℤ → EffectInstance → Option String × EffectInstance
unfolding decide_end
evaluate_end_policy owner_missing tick inst =
    decide_end inst.ending.kind (is_missing owner_missing inst.owner_actor_id) tick inst

-- An instance has the id that was made for it.
pub instantiate-id :
    (defs : Definitions) (id : String) (intent : EffectIntent) (tick : ℤ) (inst : EffectInstance)
    → instantiate defs id intent tick ≡ some inst
    → inst.id ≡ id
unfolding instantiate
instantiate-id defs id intent tick inst h = ground (arith, h)

pub should_invoke_on_tick-id : (inst : EffectInstance) → (should_invoke_on_tick inst).1.id ≡ inst.id
unfolding should_invoke_on_tick
should_invoke_on_tick-id inst = ground arith

decide_end-id :
    (kind : EndPolicyKind) (lost : Bool) (tick : ℤ) (inst : EffectInstance)
    → (decide_end kind lost tick inst).1.id ≡ inst.id
unfolding decide_end
decide_end-id end_duration lost tick inst = refl
decide_end-id end_instant lost tick inst = refl
decide_end-id end_condition lost tick inst = refl

pub evaluate_end_policy-id :
    (missing : Option (String → Bool)) (tick : ℤ) (inst : EffectInstance)
    → (evaluate_end_policy missing tick inst).1.id ≡ inst.id
unfolding evaluate_end_policy
evaluate_end_policy-id missing tick inst =
    decide_end-id inst.ending.kind (is_missing missing inst.owner_actor_id) tick inst
