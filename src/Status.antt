-- ===== src/Status.antt =====
-- server/internal/world/status/status_effects.go: applying, ticking and expiring status effects. `S` is
-- the state of the world that the adapters read and write; an adapter that is nil is given by what
-- the code does without it: a setter that changes nothing, a time that is zero. A time is a number,
-- the zero time is 0, and a sum of a time and a duration is exact.
pub mod Ticks
mod Tests
use mine_and_die.Prelude.{
  ℕ, zero, suc, ◌+◌, Bool, true, false, not, ◌&&◌, List, [], ◌∷◌, Option, none, some, ite, String,
  str_dec, ltb, leb, ◌==◌, if◌then◌else◌,
}
use mine_and_die.Prelude.Int.{ℤ, pos, pos_part, ltb_ℤ, leb_ℤ}

-- `StatusEffectAttachmentConfig`.
pub record Attachment (S : Type 0) : Type 0 where
  pub extend : ℕ → S → S
  pub expire : ℕ → S → Bool × S
  pub clear : S → S

-- `StatusEffectInstanceConfig` with its `StatusEffectDefinitionCallbacks`.
pub record Instance (S : Type 0) : Type 0 where
  pub tick_interval : ℤ
  pub on_tick : ℕ → S → S
  pub on_expire : Option (ℕ → S → S)
  pub next_tick : S → ℕ
  pub set_next_tick : ℕ → S → S
  pub set_last_tick : ℕ → S → S
  pub expires_at : S → ℕ
  pub attachment : Option (Attachment S)

-- `AdvanceActorStatusEffectsConfig`; `none` is an instance that is nil or that has no configuration.
pub record ActorConfig (S : Type 0) : Type 0 where
  pub instances : S → List (String × Option (Instance S))
  pub remove : String → S → S
  pub record_effect_end : S → S

module _ {S : Type 0} where
  -- One round of the loop: the tick at `at`.
  abbrev pub tick : Instance S → ℕ → ℕ → S → S
  tick inst interval at s =
      inst.set_next_tick (at + interval) (inst.set_last_tick at (inst.on_tick at s))

  -- The loop over the ticks that are due, with fuel; `none` is a loop that goes on.
  pub tick_loop : Instance S → ℕ → ℕ → ℕ → ℕ → ℕ → S → Option S
  tick_loop inst interval now expires zero next s = none
  tick_loop inst interval now expires (suc fuel) next s =
      let s' = tick inst interval next s in
      let rest = tick_loop inst interval now expires fuel (next + interval) s' in
      if ltb now next
      then some s
      else if not (expires == 0) && ltb expires next
      then some s
      else if next + interval == next
      then some s'
      else rest

  -- `now + 1` rounds are enough, as a round moves the next tick on.
  pub run_ticks : Instance S → ℕ → S → S
  unfolding tick_loop
  run_ticks inst now s =
      if ltb_ℤ (pos 0) inst.tick_interval && not (inst.next_tick s == 0)
      then elim (tick_loop inst (pos_part inst.tick_interval) now (inst.expires_at s) (suc now)
          (inst.next_tick s) s) [ none ↦ s | some s' ↦ s' ]
      else s

  -- The end of an instance.
  pub expire_instance : S → ℕ → ActorConfig S → Instance S → S
  expire_instance s now cfg inst = elim inst.on_expire [
    | some on_expire ↦ on_expire now s
    | none ↦ elim inst.attachment [
      | none ↦ s
      | some a ↦ let r = a.expire now s in a.clear (if r.0 then cfg.record_effect_end r.1 else r.1)
    ]
  ]

  pub advance_instance : ActorConfig S → ℕ → String → Option (Instance S) → S → S
  unfolding run_ticks expire_instance
  advance_instance cfg now key none s = cfg.remove key s
  advance_instance cfg now key (some inst) s =
      let s' = run_ticks inst now s in
      if ltb now (inst.expires_at s')
      then elim inst.attachment [ none ↦ s' | some a ↦ a.extend (inst.expires_at s') s' ]
      else cfg.remove key (expire_instance s' now cfg inst)

  advance_all : ActorConfig S → ℕ → List (String × Option (Instance S)) → S → S
  unfolding advance_instance
  advance_all cfg now [] s = s
  advance_all cfg now ((key, inst) ∷ rest) s =
      advance_all cfg now rest (advance_instance cfg now key inst s)

  pub advance_actor_status_effects : ActorConfig S → ℕ → S → S
  unfolding advance_all
  advance_actor_status_effects cfg now s = advance_all cfg now (cfg.instances s) s

  advance_actors : List (ActorConfig S) → ℕ → S → S
  unfolding advance_actor_status_effects
  advance_actors [] now s = s
  advance_actors (cfg ∷ rest) now s =
      advance_actors rest now (advance_actor_status_effects cfg now s)

  -- The players, then the NPCs.
  pub advance_status_effects : (S → List (ActorConfig S)) → (S → List (ActorConfig S)) → ℕ → S → S
  unfolding advance_actors
  advance_status_effects players npcs now s =
      let s' = advance_actors (players s) now s in advance_actors (npcs s') now s'

-- `Add` of a duration that is positive.
abbrev after : ℕ → ℤ → ℕ
after at d = at + pos_part d

-- `StatusEffectInstanceHandle`, with the attachment's `SetStatus` and `Extend`. A handle without
-- `NextTick` keeps its next tick when it is refreshed.
pub record Handle (S : Type 0) : Type 0 where
  pub has_definition : S → Bool
  pub set_definition : S → S
  pub set_source_id : String → S → S
  pub set_applied_at : ℕ → S → S
  pub set_expires_at : ℕ → S → S
  pub set_next_tick : ℕ → S → S
  pub next_tick : Option (S → ℕ)
  pub set_last_tick : ℕ → S → S
  pub set_status : String → S → S
  pub extend : ℕ → S → S

-- `ApplyStatusEffectDefinition`.
pub record Definition (S : Type 0) : Type 0 where
  pub duration : ℤ
  pub tick_interval : ℤ
  pub initial_tick : Bool
  pub on_apply : Handle S → ℕ → S → S
  pub on_tick : Option (Handle S → ℕ → S → S)

-- `ApplyStatusEffectConfig`.
pub record ApplyConfig (S : Type 0) : Type 0 where
  pub now : ℕ
  pub type : String
  pub source_id : String
  pub lookup_definition : S → Option (Definition S)
  pub find_instance : S → Option (Handle S)
  pub new_instance : S → Handle S × S
  pub store_instance : Handle S → S → S
  pub record_applied : ℤ → S → S

module _ {S : Type 0} where
  -- The instance that is there gets a new end.
  pub refresh : ApplyConfig S → Definition S → Handle S → S → S
  refresh cfg def inst s =
      let ends = after cfg.now def.duration in
      let s1 = inst.set_expires_at ends (inst.set_source_id cfg.source_id s) in
      let s2 = if inst.has_definition s1 then s1 else inst.set_definition s1 in
      let s3 =
        if ltb_ℤ (pos 0) def.tick_interval
        then elim inst.next_tick [
          | none ↦ s2
          | some next ↦
              if next s2 == 0 then inst.set_next_tick (after cfg.now def.tick_interval) s2 else s2
        ]
        else s2 in
      inst.extend ends s3

  -- The first tick of a new instance.
  first_tick : ApplyConfig S → Definition S → Handle S → S → S
  first_tick cfg def inst s =
      if def.initial_tick
      then elim def.on_tick [
        | none ↦ s
        | some on_tick ↦
            let s1 = inst.set_last_tick cfg.now (on_tick inst cfg.now s) in
            if ltb_ℤ (pos 0) def.tick_interval
            then inst.set_next_tick (after cfg.now def.tick_interval) s1
            else s1
      ]
      else s

  pub begin : ApplyConfig S → Definition S → Handle S → S → S
  unfolding first_tick
  begin cfg def inst s =
      let s1 = inst.set_applied_at cfg.now (inst.set_source_id cfg.source_id s) in
      let s2 = inst.set_definition (inst.set_expires_at (after cfg.now def.duration) s1) in
      let at = if def.initial_tick then cfg.now else after cfg.now def.tick_interval in
      let s3 = if ltb_ℤ (pos 0) def.tick_interval then inst.set_next_tick at s2 else s2 in
      let s4 = def.on_apply inst cfg.now (cfg.store_instance inst s3) in
      let s5 = first_tick cfg def inst s4 in
      cfg.record_applied def.duration (inst.set_status cfg.type s5)

  pub apply_status_effect : ApplyConfig S → S → Bool × S
  unfolding refresh begin
  apply_status_effect cfg s =
      let made = cfg.new_instance s in
      ite (str_dec cfg.type "") (false, s)
        (elim (cfg.lookup_definition s) [
          | none ↦ (false, s)
          | some def ↦
              if leb_ℤ def.duration (pos 0) then (false, s) else elim (cfg.find_instance s) [
                | some inst ↦ (false, refresh cfg def inst s)
                | none ↦ (true, begin cfg def made.0 made.1)
              ]
        ])
