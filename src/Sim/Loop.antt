-- ===== src/Sim/Loop.antt =====
-- server/internal/sim/loop.go: throttled ingestion of commands and the single simulation step.
-- `Enqueue` holds queueMu, but for the report at its end, so one call is one step. The calls of the
-- hooks and of the logger are kept in `reports`, oldest first. The engine core is a parameter.
-- The loop's own fields are used by its methods only, and a method is called on a built loop.
pub mod Drops
pub mod Throttle
pub mod Limit
pub mod Order
mod Tests
use mine_and_die.Prelude.{
  ℕ, suc, ◌+◌, ◌-◌, ◌%◌, Bool, true, false, not, ◌&&◌, List, [], ◌∷◌, ◌++◌, Option, none, some, ite,
  String, insert, lookup_or, str_dec, if◌then◌else◌, leb, ltb, ◌==◌, add_u64, bit_and,
}
use mine_and_die.Prelude.Int.{ℤ, pos, ltb_ℤ, leb_ℤ, pos_part}
use mine_and_die.Sim.Command.{Command}
use mine_and_die.Sim.Buffer
use mine_and_die.Sim.Buffer.{Buffer, MetricCall}

abbrev pub reject_queue_limit : String
reject_queue_limit = "queue_limit"

abbrev pub reject_queue_full : String
reject_queue_full = "queue_full"

pub record LoopConfig : Type 0 where
  pub tick_rate : ℤ
  pub catchup_max_ticks : ℤ
  pub command_capacity : ℤ
  pub per_actor_limit : ℤ
  pub warning_step : ℤ

-- Which of the hooks are set.
pub record Hooks : Type 0 where
  pub on_queue_warning : Bool
  pub on_command_drop : Bool

pub data Report (F T : Type 0) : Type 0 where
  queue_warning : ℕ → Report F T
  command_drop : String → Command F T → Report F T
  backpressure : String → String → ℕ → ℤ → Report F T

pub record Loop (F T : Type 0) : Type 0 where
  pub buffer : Buffer (Command F T)
  pub config : LoopConfig
  pub hooks : Hooks
  pub logger : Bool
  pub per_actor_count : List (String × ℕ)
  pub drop_counts : List (String × ℕ)
  pub reports : List (Report F T)

-- `count > 0 && count & (count - 1) == 0`
pub is_power_of_two : ℕ → Bool
is_power_of_two count = ltb 0 count && (bit_and count (count - 1) == 0)

module _ {F T : Type 0} where
  pub new_loop : Command F T → LoopConfig → Hooks → Bool → Option (List MetricCall) → Loop F T
  new_loop blank cfg hooks logger metrics = record {
    buffer = Buffer.new_buffer blank cfg.command_capacity metrics;
    config = cfg;
    hooks = hooks;
    logger = logger;
    per_actor_count = [];
    drop_counts = [];
    reports = [];
  }

  pub pending : Loop F T → ℕ
  pending l = Buffer.len l.buffer

  -- Go's `l.perActorCount[actor]`.
  abbrev pub count_of : String → Loop F T → ℕ
  count_of actor l = lookup_or str_dec 0 actor l.per_actor_count

  pub report : Report F T → Loop F T → Loop F T
  report r l = record l { reports = l.reports ++ (r ∷ []) }

  pub increment_drop : String → Loop F T → Loop F T × ℕ
  increment_drop actor l =
      let count = add_u64 (lookup_or str_dec 0 actor l.drop_counts) 1 in
      ite (str_dec actor "") (l, 0)
        (record l { drop_counts = insert str_dec actor count l.drop_counts }, count)

  pub warn_queue : ℕ → Loop F T → Loop F T
  unfolding report
  warn_queue length l = if l.hooks.on_queue_warning then report (queue_warning length) l else l

  pub drop_hook : String → Command F T → Loop F T → Loop F T
  unfolding report
  drop_hook reason cmd l = if l.hooks.on_command_drop then report (command_drop reason cmd) l else l

  pub report_drop : String → Command F T → ℕ → Loop F T → Loop F T
  unfolding report is_power_of_two drop_hook
  report_drop reason cmd count l =
      let l' = drop_hook reason cmd l in
      ite (str_dec reason reject_queue_limit)
        (if is_power_of_two count && l.logger
          then report (backpressure cmd.actor_id cmd.type count l.config.per_actor_limit) l'
          else l')
        l'

  pub refuse : Loop F T × ℕ → Loop F T × Option String × ℕ
  refuse (l, count) = (l, some reject_queue_limit, count)

  -- The throttle of a command whose actor has `count` commands staged.
  charge_named : Command F T → ℕ → Loop F T → Loop F T × Option String × ℕ
  unfolding refuse
  charge_named cmd count l =
      if leb_ℤ l.config.per_actor_limit (pos count)
      then refuse (increment_drop cmd.actor_id l)
      else (
        record l { per_actor_count = insert str_dec cmd.actor_id (count + 1) l.per_actor_count },
        none,
        0,
      )

  -- The first part of `Enqueue`. The result holds the reject reason, `none` for the empty string,
  -- and the number of drops to report.
  pub charge : Command F T → Loop F T → Loop F T × Option String × ℕ
  unfolding charge_named
  charge cmd l =
      if ltb_ℤ (pos 0) l.config.per_actor_limit
      then ite (str_dec cmd.actor_id "") (l, none, 0) (charge_named cmd (count_of cmd.actor_id l) l)
      else (l, none, 0)

  -- The warning after a push that made the queue `length` long.
  warn_staged : ℕ → Loop F T → Loop F T
  warn_staged length l =
      let step = l.config.warning_step in
      if ltb_ℤ (pos 0) step && leb_ℤ step (pos length) && (length % pos_part step == 0)
      then warn_queue length l
      else l

  -- The second part of `Enqueue`, for a command that the throttle lets through.
  pub stage : Command F T → Loop F T → Loop F T × Option String × ℕ
  unfolding refuse warn_staged
  stage cmd l =
      let (b, pushed) = Buffer.push cmd l.buffer in
      let l' = record l { buffer = b } in
      if pushed
      then (warn_staged (Buffer.len b) l', none, 0)
      else refuse (increment_drop cmd.actor_id l')

  -- The end of `Enqueue`: the reply, after the report of a drop.
  pub conclude : Command F T → Loop F T × Option String × ℕ → Loop F T × Bool × Option String
  conclude cmd (l, none, count) = (l, true, none)
  conclude cmd (l, some reason, count) = (report_drop reason cmd count l, false, some reason)

  stage_charged : Command F T → Loop F T × Option String × ℕ → Loop F T × Option String × ℕ
  stage_charged cmd (l, none, count) = stage cmd l
  stage_charged cmd (l, some reason, count) = (l, some reason, count)

  -- The new loop, whether the command is staged, and the reject reason.
  pub enqueue : Command F T → Loop F T → Loop F T × Bool × Option String
  unfolding stage_charged
  enqueue cmd l = conclude cmd (stage_charged cmd (charge cmd l))

  pub drain_commands : Command F T → Loop F T → Loop F T × List (Command F T)
  drain_commands blank l =
      let (b, commands) = Buffer.drain blank l.buffer in
      (record l { buffer = b; per_actor_count = [] }, commands)

pub record TickContext (F T : Type 0) : Type 0 where
  pub tick : ℕ
  pub now : T
  pub delta : F

-- The engine core and the `Prepare` hook, over a state `S` with snapshots in `Snap`. `Apply` also
-- returns an error, which `Advance` drops. `removed_players` is nil for a core that reports none.
pub record Core (F T S Snap : Type 0) : Type 0 where
  pub prepare : Option (TickContext F T → S → S)
  pub apply : List (Command F T) → S → S
  pub step : S → S
  pub snapshot : S → Snap
  pub removed_players : Option (S → List String)

-- The fields of `LoopStepResult` that `Advance` sets.
pub record StepResult (F T Snap : Type 0) : Type 0 where
  pub tick : ℕ
  pub now : T
  pub delta : F
  pub snapshot : Snap
  pub commands : List (Command F T)
  pub removed_players : List String

module _ {F T S Snap : Type 0} (core : Core F T S Snap) where
  pub prepared : TickContext F T → S → S
  prepared ctx s = elim core.prepare [ none ↦ s | some f ↦ f ctx s ]

  removed : S → List String
  removed s = elim core.removed_players [ none ↦ [] | some f ↦ f s ]

  -- The loop and the core's state after one simulation step, and the step's result.
  pub advance : Command F T → TickContext F T → Loop F T → S → Loop F T × S × StepResult F T Snap
  unfolding prepared removed
  advance blank ctx l s =
      let (l', commands) = drain_commands blank l in
      let s' = core.step (core.apply commands (prepared ctx s)) in
      (
        l',
        s',
        record {
          tick = ctx.tick;
          now = ctx.now;
          delta = ctx.delta;
          snapshot = core.snapshot s';
          commands = commands;
          removed_players = removed s';
        },
      )
