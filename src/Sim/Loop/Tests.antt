-- ===== src/Sim/Loop/Tests.antt =====
-- Tests of the loop's queue, and its theorems at concrete inputs.
use mine_and_die.Prelude.{ℕ, ◌≡◌, refl, true, List, [], ◌∷◌, ◌++◌, none, String, arith, ne_of_test}
use mine_and_die.Prelude.Int.{pos, ◌≤ℤ◌}
use mine_and_die.Sim.Command.{Command, command_action}
use mine_and_die.Sim.Buffer.Valid.{IsValid, new_buffer-IsValid}
use mine_and_die.Sim.Buffer.Refine.{contents}
use mine_and_die.Sim.Loop.{Loop, LoopConfig, Hooks, Core, new_loop, enqueue, advance}
use mine_and_die.Sim.Loop.Drops.{DropCases}
use mine_and_die.Sim.Loop.Throttle.{ReplyCases, enqueue_cases}
use mine_and_die.Sim.Loop.Limit.{enqueues, drains, after, staged_of, staged_of-le-limit}
use mine_and_die.Sim.Loop.Order.{enqueue_all, advance_lem}

abbrev cmd : String → Command ℕ ℕ
cmd actor = record {
  origin_tick = 0;
  actor_id = actor;
  type = command_action;
  issued_at = 0;
  move = none;
  action = none;
  heartbeat = none;
  path = none;
}

abbrev cfg : LoopConfig
cfg = record {
  tick_rate = pos 15;
  catchup_max_ticks = pos 0;
  command_capacity = pos 3;
  per_actor_limit = pos 2;
  warning_step = pos 2;
}

abbrev hooks : Hooks
hooks = record { on_queue_warning = true; on_command_drop = true }

start : Loop ℕ ℕ
start = new_loop (cmd "") cfg hooks true none

start-IsValid : IsValid start.buffer
unfolding start new_loop
start-IsValid = new_buffer-IsValid (cmd "") (pos 3) none

enqueue_cases_example :
    ReplyCases (cmd "") (cmd "a") start (enqueue (cmd "a") start)
    × DropCases (cmd "a") start (enqueue (cmd "a") start)
enqueue_cases_example = enqueue_cases (cmd "") (cmd "a") start start-IsValid

staged_of-le-limit_example :
    pos (
      staged_of "a" (
        contents
          (cmd "")
          (after
            (cmd "")
            (enqueues (cmd "a") ∷ enqueues (cmd "a") ∷ enqueues (cmd "a") ∷ drains ∷ [])
            (new_loop (cmd "") cfg hooks true none)).buffer))
    ≤ℤ pos 2
staged_of-le-limit_example =
    staged_of-le-limit (cmd "") cfg hooks true none
      (enqueues (cmd "a") ∷ enqueues (cmd "a") ∷ enqueues (cmd "a") ∷ drains ∷ []) "a" (omega arith)
      (ne_of_test "a" "" refl)

-- A core that keeps the last batch of commands applied to it.
abbrev recorder : Core ℕ ℕ (List (Command ℕ ℕ)) (List (Command ℕ ℕ))
recorder = record {
  prepare = none;
  apply = λ cs s. cs;
  step = λ s. s;
  snapshot = λ s. s;
  removed_players = none;
}

abbrev arrivals : List (Command ℕ ℕ)
arrivals = cmd "a" ∷ cmd "b" ∷ []

advance_lem_example :
    let (l', accepted) = enqueue_all arrivals start in
    let staged = contents (cmd "") start.buffer ++ accepted in
    let (l'', s', result) =
      advance recorder (cmd "") (record { tick = 1; now = 0; delta = 0 }) l' [] in
    (s' ≡ staged)
    × (result.commands ≡ staged)
    × (result.snapshot ≡ s')
    × (contents (cmd "") l''.buffer ≡ [])
advance_lem_example =
    advance_lem (cmd "") recorder (record { tick = 1; now = 0; delta = 0 }) arrivals start []
      start-IsValid
