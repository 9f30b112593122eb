-- ===== src/Status/Tests.antt =====
-- The ticks of a status effect at a concrete instance: the state is its next tick, its end and the
-- ticks that were made.
use mine_and_die.Prelude.{ℕ, List, [], ◌∷◌, none, ◌≡◌, arith}
use mine_and_die.Prelude.Int.{pos}
use mine_and_die.Status.{Instance, run_ticks}
use mine_and_die.Status.Ticks.{IsSchedule, all_ticks, run_ticks_lem}

record Burning : Type 0 where
  next : ℕ
  ends : ℕ
  made : List ℕ

abbrev burning : Instance Burning
burning = record {
  tick_interval = pos 200;
  on_tick = λ at s. record s { made = at ∷ s.made };
  on_expire = none;
  next_tick = λ s. s.next;
  set_next_tick = λ at s. record s { next = at };
  set_last_tick = λ at s. s;
  expires_at = λ s. s.ends;
  attachment = none;
}

abbrev lit : Burning
lit = record { next = 1000; ends = 3000; made = [] }

run_ticks_lem_example :
    (times : List ℕ) × ((run_ticks burning 1500 lit ≡ all_ticks burning 200 times lit)
      × IsSchedule 200 1500 3000 1000 times)
run_ticks_lem_example = run_ticks_lem burning 1500 lit (omega arith) (omega arith)
