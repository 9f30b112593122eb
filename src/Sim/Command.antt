-- ===== src/Sim/Command.antt =====
-- server/internal/sim/command.go. `F` stands for float64 and `T` for time.Time: commands only carry
-- them. A pointer to a payload is an option.
use mine_and_die.Prelude.{ℕ, Option, String}
use mine_and_die.Prelude.Int.{ℤ}

-- The strings of `CommandType`.
abbrev pub command_move : String
command_move = "Move"

abbrev pub command_action : String
command_action = "Action"

abbrev pub command_heartbeat : String
command_heartbeat = "Heartbeat"

abbrev pub command_set_path : String
command_set_path = "SetPath"

abbrev pub command_clear_path : String
command_clear_path = "ClearPath"

pub record MoveCommand (F : Type 0) : Type 0 where
  pub dx : F
  pub dy : F
  pub facing : String

pub record ActionCommand : Type 0 where
  pub name : String

pub record PathCommand (F : Type 0) : Type 0 where
  pub target_x : F
  pub target_y : F

pub record HeartbeatCommand (T : Type 0) : Type 0 where
  pub received_at : T
  pub client_sent : ℤ
  pub rtt : ℤ

pub record Command (F T : Type 0) : Type 0 where
  pub origin_tick : ℕ
  pub actor_id : String
  pub type : String
  pub issued_at : T
  pub move : Option (MoveCommand F)
  pub action : Option ActionCommand
  pub heartbeat : Option (HeartbeatCommand T)
  pub path : Option (PathCommand F)
