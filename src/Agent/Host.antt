-- ===== src/Agent/Host.antt =====
-- What an agent expression calls while it runs. `World` is the state behind these calls: the
-- trace frames, the trace state variables and the stop reason that they set themselves.
use kgtp.Base.{ℕ, Bool, Option}
use kgtp.Agent.Op.{RefSize, DivOp}
use kgtp.Agent.Word.{Shifts}

pub record Host : Type 1 where
  pub World : Type 0
  pub shifts : Shifts
  -- The quotient or the remainder of the kernel's `do_div`, whose divisor is a `uint32_t` other than 0.
  pub do_div : DivOp → ℕ → ℕ → ℕ
  -- `gts->read_memory`: `none` is a failed read.
  pub read_memory : World → RefSize → ℕ → Option ℕ
  -- `gtp_action_reg_read`, then `gts->tpe->reason`: `none` is a reason other than normal.
  pub reg_read : World → ℕ → World × Option ℕ
  -- `gtp_var_agent_get_val`, `gtp_var_agent_set_val`: `none` and `false` are an error result.
  pub get_val : World → ℕ → World × Option ℕ
  pub set_val : World → ℕ → ℕ → World × Bool
  -- `gtp_action_memory_read`, `gtp_action_printk` and `gtp_collect_var`: `false` is an error.
  pub memory_read : World → ℕ → ℕ → World × Bool
  pub printk : World → ℕ → ℕ → World × Bool
  pub collect_var : World → ℕ → World × Bool
