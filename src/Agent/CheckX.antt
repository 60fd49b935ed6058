-- ===== src/Agent/CheckX.antt =====
-- gtp.c, `gtp_check_x`: the first check, and the second for an expression with a loop.
use kgtp.Base.{ℕ, Bool, false, Option, none, some, List}
use kgtp.Agent.Op.{DivOp}
use kgtp.Agent.Word.{Shifts}
use kgtp.Agent.Tsv.{Config, Check, Ret, zero_ret}
use kgtp.Agent.Round.{Simple}
use kgtp.Agent.Simple.{check_x_simple}
use kgtp.Agent.Loop.{Loop, check_x_loop}

module _ (cfg : Config) (shifts : Shifts) (do_div : DivOp → ℕ → ℕ → ℕ) where
  unfoldable pub of_loop : Option (Ret × Loop) → Option (Ret × Bool × Check)
  of_loop none = none
  of_loop (some (r, l)) = some (r, false, l.check)

  -- `if (ret != 0 || ae->type == 'X') return ret;`
  unfoldable pub second_check : ℕ → Ret → Bool → Check → Option (Ret × Bool × Check)
  unfolding of_loop
  second_check fuel zero_ret false c = of_loop (check_x_loop cfg fuel c)
  second_check fuel r b c = some (r, b, c)

  unfoldable pub on_simple : ℕ → Option (Ret × Simple) → Option (Ret × Bool × Check)
  unfolding second_check
  on_simple fuel none = none
  on_simple fuel (some (r, s)) = second_check fuel r s.type_x s.check

  -- The result, whether `ae->type` is still 'X', and what the check has left.
  unfoldable pub check_x : ℕ → List ℕ → Check → Option (Ret × Bool × Check)
  unfolding on_simple
  check_x fuel space c = on_simple fuel (check_x_simple cfg shifts do_div fuel space c)
