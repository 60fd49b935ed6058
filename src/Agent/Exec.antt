-- ===== src/Agent/Exec.antt =====
-- gtp.c, `gtp_action_x`: the `switch`, a round of the loop, the loop and the whole function.
use kgtp.Base.{
  ℕ, zero, suc, ◌+◌, ◌-◌, Bool, true, false, not, ◌&&◌, none, some, List, ltb, get_elem?, Option,
}
use kgtp.Agent.Op.{
  Op, decode, bin, check_bin, div, check_div, ref, trace, check_trace, trace_printk, trace_quick,
  trace_quick_printk, log_not, bit_not, ext, zero_ext, if_goto, check_if_goto, goto, const8,
  const16, const32, const64, reg, end, dup, pop, check_pop, swap, check_swap, getv, setv, tracev,
  tracev_printk, other,
}
use kgtp.Agent.Word
use kgtp.Agent.Host.{Host}
use kgtp.Agent.Machine.{
  Machine, Outcome, next, out, code_error_out, error_out, fault, div_fault, stack_max,
}
use kgtp.Agent.Cases.{
  if_sp, exec_bin, exec_div, exec_check_div, exec_trace, exec_check_trace, exec_trace_printk,
  exec_trace_quick, exec_trace_quick_printk, exec_ext, exec_zero_ext, exec_ref, exec_if_goto,
  exec_check_if_goto, exec_goto, exec_const, exec_reg, exec_end, exec_swap, exec_dup, exec_pop,
  exec_getv, exec_setv, exec_tracev, exec_tracev_printk,
}

-- What is in `gts->tpe->reason` after an error; `callee` is what a called function has set.
pub data StopReason : Type 0 where
  expr_code_error expr_stack_overflow callee : StopReason

-- How `gtp_action_x` ends: `done` returns 0 and `failed` returns -1; `crash` is an access out of
-- bounds, `div_crash` a division that faults, and `no_fuel` stands for a loop that goes on.
pub data Exit (W : Type 0) : Type 0 where
  done : Machine W → Exit W
  failed : StopReason → Machine W → Exit W
  crash : Exit W
  div_crash : ℕ → Exit W
  no_fuel : Exit W

-- The parts of `struct action` and of the tracepoint's flags that the interpreter reads.
pub record Code : Type 0 where
  pub ebuf : List ℕ
  -- `ae->type == 'X'`
  pub type_x : Bool
  pub need_var_lock : Bool
  -- `GTP_ENTRY_FLAGS_HAVE_PRINTK`
  pub have_printk : Bool

module _ (h : Host) where
  open h use {World}

  module _ (c : Code) where
    open c use {ebuf, have_printk}

    -- The `switch`, with `pc` behind the code. A code that no `case` names does nothing.
    unfoldable pub exec : Op → Machine World → Outcome World
    exec (bin op) m = exec_bin h op m
    exec (check_bin op) m = if_sp h m (exec_bin h op)
    exec (div op) m = exec_div h op m
    exec (check_div op) m = exec_check_div h op m
    exec (ref n) m = exec_ref h n m
    exec trace m = exec_trace h have_printk m
    exec check_trace m = exec_check_trace h m
    exec trace_printk m = exec_trace_printk h m
    exec trace_quick m = exec_trace_quick h ebuf have_printk m
    exec trace_quick_printk m = exec_trace_quick_printk h ebuf m
    exec log_not m = next (record m { top = Word.log_not m.top })
    exec bit_not m = next (record m { top = Word.bit_not m.top })
    exec ext m = exec_ext h ebuf m
    exec zero_ext m = exec_zero_ext h ebuf m
    exec if_goto m = exec_if_goto h ebuf m
    exec check_if_goto m = exec_check_if_goto h ebuf m
    exec goto m = exec_goto h ebuf m
    exec const8 m = exec_const h ebuf 1 m
    exec const16 m = exec_const h ebuf 2 m
    exec const32 m = exec_const h ebuf 4 m
    exec const64 m = exec_const h ebuf 8 m
    exec reg m = exec_reg h ebuf m
    exec end m = exec_end h m
    exec dup m = exec_dup h m
    exec pop m = exec_pop h m
    exec check_pop m = if_sp h m (exec_pop h)
    exec swap m = exec_swap h m
    exec check_swap m = if_sp h m (exec_swap h)
    exec getv m = exec_getv h ebuf m
    exec setv m = exec_setv h ebuf m
    exec tracev m = exec_tracev h ebuf m
    exec tracev_printk m = exec_tracev_printk h ebuf m
    exec other m = next m

    -- `ae->type != 'X' && sp > STACK_MAX - 5`
    unfoldable pub overflows : Machine World → Bool
    overflows m = not c.type_x && ltb (stack_max - 5) m.sp

    -- Behind the `switch`: `again` is the next round.
    unfoldable pub after : (Machine World → Exit World) → Outcome World → Exit World
    after again (next m) = elim (overflows m) [
      | true ↦ failed expr_stack_overflow m
      | false ↦ again m
    ]
    after again (out m) = done m
    after again (code_error_out m) = failed expr_code_error m
    after again (error_out m) = failed callee m
    after again fault = crash
    after again (div_fault b) = div_crash b

    unfoldable pub at_code : (Machine World → Exit World) → Option ℕ → Machine World → Exit World
    at_code again none m = crash
    at_code again (some b) m = after again (exec (decode b) (record m { pc = m.pc + 1 }))

    -- The loop.
    unfoldable pub run : ℕ → Machine World → Exit World
    unfolding at_code after
    run zero m = no_fuel
    run (suc fuel) m = at_code (run fuel) (get_elem? ebuf m.pc) m

    -- At the labels behind the loop, `gtp_var_lock` is given back.
    unfoldable pub unlock : Exit World → Exit World × Bool
    unlock (done m) = (done m, false)
    unlock (failed r m) = (failed r m, false)
    unlock crash = (crash, c.need_var_lock)
    unlock (div_crash b) = (div_crash b, c.need_var_lock)
    unlock no_fuel = (no_fuel, c.need_var_lock)

    -- `gtp_action_x`: the exit, and whether it leaves `gtp_var_lock` held. `stack` is the stack of
    -- the CPU, with what an earlier run has left in it, and `top` is 0.
    unfoldable pub action_x : ℕ → List ℕ → Option ℕ → World → Exit World × Bool
    unfolding unlock
    action_x fuel stack gts_run w =
        unlock
          (run fuel (record { pc = 0; sp = 0; top = 0; stack = stack; run = gts_run; world = w }))
