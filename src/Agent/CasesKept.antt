-- ===== src/Agent/CasesKept.antt =====
-- gtp.c, the `case`s of `gtp_action_x`: what every call of the host keeps, each of them keeps.
use kgtp.Base.{ℕ, ◌+◌, ◌-◌, ◌%◌, ◌^◌, Bool, true, false, ltb, ◌==◌, if-elim, get_elem?}
use kgtp.Agent.Op.{
  Op, BinOp, DivOp, bin, check_bin, div, check_div, ref, trace, check_trace, trace_printk,
  trace_quick, trace_quick_printk, log_not, bit_not, ext, zero_ext, if_goto, check_if_goto, goto,
  const8, const16, const32, const64, reg, end, dup, pop, check_pop, swap, check_swap, getv, setv,
  tracev, tracev_printk, other,
}
use kgtp.Agent.Host.{Host}
use kgtp.Agent.Machine.{next, code_error_out, error_out, div_fault, pop_stack}
use kgtp.Agent.Cases.{
  if_sp, or_out, pop_top, divide, exec_bin, exec_div, exec_check_div, exec_trace, exec_check_trace,
  exec_trace_printk, exec_trace_quick, exec_trace_quick_printk, exec_ext, exec_zero_ext, exec_ref,
  exec_if_goto, exec_check_if_goto, exec_goto, exec_const, exec_reg, exec_end, exec_swap, exec_dup,
  exec_pop, exec_getv, exec_setv, exec_tracev, exec_tracev_printk,
}
use kgtp.Agent.Word.{alu, extend_sign, extend_zero}
use kgtp.Agent.Exec.{Code, exec}
use kgtp.Agent.WorldKept.{
  HostKeeps, Kept, On, or_fault-Kept, pop_stack-Kept, store-Kept, push_top-Kept, pop_top-Kept,
  if_sp-Kept, or_out-Kept, or_error-Kept, take_value-Kept, set_or_error-Kept, take_printed-Kept,
  read_or_error-Kept, set_run-Kept, fetch-Kept, fetch_arg-Kept, fetch_const-Kept, jump-Kept,
  branch-Kept,
}

module _ (h : Host) (P : h.World → Type 0) (keeps : HostKeeps h P) (c : Code) where
  open c use {ebuf, have_printk}

  exec_bin-Kept : (op : BinOp) → On h P (exec_bin h op)
  unfolding exec_bin
  exec_bin-Kept op m p =
      pop_stack-Kept h P m (λ a m'. next (record m' { top = alu h.shifts op a m.top }))
        (λ a m' p'. p') p

  divided-Kept : (op : DivOp) → On h P (λ m. pop_stack m (divide h op))
  divided-Kept op m p =
      pop_stack-Kept h P m (divide h op)
        (λ a m' p'.
          if-elim (Kept h P) (m'.top % 2 ^ 32 == 0) (div_fault m'.top) _ (λ e. tt) (λ e. p'))
        p

  exec_div-Kept : (op : DivOp) → On h P (exec_div h op)
  unfolding exec_div
  exec_div-Kept op m p =
      if-elim (Kept h P) (m.top == 0) (code_error_out m) (pop_stack m (divide h op)) (λ e. p)
        (λ e. divided-Kept op m p)

  exec_check_div-Kept : (op : DivOp) → On h P (exec_check_div h op)
  unfolding exec_check_div
  exec_check_div-Kept op m p =
      if-elim (Kept h P) (m.top == 0) (code_error_out m)
        (if_sp h m (λ m₁. pop_stack m₁ (divide h op))) (λ e. p)
        (λ e. if_sp-Kept h P _ (divided-Kept op) m p)

  collect-Kept :
      On h P (λ m. pop_stack m (λ a m'. or_out h (h.memory_read m'.world a m'.top) m' (pop_top h)))
  collect-Kept m p =
      pop_stack-Kept h P m _
        (λ a m' p'.
          or_out-Kept h P (h.memory_read m'.world a m'.top) m' (pop_top h) (pop_top-Kept h P)
            (keeps.memory_read m'.world a m'.top p'))
        p

  exec_trace-Kept : (printk : Bool) → On h P (exec_trace h printk)
  unfolding exec_trace
  exec_trace-Kept true m p = pop_top-Kept h P (record m { sp = (m.sp + 2 ^ 32 - 1) % 2 ^ 32 }) p
  exec_trace-Kept false m p = collect-Kept m p

  exec_check_trace-Kept : On h P (exec_check_trace h)
  unfolding exec_check_trace
  exec_check_trace-Kept m p =
      if-elim (Kept h P) (ltb 1 m.sp)
        (pop_stack m (λ a m'. or_out h (h.memory_read m'.world a m'.top) m' (pop_top h)))
        (code_error_out m) (λ e. collect-Kept m p) (λ e. p)

  exec_trace_printk-Kept : On h P (exec_trace_printk h)
  unfolding exec_trace_printk
  exec_trace_printk-Kept m p =
      pop_stack-Kept h P m _
        (λ a m' p'.
          or_out-Kept h P (h.printk m'.world a m'.top) m' (pop_top h) (pop_top-Kept h P)
            (keeps.printk m'.world a m'.top p'))
        p

  exec_swap-Kept : On h P (exec_swap h)
  unfolding exec_swap
  exec_swap-Kept m p =
      store-Kept h P m m.sp m.top _
        (λ m' p'. or_fault-Kept h P (get_elem? m'.stack ((m.sp + 2 ^ 32 - 1) % 2 ^ 32)) _ (λ v.
          store-Kept h P (record m' { top = v }) ((m.sp + 2 ^ 32 - 1) % 2 ^ 32) m.top next
            (λ m'' q. q) p'))
        p

  exec_trace_quick-Kept : (printk : Bool) → On h P (exec_trace_quick h ebuf printk)
  unfolding exec_trace_quick
  exec_trace_quick-Kept true m p = p
  exec_trace_quick-Kept false m p = or_fault-Kept h P (get_elem? ebuf m.pc) _ (λ n.
      or_out-Kept h P (h.memory_read m.world m.top n) m (λ m'. next (record m' { pc = m'.pc + 1 }))
        (λ m' p'. p') (keeps.memory_read m.world m.top n p))

  exec_quick_printk-Kept : On h P (exec_trace_quick_printk h ebuf)
  unfolding exec_trace_quick_printk
  exec_quick_printk-Kept m p =
      fetch-Kept h P ebuf m _
        (λ n m' p'.
          or_out-Kept h P (h.printk m'.world m'.top n) m' next (λ m'' q. q)
            (keeps.printk m'.world m'.top n p'))
        p

  exec_reg-Kept : On h P (exec_reg h ebuf)
  unfolding exec_reg
  exec_reg-Kept m p =
      push_top-Kept h P m _
        (λ m₁ p₁.
          fetch_arg-Kept h P ebuf m₁ _
            (λ arg m₂ p₂.
              take_value-Kept h P (h.reg_read m₂.world arg) m₂ error_out next (λ m' q. q)
                (λ m' q. q) (keeps.reg_read m₂.world arg p₂))
            p₁)
        p

  exec_getv-Kept : On h P (exec_getv h ebuf)
  unfolding exec_getv
  exec_getv-Kept m p =
      fetch_arg-Kept h P ebuf m _
        (λ arg m₁ p₁.
          push_top-Kept h P m₁ _
            (λ m₂ p₂.
              take_value-Kept h P (h.get_val m₂.world arg) m₂ code_error_out next (λ m' q. q)
                (λ m' q. q) (keeps.get_val m₂.world arg p₂))
            p₁)
        p

  exec_setv-Kept : On h P (exec_setv h ebuf)
  unfolding exec_setv
  exec_setv-Kept m p =
      fetch_arg-Kept h P ebuf m _
        (λ arg m₁ p₁.
          set_or_error-Kept h P (h.set_val m₁.world arg m₁.top) m₁
            (keeps.set_val m₁.world arg m₁.top p₁))
        p

  exec_tracev-Kept : On h P (exec_tracev h ebuf)
  unfolding exec_tracev
  exec_tracev-Kept m p =
      fetch_arg-Kept h P ebuf m _
        (λ arg m₁ p₁.
          or_error-Kept h P (h.collect_var m₁.world arg) m₁ next (λ m' q. q)
            (keeps.collect_var m₁.world arg p₁))
        p

  exec_tracev_printk-Kept : On h P (exec_tracev_printk h ebuf)
  unfolding exec_tracev_printk
  exec_tracev_printk-Kept m p =
      fetch_arg-Kept h P ebuf m _
        (λ arg m₁ p₁.
          take_printed-Kept h P (h.get_val m₁.world arg) m₁ _
            (λ v m₂ p₂.
              or_error-Kept h P (h.printk m₂.world v 0) m₂ next (λ m' q. q)
                (keeps.printk m₂.world v 0 p₂))
            (keeps.get_val m₁.world arg p₁))
        p

  exec_const-Kept : (n : ℕ) → On h P (exec_const h ebuf n)
  unfolding exec_const
  exec_const-Kept n m p =
      push_top-Kept h P m _
        (λ m' p'. fetch_const-Kept h P ebuf n (record m' { top = 0 }) next (λ m'' q. q) p') p

  pub exec-Kept : (op : Op) → On h P (exec h c op)
  unfolding exec exec_ext exec_zero_ext exec_ref exec_if_goto exec_check_if_goto exec_goto exec_end
      exec_dup exec_pop
  exec-Kept (bin op) m p = exec_bin-Kept op m p
  exec-Kept (check_bin op) m p = if_sp-Kept h P (exec_bin h op) (exec_bin-Kept op) m p
  exec-Kept (div op) m p = exec_div-Kept op m p
  exec-Kept (check_div op) m p = exec_check_div-Kept op m p
  exec-Kept (ref n) m p = read_or_error-Kept h P (h.read_memory m.world n m.top) m p
  exec-Kept trace m p = exec_trace-Kept have_printk m p
  exec-Kept check_trace m p = exec_check_trace-Kept m p
  exec-Kept trace_printk m p = exec_trace_printk-Kept m p
  exec-Kept trace_quick m p = exec_trace_quick-Kept have_printk m p
  exec-Kept trace_quick_printk m p = exec_quick_printk-Kept m p
  exec-Kept log_not m p = p
  exec-Kept bit_not m p = p
  exec-Kept ext m p =
      fetch-Kept h P ebuf m (λ arg m'. next (record m' { top = extend_sign h.shifts arg m'.top }))
        (λ arg m' p'. p') p
  exec-Kept zero_ext m p =
      fetch-Kept h P ebuf m (λ arg m'. next (record m' { top = extend_zero arg m'.top }))
        (λ arg m' p'. p') p
  exec-Kept if_goto m p = branch-Kept h P ebuf m (pop_top h) (pop_top-Kept h P) p
  exec-Kept check_if_goto m p =
      branch-Kept h P ebuf m (λ m'. if_sp h m' (pop_top h))
        (if_sp-Kept h P (pop_top h) (pop_top-Kept h P)) p
  exec-Kept goto m p = jump-Kept h P ebuf m next (λ m' q. q) p
  exec-Kept const8 m p = exec_const-Kept 1 m p
  exec-Kept const16 m p = exec_const-Kept 2 m p
  exec-Kept const32 m p = exec_const-Kept 4 m p
  exec-Kept const64 m p = exec_const-Kept 8 m p
  exec-Kept reg m p = exec_reg-Kept m p
  exec-Kept end m p = set_run-Kept h P m.run m p
  exec-Kept dup m p = push_top-Kept h P m next (λ m' q. q) p
  exec-Kept pop m p = pop_top-Kept h P m p
  exec-Kept check_pop m p = if_sp-Kept h P (pop_top h) (pop_top-Kept h P) m p
  exec-Kept swap m p = exec_swap-Kept m p
  exec-Kept check_swap m p = if_sp-Kept h P (exec_swap h) exec_swap-Kept m p
  exec-Kept getv m p = exec_getv-Kept m p
  exec-Kept setv m p = exec_setv-Kept m p
  exec-Kept tracev m p = exec_tracev-Kept m p
  exec-Kept tracev_printk m p = exec_tracev_printk-Kept m p
  exec-Kept other m p = p
