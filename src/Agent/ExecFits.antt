-- ===== src/Agent/ExecFits.antt =====
-- gtp.c, the `switch` of `gtp_action_x`, code by code, against the table of shapes.
use kgtp.Base.{
  ℕ, ◌+◌, ◌-◌, ◌*◌, ◌≤◌, ◌<◌, ◌≡◌, ◌≢◌, if-elim, refl, Bool, true, false, List, arith, length,
  length-set, get_elem?-total, lt→ltb, Bool-cases, inl, inr, ◌∙◌, set, ◌==◌, ◌%◌, ◌^◌,
}
use kgtp.Agent.Op.{
  Op, DivOp, RefSize, bin, check_bin, div, check_div, ref, trace, check_trace, trace_printk,
  trace_quick, trace_quick_printk, log_not, bit_not, ext, zero_ext, if_goto, check_if_goto, goto,
  const8, const16, const32, const64, reg, end, dup, pop, check_pop, swap, check_swap, getv, setv,
  tracev, tracev_printk, other,
}
use kgtp.Agent.Host.{Host}
use kgtp.Agent.Machine.{Machine, Outcome, next, code_error_out, error_out, div_fault}
use kgtp.Agent.Cases.{
  divide, exec_bin, exec_div, exec_trace, exec_trace_printk, exec_trace_quick,
  exec_trace_quick_printk, exec_ext, exec_zero_ext, exec_ref, exec_const, exec_reg, exec_swap,
  exec_dup, exec_pop, exec_getv, exec_setv, exec_tracev, exec_tracev_printk, or_error, set_or_error,
  take_printed,
}
use kgtp.Agent.Exec.{Code, exec}
use kgtp.Agent.Shape.{Shape, plain, shape}
use kgtp.Agent.ExecReach.{
  top_cell, pop_next-Reaches, or_out-Reaches, quick-Reaches, or_error-Reaches, set_or_error-Reaches,
  take_value-Reaches, take_printed-Reaches, read_or_error-Reaches,
}
use kgtp.Agent.ExecShape.{Reaches, pop_stack-Reaches, fetch_arg-Reaches, fetch_const-Reaches}

-- The demands of a shape at `pc` (behind the code) and `sp`.
abbrev pub Fits : List ℕ → ℕ → ℕ → Shape → Type 0
Fits ebuf pc sp (plain k n p) = (pc + k ≤ length ebuf) × (n ≤ sp) × (sp - n + p < 32)
Fits ebuf pc sp _ = ⊥

abbrev pub Lands : {W : Type 0} → ℕ → ℕ → Outcome W → Shape → Type 0
Lands pc sp o (plain k n p) = Reaches (pc + k) (sp - n + p) o
Lands pc sp o _ = Unit

module _ (h : Host) where
  open h use {World}

  module _ (c : Code) where
    open c use {ebuf}

    div-Lands :
        (op : DivOp) (m : Machine World)
        → length m.stack ≡ 32
        → m.sp < 32
        → 1 ≤ m.sp
        → Reaches (m.pc + 0) (m.sp - 1 + 0) (exec_div h op m)
    unfolding exec_div
    div-Lands op m wide lt pos = elim (Bool-cases (m.top == 0)) [
      | inl e ↦ rw e tt
      | inr e ↦
          let top_set : m.top ≢ 0 = λ f. absurd (ground (arith, e, f)) in
          rw e (
            pop_stack-Reaches (m.pc + 0) (m.sp - 1 + 0) m wide (divide h op) (omega arith)
              (omega arith)
              (λ a.
                if-elim (Reaches (m.pc + 0) (m.sp - 1 + 0)) (m.top % 2 ^ 32 == 0) (div_fault m.top)
                  _ (λ f. (top_set, ground (arith, f))) (λ f. (omega arith, omega arith, wide))))
    ]

    swap-Lands :
        (m : Machine World)
        → length m.stack ≡ 32
        → m.sp < 32
        → 1 ≤ m.sp
        → Reaches (m.pc + 0) (m.sp - 1 + 1) (exec_swap h m)
    unfolding exec_swap
    swap-Lands m wide lt pos =
        let up = set m.stack m.sp m.top in
        let len : length up ≡ 32 = length-set m.stack m.sp m.top ∙ wide in
        let i = (m.sp + 2 ^ 32 - 1) % 2 ^ 32 in
        let (a, got) = top_cell up m.sp len (omega arith) (omega arith) in
        rw (lt→ltb m.sp (length m.stack) (omega arith), got, lt→ltb i (length up) (omega arith))
          (omega (arith, length-set up i m.top))

    trace-Lands :
        (m : Machine World)
        → length m.stack ≡ 32
        → m.sp < 32
        → 2 ≤ m.sp
        → (p : Bool) → Reaches (m.pc + 0) (m.sp - 2 + 0) (exec_trace h p m)
    unfolding exec_trace
    trace-Lands m wide lt two true =
        pop_next-Reaches h _ _ (record m { sp = (m.sp + 2 ^ 32 - 1) % 2 ^ 32 }) (λ a. a) wide
          (omega arith) (omega arith) (omega arith)
    trace-Lands m wide lt two false =
        let (a, got) = top_cell m.stack m.sp wide (omega arith) (omega arith) in
        rw got (
          or_out-Reaches h _ _ _ (record m { sp = (m.sp + 2 ^ 32 - 1) % 2 ^ 32 }) wide (omega arith)
            (omega arith) (omega arith))

    ref-Lands :
        (n : RefSize) (m : Machine World)
        → length m.stack ≡ 32
        → Reaches (m.pc + 0) (m.sp - 0 + 0) (exec_ref h n m)
    unfolding exec_ref
    ref-Lands n m wide =
        read_or_error-Reaches h _ _ (h.read_memory m.world n m.top) m wide (omega arith)
          (omega arith)

    quick-Lands :
        (m : Machine World)
        → length m.stack ≡ 32
        → m.pc + 1 ≤ length ebuf
        → (p : Bool) → Reaches (m.pc + 1) (m.sp - 0 + 0) (exec_trace_quick h ebuf p m)
    unfolding exec_trace_quick
    quick-Lands m wide le true = omega arith
    quick-Lands m wide le false =
        let (b, got) = get_elem?-total ebuf m.pc (omega arith) in
        rw got (quick-Reaches h _ _ _ m (λ p. p + 1) wide refl (omega arith))

    const-Lands :
        (n : ℕ) (m : Machine World)
        → length m.stack ≡ 32
        → m.sp < 32
        → m.pc + n ≤ length ebuf
        → m.sp - 0 + 1 < 32
        → Reaches (m.pc + n) (m.sp - 0 + 1) (exec_const h ebuf n m)
    unfolding exec_const
    const-Lands n m wide lt le room = rw (lt→ltb m.sp (length m.stack) (omega arith)) (
        fetch_const-Reaches ebuf _ _ n _ next le
          (λ t. omega (arith, length-set m.stack m.sp m.top)))

    -- The state behind a push and two bytes.
    abbrev pushed : Machine World → Machine World
    pushed m = record m {
      pc = m.pc + 1 + 1;
      sp = (m.sp + 1) % 2 ^ 32;
      stack = set m.stack m.sp m.top;
    }

    pub exec-Lands :
        (op : Op) (m : Machine World)
        → length m.stack ≡ 32
        → m.sp < 32
        → Fits ebuf m.pc m.sp (shape op)
        → Lands m.pc m.sp (exec h c op m) (shape op)
    unfolding shape exec exec_bin exec_div exec_trace exec_trace_printk exec_trace_quick
        exec_trace_quick_printk exec_ext exec_zero_ext exec_ref exec_const exec_reg exec_swap
        exec_dup exec_pop exec_getv exec_setv exec_tracev exec_tracev_printk
    exec-Lands (bin op) m wide lt f =
        pop_next-Reaches h _ _ m _ wide (omega arith) (omega arith) (omega arith)
    exec-Lands (div op) m wide lt f = div-Lands op m wide lt f.1
    exec-Lands pop m wide lt f =
        pop_next-Reaches h _ _ m (λ a. a) wide (omega arith) (omega arith) (omega arith)
    exec-Lands swap m wide lt f = swap-Lands m wide lt f.1
    exec-Lands trace m wide lt f = trace-Lands m wide lt f.1 c.have_printk
    exec-Lands trace_printk m wide lt f =
        let (a, got) = top_cell m.stack m.sp wide (omega arith) (omega arith) in
        rw got (
          or_out-Reaches h _ _ _ (record m { sp = (m.sp + 2 ^ 32 - 1) % 2 ^ 32 }) wide (omega arith)
            (omega arith) (omega arith))
    exec-Lands log_not m wide lt f = omega arith
    exec-Lands bit_not m wide lt f = omega arith
    exec-Lands (ref n) m wide lt f = ref-Lands n m wide
    exec-Lands dup m wide lt f =
        rw (lt→ltb m.sp (length m.stack) (omega arith))
          (omega (arith, length-set m.stack m.sp m.top))
    exec-Lands ext m wide lt f =
        let (b, got) = get_elem?-total ebuf m.pc (omega arith) in rw got (omega arith)
    exec-Lands zero_ext m wide lt f =
        let (b, got) = get_elem?-total ebuf m.pc (omega arith) in rw got (omega arith)
    exec-Lands trace_quick m wide lt f = quick-Lands m wide f.0 c.have_printk
    exec-Lands trace_quick_printk m wide lt f =
        let (b, got) = get_elem?-total ebuf m.pc (omega arith) in
        rw got (quick-Reaches h _ _ _ (record m { pc = m.pc + 1 }) (λ p. p) wide refl (omega arith))
    exec-Lands const8 m wide lt f = const-Lands 1 m wide lt f.0 f.2
    exec-Lands const16 m wide lt f = const-Lands 2 m wide lt f.0 f.2
    exec-Lands const32 m wide lt f = const-Lands 4 m wide lt f.0 f.2
    exec-Lands const64 m wide lt f = const-Lands 8 m wide lt f.0 f.2
    exec-Lands reg m wide lt f =
        let e : m.pc + 1 + 1 ≡ m.pc + 2 = omega arith in
        let (hi, got) = get_elem?-total ebuf m.pc (omega arith) in
        let (lo, got') = get_elem?-total ebuf (m.pc + 1) (omega arith) in
        rw (lt→ltb m.sp (length m.stack) (omega arith), got, got')
          (take_value-Reaches h (m.pc + 2) (m.sp - 0 + 1) (h.reg_read m.world (hi * 256 + lo))
            (pushed m) error_out (λ m'. tt) (length-set m.stack m.sp m.top ∙ wide) e (omega arith))
    exec-Lands getv m wide lt f =
        let e : m.pc + 1 + 1 ≡ m.pc + 2 = omega arith in
        let (hi, got) = get_elem?-total ebuf m.pc (omega arith) in
        let (lo, got') = get_elem?-total ebuf (m.pc + 1) (omega arith) in
        rw (got, got', lt→ltb m.sp (length m.stack) (omega arith))
          (take_value-Reaches h (m.pc + 2) (m.sp - 0 + 1) (h.get_val m.world (hi * 256 + lo))
            (pushed m) code_error_out (λ m'. tt) (length-set m.stack m.sp m.top ∙ wide) e
            (omega arith))
    exec-Lands setv m wide lt f =
        fetch_arg-Reaches ebuf (m.pc + 2) (m.sp - 0 + 0) m
          (λ x m'. set_or_error h (h.set_val m'.world x m'.top) m') (omega arith)
          (λ arg.
            set_or_error-Reaches h (m.pc + 2) (m.sp - 0 + 0) (h.set_val m.world arg m.top)
              (record m { pc = m.pc + 2 }) wide refl (omega arith))
    exec-Lands tracev m wide lt f =
        fetch_arg-Reaches ebuf (m.pc + 2) (m.sp - 0 + 0) m
          (λ x m'. or_error h (h.collect_var m'.world x) m' next) (omega arith)
          (λ arg.
            or_error-Reaches h (m.pc + 2) (m.sp - 0 + 0) (h.collect_var m.world arg)
              (record m { pc = m.pc + 2 }) wide refl (omega arith))
    exec-Lands tracev_printk m wide lt f =
        fetch_arg-Reaches ebuf (m.pc + 2) (m.sp - 0 + 0) m
          (λ x m'.
            take_printed h (h.get_val m'.world x) m'
              (λ v m₂. or_error h (h.printk m₂.world v 0) m₂ next))
          (omega arith)
          (λ arg.
            take_printed-Reaches h (m.pc + 2) (m.sp - 0 + 0) (h.get_val m.world arg)
              (record m { pc = m.pc + 2 }) wide refl (omega arith))
    exec-Lands if_goto m wide lt f = tt
    exec-Lands goto m wide lt f = tt
    exec-Lands end m wide lt f = tt
    exec-Lands (check_bin _) m wide lt f = tt
    exec-Lands (check_div _) m wide lt f = tt
    exec-Lands check_trace m wide lt f = tt
    exec-Lands check_if_goto m wide lt f = tt
    exec-Lands check_pop m wide lt f = tt
    exec-Lands check_swap m wide lt f = tt
    exec-Lands other m wide lt f = tt
