-- ===== src/Agent/RoundEffect.antt =====
-- gtp.c, the second `switch` of `gtp_check_x_simple`, code by code, against the table of shapes.
use kgtp.Base.{◌+◌, ◌≤◌, ◌<◌, ◌≢◌, refl, false, ltb, leb, arith, length}
use kgtp.Agent.Op.{
  Op, bin, check_bin, div, check_div, ref, trace, check_trace, trace_printk, trace_quick,
  trace_quick_printk, log_not, bit_not, ext, zero_ext, if_goto, check_if_goto, goto, const8,
  const16, const32, const64, reg, end, dup, pop, check_pop, swap, check_swap, getv, setv, tracev,
  tracev_printk, other,
}
use kgtp.Agent.Tsv.{Config, Check, Ret, zero_ret, two_ret, einval}
use kgtp.Agent.Getv.{check_getv}
use kgtp.Agent.Setv.{check_setv}
use kgtp.Agent.Round.{
  Simple, round, push_sp, note_trace, target, after_getv, after_setv, known, check_if_goto_op,
  check_goto_op, found_loop,
}
use kgtp.Agent.Shape.{Shape, plain, jumps, branches, shape}
use kgtp.Agent.Kept.{Kept, check_getv-Kept, check_setv-Kept, check_getv-room, check_setv-room}
use kgtp.Agent.RoundShape.{
  Effect, if-Effect, take_sp-Effect, skip-Effect, skip_push-Effect, push_skip-Effect, stay-Effect,
  dup-Effect,
}

module _ (cfg : Config) (s : Simple) (in_buf : s.pc ≤ length s.check.ebuf) where
  -- `getv` and `tracev`, by the result of the check.
  after_getv-Effect :
      (r : Ret × Check)
      → (r.0 ≢ einval → s.pc + 1 < length s.check.ebuf)
      → Kept s.pc s.check.ebuf r.1.ebuf
      → Effect s (plain 2 0 1) (after_getv cfg r s push_sp)
  after_getv-Effect (zero_ret, c) room kept = record {
    pc = refl;
    room = omega (arith, room cc);
    enough = omega arith;
    sp = omega arith;
    kept = kept;
    sp_max = omega arith;
    peak = λ h. omega arith;
    glist = refl;
  }
  after_getv-Effect (r, c) room kept = tt

  after_tracev-Effect :
      (r : Ret × Check)
      → (r.0 ≢ einval → s.pc + 1 < length s.check.ebuf)
      → Kept s.pc s.check.ebuf r.1.ebuf
      → Effect s (plain 2 0 0) (after_getv cfg r (note_trace s) (λ s'. s'))
  after_tracev-Effect (zero_ret, c) room kept = record {
    pc = refl;
    room = omega (arith, room cc);
    enough = omega arith;
    sp = omega arith;
    kept = kept;
    sp_max = omega arith;
    peak = λ h. h;
    glist = refl;
  }
  after_tracev-Effect (r, c) room kept = tt

  after_setv-Effect :
      (r : Ret × Check)
      → (r.0 ≢ einval → s.pc + 1 < length s.check.ebuf)
      → Kept s.pc s.check.ebuf r.1.ebuf
      → Effect s (plain 2 0 0) (after_setv cfg r s)
  after_setv-Effect (zero_ret, c) room kept = record {
    pc = refl;
    room = omega (arith, room cc);
    enough = omega arith;
    sp = omega arith;
    kept = kept;
    sp_max = omega arith;
    peak = λ h. h;
    glist = refl;
  }
  after_setv-Effect (two_ret, c) room kept = record {
    pc = refl;
    room = omega (arith, room cc);
    enough = omega arith;
    sp = omega arith;
    kept = kept;
    sp_max = omega arith;
    peak = λ h. h;
    glist = refl;
  }
  after_setv-Effect (r, c) room kept = tt

  found_loop-Effect : (x : Shape) → Effect s x (found_loop s)
  found_loop-Effect x = if-Effect s x _ _ s.is_set_current (λ e. tt) (λ e. tt)

  goto-Effect : Effect s jumps (check_goto_op cfg s)
  unfolding check_goto_op
  goto-Effect =
      if-Effect s jumps _ _ (leb (length s.check.ebuf) (s.pc + 1)) (λ e. tt)
        (λ e.
          if-Effect s jumps _ _ (ltb (target s) s.pc) (λ f. found_loop-Effect jumps)
            (λ f. record {
              pc = refl;
              forward = ground arith;
              room = ground arith;
              sp = refl;
              sp_max = refl;
              ebuf = refl;
              glist = refl;
            }))

  if_goto-Effect : Effect s branches (check_if_goto_op cfg s)
  unfolding check_if_goto_op
  if_goto-Effect =
      if-Effect s branches _ _ s.check.tpe.have_printk (λ e. tt)
        (λ e.
          if-Effect s branches _ _ (leb (length s.check.ebuf) (s.pc + 1)) (λ e. tt)
            (λ e.
              if-Effect s branches _ _ (ltb (target s) s.pc) (λ f. found_loop-Effect branches)
                (λ f.
                  if-Effect s branches _ _ (cfg.kmalloc s.check.kmallocs)
                    (λ k. (cc, refl, refl, refl, refl)) (λ k. tt))))

  -- Every round has the effect that the table gives its code.
  pub round-Effect : (op : Op) → Effect s (shape op) (round cfg op s)
  unfolding shape round
  round-Effect (bin op) = take_sp-Effect s in_buf 1 1 0 s.last_trace refl
  round-Effect (div op) = take_sp-Effect s in_buf 1 1 0 s.last_trace refl
  round-Effect pop = take_sp-Effect s in_buf 1 1 0 s.last_trace refl
  round-Effect swap = take_sp-Effect s in_buf 1 0 1 s.last_trace refl
  round-Effect trace = take_sp-Effect s in_buf 2 2 0 (note_trace s).last_trace refl
  round-Effect log_not = stay-Effect s in_buf
  round-Effect bit_not = stay-Effect s in_buf
  round-Effect (ref n) = stay-Effect s in_buf
  round-Effect dup = dup-Effect s in_buf
  round-Effect const8 = push_skip-Effect s in_buf 1 (omega arith)
  round-Effect ext = skip-Effect s in_buf 1 s.last_trace (omega arith)
  round-Effect zero_ext = skip-Effect s in_buf 1 s.last_trace (omega arith)
  round-Effect trace_quick = skip-Effect s in_buf 1 (note_trace s).last_trace (omega arith)
  round-Effect const16 = skip_push-Effect s in_buf 2 (omega arith)
  round-Effect reg = skip_push-Effect s in_buf 2 (omega arith)
  round-Effect const32 = skip_push-Effect s in_buf 4 (omega arith)
  round-Effect const64 = skip_push-Effect s in_buf 8 (omega arith)
  round-Effect if_goto = if_goto-Effect
  round-Effect goto = goto-Effect
  round-Effect end = (refl, refl)
  round-Effect getv =
      after_getv-Effect (check_getv cfg s.check s.pc) (check_getv-room cfg s.check s.pc)
        (check_getv-Kept cfg s.check s.pc)
  round-Effect setv =
      let top = known cfg s.fold in
      after_setv-Effect (check_setv cfg s.check s.pc false top)
        (check_setv-room cfg s.check s.pc false top) (check_setv-Kept cfg s.check s.pc false top)
  round-Effect tracev =
      after_tracev-Effect (check_getv cfg s.check s.pc) (check_getv-room cfg s.check s.pc)
        (check_getv-Kept cfg s.check s.pc)
  round-Effect trace_printk = tt
  round-Effect trace_quick_printk = tt
  round-Effect tracev_printk = tt
  round-Effect (check_bin _) = tt
  round-Effect (check_div _) = tt
  round-Effect check_trace = tt
  round-Effect check_if_goto = tt
  round-Effect check_pop = tt
  round-Effect check_swap = tt
  round-Effect other = tt
