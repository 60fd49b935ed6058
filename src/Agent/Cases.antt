-- ===== src/Agent/Cases.antt =====
-- gtp.c, the `case`s of the loop of `gtp_action_x`, the interpreter of agent expressions. Each
-- function starts behind the fetch of the code, and leads on to the check of the stack's size.
use kgtp.Base.{
  ℕ, ◌+◌, ◌-◌, ◌*◌, ◌%◌, ◌^◌, Bool, true, false, Option, none, some, List, ltb, ◌==◌, if◌then◌else◌,
  get_elem?,
}
use kgtp.Agent.Op.{BinOp, DivOp, RefSize}
use kgtp.Agent.Word.{alu, extend_sign, extend_zero}
use kgtp.Agent.Host.{Host}
use kgtp.Agent.Machine.{
  Machine, Outcome, next, out, code_error_out, error_out, div_fault, or_fault, pop_stack, store,
  push_top, byte_at, fetch, fetch_arg, fetch_const,
}

module _ (h : Host) where
  open h use {
    World, shifts, do_div, read_memory, reg_read, get_val, set_val, memory_read, printk,
    collect_var,
  }

  -- The `if (sp) … else goto code_error_out;` of the `op_check_*` cases.
  abbrev pub if_sp : Machine World → (Machine World → Outcome World) → Outcome World
  if_sp m k = if ltb 0 m.sp then k m else code_error_out m

  -- `add` … `less_unsigned`
  unfoldable pub exec_bin : BinOp → Machine World → Outcome World
  exec_bin op m = pop_stack m (λ a m'. next (record m' { top = alu shifts op a m.top }))

  -- `do_div`, which takes the divisor as a `uint32_t`, and faults where that is 0
  abbrev pub divide : DivOp → ℕ → Machine World → Outcome World
  divide op a m =
      if m.top % 2 ^ 32 == 0
      then div_fault m.top
      else next (record m { top = do_div op a (m.top % 2 ^ 32) })

  -- `div_signed` … `rem_unsigned`
  unfoldable pub exec_div : DivOp → Machine World → Outcome World
  exec_div op m = if m.top == 0 then code_error_out m else pop_stack m (divide op)

  unfoldable pub exec_check_div : DivOp → Machine World → Outcome World
  exec_check_div op m =
      if m.top == 0 then code_error_out m else if_sp m (λ m. pop_stack m (divide op))

  -- `if (call) goto out;`, with the error status set by the callee.
  abbrev pub or_out : World × Bool → Machine World → (Machine World → Outcome World) → Outcome World
  or_out (w, good) m k = if good then k (record m { world = w }) else out (record m { world = w })

  abbrev pub or_error :
      World × Bool → Machine World → (Machine World → Outcome World) → Outcome World
  or_error (w, good) m k =
      if good then k (record m { world = w }) else error_out (record m { world = w })

  -- The value of a call goes to `top`; without one the second argument is the way out.
  abbrev pub take_value :
      World × Option ℕ
      → Machine World
      → (Machine World → Outcome World)
      → (Machine World → Outcome World)
      → Outcome World
  take_value (w, none) m bad good = bad (record m { world = w })
  take_value (w, some v) m bad good = good (record m { world = w; top = v })

  abbrev pub set_or_error : World × Bool → Machine World → Outcome World
  set_or_error (w, true) m = next (record m { world = w })
  set_or_error (w, false) m = code_error_out (record m { world = w })

  abbrev pub take_printed :
      World × Option ℕ → Machine World → (ℕ → Machine World → Outcome World) → Outcome World
  take_printed (w, none) m k = code_error_out (record m { world = w })
  take_printed (w, some v) m k = k v (record m { world = w })

  abbrev pub pop_top : Machine World → Outcome World
  pop_top m = pop_stack m (λ a m'. next (record m' { top = a }))

  -- `trace` reads the address only where memory is collected.
  unfoldable pub exec_trace : Bool → Machine World → Outcome World
  exec_trace have_printk m =
      if have_printk
      then pop_top (record m { sp = (m.sp + 2 ^ 32 - 1) % 2 ^ 32 })
      else pop_stack m (λ a m'. or_out (memory_read m'.world a m'.top) m' pop_top)

  unfoldable pub exec_check_trace : Machine World → Outcome World
  exec_check_trace m =
      if ltb 1 m.sp
      then pop_stack m (λ a m'. or_out (memory_read m'.world a m'.top) m' pop_top)
      else code_error_out m

  unfoldable pub exec_trace_printk : Machine World → Outcome World
  exec_trace_printk m = pop_stack m (λ a m'. or_out (printk m'.world a m'.top) m' pop_top)

  abbrev pub read_or_error : Option ℕ → Machine World → Outcome World
  read_or_error none m = code_error_out m
  read_or_error (some v) m = next (record m { top = v })

  -- `ref8` … `ref64`
  unfoldable pub exec_ref : RefSize → Machine World → Outcome World
  exec_ref n m = read_or_error (read_memory m.world n m.top) m

  -- `if (gts->run) *(gts->run) = (int)top; goto out;`
  unfoldable pub set_run : Option ℕ → Machine World → Outcome World
  set_run none m = out m
  set_run (some _) m = out (record m { run = some (m.top % 2 ^ 32) })

  unfoldable pub exec_end : Machine World → Outcome World
  unfolding set_run
  exec_end m = set_run m.run m

  -- `swap` writes `stack[sp]`, the cell above the last one in use.
  unfoldable pub exec_swap : Machine World → Outcome World
  exec_swap m =
      let i = (m.sp + 2 ^ 32 - 1) % 2 ^ 32 in
      store m m.sp m.top
        (λ m'. or_fault (get_elem? m'.stack i) (λ v. store (record m' { top = v }) i m.top next))

  -- `dup` and `pop`
  unfoldable pub exec_dup : Machine World → Outcome World
  exec_dup m = push_top m next

  unfoldable pub exec_pop : Machine World → Outcome World
  exec_pop m = pop_top m

  module _ (ebuf : List ℕ) where
    -- `trace_quick`: `ebuf[pc]` is read only where memory is collected.
    unfoldable pub exec_trace_quick : Bool → Machine World → Outcome World
    exec_trace_quick have_printk m =
        if have_printk
        then next (record m { pc = m.pc + 1 })
        else byte_at ebuf m.pc (λ n.
          or_out (memory_read m.world m.top n) m (λ m'. next (record m' { pc = m'.pc + 1 })))

    unfoldable pub exec_trace_quick_printk : Machine World → Outcome World
    exec_trace_quick_printk m = fetch ebuf m (λ n m'. or_out (printk m'.world m'.top n) m' next)

    -- `ext`, `zero_ext`
    unfoldable pub exec_ext : Machine World → Outcome World
    exec_ext m = fetch ebuf m (λ arg m'. next (record m' { top = extend_sign shifts arg m'.top }))

    unfoldable pub exec_zero_ext : Machine World → Outcome World
    exec_zero_ext m = fetch ebuf m (λ arg m'. next (record m' { top = extend_zero arg m'.top }))

    -- `pc = (ebuf[pc] << 8) + (ebuf[pc + 1]);`
    abbrev pub jump : Machine World → (Machine World → Outcome World) → Outcome World
    jump m k =
        byte_at ebuf m.pc
          (λ hi. byte_at ebuf (m.pc + 1) (λ lo. k (record m { pc = hi * 256 + lo })))

    abbrev pub branch : Machine World → (Machine World → Outcome World) → Outcome World
    branch m k = if m.top == 0 then k (record m { pc = m.pc + 2 }) else jump m k

    unfoldable pub exec_if_goto : Machine World → Outcome World
    exec_if_goto m = branch m pop_top

    unfoldable pub exec_check_if_goto : Machine World → Outcome World
    exec_check_if_goto m = branch m (λ m'. if_sp m' pop_top)

    unfoldable pub exec_goto : Machine World → Outcome World
    exec_goto m = jump m next

    -- `const8` … `const64`: the first byte replaces `top`, the others are shifted in.
    unfoldable pub exec_const : ℕ → Machine World → Outcome World
    exec_const n m = push_top m (λ m'. fetch_const ebuf n (record m' { top = 0 }) next)

    -- `top` is the register, unless the read has set a stop reason.
    unfoldable pub exec_reg : Machine World → Outcome World
    exec_reg m =
        push_top m
          (λ m₁. fetch_arg ebuf m₁ (λ arg m₂. take_value (reg_read m₂.world arg) m₂ error_out next))

    -- `getv` pushes before the variable is read.
    unfoldable pub exec_getv : Machine World → Outcome World
    exec_getv m =
        fetch_arg ebuf m
          (λ arg m₁. push_top m₁ (λ m₂. take_value (get_val m₂.world arg) m₂ code_error_out next))

    unfoldable pub exec_setv : Machine World → Outcome World
    exec_setv m = fetch_arg ebuf m (λ arg m₁. set_or_error (set_val m₁.world arg m₁.top) m₁)

    unfoldable pub exec_tracev : Machine World → Outcome World
    exec_tracev m = fetch_arg ebuf m (λ arg m₁. or_error (collect_var m₁.world arg) m₁ next)

    unfoldable pub exec_tracev_printk : Machine World → Outcome World
    exec_tracev_printk m = fetch_arg ebuf m (λ arg m₁.
        take_printed (get_val m₁.world arg) m₁ (λ v m₂. or_error (printk m₂.world v 0) m₂ next))
