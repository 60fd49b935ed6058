-- ===== src/Agent/Round.antt =====
-- gtp.c, the second `switch` of `gtp_check_x_simple`: what one code does to the depth of the stack,
-- to `pc`, and to the list of destinations.
use kgtp.Base.{
  ℕ, ◌+◌, ◌-◌, ◌*◌, Bool, true, false, Option, none, some, List, ◌∷◌, ltb, leb, if◌then◌else◌,
  length, get_or, max,
}
use kgtp.Agent.Op.{
  Op, bin, check_bin, div, check_div, ref, trace, check_trace, trace_printk, trace_quick,
  trace_quick_printk, log_not, bit_not, ext, zero_ext, if_goto, check_if_goto, goto, const8,
  const16, const32, const64, reg, end, dup, pop, check_pop, swap, check_swap, getv, setv, tracev,
  tracev_printk, other,
}
use kgtp.Agent.Fold.{Fold}
use kgtp.Agent.Tsv.{Config, Check, Ret, zero_ret, two_ret, einval, enomem}
use kgtp.Agent.VarAdd.{alloc, Known}
use kgtp.Agent.Getv.{check_getv}
use kgtp.Agent.Setv.{check_setv}

-- `struct gtp_x_if_goto`: a destination and the depth of the stack there.
pub record IfGoto : Type 0 where
  pub ip : ℕ
  pub sp : ℕ

-- The local variables. `type_x` is false once `ae->type` is 0xff; `last_trace` is `last_trace_pc`,
-- `none` for -1.
pub record Simple : Type 0 where
  pub check : Check
  pub type_x : Bool
  pub pc : ℕ
  pub sp : ℕ
  pub sp_max : ℕ
  pub glist : List IfGoto
  pub last_trace : Option ℕ
  pub is_set_current : Bool
  pub fold : Fold

-- How a round ends: the next round, `goto out`, `goto release_out`, or an access out of bounds.
pub data Round : Type 0 where
  go_on : Simple → Round
  at_end : Simple → Round
  release : Ret → Simple → Round
  crash : Round

-- `sp++; if (sp_max < sp) sp_max = sp;`
abbrev pub push_sp : Simple → Simple
push_sp s = record s { sp = s.sp + 1; sp_max = max s.sp_max (s.sp + 1) }

-- `if (pc + (k - 1) >= size) goto release_out; pc += k;`
abbrev pub skip : ℕ → Simple → (Simple → Round) → Round
skip k s go =
    if leb (length s.check.ebuf) (s.pc + (k - 1))
    then release einval s
    else go (record s { pc = s.pc + k })

-- `if (sp < n) goto release_out; else sp -= k;`
abbrev pub take_sp : ℕ → ℕ → Simple → Round
take_sp n k s = if ltb s.sp n then release einval s else go_on (record s { sp = s.sp - k })

-- `if (tpe->flags & GTP_ENTRY_FLAGS_HAVE_PRINTK) last_trace_pc = pc - 1;`
abbrev pub note_trace : Simple → Simple
note_trace s = record s {
  last_trace = if s.check.tpe.have_printk then some (s.pc - 1) else s.last_trace;
}

-- `(ebuf[pc] << 8) + ebuf[pc + 1]`
abbrev pub target : Simple → ℕ
target s = get_or s.check.ebuf s.pc 0 * 256 + get_or s.check.ebuf (s.pc + 1) 0

-- A destination behind `pc`: the expression has a loop.
abbrev pub found_loop : Simple → Round
found_loop s =
    if s.is_set_current then release einval s else release zero_ret (record s { type_x = false })

module _ (cfg : Config) where
  -- `gtp_x_if_goto_add`
  abbrev pub add_if_goto : ℕ → Simple → Round
  add_if_goto dpc s =
      alloc cfg s.check (λ c. release enomem (record s { check = c }))
        (λ c.
          go_on (record s {
            check = c;
            glist = record { ip = dpc; sp = s.sp } ∷ s.glist;
            pc = s.pc + 2;
          }))

  unfoldable pub check_if_goto_op : Simple → Round
  check_if_goto_op s =
      if s.check.tpe.have_printk
      then release einval s
      else if leb (length s.check.ebuf) (s.pc + 1)
      then release einval s
      else if ltb (target s) s.pc
      then found_loop s
      else add_if_goto (target s) s

  unfoldable pub check_goto_op : Simple → Round
  check_goto_op s =
      if leb (length s.check.ebuf) (s.pc + 1)
      then release einval s
      else if ltb (target s) s.pc
      then found_loop s
      else go_on (record s { pc = target s })

  -- `getv` pushes; `tracev` does not.
  abbrev pub after_getv : Ret × Check → Simple → (Simple → Simple) → Round
  after_getv (zero_ret, c) s f = go_on (f (record s { check = c; pc = s.pc + 2 }))
  after_getv (r, c) s f = release r (record s { check = c })

  abbrev pub after_setv : Ret × Check → Simple → Round
  after_setv (zero_ret, c) s = go_on (record s { check = c; pc = s.pc + 2 })
  after_setv (two_ret, c) s = go_on (record s { check = c; pc = s.pc + 2; is_set_current = true })
  after_setv (r, c) s = release r (record s { check = c })

  -- `(stack, top)` as `gtp_check_setv` is given it
  abbrev pub known : Fold → Known
  known f = if f.live then some f.top else none

  -- The second `switch`, with `pc` behind the code.
  unfoldable pub round : Op → Simple → Round
  unfolding check_if_goto_op check_goto_op
  round (bin op) s = take_sp 1 1 s
  round (div op) s = take_sp 1 1 s
  round pop s = take_sp 1 1 s
  round swap s = take_sp 1 0 s
  round trace s = take_sp 2 2 (note_trace s)
  round log_not s = go_on s
  round bit_not s = go_on s
  round (ref n) s = go_on s
  round dup s = go_on (push_sp s)
  round const8 s = skip 1 (push_sp s) go_on
  round ext s = skip 1 s go_on
  round zero_ext s = skip 1 s go_on
  round trace_quick s = skip 1 (note_trace s) go_on
  round const16 s = skip 2 s (λ s'. go_on (push_sp s'))
  round reg s = skip 2 s (λ s'. go_on (push_sp s'))
  round const32 s = skip 4 s (λ s'. go_on (push_sp s'))
  round const64 s = skip 8 s (λ s'. go_on (push_sp s'))
  round if_goto s = check_if_goto_op s
  round goto s = check_goto_op s
  round end s = at_end s
  round getv s = after_getv (check_getv cfg s.check s.pc) s push_sp
  round setv s = after_setv (check_setv cfg s.check s.pc false (known s.fold)) s
  round tracev s = after_getv (check_getv cfg s.check s.pc) (note_trace s) (λ s'. s')
  round (check_bin _) s = release einval s
  round (check_div _) s = release einval s
  round check_trace s = release einval s
  round trace_printk s = release einval s
  round trace_quick_printk s = release einval s
  round check_if_goto s = release einval s
  round check_pop s = release einval s
  round check_swap s = release einval s
  round tracev_printk s = release einval s
  round other s = release einval s
