-- ===== src/Agent/Loop.antt =====
-- gtp.c, `gtp_check_x_loop`: the second check, of an expression with a backward jump. It replaces
-- each code that takes from the stack by the `op_check_*` code that tests the depth as it runs.
use kgtp.Base.{
  ℕ, zero, suc, ◌+◌, ◌-◌, ◌*◌, Bool, true, false, Option, none, some, List, [], ◌∷◌, ◌==◌, leb,
  if◌then◌else◌, length, get_elem?, get_or, set,
}
use kgtp.Agent.Op.{
  Op, decode, check_bin_code, check_div_code, bin, check_bin, div, check_div, ref, trace,
  check_trace, trace_printk, trace_quick, trace_quick_printk, log_not, bit_not, ext, zero_ext,
  if_goto, check_if_goto, goto, const8, const16, const32, const64, reg, end, dup, pop, check_pop,
  swap, check_swap, getv, setv, tracev, tracev_printk, other,
}
use kgtp.Agent.Tsv.{Config, Check, Ret, zero_ret, two_ret, einval, enomem}
use kgtp.Agent.VarAdd.{alloc}
use kgtp.Agent.Getv.{check_getv}
use kgtp.Agent.Setv.{check_setv}

-- `struct gtp_x_loop`
pub record XLoop : Type 0 where
  pub addr : ℕ
  pub non_goto_done : Bool

pub record Loop : Type 0 where
  pub check : Check
  pub pc : ℕ
  pub glist : List XLoop

-- `goto out` is `leave`.
pub data LoopRound : Type 0 where
  go_on : Loop → LoopRound
  leave : Loop → LoopRound
  release : Ret → Loop → LoopRound

unfoldable pub x_loop_find : List XLoop → ℕ → Option XLoop
x_loop_find [] pc = none
x_loop_find (x ∷ xs) pc = if x.addr == pc then some x else x_loop_find xs pc

-- `gtmp->non_goto_done = 1`, at what `gtp_x_loop_find` has found.
unfoldable pub set_done : List XLoop → ℕ → List XLoop
set_done [] pc = []
set_done (x ∷ xs) pc =
    if x.addr == pc then record x { non_goto_done = true } ∷ xs else x ∷ set_done xs pc

unfoldable pub keep_first : XLoop → Option (ℕ × List XLoop) → Option (ℕ × List XLoop)
keep_first x none = none
keep_first x (some (a, xs)) = some (a, x ∷ xs)

-- The first entry whose other way has not been followed, marked, with its address.
unfoldable pub take_undone : List XLoop → Option (ℕ × List XLoop)
unfolding keep_first
take_undone [] = none
take_undone (x ∷ xs) =
    if x.non_goto_done
    then keep_first x (take_undone xs)
    else some (x.addr, record x { non_goto_done = true } ∷ xs)

-- `ebuf[pc - 1] = b`
abbrev pub write_code : ℕ → Loop → Loop
write_code b l = record l { check = record (l.check) { ebuf = set l.check.ebuf (l.pc - 1) b } }

abbrev pub size : Loop → ℕ
size l = length l.check.ebuf

-- `if (pc + (k - 1) >= size) goto release_out; pc += k;`
abbrev pub pass : ℕ → Loop → LoopRound
pass k l =
    if leb (size l) (l.pc + (k - 1)) then release einval l else go_on (record l { pc = l.pc + k })

abbrev pub dest : Loop → ℕ
dest l = get_or l.check.ebuf l.pc 0 * 256 + get_or l.check.ebuf (l.pc + 1) 0

module _ (cfg : Config) where
  -- `gtp_x_loop_add`, then the jump.
  abbrev pub add_and_jump : Bool → Loop → LoopRound
  add_and_jump finished l =
      alloc cfg l.check (λ c. release enomem (record l { check = c }))
        (λ c. go_on (record l {
          check = c;
          glist = record { addr = l.pc; non_goto_done = finished } ∷ l.glist;
          pc = dest l;
        }))

  unfoldable pub if_goto_found : Option XLoop → Loop → LoopRound
  if_goto_found none l = add_and_jump false l
  if_goto_found (some x) l =
      if x.non_goto_done
      then leave l
      else go_on (record l { glist = set_done l.glist l.pc; pc = l.pc + 2 })

  -- `if_goto` and `op_check_if_goto`
  unfoldable pub loop_if_goto : Loop → LoopRound
  unfolding if_goto_found
  loop_if_goto l₀ =
      let l = write_code 0xf3 l₀ in
      if leb (size l) (l.pc + 1)
      then release einval l
      else if_goto_found (x_loop_find l.glist l.pc) l

  unfoldable pub goto_found : Option XLoop → Loop → LoopRound
  goto_found none l = add_and_jump true l
  goto_found (some x) l = leave l

  unfoldable pub loop_goto : Loop → LoopRound
  unfolding goto_found
  loop_goto l =
      if leb (size l) (l.pc + 1) then release einval l else goto_found (x_loop_find l.glist l.pc) l

  abbrev pub loop_getv : Ret × Check → Loop → LoopRound
  loop_getv (zero_ret, c) l = go_on (record l { check = c; pc = l.pc + 2 })
  loop_getv (r, c) l = release r (record l { check = c })

  -- `setv`: a `$current` that is set is refused. `pc` stays at the number of the variable.
  abbrev pub loop_setv : Ret × Check → Loop → LoopRound
  loop_setv (zero_ret, c) l = go_on (record l { check = c })
  loop_setv (two_ret, c) l = release einval (record l { check = c })
  loop_setv (r, c) l = release r (record l { check = c })

  -- The `switch`, with `pc` behind the code.
  unfoldable pub loop_round : Op → Loop → LoopRound
  unfolding loop_if_goto loop_goto
  loop_round (bin op) l = go_on (write_code (check_bin_code op) l)
  loop_round (div op) l = go_on (write_code (check_div_code op) l)
  loop_round pop l = go_on (write_code 0xf1 l)
  loop_round swap l = go_on (write_code 0xf2 l)
  loop_round trace l = go_on (write_code 0xea l)
  loop_round log_not l = go_on l
  loop_round bit_not l = go_on l
  loop_round (ref n) l = go_on l
  loop_round dup l = go_on l
  loop_round const8 l = pass 1 l
  loop_round ext l = pass 1 l
  loop_round zero_ext l = pass 1 l
  loop_round trace_quick l = pass 1 l
  loop_round const16 l = pass 2 l
  loop_round reg l = pass 2 l
  loop_round const32 l = pass 4 l
  loop_round const64 l = pass 8 l
  loop_round if_goto l = loop_if_goto l
  loop_round check_if_goto l = loop_if_goto l
  loop_round goto l = loop_goto l
  loop_round end l = leave l
  loop_round getv l = loop_getv (check_getv cfg l.check l.pc) l
  loop_round tracev l = loop_getv (check_getv cfg l.check l.pc) l
  loop_round setv l = loop_setv (check_setv cfg l.check l.pc true none) l
  loop_round (check_bin _) l = release einval l
  loop_round (check_div _) l = release einval l
  loop_round check_trace l = release einval l
  loop_round trace_printk l = release einval l
  loop_round trace_quick_printk l = release einval l
  loop_round check_pop l = release einval l
  loop_round check_swap l = release einval l
  loop_round tracev_printk l = release einval l
  loop_round other l = release einval l

  -- Behind `out`: the next way that has not been followed, or the end.
  unfoldable pub next_way :
      (Loop → Option (Ret × Loop)) → Option (ℕ × List XLoop) → Loop → Option (Ret × Loop)
  next_way again none l = some (zero_ret, l)
  next_way again (some (a, gs)) l = again (record l { pc = a + 2; glist = gs })

  unfoldable pub on_loop_round : (Loop → Option (Ret × Loop)) → LoopRound → Option (Ret × Loop)
  unfolding next_way
  on_loop_round again (go_on l) = again l
  on_loop_round again (leave l) = next_way again (take_undone l.glist) l
  on_loop_round again (release r l) = some (r, l)

  unfoldable pub on_loop_code : (Loop → Option (Ret × Loop)) → Option ℕ → Loop → Option (Ret × Loop)
  unfolding on_loop_round
  on_loop_code again none l = some (einval, l)
  on_loop_code again (some b) l =
      on_loop_round again (loop_round (decode b) (record l { pc = l.pc + 1 }))

  -- The `while` with the part behind `out`: `none` is too little fuel.
  unfoldable pub check_loop : ℕ → Loop → Option (Ret × Loop)
  unfolding on_loop_code
  check_loop zero l = none
  check_loop (suc fuel) l = on_loop_code (check_loop fuel) (get_elem? l.check.ebuf l.pc) l

  -- `gtp_check_x_loop`
  unfoldable pub check_x_loop : ℕ → Check → Option (Ret × Loop)
  check_x_loop fuel c = check_loop fuel (record {
    check = record c {
      tpe = record (c.tpe) { have_printk = false };
      var_rw_flags = [];
      var_pc_checked = [];
    };
    pc = 0;
    glist = [];
  })
