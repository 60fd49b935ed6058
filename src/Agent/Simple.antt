-- ===== src/Agent/Simple.antt =====
-- gtp.c, `gtp_check_x_simple`: the check of an agent expression that follows every forward path.
use kgtp.Base.{
  ℕ, zero, suc, ◌+◌, true, false, not, ◌&&◌, Option, none, some, List, [], ◌∷◌, leb, if◌then◌else◌,
  length, get_elem?, get_or, set,
}
use kgtp.Agent.Op.{Op, DivOp, decode, trace, trace_quick, tracev}
use kgtp.Agent.Word.{Shifts}
use kgtp.Agent.Machine.{stack_max}
use kgtp.Agent.Fold.{Folded, folded, by_zero, wild, fold_step}
use kgtp.Agent.Tsv.{Config, Check, Ret, zero_ret, two_ret, einval}
use kgtp.Agent.Round.{IfGoto, Simple, Round, go_on, at_end, release, crash, round}

-- How a path ends: as a round does, or out of fuel.
pub data PathEnd : Type 0 where
  ended : Simple → PathEnd
  released : Ret → Simple → PathEnd
  crashed : PathEnd
  no_fuel : PathEnd

-- `release_out`: the last trace code of an expression that prints becomes its printk code.
unfoldable pub printk_code : Op → ℕ → ℕ
printk_code trace b = 0xfd
printk_code trace_quick b = 0xfe
printk_code tracev b = 0xff
printk_code _ b = b

unfoldable pub set_printk : Simple → List ℕ
unfolding printk_code
set_printk s =
    if not s.is_set_current && s.check.tpe.have_printk
    then (elim s.last_trace [
      | none ↦ s.check.ebuf
      | some i ↦ let b = get_or s.check.ebuf i 0 in set s.check.ebuf i (printk_code (decode b) b)
    ])
    else s.check.ebuf

abbrev pub start : Check → List ℕ → Simple
start c space = record {
  check = c;
  type_x = true;
  pc = 0;
  sp = 0;
  sp_max = 0;
  glist = [];
  last_trace = none;
  is_set_current = false;
  fold = record { live = true; space = space; top = 0 };
}

-- What is left of the lists behind `gtp_check_release`, and of the buffer.
unfoldable pub finish : PathEnd → Option (Ret × Simple)
finish (released r s) = some (
  r,
  record s {
    glist = [];
    check = record (s.check) { ebuf = set_printk s; var_rw_flags = []; var_pc_checked = [] };
  },
)
finish _ = none

-- `again` is the next round.
unfoldable pub on_round : (Simple → PathEnd) → Round → PathEnd
on_round again (go_on s) = again s
on_round again (at_end s) = ended s
on_round again (release r s) = released r s
on_round again crash = crashed

unfoldable pub next_path : (Simple → PathEnd) → List IfGoto → Simple → PathEnd
next_path again [] s = released (if s.is_set_current then two_ret else zero_ret) s
next_path again (g ∷ gs) s = again (record s { pc = g.ip; sp = g.sp; glist = gs })

-- From `out`: the bound on the stack, then the next path of `glist`.
unfoldable pub on_path : (Simple → PathEnd) → PathEnd → PathEnd
unfolding next_path
on_path again (ended s) = elim (leb stack_max s.sp_max) [
  | true ↦ released einval s
  | false ↦ next_path again s.glist s
]
on_path again p = p

module _ (cfg : Config) (shifts : Shifts) (do_div : DivOp → ℕ → ℕ → ℕ) where
  unfoldable pub after_fold : Folded → Op → Simple → Round
  after_fold (folded f) op s = round cfg op (record s { fold = f; pc = s.pc + 1 })
  after_fold by_zero op s = release einval s
  after_fold wild op s = crash

  -- One round of the `while`, at a code that is in range.
  unfoldable pub check_round : ℕ → Simple → Round
  unfolding after_fold
  check_round b s =
      after_fold (fold_step shifts do_div s.check.ebuf (decode b) s.pc s.sp s.fold) (decode b) s

  unfoldable pub on_code : (Simple → PathEnd) → Option ℕ → Simple → PathEnd
  unfolding on_round
  on_code again none s = released einval s
  on_code again (some b) s = on_round again (check_round b s)

  -- `while (pc < ae->u.exp.size)`, and the `goto release_out` behind it.
  unfoldable pub walk : ℕ → Simple → PathEnd
  unfolding on_code
  walk zero s = no_fuel
  walk (suc fuel) s = on_code (walk fuel) (get_elem? s.check.ebuf s.pc) s

  unfoldable pub check_paths : ℕ → Simple → PathEnd
  unfolding on_path
  check_paths zero s = no_fuel
  check_paths (suc fuel) s = on_path (check_paths fuel) (walk (suc (length s.check.ebuf)) s)

  -- `gtp_check_x_simple`; `space` is what the kernel's stack holds where `stack_space` stands.
  -- `none` is an access out of bounds, or too little fuel.
  unfoldable pub check_x_simple : ℕ → List ℕ → Check → Option (Ret × Simple)
  check_x_simple fuel space c = finish (check_paths fuel (start c space))
