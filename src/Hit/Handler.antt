-- ===== src/Hit/Handler.antt =====
-- gtp.c, `gtp_handler`, with `gtp_handler_wakeup` and `gtp_step_stop`: the interpreter of agent
-- expressions runs here on the state of the hit.
use kgtp.Base.{
  ℕ, ◌+◌, ◌-◌, ◌*◌, ◌/◌, ◌%◌, ◌^◌, Bool, true, false, not, ◌&&◌, ◌||◌, Option, none, some, List, [],
  ◌∷◌, ltb, leb, ◌==◌, if◌then◌else◌,
}
use kgtp.Ring.Bytes.{Memory, load, store}
use kgtp.Agent.Op.{RefSize, ref8, ref16, ref32, ref64, DivOp}
use kgtp.Agent.Word.{Shifts}
use kgtp.Agent.Host.{Host}
use kgtp.Agent.Machine.{Machine}
use kgtp.Agent.Exec.{
  Code, Exit, done, failed, crash, div_crash, no_fuel, StopReason, expr_code_error,
  expr_stack_overflow, callee, action_x,
}
use kgtp.Hit.{Hit, Outside, Site, stop_agent_expr_code_error, stop_agent_expr_stack_overflow}
use kgtp.Hit.Vars.{agent_get_val, agent_set_val}
use kgtp.Hit.Frame.{put_bytes, reg_read, is_normal, memory_read, collect_var, action_r}
use kgtp.Hit.Printk.{action_printk}

-- The bytes of a reference
abbrev pub ref_size : RefSize → ℕ
ref_size n = elim n [ ref8 ↦ 1 | ref16 ↦ 2 | ref32 ↦ 4 | ref64 ↦ 8 ]

-- The read into a local variable
abbrev pub ref_value : ℕ → List ℕ × Bool → Option ℕ
ref_value n (bytes, false) = none
ref_value n (bytes, true) = some (load n (put_bytes (λ x. 0) 0 bytes) 0)

abbrev pub reg_value : Hit × ℕ → Hit × Option ℕ
reg_value (hit, v) = (hit, if is_normal hit.reason then some v else none)

-- What `gtp_action_x` calls.
abbrev pub host_of : Outside → Shifts → (DivOp → ℕ → ℕ → ℕ) → Site → Host
host_of o shifts do_div s = record {
  World = Hit;
  shifts = shifts;
  do_div = do_div;
  read_memory = λ hit n a. ref_value (ref_size n) (o.read_memory s.task_read hit a (ref_size n));
  reg_read = λ hit n. reg_value (reg_read o s n hit);
  get_val = λ hit n. agent_get_val o n hit;
  set_val = λ hit n v. agent_set_val o n v hit;
  memory_read = λ hit a n. memory_read o s none a n hit;
  printk = λ hit a n. action_printk o s.task_read a n hit;
  collect_var = λ hit n. collect_var o s n hit;
}

-- `struct action`, by its type
pub data Action : Type 0 where
  action_regs : Action
  action_exp : Code → Action
  action_mem : Option ℕ → ℕ → ℕ → Action
  action_other : Action

-- What the handler reads of the tracepoint, the processes, and `gtp_step` of the processor.
pub record Point : Type 0 where
  pub is_kprobe : Bool
  pub current_task : Bool
  pub self_trace : Bool
  pub have_printk : Bool
  pub have_pass : Bool
  pub get_regs : Option Code
  pub cond : Option Code
  pub action_list : List Action
  pub step_action_list : List Action
  pub printk_names : List (List ℕ)

pub record Task : Type 0 where
  pub pid : ℕ
  pub gtp_pid : ℕ
  pub gtpframe_pid : ℕ
  pub gtpframe_pipe_pid : ℕ
  pub pipe_trace : Bool
  -- `task_pt_regs(get_current())`, and `user_mode`
  pub pt_regs : Memory
  pub user_mode : Memory → Bool

-- What the handler changes: the hit, the stack of `gtp_action_x` with what has been left in it,
-- GTP_ENTRY_FLAGS_REG, `current_pass` as a word, whether the stop tasklet is scheduled,
-- `gtpframe_pipe_wq_v`, and whether its tasklet is scheduled.
pub record Run : Type 0 where
  pub hit : Hit
  pub stack : List ℕ
  pub reg_flag : Bool
  pub current_pass : ℕ
  pub stopping : Bool
  pub waiting : ℕ
  pub woken : Bool

-- `gtp_handler_wakeup`
abbrev pub wakeup : Run → Run
wakeup r = if ltb 0 r.waiting then record r { waiting = r.waiting - 1; woken = true } else r

-- `GTP_RB_UNLOCK(gts->next)`
abbrev pub unlock_rb : Run → Run
unlock_rb r = record r { hit = record r.hit { locked = false } }

-- `if (gts->next) { GTP_RB_UNLOCK(gts->next); gtp_handler_wakeup(); }`
unfoldable pub finish : Run → Run
finish r = if r.hit.next then wakeup (unlock_rb r) else r

-- `struct gtp_step` of the processor
pub record Step : Type 0 where
  pub step : ℕ
  pub irq_need_open : Bool

-- X86_EFLAGS_TF is 0x100 and X86_EFLAGS_IF 0x200.
abbrev pub clear_bit : ℕ → ℕ → ℕ
clear_bit bit v = v - v / bit % 2 * bit

abbrev pub set_bit : ℕ → ℕ → ℕ
set_bit bit v = clear_bit bit v + bit

-- `gtp_step_stop` on the flags of `regs`, at `offset`
unfoldable pub step_stop : ℕ → Step → Memory → Step × Memory
step_stop offset st regs =
    let flags = clear_bit 0x100 (load 8 regs offset) in
    (
      record { step = 0; irq_need_open = false },
      store 8 regs offset (if st.irq_need_open then set_bit 0x200 flags else flags),
    )

-- `if (gts->step == 0 && __get_cpu_var(gtp_step).step) gtp_step_stop(gts->regs);`
abbrev pub stop_stepping : Outside → Site → Step → Step × Memory
stop_stepping o s st =
    if s.step == 0 && not (st.step == 0)
    then step_stop (o.reg_offset 17) st s.regs
    else (st, s.regs)

-- The end of an expression: what is in `tpe->reason`, `*gts->run`, and whether it returns 0.
-- Without a result an access was out of bounds, or the fuel too little.
abbrev pub why : StopReason → Hit → Hit
why expr_code_error hit = record hit { reason = stop_agent_expr_code_error }
why expr_stack_overflow hit = record hit { reason = stop_agent_expr_stack_overflow }
why callee hit = hit

abbrev pub left_by : Machine Hit → Hit → Run → Run
left_by m hit r = record r { hit = hit; stack = m.stack }

abbrev pub exp_end : Exit Hit × Bool → Run → Option (Run × Option ℕ × Bool)
exp_end (done m, held) r = some (left_by m m.world r, m.run, true)
exp_end (failed e m, held) r = some (left_by m (why e m.world) r, m.run, false)
exp_end (crash, held) r = none
exp_end (div_crash b, held) r = none
exp_end (no_fuel, held) r = none

module _ (o : Outside) (shifts : Shifts) (do_div : DivOp → ℕ → ℕ → ℕ) (fuel : ℕ) (tp : Point) where
  -- `tpe_stop:`
  unfoldable pub tpe_stop : Run → Run
  unfolding finish
  tpe_stop r = record (finish r) { reg_flag = false; stopping = r.stopping || tp.is_kprobe }

  -- `gtp_action_x` with `gts->run`
  abbrev pub run_exp : Site → Code → Option ℕ → Run → Option (Run × Option ℕ × Bool)
  run_exp s c gts_run r =
      exp_end (action_x (host_of o shifts do_div s) c fuel r.stack gts_run r.hit) r

  abbrev pub no_run : Option (Run × Option ℕ × Bool) → Option (Run × Bool)
  no_run none = none
  no_run (some (r, v, good)) = some (r, good)

  abbrev pub of_hit : Run → Hit × Bool → Option (Run × Bool)
  of_hit r (hit, good) = some (record r { hit = hit }, good)

  -- The `switch (ae->type)`
  unfoldable pub act : Site → Action → Run → Option (Run × Bool)
  act s action_regs r = of_hit r (action_r o s r.hit)
  act s (action_exp c) r = no_run (run_exp s c none r)
  act s (action_mem reg offset size) r = of_hit r (memory_read o s reg offset size r.hit)
  act s action_other r = some (r, true)

  -- `if (call) goto tpe_stop;`
  abbrev pub or_stop : Option (Run × Bool) → (Run → Option Run) → Option Run
  or_stop none k = none
  or_stop (some (r, false)) k = some (tpe_stop r)
  or_stop (some (r, true)) k = k r

  -- The list of actions, and the end of the handler.
  unfoldable pub act_all : Site → List Action → Run → Option Run
  unfolding act tpe_stop
  act_all s [] r = some (finish r)
  act_all s (a ∷ rest) r = or_stop (act s a r) (act_all s rest)

  -- `Handle actions.`
  abbrev pub do_actions : Site → Run → Option Run
  do_actions s r = act_all s (if s.step == 0 then tp.action_list else tp.step_action_list) r

  -- `Pass.`; a word from 2 ^ 31 on is below 0.
  unfoldable pub pass : Site → Run → Option Run
  unfolding act_all tpe_stop
  pass s r =
      let count = (r.current_pass + 2 ^ 32 - 1) % 2 ^ 32 in
      if s.step == 0 && tp.have_pass
      then (if leb (2 ^ 31) count
          then some (tpe_stop (record r { current_pass = count }))
          else do_actions s (record r { current_pass = count }))
      else do_actions s r

  -- Behind the expression of the condition: `if (!run) return;`
  abbrev pub after_cond : Site → Option (Run × Option ℕ × Bool) → Option Run
  after_cond s none = none
  after_cond s (some (r, v, false)) = some (tpe_stop r)
  after_cond s (some (r, none, true)) = pass s r
  after_cond s (some (r, some v, true)) = if v == 0 then some r else pass s r

  -- `Condition.`; `run` is not set before the expression, and has the value `unset`.
  abbrev pub check_cond : ℕ → Site → Option Code → Run → Option Run
  check_cond unset s none r = pass s r
  check_cond unset s (some c) r = after_cond s (run_exp s c (some unset) r)

  -- Where nothing is to be traced: the tracepoint is stopped, or it is KGTP itself that hits it.
  unfoldable pub is_quiet : Task → Run → Bool
  is_quiet task r =
      not r.reg_flag
      || (not task.pipe_trace && task.pid == task.gtpframe_pipe_pid)
      || (not tp.self_trace && (task.pid == task.gtp_pid || task.pid == task.gtpframe_pid))

  abbrev pub set_names : Run → Run
  set_names r =
      if tp.have_printk
      then record r { hit = record r.hit { printk_level = 8; printk_str = tp.printk_names } }
      else r

  -- Behind the choice of `gts->regs` and `gts->read_memory`
  unfoldable pub with_regs : ℕ → Task → Site → Run → Option Run
  unfolding is_quiet pass
  with_regs unset task s r =
      if is_quiet task r then some r else check_cond unset s tp.cond (set_names r)

  -- The registers of the task, and how its memory is read
  abbrev pub task_site : Task → Site → Memory → Site
  task_site task s regs = record s { regs = regs; task_read = task.user_mode regs }

  -- `gts->regs = gts->tmp_regs;`, if it is not NULL
  abbrev pub use_tmp_regs : ℕ → Task → Site → Option Memory → Run → Option Run
  use_tmp_regs unset task s none r = some (tpe_stop r)
  use_tmp_regs unset task s (some regs) r = with_regs unset task (task_site task s regs) r

  -- Behind `gts->tpe->get_regs`
  abbrev pub after_get_regs : ℕ → Task → Site → Option (Run × Option ℕ × Bool) → Option Run
  after_get_regs unset task s none = none
  after_get_regs unset task s (some (r, v, false)) = some (tpe_stop r)
  after_get_regs unset task s (some (r, v, true)) = use_tmp_regs unset task s r.hit.tmp_regs r

  abbrev pub get_task_regs : ℕ → Task → Site → Option Code → Run → Option Run
  get_task_regs unset task s (some c) r = after_get_regs unset task s (run_exp s c none r)
  get_task_regs unset task s none r = with_regs unset task (task_site task s task.pt_regs) r

  unfoldable pub choose_regs : ℕ → Task → Site → Run → Option Run
  unfolding with_regs
  choose_regs unset task s r =
      if s.is_uprobe
      then with_regs unset task s r
      else if tp.current_task
      then get_task_regs unset task (record s { task_read = false }) tp.get_regs r
      else with_regs unset task (record s { task_read = false }) r

  -- `gtp_handler`, with `gtp_step` of the processor and the registers that `gtp_step_stop` changes.
  -- `none` is an access out of bounds in an expression, or too little fuel.
  unfoldable pub handler : ℕ → Task → Site → Step → Run → Option Run × Step
  unfolding step_stop choose_regs
  handler unset task s st r =
      let (st', regs) = stop_stepping o s st in
      (choose_regs unset task (record s { regs = regs }) r, st')
