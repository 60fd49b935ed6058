-- ===== src/Agent/Getv.antt =====
-- gtp.c, `gtp_check_getv`: the check of a read of a trace state variable, which also rewrites its
-- number in the buffer.
use kgtp.Base.{
  ℕ, ◌+◌, Bool, true, false, ◌||◌, Option, none, some, ◌==◌, if◌then◌else◌, leb, length,
}
use kgtp.Agent.Tsv.{
  PeTvId, val, enabled, running, Hooks, VarType, normal, per_cpu, perf_event, perf_event_per_cpu,
  special, Var, var_find_num, Config, Check, Ret, zero_ret, one_ret, einval,
}
use kgtp.Agent.VarAdd.{
  var_pc_checked_find, add_backtrace_actions, Decision, stop, go, finish_var, hook_of, var_arg,
}

module _ (cfg : Config) where
  -- `case gtp_var_special` of `gtp_check_getv`
  unfoldable pub getv_special : Option Hooks → ℕ → Check → Decision
  getv_special hooks arg c =
      let back = add_backtrace_actions cfg c in
      let c' = record c {
        access_cooked_clock = c.access_cooked_clock || arg == 6;
        access_cooked_rdtsc = c.access_cooked_rdtsc || arg == 8;
      } in
      if arg == 14
      then stop one_ret (record c { tpe = record (c.tpe) { self_trace = true } })
      else if arg == 29
      then stop (back.0) (back.1)
      else if arg == 28
      then stop one_ret (record c { tpe = record (c.tpe) { current_task = true } })
      else if hook_of (λ k. k.agent_get_val) hooks
      then go false false false c'
      else stop einval c'

  unfoldable pub readable : PeTvId → Bool
  readable val = true
  readable enabled = true
  readable running = true
  readable _ = false

  unfoldable pub getv_type : VarType → ℕ → Check → Decision
  unfolding getv_special readable
  getv_type normal arg c = go true false false c
  getv_type per_cpu arg c = go false false false c
  getv_type (perf_event id) arg c = if readable id then go true false false c else stop einval c
  getv_type (perf_event_per_cpu id) arg c =
      if readable id then go false false false c else stop einval c
  getv_type (special hooks) arg c = getv_special hooks arg c

  -- Behind the lookup of the variable: `NULL` is refused.
  unfoldable pub getv_found : Option Var → ℕ → ℕ → Check → Ret × Check
  unfolding getv_type finish_var
  getv_found none arg pc c = (einval, c)
  getv_found (some v) arg pc c = finish_var cfg v arg pc (getv_type v.var_type arg c)

  -- `gtp_check_getv`: `pc` is the position of the number.
  unfoldable pub check_getv : Check → ℕ → Ret × Check
  unfolding getv_found
  check_getv c pc =
      if leb (length c.ebuf) (pc + 1)
      then (einval, c)
      else if var_pc_checked_find c.var_pc_checked (pc + 2)
      then (zero_ret, c)
      else getv_found (var_find_num cfg.var_list (var_arg c pc)) (var_arg c pc) pc c
