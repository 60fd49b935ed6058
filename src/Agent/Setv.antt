-- ===== src/Agent/Setv.antt =====
-- gtp.c, `gtp_check_setv`: the check of a write to a trace state variable.
use kgtp.Base.{
  ℕ, ◌+◌, ◌%◌, ◌^◌, Bool, true, false, not, ◌||◌, Option, none, some, ◌==◌, if◌then◌else◌, ltb, leb,
  length,
}
use kgtp.Agent.Tsv.{
  PeTvId, en, val, Hooks, VarType, normal, per_cpu, perf_event, perf_event_per_cpu, special, Var,
  var_find_num, watch_static, watch_dynamic, is_watch, Config, Check, Ret, zero_ret, one_ret,
  einval,
}
use kgtp.Agent.VarAdd.{
  var_pc_checked_find, add_backtrace_actions, Decision, stop, go, finish_var, hook_of, var_arg,
  Known,
}

module _ (cfg : Config) where
  unfoldable pub setv_hooks : Option Hooks → Bool → Check → Decision
  setv_hooks hooks is_current c =
      if hook_of (λ k. k.agent_set_val) hooks then go false false is_current c else stop einval c

  unfoldable pub set_watch_static : Known → Check → Decision
  set_watch_static none c = stop einval c
  set_watch_static (some top) c =
      let kind = if top == 1 then watch_static else watch_dynamic in
      let tpe₁ =
        if is_watch (c.tpe) then c.tpe else record (c.tpe) { watch_type = 1; watch_size = 1 } in
      if ltb 1 top
      then stop einval c
      else stop one_ret
          (record c { tpe = record tpe₁ { entry_type = kind }; have_watch_tracepoint = true })

  unfoldable pub set_watch_type : Option Hooks → Known → Check → Decision
  unfolding setv_hooks
  set_watch_type hooks none c = setv_hooks hooks false c
  set_watch_type hooks (some top) c =
      if not (is_watch (c.tpe))
      then setv_hooks hooks false c
      else if ltb 2 top
      then stop einval c
      else stop one_ret (record c { tpe = record (c.tpe) { watch_type = top } })

  unfoldable pub set_watch_size : Option Hooks → Known → Check → Decision
  unfolding setv_hooks
  set_watch_size hooks none c = setv_hooks hooks false c
  set_watch_size hooks (some top) c =
      if not (is_watch (c.tpe))
      then setv_hooks hooks false c
      else if top == 1 || top == 2 || top == 4 || top == 8
      then stop one_ret (record c { tpe = record (c.tpe) { watch_size = top } })
      else stop einval c

  unfoldable pub set_inferior_pid : Option Hooks → Known → Check → Decision
  unfolding setv_hooks
  set_inferior_pid hooks none c = setv_hooks hooks false c
  set_inferior_pid hooks (some top) c =
      stop one_ret (record c { tpe = record (c.tpe) { pid = top % 2 ^ 32 } })

  -- `case gtp_var_special` of `gtp_check_setv`; `top` is a word.
  unfoldable pub setv_special : Option Hooks → Bool → Known → ℕ → Check → Decision
  unfolding setv_hooks set_watch_static set_watch_type set_watch_size set_inferior_pid
  setv_special hooks loop top arg c =
      let back = add_backtrace_actions cfg c in
      if arg == 14
      then stop one_ret (record c { tpe = record (c.tpe) { self_trace = true } })
      else if arg == 17
      then stop one_ret (record c { tpe = record (c.tpe) { is_kretprobe = true } })
      else if arg == 29
      then stop (back.0) (back.1)
      else if arg == 28
      then setv_hooks hooks true (record c { tpe = record (c.tpe) { current_task = true } })
      else if arg == 11
      then (if loop || cfg.step
          then stop einval c
          else setv_hooks hooks false (record c { tpe = record (c.tpe) { have_printk = true } }))
      else if arg == 32
      then set_watch_static top c
      else if arg == 33
      then set_watch_type hooks top c
      else if arg == 34
      then set_watch_size hooks top c
      else if arg == 47
      then set_inferior_pid hooks top c
      else setv_hooks hooks false c

  unfoldable pub writable : PeTvId → Bool
  writable en = true
  writable val = true
  writable _ = false

  unfoldable pub setv_type : VarType → Bool → Known → ℕ → Check → Decision
  unfolding setv_special writable
  setv_type normal loop top arg c = go false true false c
  setv_type per_cpu loop top arg c = go false false false c
  setv_type (perf_event id) loop top arg c =
      if writable id then go false true false c else stop einval c
  setv_type (perf_event_per_cpu id) loop top arg c =
      if writable id then go false false false c else stop einval c
  setv_type (special hooks) loop top arg c = setv_special hooks loop top arg c

  unfoldable pub setv_found : Option Var → Bool → Known → ℕ → ℕ → Check → Ret × Check
  unfolding setv_type finish_var
  setv_found none loop top arg pc c = (einval, c)
  setv_found (some v) loop top arg pc c =
      finish_var cfg v arg pc (setv_type v.var_type loop top arg c)

  -- `gtp_check_setv`
  unfoldable pub check_setv : Check → ℕ → Bool → Known → Ret × Check
  unfolding setv_found
  check_setv c pc loop top =
      if leb (length c.ebuf) (pc + 1)
      then (einval, c)
      else if var_pc_checked_find c.var_pc_checked (pc + 2)
      then (zero_ret, c)
      else setv_found (var_find_num cfg.var_list (var_arg c pc)) loop top (var_arg c pc) pc c
