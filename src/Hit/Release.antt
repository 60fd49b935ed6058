-- ===== src/Hit/Release.antt =====
-- gtp.c, `gtp_handler`: what holds of the ring buffer and its lock behind it.
use kgtp.Base.{
  ℕ, ◌+◌, ◌-◌, ◌%◌, ◌^◌, ◌≡◌, refl, sym, ◌∙◌, Bool, true, false, ◌&&◌, Option, none, some, List, [],
  ◌∷◌, if◌then◌else◌, if-elim, ltb, leb, ◌==◌,
}
use kgtp.Agent.Op.{DivOp}
use kgtp.Agent.Word.{Shifts}
use kgtp.Agent.Exec.{
  Code, Exit, done, failed, crash, div_crash, no_fuel, StopReason, expr_code_error,
  expr_stack_overflow, callee, action_x,
}
use kgtp.Agent.WorldKept.{HostKeeps}
use kgtp.Agent.RunKept.{LeftBy, action_x-LeftBy}
use kgtp.Ring.Bytes.{Memory}
use kgtp.Ring.Inv.{IsRing}
use kgtp.Hit.{Hit, Outside, Site}
use kgtp.Hit.PrintkKept.{action_printk-SameFrame}
use kgtp.Hit.Frame.{reg_read, memory_read, action_r}
use kgtp.Hit.Handler.{
  host_of, reg_value, Action, action_regs, action_exp, action_mem, action_other, Point, Task, Run,
  Step, finish, wakeup, unlock_rb, exp_end, why, tpe_stop, run_exp, no_run, of_hit, act, or_stop,
  act_all, do_actions, pass, after_cond, check_cond, is_quiet, set_names, with_regs, task_site,
  use_tmp_regs, after_get_regs, get_task_regs, choose_regs, stop_stepping, handler,
}
use kgtp.Hit.Ok.{Behaves, agent_get_val-SameFrame, agent_set_val-SameFrame}
use kgtp.Hit.EntryOk.{HitOk, ResultOk, HitOk-SameFrame}
use kgtp.Hit.FrameOk.{collect_var-ResultOk, memory_read-ResultOk, action_r-ResultOk, reg_read-HitOk}

module _ (IsPage : ℕ → Type 0) (o : Outside) (behaves : Behaves o) (shifts : Shifts)
    (do_div : DivOp → ℕ → ℕ → ℕ) where
  valued-HitOk : (r : Hit × ℕ) → HitOk IsPage r.0 → HitOk IsPage (reg_value r).0
  valued-HitOk (hit, v) ok = ok

  -- The calls of an expression keep the ring buffer in order, and the lock with the frame.
  host-Keeps : (s : Site) → HostKeeps (host_of o shifts do_div s) (HitOk IsPage)
  host-Keeps s = record {
    reg_read = λ w n ok. valued-HitOk (reg_read o s n w) (reg_read-HitOk IsPage o behaves s n w ok);
    get_val = λ w n ok. HitOk-SameFrame IsPage w _ (agent_get_val-SameFrame o behaves n w) ok;
    set_val = λ w n v ok. HitOk-SameFrame IsPage w _ (agent_set_val-SameFrame o behaves n v w) ok;
    memory_read = λ w a n ok. memory_read-ResultOk IsPage o behaves s none a n w ok;
    printk =
        λ w a n ok. HitOk-SameFrame IsPage w _ (action_printk-SameFrame o s.task_read a n w) ok;
    collect_var = λ w n ok. collect_var-ResultOk IsPage o behaves s n w ok;
  }

  abbrev RunOk : Run → Type 0
  RunOk r = HitOk IsPage r.hit

  abbrev pub ExpOk : Option (Run × Option ℕ × Bool) → Type 0
  ExpOk none = Unit
  ExpOk (some (r, v, good)) = RunOk r

  why-HitOk : (e : StopReason) (hit : Hit) → HitOk IsPage hit → HitOk IsPage (why e hit)
  why-HitOk expr_code_error hit ok = record { ring = ok.ring; held = ok.held }
  why-HitOk expr_stack_overflow hit ok = record { ring = ok.ring; held = ok.held }
  why-HitOk callee hit ok = ok

  exp_end-ExpOk :
      (s : Site) (c : Code) (x : Exit Hit × Bool) (r : Run)
      → LeftBy (host_of o shifts do_div s) (HitOk IsPage) (host-Keeps s) c x.0
      → ExpOk (exp_end x r)
  exp_end-ExpOk s c (done m, held) r ok = ok
  exp_end-ExpOk s c (failed e m, held) r ok = why-HitOk e m.world ok
  exp_end-ExpOk s c (crash, held) r ok = tt
  exp_end-ExpOk s c (div_crash b, held) r ok = tt
  exp_end-ExpOk s c (no_fuel, held) r ok = tt

  -- The ring buffer is in order, and its lock is free.
  pub record Freed (r : Run) : Type 0 where
    pub ring : IsRing IsPage r.hit.rb
    pub free : r.hit.locked ≡ false

  abbrev pub FreedIf : Option Run → Type 0
  FreedIf none = Unit
  FreedIf (some r) = Freed r

  woken-Freed : (r : Run) → Freed r → Freed (wakeup r)
  woken-Freed r f =
      if-elim Freed (ltb 0 r.waiting) (record r { waiting = r.waiting - 1; woken = true }) r
        (λ e. record { ring = f.ring; free = f.free }) (λ e. f)

  finish-Freed : (r : Run) → RunOk r → Freed (finish r)
  unfolding finish
  finish-Freed r ok =
      if-elim Freed r.hit.next (wakeup (unlock_rb r)) r
        (λ e. woken-Freed (unlock_rb r) (record { ring = ok.ring; free = refl }))
        (λ e. record { ring = ok.ring; free = ok.held ∙ e })

  module _ (fuel : ℕ) (tp : Point) where
    tpe_stop-Freed : (r : Run) → RunOk r → Freed (tpe_stop o shifts do_div fuel tp r)
    unfolding tpe_stop
    tpe_stop-Freed r ok = let f = finish-Freed r ok in record { ring = f.ring; free = f.free }

    pub run_exp-ExpOk :
        (s : Site) (c : Code) (gts_run : Option ℕ) (r : Run)
        → RunOk r
        → ExpOk (run_exp o shifts do_div fuel tp s c gts_run r)
    run_exp-ExpOk s c gts_run r ok =
        exp_end-ExpOk s c (action_x (host_of o shifts do_div s) c fuel r.stack gts_run r.hit) r (
          action_x-LeftBy (host_of o shifts do_div s) (HitOk IsPage) (host-Keeps s) c fuel r.stack
            gts_run r.hit ok)

    abbrev ActOk : Option (Run × Bool) → Type 0
    ActOk none = Unit
    ActOk (some (r, good)) = RunOk r

    no_run-ActOk :
        (x : Option (Run × Option ℕ × Bool)) → ExpOk x → ActOk (no_run o shifts do_div fuel tp x)
    no_run-ActOk none ok = tt
    no_run-ActOk (some (r, v, good)) ok = ok

    of_hit-ActOk :
        (r : Run) (x : Hit × Bool) → ResultOk IsPage x → ActOk (of_hit o shifts do_div fuel tp r x)
    of_hit-ActOk r (hit, good) ok = ok

    act-ActOk :
        (s : Site) (a : Action) (r : Run) → RunOk r → ActOk (act o shifts do_div fuel tp s a r)
    unfolding act
    act-ActOk s action_regs r ok =
        of_hit-ActOk r (action_r o s r.hit) (action_r-ResultOk IsPage o behaves s r.hit ok)
    act-ActOk s (action_exp c) r ok =
        no_run-ActOk (run_exp o shifts do_div fuel tp s c none r) (run_exp-ExpOk s c none r ok)
    act-ActOk s (action_mem reg offset size) r ok =
        of_hit-ActOk r (memory_read o s reg offset size r.hit)
          (memory_read-ResultOk IsPage o behaves s reg offset size r.hit ok)
    act-ActOk s action_other r ok = ok

    or_stop-FreedIf :
        (x : Option (Run × Bool)) (k : Run → Option Run)
        → ActOk x
        → ((r : Run) → RunOk r → FreedIf (k r))
        → FreedIf (or_stop o shifts do_div fuel tp x k)
    or_stop-FreedIf none k ok f = tt
    or_stop-FreedIf (some (r, false)) k ok f = tpe_stop-Freed r ok
    or_stop-FreedIf (some (r, true)) k ok f = f r ok

    act_all-FreedIf :
        (s : Site) (actions : List Action) (r : Run)
        → RunOk r
        → FreedIf (act_all o shifts do_div fuel tp s actions r)
    unfolding act_all
    act_all-FreedIf s [] r ok = finish-Freed r ok
    act_all-FreedIf s (a ∷ rest) r ok =
        or_stop-FreedIf (act o shifts do_div fuel tp s a r) (act_all o shifts do_div fuel tp s rest)
          (act-ActOk s a r ok) (act_all-FreedIf s rest)

    do_actions-FreedIf :
        (s : Site) (r : Run) → RunOk r → FreedIf (do_actions o shifts do_div fuel tp s r)
    do_actions-FreedIf s r ok =
        act_all-FreedIf s (if s.step == 0 then tp.action_list else tp.step_action_list) r ok

    pass-FreedIf : (s : Site) (r : Run) → RunOk r → FreedIf (pass o shifts do_div fuel tp s r)
    unfolding pass
    pass-FreedIf s r ok =
        let count = (r.current_pass + 2 ^ 32 - 1) % 2 ^ 32 in
        let r' = record r { current_pass = count } in
        if-elim FreedIf (s.step == 0 && tp.have_pass) _ (do_actions o shifts do_div fuel tp s r)
          (λ e.
            if-elim FreedIf (leb (2 ^ 31) count) (some (tpe_stop o shifts do_div fuel tp r'))
              (do_actions o shifts do_div fuel tp s r') (λ e'. tpe_stop-Freed r' ok)
              (λ e'. do_actions-FreedIf s r' ok))
          (λ e. do_actions-FreedIf s r ok)

    -- The expression makes no frame where there is none.
    abbrev NoFrame : Option (Run × Option ℕ × Bool) → Type 0
    NoFrame none = Unit
    NoFrame (some (r, v, good)) = r.hit.next ≡ false

    abbrev pub IsFrameless : Code → Type 0
    IsFrameless c =
        (s : Site) (gts_run : Option ℕ) (r : Run)
        → r.hit.next ≡ false
        → NoFrame (run_exp o shifts do_div fuel tp s c gts_run r)

    abbrev pub EachFrameless : Option Code → Type 0
    EachFrameless none = Unit
    EachFrameless (some c) = IsFrameless c

    after_cond-FreedIf :
        (s : Site) (x : Option (Run × Option ℕ × Bool))
        → ExpOk x
        → NoFrame x
        → FreedIf (after_cond o shifts do_div fuel tp s x)
    after_cond-FreedIf s none ok frameless = tt
    after_cond-FreedIf s (some (r, v, false)) ok frameless = tpe_stop-Freed r ok
    after_cond-FreedIf s (some (r, none, true)) ok frameless = pass-FreedIf s r ok
    after_cond-FreedIf s (some (r, some v, true)) ok frameless =
        if-elim FreedIf (v == 0) (some r) (pass o shifts do_div fuel tp s r)
          (λ e. record { ring = ok.ring; free = ok.held ∙ frameless }) (λ e. pass-FreedIf s r ok)

    check_cond-FreedIf :
        (unset : ℕ) (s : Site) (c : Option Code) (r : Run)
        → EachFrameless c
        → RunOk r
        → r.hit.next ≡ false
        → FreedIf (check_cond o shifts do_div fuel tp unset s c r)
    check_cond-FreedIf unset s none r frameless ok no_frame = pass-FreedIf s r ok
    check_cond-FreedIf unset s (some c) r frameless ok no_frame =
        after_cond-FreedIf s (run_exp o shifts do_div fuel tp s c (some unset) r)
          (run_exp-ExpOk s c (some unset) r ok) (frameless s (some unset) r no_frame)

    named-FreedIf :
        (unset : ℕ) (s : Site) (r : Run)
        → EachFrameless tp.cond
        → RunOk r
        → r.hit.next ≡ false
        → FreedIf (
            check_cond o shifts do_div fuel tp unset s tp.cond
              (set_names o shifts do_div fuel tp r))
    named-FreedIf unset s r frameless ok no_frame =
        let r' : Run = record r {
          hit = record r.hit { printk_level = 8; printk_str = tp.printk_names };
        } in
        if-elim (λ r₁. FreedIf (check_cond o shifts do_div fuel tp unset s tp.cond r₁))
          tp.have_printk r' r
          (λ e.
            check_cond-FreedIf unset s tp.cond r' frameless
              (record { ring = ok.ring; held = ok.held }) no_frame)
          (λ e. check_cond-FreedIf unset s tp.cond r frameless ok no_frame)

    with_regs-FreedIf :
        (unset : ℕ) (task : Task) (s : Site) (r : Run)
        → EachFrameless tp.cond
        → RunOk r
        → r.hit.next ≡ false
        → FreedIf (with_regs o shifts do_div fuel tp unset task s r)
    unfolding with_regs
    with_regs-FreedIf unset task s r frameless ok no_frame =
        if-elim FreedIf (is_quiet o shifts do_div fuel tp task r) (some r)
          (check_cond o shifts do_div fuel tp unset s tp.cond (set_names o shifts do_div fuel tp r))
          (λ e. record { ring = ok.ring; free = ok.held ∙ no_frame })
          (λ e. named-FreedIf unset s r frameless ok no_frame)

    use_tmp_regs-FreedIf :
        (unset : ℕ) (task : Task) (s : Site) (m : Option Memory) (r : Run)
        → EachFrameless tp.cond
        → RunOk r
        → r.hit.next ≡ false
        → FreedIf (use_tmp_regs o shifts do_div fuel tp unset task s m r)
    use_tmp_regs-FreedIf unset task s none r frameless ok no_frame = tpe_stop-Freed r ok
    use_tmp_regs-FreedIf unset task s (some regs) r frameless ok no_frame =
        with_regs-FreedIf unset task (task_site o shifts do_div fuel tp task s regs) r frameless ok
          no_frame

    after_get_regs-FreedIf :
        (unset : ℕ) (task : Task) (s : Site) (x : Option (Run × Option ℕ × Bool))
        → EachFrameless tp.cond
        → ExpOk x
        → NoFrame x
        → FreedIf (after_get_regs o shifts do_div fuel tp unset task s x)
    after_get_regs-FreedIf unset task s none frameless ok no_frame = tt
    after_get_regs-FreedIf unset task s (some (r, v, false)) frameless ok no_frame =
        tpe_stop-Freed r ok
    after_get_regs-FreedIf unset task s (some (r, v, true)) frameless ok no_frame =
        use_tmp_regs-FreedIf unset task s r.hit.tmp_regs r frameless ok no_frame

    get_task_regs-FreedIf :
        (unset : ℕ) (task : Task) (s : Site) (c : Option Code) (r : Run)
        → EachFrameless c
        → EachFrameless tp.cond
        → RunOk r
        → r.hit.next ≡ false
        → FreedIf (get_task_regs o shifts do_div fuel tp unset task s c r)
    get_task_regs-FreedIf unset task s none r gets frameless ok no_frame =
        with_regs-FreedIf unset task (task_site o shifts do_div fuel tp task s task.pt_regs) r
          frameless ok no_frame
    get_task_regs-FreedIf unset task s (some c) r gets frameless ok no_frame =
        after_get_regs-FreedIf unset task s (run_exp o shifts do_div fuel tp s c none r) frameless
          (run_exp-ExpOk s c none r ok) (gets s none r no_frame)

    choose_regs-FreedIf :
        (unset : ℕ) (task : Task) (s : Site) (r : Run)
        → EachFrameless tp.get_regs
        → EachFrameless tp.cond
        → RunOk r
        → r.hit.next ≡ false
        → FreedIf (choose_regs o shifts do_div fuel tp unset task s r)
    unfolding choose_regs
    choose_regs-FreedIf unset task s r gets frameless ok no_frame =
        let s' : Site = record s { task_read = false } in
        if-elim FreedIf s.is_uprobe (with_regs o shifts do_div fuel tp unset task s r)
          (if tp.current_task
            then get_task_regs o shifts do_div fuel tp unset task s' tp.get_regs r
            else with_regs o shifts do_div fuel tp unset task s' r)
          (λ e. with_regs-FreedIf unset task s r frameless ok no_frame)
          (λ e.
            if-elim FreedIf tp.current_task
              (get_task_regs o shifts do_div fuel tp unset task s' tp.get_regs r)
              (with_regs o shifts do_div fuel tp unset task s' r)
              (λ e'. get_task_regs-FreedIf unset task s' tp.get_regs r gets frameless ok no_frame)
              (λ e'. with_regs-FreedIf unset task s' r frameless ok no_frame))

    stepped-FreedIf :
        (unset : ℕ) (task : Task) (s : Site) (x : Step × Memory) (r : Run)
        → EachFrameless tp.get_regs
        → EachFrameless tp.cond
        → RunOk r
        → r.hit.next ≡ false
        → FreedIf (choose_regs o shifts do_div fuel tp unset task (record s { regs = x.1 }) r)
    stepped-FreedIf unset task s x r gets frameless ok no_frame =
        choose_regs-FreedIf unset task (record s { regs = x.1 }) r gets frameless ok no_frame

    -- `gtp_handler` for a hit that begins without a frame, with the lock of its ring buffer free and
    -- the ring buffer in order, where the expressions of the condition and of the registers, if
    -- there are any, make no frame. However it returns, the lock is free again and the ring buffer
    -- in order.
    pub handler-Frees :
        (unset : ℕ) (task : Task) (s : Site) (st : Step) (r : Run)
        → EachFrameless tp.get_regs
        → EachFrameless tp.cond
        → IsRing IsPage r.hit.rb
        → r.hit.locked ≡ false
        → r.hit.next ≡ false
        → FreedIf (handler o shifts do_div fuel tp unset task s st r).0
    unfolding handler
    handler-Frees unset task s st r gets frameless ring free no_frame =
        stepped-FreedIf unset task s (stop_stepping o s st) r gets frameless
          (record { ring = ring; held = free ∙ sym no_frame }) no_frame
