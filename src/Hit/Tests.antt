-- ===== src/Hit/Tests.antt =====
-- Hits of tracepoints on the ring of three pages, and the theorems of a hit at them.
use kgtp.Base.{
  inl, ℕ, zero, suc, ◌+◌, ◌*◌, ◌/◌, ◌%◌, ◌≤◌, ◌≡◌, ◌≢◌, refl, arith, Bool, true, false, Option,
  none, some, [], ◌∷◌, length, replicate,
}
use kgtp.Ring.Bytes.{load, store}
use kgtp.Ring.Pages.{Rb, head, get_next}
use kgtp.Ring.Write.{alloc, alloc_aligned, take_or_fail}
use kgtp.Ring.Built.{Got}
use kgtp.Ring.Sample.{page, built, built-IsRing, written, written-IsRing, links}
use kgtp.Agent.Op.{DivOp, div_signed, div_unsigned, decode}
use kgtp.Agent.Word.{Shifts, log_not}
use kgtp.Agent.Cases.{exec_end, set_run, exec_tracev}
use kgtp.Agent.Exec.{Code, exec, overflows, after, at_code, run, unlock, action_x}
use kgtp.Hit.{plain, Hit, Outside, Site, stop_normal, conv_u, number}
use kgtp.Hit.Frame.{
  chunks, collect_chunk, memory_read, collect_memory, action_head, put_head, action_r, collect_var,
  collect_entry,
}
use kgtp.Hit.Printk.{shown_number}
use kgtp.Hit.Handler.{
  action_mem, action_regs, Point, Task, Step, Run, handler, choose_regs, with_regs, is_quiet, pass,
  act_all, act, finish, run_exp,
}
use kgtp.Hit.Ok.{Behaves}
use kgtp.Hit.Chunks.{chunks-end}
use kgtp.Hit.Written.{Collects, collect_chunk-Collects}
use kgtp.Hit.Vars.{agent_get_val}
use kgtp.Hit.Leak.{handler-keeps_lock}
use kgtp.Hit.Release.{FreedIf, IsFrameless, handler-Frees}

-- Every byte that is read is 7.
abbrev outside : Outside
outside = record {
  circular = false;
  cpu = 0;
  step_id = 0;
  regs_size = 168;
  reg_offset = λ n. n * 8;
  read_memory = λ task hit a n. (replicate n 7, true);
  get_hook = λ i hit. (hit, some i);
  set_hook = λ i v hit. (hit, true);
}

length-replicate : (n : ℕ) → length {A = ℕ} (replicate n 7) ≤ n
length-replicate zero = omega arith
length-replicate (suc n) = omega (arith, length-replicate n)

outside-Behaves : Behaves outside
outside-Behaves = record {
  read_fits = λ task hit a n. length-replicate n;
  pc_fits = omega arith;
  regs_fit = omega arith;
  get_rb = λ i hit. refl;
  get_next = λ i hit. refl;
  get_locked = λ i hit. refl;
  set_rb = λ i v hit. refl;
  set_next = λ i v hit. refl;
  set_locked = λ i v hit. refl;
}

abbrev site : Site
site = record {
  num = 3;
  has_step = false;
  step = 0;
  hwb = false;
  is_uprobe = false;
  ret_addr = none;
  regs = λ x. 0;
  task_read = false;
}

abbrev on_ring : Rb → Hit
on_ring rb = record {
  rb = rb;
  locked = false;
  count = 6;
  created = 0;
  next = false;
  id = 7;
  reason = stop_normal;
  vars = [];
  printk_str = [];
  printk_level = 8;
  printk_format = 0;
  pbuf = λ x. 0;
  log = [];
  tmp_regs = none;
  outside = false;
}

-- 4048 bytes do not fit behind the first twenty.
next_page-apart : head (get_next links 12316) ≢ head 12316
unfolding load store
next_page-apart e = absurd (omega (arith, e))

collect_chunk-Collects_example :
    Collects
      (Got page 3)
      168
      outside
      outside-Behaves
      site
      4096
      4048
      12316
      7
      (alloc false 4068 7 written)
      (on_ring written)
      (collect_chunk outside site 4096 4048 (on_ring written))
collect_chunk-Collects_example =
    collect_chunk-Collects (Got page 3) 168 outside outside-Behaves site 4096 4048 (on_ring written)
      (omega arith) (omega arith) (omega arith) (omega arith) written-IsRing next_page-apart

chunks-end_example : chunks outside site 2001 0x1000 1000 (on_ring written) ≢ none
chunks-end_example =
    chunks-end (Got page 3) outside outside-Behaves site 2001 0x1000 1000 (on_ring written)
      (record { ring = written-IsRing; held = refl }) (omega arith)

abbrev shifts : Shifts
shifts = record { wide = λ op a n. 0; int_one = λ n. 0 }

abbrev quotient : DivOp → ℕ → ℕ → ℕ
quotient op a b = elim op [ div_signed ↦ a / b | div_unsigned ↦ a / b | _ ↦ a % b ]

-- `log_not; end`: 1
abbrev one : Code
one = record { ebuf = 0x0e ∷ 0x27 ∷ []; type_x = true; need_var_lock = false; have_printk = false }

abbrev point : Point
point = record {
  is_kprobe = true;
  current_task = false;
  self_trace = false;
  have_printk = false;
  have_pass = false;
  get_regs = none;
  cond = some one;
  action_list = action_mem none 0x1000 4 ∷ action_regs ∷ [];
  step_action_list = [];
  printk_names = [];
}

abbrev task : Task
task = record {
  pid = 100;
  gtp_pid = 1;
  gtpframe_pid = 2;
  gtpframe_pipe_pid = 3;
  pipe_trace = false;
  pt_regs = λ x. 0;
  user_mode = λ regs. false;
}

abbrev begin : Run
begin = record {
  hit = on_ring built;
  stack = replicate 32 0;
  reg_flag = true;
  current_pass = 0;
  stopping = false;
  waiting = 1;
  woken = false;
}

abbrev no_step : Step
no_step = record { step = 0; irq_need_open = false }

one-IsFrameless : IsFrameless (Got page 3) outside outside-Behaves shifts quotient 3 point one
unfolding action_x unlock run at_code after overflows exec exec_end set_run decode
one-IsFrameless s none r no_frame = no_frame
one-IsFrameless s (some v) r no_frame = no_frame

handler-Frees_example :
    FreedIf
      (Got page 3)
      outside
      outside-Behaves
      shifts
      quotient
      (handler outside shifts quotient 3 point 0 task site no_step begin).0
handler-Frees_example =
    handler-Frees (Got page 3) outside outside-Behaves shifts quotient 3 point 0 task site no_step
      begin tt one-IsFrameless built-IsRing refl refl

-- What is left of the hit: the frames, whether the tracepoint goes on, and whether GDB is woken.
abbrev left_over : Option Run → Option (ℕ × ℕ × Bool × Bool)
left_over none = none
left_over (some r) = some (r.hit.created, r.hit.rb.w, r.reg_flag, r.woken)

-- A head of 28 bytes, an entry of 24 and one of 172
hit-run :
    left_over (handler outside shifts quotient 3 point 0 task site no_step begin).0
    ≡ some (1, 12296 + 28 + 24 + 172, true, true)
unfolding handler choose_regs with_regs is_quiet pass act_all act finish action_x unlock run at_code
    after overflows exec exec_end set_run decode log_not memory_read collect_memory chunks
    collect_chunk action_head put_head action_r alloc alloc_aligned take_or_fail
hit-run = refl

-- %u of one byte, from 128 on: 4294967168
byte-shown : shown_number conv_u 1 (λ x. 128) ≡ some (number conv_u 4 4294967168)
unfolding shown_number load
byte-shown = refl

-- `tracev` of the variable 0 and `end`, with 0 on top: the condition collects, and does not hold.
abbrev collect_and_refuse : Code
collect_and_refuse = record {
  ebuf = 0x2e ∷ 0 ∷ 0 ∷ 0x27 ∷ [];
  type_x = true;
  need_var_lock = false;
  have_printk = false;
}

-- A uprobe whose condition collects the first variable and is 0
abbrev refusing : Point
refusing = record point { is_kprobe = false; cond = some collect_and_refuse }

abbrev with_var : Run
with_var = record begin {
  hit = record (on_ring built) { vars = record { num = 5; storage = plain 9 } ∷ [] };
}

abbrev uprobe : Site
uprobe = record site { is_uprobe = true }

abbrev left : Run
left = record with_var { hit = (collect_var outside uprobe 0 with_var.hit).0 }

refuses :
    run_exp outside shifts quotient 2 refusing uprobe collect_and_refuse (some 0) with_var
    ≡ some (left, some 0, true)
unfolding action_x unlock run at_code after overflows exec exec_tracev exec_end set_run decode
    collect_var action_head put_head collect_entry agent_get_val alloc alloc_aligned take_or_fail
refuses = refl

handler-keeps_lock_example :
    ((handler outside shifts quotient 2 refusing 0 task uprobe no_step with_var).0 ≡ some left)
    × (left.hit.locked ≡ true)
unfolding is_quiet collect_var action_head put_head collect_entry agent_get_val alloc alloc_aligned
    take_or_fail
handler-keeps_lock_example =
    handler-keeps_lock (Got page 3) outside shifts quotient 2 0 refusing task uprobe uprobe no_step
      with_var left collect_and_refuse outside-Behaves built-IsRing refl refl (inl (refl, refl))
      refl refl refuses refl
