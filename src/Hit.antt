-- ===== src/Hit.antt =====
-- gtp.c and gtp.h, a hit of a tracepoint: `struct gtp_trace_s`, what it changes outside itself, and
-- what it calls outside the repository. The configuration is GTP_RB on x86_64, without
-- GTP_PERF_EVENTS.
use kgtp.Base.{ℕ, ◌+◌, ◌%◌, ◌^◌, Bool, false, Option, none, some, List, ◌==◌, if◌then◌else◌}
use kgtp.Ring.Bytes.{Memory}
use kgtp.Ring.Pages.{Rb}
pub mod Vars
pub mod Frame
pub mod Printk
pub mod Handler
pub mod Ok
pub mod EntryOk
pub mod FrameOk
pub mod Chunks
pub mod Written
pub mod PrintkKept
pub mod Release
pub mod Leak
mod Tests

-- `enum gtp_stop_type`
pub data StopType : Type 0 where
  stop_normal stop_frame_full stop_efault stop_access_wrong_reg : StopType
  stop_agent_expr_code_error stop_agent_expr_stack_overflow : StopType

-- The value of a trace state variable, by its type: a special one has the index of its hooks, and
-- one for each processor may be bound to one of them.
pub data Storage : Type 0 where
  special : ℕ → Storage
  per_cpu : Option ℕ → List ℕ → Storage
  plain : ℕ → Storage

-- `struct gtp_var`, in `gtp_var_array`
pub record Var : Type 0 where
  pub num : ℕ
  pub storage : Storage

-- The conversions %d, %u and 0x%x of `printk`, or those with ll.
pub data Conversion : Type 0 where
  conv_d conv_u conv_x : Conversion

-- What `printk` shows: a number of some bytes by a conversion, a string, or the numbers that %02x
-- gets.
pub data Shown : Type 0 where
  number : Conversion → ℕ → ℕ → Shown
  text : List ℕ → Shown
  bytes : List ℕ → Shown

-- A line that `gtp_action_printk` prints: level, name, and what is behind it.
pub record Line : Type 0 where
  pub level : ℕ
  pub name : List ℕ
  pub shown : Shown

-- What the hit reads of the tracepoint and of its own arguments: `gts->tpe->num`,
-- `gts->tpe->step`, `gts->step`, `gts->hwb`, whether `gts->tpe->type` is gtp_entry_uprobe,
-- `gts->ri->ret_addr`, the bytes of `*gts->regs`, and whether `gts->read_memory` is
-- `gtp_task_handler_read`.
pub record Site : Type 0 where
  pub num : ℕ
  pub has_step : Bool
  pub step : ℕ
  pub hwb : Bool
  pub is_uprobe : Bool
  pub ret_addr : Option ℕ
  pub regs : Memory
  pub task_read : Bool

-- What the hit changes: the ring buffer of its processor with its lock, `gtp_rb_count`,
-- `gtp_frame_create`, `gts->next` (whether it is not NULL), `gts->id`, `gts->tpe->reason`,
-- `gtp_var_array`, `gts->printk_str` with the names behind it, the level and the format, the buffer
-- `gtp_printf` of the processor, what is printed, the last line first, and `gts->tmp_regs`.
-- `outside` is an access that is not in `gtp_var_array` or in the processors of a variable.
pub record Hit : Type 0 where
  pub rb : Rb
  pub locked : Bool
  pub count : ℕ
  pub created : ℕ
  pub next : Bool
  pub id : ℕ
  pub reason : StopType
  pub vars : List Var
  pub printk_str : List (List ℕ)
  pub printk_level : ℕ
  pub printk_format : ℕ
  pub pbuf : Memory
  pub log : List Line
  pub tmp_regs : Option Memory
  pub outside : Bool

-- What is called and read outside: `gtp_circular`, `smp_processor_id()`, the index of $step_id, the
-- size of `struct pt_regs` and the offset of each register in it, by the number that GDB gives it;
-- `gts->read_memory`, with the bytes that it has written and whether it returns 0; and the hooks of
-- the special variables.
pub record Outside : Type 0 where
  pub circular : Bool
  pub cpu : ℕ
  pub step_id : ℕ
  pub regs_size : ℕ
  pub reg_offset : ℕ → ℕ
  pub read_memory : Bool → Hit → ℕ → ℕ → List ℕ × Bool
  pub get_hook : ℕ → Hit → Hit × Option ℕ
  pub set_hook : ℕ → ℕ → Hit → Hit × Bool

-- `gtp_rb_clock`
abbrev pub next_clock : ℕ → ℕ
next_clock count = let ret = (count + 1) % 2 ^ 64 in if ret == 0 then 1 else ret

abbrev pub stop : StopType → Hit → Hit × Bool
stop why hit = (record hit { reason = why }, false)
