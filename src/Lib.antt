-- ===== src/Lib.antt =====
-- KGTP, a Linux kernel module that runs GDB's tracepoints: the code that checks an agent expression
-- (a byte code program that GDB sends with a tracepoint) and the interpreter that runs it at each
-- hit of the tracepoint, inside the kernel; the handler of a hit, which collects into a trace frame;
-- the ring buffer that these frames are written to, one for each processor, and its reader; and the
-- commands of the remote protocol that set up the tracepoints.
--
-- The build that is modelled is x86_64 with GTP_RB and CONFIG_X86, without the debug macros; the
-- checkers know the variables of performance events, the hit has none of them. A ULONGEST is a number
-- below 2 ^ 64, an `unsigned int` wraps at 2 ^ 32. An array is a list, and an access outside it is an
-- outcome of its own (`fault`, `crash`, `wild`), never a default, except in a read that a test of the
-- code has allowed before.
--
-- Base and its children: lists with native indices, C's tests, the conditional.
--
-- Agent: agent expressions, all of gtp.c.
--   Op: the byte codes and `decode`, which is the `switch`. Word: the arithmetic on 64 bits.
--   Host: the kernel and the trace frames, as calls on a state `World`. The shifts that C leaves
--     undefined are a parameter of it (Shifts), and so is do_div, which `divide` calls
--     with a divisor of 32 bits; where that is 0, the machine stops (`div_fault`, `div_crash`).
--   Machine, Cases, Exec: `gtp_action_x`. A function of Cases is a `case`, `exec` the `switch`, `run`
--     the loop, `action_x` the function with its lock. The loop takes fuel, one unit a round.
--   Tsv, VarAdd, Getv, Setv: `gtp_var_find_num`, `gtp_var_array_find_num`, `gtp_check_var_add`,
--     `gtp_add_backtrace_actions`, `gtp_check_getv`, `gtp_check_setv`. `kmalloc` is a parameter that
--     is told how many calls came before it, so that any call may fail.
--   Fold, Round, Simple: `gtp_check_x_simple`. Fold is its first `switch`, on values that are known;
--     Round the second, on the depth of the stack; Simple follows the paths. `walk` takes fuel, one
--     unit a round, and `check_paths` passes the length of the buffer and one more to it; its own
--     fuel is one unit for each path.
--   Loop: `gtp_check_x_loop`. CheckX: `gtp_check_x`.
--   Shape is a table of what each code asks of the stack and the buffer. RoundShape, RoundEffect
--   and Quiet compare the checker with it, ExecShape, ExecReach and ExecFits the interpreter; Kept
--   is about the buffer behind the check of a variable; Route is a way through a buffer, WalkRoute
--   leads from the checker to it, Safety from it to the interpreter. Terminates is about the loop
--   of the checker; Unbalanced, DivFault, KnownSum and LoopRefuses compare the two checkers and the
--   interpreter on expressions of a few codes. Tests runs the definitions on concrete expressions.
--
-- Ring: the ring buffer of one processor, gtp_rb.c.
--   Bytes: the memory, as a function from addresses to bytes, with little-endian numbers in it.
--   Pages: the macros of a page, and `struct gtp_rb_s` (Rb, with the memory behind it).
--   Setup: `gtp_rb_page_alloc` and `gtp_rb_reset`. alloc_pages_node is a parameter; the loop takes
--     the size as its fuel, of which each round needs 4096.
--   Write: `gtp_rb_alloc`, `gtp_rb_get_page`, `gtp_rb_put_page`. The locks are not modelled: each
--     operation is one step.
--   Walk: `gtp_rb_walk`, whose loop takes fuel, one unit a round; the size of `struct pt_regs` is a
--     parameter. Read: `gtp_rb_read`, `gtp_rb_read_reset`, `gtp_rb_update_gtp_frame_current`, over the
--     list of the processors' ring buffers; the fuel is that of each walk.
--   Linked and Surgery are about pages with double links that are one ring, of which each page leads
--   to every other, whatever order they come in; Inv about what holds between two operations. Chain,
--   Built, Alloc, Exchange, PutBack and Unread are the proofs about the operations of the writer, Trail
--   and Oldest those of the reader. Tests runs the writer on a ring of three pages, ReadTests the
--   reader on two processors.
--
--   Inside is about writes to a part of a page, Append about an entry that is given out and the walk
--   to it; Sample is the ring of three pages of the tests.
--
-- Hit: a hit of a tracepoint, gtp.c and gtp.h. The record Hit is what the hit changes, Site what it
--   reads of `struct gtp_trace_s`, Outside what it calls: the reads of memory and the hooks of the
--   special variables are parameters, which Ok.Behaves says to leave the frame alone. The allocator
--   is that of Ring, and the interpreter that of Agent, with the functions of the hit as its host.
--   Vars: `gtp_var_agent_get_val` and `_set_val`. Frame: `gtp_action_head`, `gtp_collect_var`,
--     `gtp_action_memory_read`, `gtp_action_r`, `gtp_action_reg_read`. The loop over the chunks takes
--     fuel, two units for each byte and one more. Printk: `gtp_action_printk`.
--   Handler: `gtp_handler` with `gtp_handler_wakeup` and `gtp_step_stop`, each `goto tpe_stop` a call
--     of `tpe_stop`. Its fuel is that of each expression. A sign of `current_pass` is that of a word.
--   Ok, EntryOk, FrameOk, PrintkKept and Release follow the ring buffer and its lock through
--   the handler, with Agent/WorldKept, CasesKept and RunKept for the interpreter; Chunks is about the
--   loop, Written about the reader, Leak about the return behind a condition. Tests runs a hit.
--
-- Enable: the flag `disable` of the tracepoints, gtp.c: `gtp_handler_enable_disable`, which lists the
--   tasklets it schedules, and `gtp_gdbrsp_qtenable_qtdisable`, where the calls of the kernel are a
--   parameter. Toggle is about the flag, Tests has two tracepoints.
--
-- Frames: the trace frame that GDB looks at, gtp.c. Reading has `gtp_frame_current_*`, where
--   `gtp_frame_current_num` is below the range of an int, and the ring buffers of Ring.Read.
--   `gtp_frame_head_find_num`, `_find_trace`, `_find_addr` are loops on fuel, a unit for each frame and
--   one more. Reads and Order follow the frames from the start, Qtframe is `gtp_gdbrsp_qtframe`, Place
--   about its way back. Tests has two processors with a frame each.
--
-- Packet: the tracepoints that GDB sets up, gtp.c. Session is the state, with the blocks of memory
--   numbered by a count of the allocations, each of which may fail, and the blocks that are freed.
--   Entries: `gtp_list_add`, `gtp_list_find`, `gtp_list_find_without_addr_do_check`,
--     `gtp_disable_find`, `gtp_src_add`. Qtdp: `gtp_gdbrsp_qtdp` and `gtp_gdbrsp_qtdpsrc`; the loop over
--     the actions takes the length of the text as its fuel.
--   Keys and Unique follow the numbers and addresses, Ends is about the loop, Again about a text that
--   is sent again, Only about the look-up by number, FreedTwice about the text of an
--   expression that is too short. Tests runs some commands.
--
-- Replay: the replay of a step, gtp.c, on the ring buffer of one processor, with `NULL` as 0.
--   Its parameters are the offset of the program counter and the value of the kernel's `current`.
--   `gtp_gdbrsp_step_forward`, `gtp_gdbrsp_step_reverse`, `gtp_gdbrsp_resume` and what they look up in
--   a frame; the loop of the last takes fuel, a unit for each move. Breakpoints: the command
--   `gtp_gdbrsp_breakpoint`. Forward is about the end of a step, Reverse about its begin. Tests has two
--   frames.
--
-- Realloc: `struct gtp_realloc_s`, gtp.c, the buffer of a reply; vmalloc is a parameter. Append
--   compares it with a list.
--
-- Hex: the hexadecimal text of the remote protocol, gtp.c: `hex2int`, `hex2ulongest`, `hex2string`,
--   `string2hex`, `gtp_parse_x`, with kmalloc and kfree as parameters. A string is the list of its
--   bytes without the NUL. Hex/Roundtrip has the proofs, Hex/Tests some texts.
--
-- Not modelled: the checkers read of the hooks of a special variable only whether they are there,
-- and the hit takes them as parameters. `pc` and `sp` of the checkers do not wrap: they are bounded by
-- the size of the expression. A hit is on one processor and is not interrupted; only the reader goes
-- over all processors. The other commands of the remote protocol, the registration of tracepoints, the
-- commands that enter and leave the replay, the device files and the copies of kernel code
-- (ring_buffer.c, perf_event.c) are outside.
pub mod Base
pub mod Agent
pub mod Ring
pub mod Hex
pub mod Enable
pub mod Frames
pub mod Hit
pub mod Packet
pub mod Realloc
pub mod Replay
