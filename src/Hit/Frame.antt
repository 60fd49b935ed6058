-- ===== src/Hit/Frame.antt =====
-- gtp.c, the entries of a trace frame: `gtp_action_head`, `gtp_collect_var`,
-- `gtp_action_memory_read` and `gtp_action_r`, with `gtp_action_reg_read`. `true` is the result 0.
use kgtp.Base.{
  ℕ, zero, suc, ◌+◌, ◌-◌, ◌*◌, ◌%◌, ◌^◌, Bool, true, false, not, ◌&&◌, Option, none, some, List, [],
  ◌∷◌, ltb, ◌==◌, if◌then◌else◌, get_elem?, min,
}
use kgtp.Ring.Bytes.{Memory, load, store, put_byte}
use kgtp.Ring.Pages.{Rb, data_max, fid_head, fid_reg, fid_mem, fid_var}
use kgtp.Ring.Write.{alloc, alloc_max, release_frame}
use kgtp.Ring.Walk.{head_size, mem_size, var_size}
use kgtp.Hit.{
  Hit, Outside, Site, Var, StopType, stop_normal, stop_frame_full, stop_efault,
  stop_access_wrong_reg, stop_agent_expr_code_error, next_clock, stop,
}
use kgtp.Hit.Vars.{wild, agent_get_val}

-- What `gtp_rb_alloc` has returned: without an address the frame is full.
abbrev pub on_alloc : Option ℕ × Rb → Hit → (ℕ → Hit → Hit × Bool) → Hit × Bool
on_alloc (none, rb) hit k = stop stop_frame_full (record hit { rb = rb })
on_alloc (some tmp, rb) hit k = k tmp (record hit { rb = rb })

-- A call that has to succeed.
abbrev pub and_then : Hit × Bool → (Hit → Hit × Bool) → Hit × Bool
and_then (hit, false) k = (hit, false)
and_then (hit, true) k = k hit

-- The bytes that a read has written at `a`
unfoldable pub put_bytes : Memory → ℕ → List ℕ → Memory
put_bytes m a [] = m
put_bytes m a (b ∷ bs) = put_byte (put_bytes m (a + 1) bs) a (b % 256)

abbrev pub with_mem : Memory → Hit → Hit
with_mem m hit = record hit { rb = record hit.rb { mem = m } }

-- `memcpy` of `n` bytes of `from` to `a`
unfoldable pub copy : ℕ → Memory → ℕ → Memory → ℕ → Memory
copy zero from i m a = m
copy (suc n) from i m a = put_byte (copy n from (i + 1) m (a + 1)) a (from i % 256)

-- Behind `fvar->num`, with the entry at `tmp`
abbrev pub put_value : ℕ → Hit × Option ℕ → Hit × Bool
put_value tmp (hit, none) =
    stop stop_agent_expr_code_error (with_mem (store 8 hit.rb.mem (tmp + 12) 0) hit)
put_value tmp (hit, some val) = (with_mem (store 8 hit.rb.mem (tmp + 12) val) hit, true)

-- `cur_size`
abbrev pub chunk_size : Rb → ℕ → ℕ
chunk_size rb left =
    min (if ltb (alloc_max rb) mem_size then data_max - mem_size else alloc_max rb - mem_size) left

-- The read of a chunk into the entry at `tmp`
abbrev pub take_chunk : ℕ → List ℕ × Bool → Hit → Hit × Bool
take_chunk tmp (bytes, true) hit = (with_mem (put_bytes hit.rb.mem (tmp + 20) bytes) hit, true)
take_chunk tmp (bytes, false) hit =
    let hit' = with_mem (put_bytes hit.rb.mem (tmp + 20) bytes) hit in
    stop stop_efault (record hit' { rb = release_frame hit'.rb })

-- Behind a round: `left -= cur_size`
abbrev pub after_chunk : Hit × Bool → (Hit → Option (Hit × Bool)) → Option (Hit × Bool)
after_chunk (hit, false) again = some (hit, false)
after_chunk (hit, true) again = again hit

abbrev pub ended : Hit → Option (Hit × Bool) → Hit × Bool
ended hit none = (hit, false)
ended hit (some result) = result

abbrev pub is_normal : StopType → Bool
is_normal stop_normal = true
is_normal _ = false

module _ (o : Outside) (s : Site) where
  -- `GTP_X86_NEED_ADJUST_PC`
  abbrev pub need_adjust_pc : Bool
  need_adjust_pc = s.step == 0 && not s.hwb && not s.is_uprobe

  -- `gtp_action_reg_read`
  unfoldable pub reg_read : ℕ → Hit → Hit × ℕ
  reg_read num hit =
      let value = load 8 s.regs (o.reg_offset num) in
      if num == 16
      then (hit, if need_adjust_pc then (value + 2 ^ 64 - 1) % 2 ^ 64 else value)
      else if ltb num 20
      then (hit, value)
      else (record hit { reason = stop_access_wrong_reg }, 0)

  abbrev pub put_var : ℕ → ℕ → Option Var → Hit → Hit × Bool
  put_var num tmp none hit = (wild hit, false)
  put_var num tmp (some var) hit =
      let m = store 4 (store 4 hit.rb.mem tmp fid_var) (tmp + 4) var.num in
      put_value tmp (agent_get_val o num (with_mem m hit))

  -- `gtp_collect_var` where the frame has its head
  unfoldable pub collect_entry : ℕ → Hit → Hit × Bool
  collect_entry num hit =
      on_alloc (alloc o.circular var_size hit.id hit.rb) hit
        (λ tmp hit'. put_var num tmp (get_elem? hit'.vars num) hit')

  -- The fields of the head at `tmp`, and the end of `gtp_action_head`
  unfoldable pub put_head : ℕ → Hit → Hit × Bool
  unfolding collect_entry
  put_head tmp hit =
      let id = next_clock hit.count in
      let m₁ = store 8 (store 4 hit.rb.mem tmp fid_head) (tmp + 4) id in
      let m₂ = store 8 (store 8 m₁ (tmp + 12) s.num) (tmp + 20) hit.rb.prev_frame in
      let hit' = record hit {
        rb = record hit.rb { mem = m₂; prev_frame = tmp };
        count = id;
        id = id;
        created = hit.created + 1;
      } in
      if s.has_step then collect_entry o.step_id hit' else (hit', true)

  -- `gtp_action_head`
  unfoldable pub action_head : Hit → Hit × Bool
  unfolding put_head
  action_head hit =
      on_alloc (alloc o.circular head_size 0 hit.rb) (record hit { next = true; locked = true })
        put_head

  -- `if (gts->next == NULL) { if (gtp_action_head(gts)) return -1; }`
  abbrev pub with_head : Hit → (Hit → Hit × Bool) → Hit × Bool
  with_head hit k = if hit.next then k hit else and_then (action_head hit) k

  -- `gtp_collect_var`
  unfoldable pub collect_var : ℕ → Hit → Hit × Bool
  unfolding action_head collect_entry
  collect_var num hit = with_head hit (collect_entry num)

  -- `fm->addr`, `fm->size` and the read
  abbrev pub put_chunk : ℕ → ℕ → ℕ → Hit → Hit × Bool
  put_chunk addr size tmp hit =
      let m = store 8 (store 8 (store 4 hit.rb.mem tmp fid_mem) (tmp + 4) addr) (tmp + 12) size in
      let hit' = with_mem m hit in take_chunk tmp (o.read_memory s.task_read hit' addr size) hit'

  -- A round of the loop of `gtp_action_memory_read`, for the bytes from `addr` on
  unfoldable pub collect_chunk : ℕ → ℕ → Hit → Hit × Bool
  collect_chunk addr size hit =
      on_alloc (alloc o.circular (mem_size + size) hit.id hit.rb) hit (put_chunk addr size)

  -- The loop: `left` bytes from `addr` on. `none` is too little fuel.
  unfoldable pub chunks : ℕ → ℕ → ℕ → Hit → Option (Hit × Bool)
  unfolding collect_chunk
  chunks fuel addr zero hit = some (hit, true)
  chunks zero addr (suc n) hit = none
  chunks (suc fuel) addr (suc n) hit =
      let size = chunk_size hit.rb (suc n) in
      after_chunk (collect_chunk addr size hit)
        (λ hit'. chunks fuel ((addr + size) % 2 ^ 64) (suc n - size) hit')

  -- Two rounds for each byte and one more are enough.
  unfoldable pub collect_memory : ℕ → ℕ → Hit → Hit × Bool
  unfolding chunks
  collect_memory addr size hit = ended hit (chunks (2 * size + 1) addr size hit)

  -- `if (reg >= 0) addr += gtp_action_reg_read(gts, reg);`
  abbrev pub add_reg : Option ℕ → ℕ → Hit → Hit × ℕ
  add_reg none addr hit = (hit, addr)
  add_reg (some reg) addr hit =
      let (hit', value) = reg_read reg hit in (hit', (addr + value) % 2 ^ 64)

  -- `gtp_action_memory_read` behind the register
  abbrev pub read_at : ℕ → Hit × ℕ → Hit × Bool
  read_at size (hit, addr) =
      if is_normal hit.reason then with_head hit (collect_memory addr size) else (hit, false)

  -- `gtp_action_memory_read`; `none` is a `reg` below 0.
  unfoldable pub memory_read : Option ℕ → ℕ → ℕ → Hit → Hit × Bool
  unfolding reg_read action_head collect_memory
  memory_read reg addr size hit = read_at size (add_reg reg addr hit)

  -- `GTP_REGS_PC(regs)` of the copy at `a`
  abbrev pub adjust_pc : Option ℕ → Memory → ℕ → Memory
  adjust_pc (some ret) m a = store 8 m a ret
  adjust_pc none m a =
      if need_adjust_pc then store 8 m a ((load 8 m a + 2 ^ 64 - 1) % 2 ^ 64) else m

  abbrev pub put_regs : ℕ → Hit → Hit × Bool
  put_regs tmp hit =
      let m = copy o.regs_size s.regs 0 (store 4 hit.rb.mem tmp fid_reg) (tmp + 4) in
      (with_mem (adjust_pc s.ret_addr m (tmp + 4 + o.reg_offset 16)) hit, true)

  abbrev pub reg_entry : Hit → Hit × Bool
  reg_entry hit = on_alloc (alloc o.circular (4 + o.regs_size) hit.id hit.rb) hit put_regs

  -- `gtp_action_r`
  unfoldable pub action_r : Hit → Hit × Bool
  unfolding action_head
  action_r hit = with_head hit reg_entry
