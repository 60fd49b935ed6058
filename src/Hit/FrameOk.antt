-- ===== src/Hit/FrameOk.antt =====
-- gtp.c, the entries of a trace frame: each keeps the ring buffer in order and the lock as it is.
use kgtp.Base.{
  ℕ, zero, suc, ◌+◌, ◌*◌, ◌-◌, ◌%◌, ◌^◌, ◌≤◌, refl, arith, Bool, true, false, Option, none, some,
  if-elim, get_elem?,
}
use kgtp.Ring.Bytes.{Memory, load, store}
use kgtp.Ring.Pages.{Rb, frame_align, fid_head, fid_reg, fid_mem, fid_var}
use kgtp.Ring.Walk.{head_size, mem_size, var_size}
use kgtp.Ring.Inside.{Inside, Inside-refl, Inside-store, fill-IsRing}
use kgtp.Hit.{Hit, Outside, Site, Var, next_clock}
use kgtp.Hit.Vars.{agent_get_val}
use kgtp.Hit.Frame.{
  and_then, with_mem, copy, put_var, collect_entry, put_head, action_head, with_head, collect_var,
  put_chunk, collect_chunk, chunk_size, after_chunk, chunks, ended, collect_memory, reg_read,
  add_reg, is_normal, read_at, memory_read, need_adjust_pc, adjust_pc, put_regs, reg_entry,
  action_r,
}
use kgtp.Hit.Ok.{Behaves, agent_get_val-SameFrame, Inside-copy}
use kgtp.Hit.EntryOk.{
  HitOk, EntryOk, ResultOk, EntryOk-HitOk, alloc-ResultOk, and_then-ResultOk, fill-EntryOk,
  store-EntryOk, EntryOk-SameFrame, HitOk-SameFrame, valued-ResultOk, frame_align-room,
  chunk_size-small, taken-ResultOk,
}

module _ (IsPage : ℕ → Type 0) (o : Outside) (behaves : Behaves o) (s : Site) where
  put_var-ResultOk :
      (rb₀ : Rb) (num p : ℕ) (v : Option Var) (hit : Hit)
      → EntryOk IsPage rb₀ 20 p hit
      → ResultOk IsPage (put_var o s num p v hit)
  put_var-ResultOk rb₀ num p none hit e = record { ring = e.entry.ring; held = e.held }
  put_var-ResultOk rb₀ num p (some var) hit e =
      let m = store 4 (store 4 hit.rb.mem p fid_var) (p + 4) var.num in
      let hit₁ = with_mem m hit in
      let e₁ : EntryOk IsPage rb₀ 20 p hit₁ =
        store-EntryOk IsPage rb₀ 20 p (with_mem (store 4 hit.rb.mem p fid_var) hit) 4 (p + 4)
          var.num (omega arith) (omega arith)
          (store-EntryOk IsPage rb₀ 20 p hit 4 p fid_var (omega arith) (omega arith) e) in
      valued-ResultOk IsPage rb₀ p (agent_get_val o num hit₁) (
        EntryOk-SameFrame IsPage rb₀ 20 p hit₁ (agent_get_val o num hit₁).0
          (agent_get_val-SameFrame o behaves num hit₁) e₁)

  collect_entry-ResultOk :
      (num : ℕ) (hit : Hit) → HitOk IsPage hit → ResultOk IsPage (collect_entry o s num hit)
  unfolding collect_entry
  collect_entry-ResultOk num hit ok =
      alloc-ResultOk IsPage o.circular var_size hit.id hit hit
        (λ p hit'. put_var o s num p (get_elem? hit'.vars num) hit') ok ok.held
        (λ p hit' e. put_var-ResultOk hit.rb num p (get_elem? hit'.vars num) hit' e)

  -- The fields of a head
  headed-HitOk :
      (rb₀ : Rb) (p id : ℕ) (hit : Hit)
      → EntryOk IsPage rb₀ 28 p hit
      → HitOk IsPage (record hit {
        rb = record hit.rb {
          mem =
              store 8
                (store 8 (store 8 (store 4 hit.rb.mem p fid_head) (p + 4) id) (p + 12) s.num)
                (p + 20)
                hit.rb.prev_frame;
          prev_frame = p;
        };
        count = id;
        id = id;
        created = hit.created + 1;
      })
  headed-HitOk rb₀ p id hit e = record {
    ring = fill-IsRing IsPage rb₀ hit.rb 28 p _ p e.entry (
        Inside-store p (p + 28) 8 hit.rb.mem _ (p + 20) hit.rb.prev_frame (omega arith)
          (omega arith)
          (Inside-store p (p + 28) 8 hit.rb.mem _ (p + 12) s.num (omega arith) (omega arith) (
            Inside-store p (p + 28) 8 hit.rb.mem _ (p + 4) id (omega arith) (omega arith) (
              Inside-store p (p + 28) 4 hit.rb.mem hit.rb.mem p fid_head (omega arith) (omega arith)
                (Inside-refl p (p + 28) hit.rb.mem)))));
    held = e.held;
  }

  put_head-ResultOk :
      (rb₀ : Rb) (p : ℕ) (hit : Hit)
      → EntryOk IsPage rb₀ 28 p hit
      → ResultOk IsPage (put_head o s p hit)
  unfolding put_head
  put_head-ResultOk rb₀ p hit e =
      let ok = headed-HitOk rb₀ p (next_clock hit.count) hit e in
      if-elim (ResultOk IsPage) s.has_step _ _ (λ c. collect_entry-ResultOk o.step_id _ ok)
        (λ c. ok)

  action_head-ResultOk : (hit : Hit) → HitOk IsPage hit → ResultOk IsPage (action_head o s hit)
  unfolding action_head
  action_head-ResultOk hit ok =
      alloc-ResultOk IsPage o.circular head_size 0 hit (record hit { next = true; locked = true })
        (put_head o s) ok refl (put_head-ResultOk hit.rb)

  with_head-ResultOk :
      (hit : Hit) (k : Hit → Hit × Bool)
      → HitOk IsPage hit
      → ((hit' : Hit) → HitOk IsPage hit' → ResultOk IsPage (k hit'))
      → ResultOk IsPage (with_head o s hit k)
  with_head-ResultOk hit k ok f =
      if-elim (ResultOk IsPage) hit.next (k hit) (and_then (action_head o s hit) k) (λ e. f hit ok)
        (λ e. and_then-ResultOk IsPage (action_head o s hit) k (action_head-ResultOk hit ok) f)

  pub collect_var-ResultOk :
      (num : ℕ) (hit : Hit) → HitOk IsPage hit → ResultOk IsPage (collect_var o s num hit)
  unfolding collect_var
  collect_var-ResultOk num hit ok =
      with_head-ResultOk hit (collect_entry o s num) ok (collect_entry-ResultOk num)

  put_chunk-ResultOk :
      (rb₀ : Rb) (n addr size p : ℕ) (hit : Hit)
      → 20 + size ≤ n
      → EntryOk IsPage rb₀ n p hit
      → ResultOk IsPage (put_chunk o s addr size p hit)
  put_chunk-ResultOk rb₀ n addr size p hit fits e =
      let m₁ = store 4 hit.rb.mem p fid_mem in
      let m₂ = store 8 m₁ (p + 4) addr in
      let hit' = with_mem (store 8 m₂ (p + 12) size) hit in
      let e' : EntryOk IsPage rb₀ n p hit' =
        store-EntryOk IsPage rb₀ n p (with_mem m₂ hit) 8 (p + 12) size (omega arith) (omega arith) (
          store-EntryOk IsPage rb₀ n p (with_mem m₁ hit) 8 (p + 4) addr (omega arith) (omega arith)
            (store-EntryOk IsPage rb₀ n p hit 4 p fid_mem (omega arith) (omega arith) e)) in
      taken-ResultOk IsPage rb₀ n p (o.read_memory s.task_read hit' addr size) hit'
        (omega (arith, behaves.read_fits s.task_read hit' addr size)) e'

  pub collect_chunk-ResultOk :
      (addr size : ℕ) (hit : Hit)
      → size ≤ 4096
      → HitOk IsPage hit
      → ResultOk IsPage (collect_chunk o s addr size hit)
  unfolding collect_chunk
  collect_chunk-ResultOk addr size hit small ok =
      alloc-ResultOk IsPage o.circular (mem_size + size) hit.id hit hit (put_chunk o s addr size) ok
        ok.held
        (λ p hit'.
          put_chunk-ResultOk hit.rb (frame_align (mem_size + size)) addr size p hit'
            (frame_align-room IsPage (20 + size) (omega arith)))

  abbrev MaybeOk : Option (Hit × Bool) → Type 0
  MaybeOk none = Unit
  MaybeOk (some r) = ResultOk IsPage r

  after-MaybeOk :
      (r : Hit × Bool) (again : Hit → Option (Hit × Bool))
      → ResultOk IsPage r
      → ((hit : Hit) → HitOk IsPage hit → MaybeOk (again hit))
      → MaybeOk (after_chunk r again)
  after-MaybeOk (hit, false) again ok f = ok
  after-MaybeOk (hit, true) again ok f = f hit ok

  chunks-MaybeOk :
      (fuel addr left : ℕ) (hit : Hit) → HitOk IsPage hit → MaybeOk (chunks o s fuel addr left hit)
  unfolding chunks
  chunks-MaybeOk fuel addr zero hit ok = ok
  chunks-MaybeOk zero addr (suc n) hit ok = tt
  chunks-MaybeOk (suc fuel) addr (suc n) hit ok =
      let size = chunk_size hit.rb (suc n) in
      after-MaybeOk (collect_chunk o s addr size hit)
        (λ hit'. chunks o s fuel ((addr + size) % 2 ^ 64) (suc n - size) hit')
        (collect_chunk-ResultOk addr size hit (chunk_size-small IsPage hit.rb (suc n) ok.ring) ok)
        (chunks-MaybeOk fuel ((addr + size) % 2 ^ 64) (suc n - size))

  ended-ResultOk :
      (hit : Hit) (r : Option (Hit × Bool))
      → HitOk IsPage hit
      → MaybeOk r
      → ResultOk IsPage (ended hit r)
  ended-ResultOk hit none ok h = ok
  ended-ResultOk hit (some r) ok h = h

  collect_memory-ResultOk :
      (addr size : ℕ) (hit : Hit)
      → HitOk IsPage hit
      → ResultOk IsPage (collect_memory o s addr size hit)
  unfolding collect_memory
  collect_memory-ResultOk addr size hit ok =
      ended-ResultOk hit (chunks o s (2 * size + 1) addr size hit) ok
        (chunks-MaybeOk (2 * size + 1) addr size hit ok)

  pub reg_read-HitOk :
      (num : ℕ) (hit : Hit) → HitOk IsPage hit → HitOk IsPage (reg_read o s num hit).0
  unfolding reg_read
  reg_read-HitOk num hit ok =
      HitOk-SameFrame IsPage hit (reg_read o s num hit).0
        (record { same_rb = ground arith; same_next = ground arith; same_locked = ground arith }) ok

  add_reg-HitOk :
      (reg : Option ℕ) (addr : ℕ) (hit : Hit)
      → HitOk IsPage hit
      → HitOk IsPage (add_reg o s reg addr hit).0
  add_reg-HitOk none addr hit ok = ok
  add_reg-HitOk (some reg) addr hit ok = reg_read-HitOk reg hit ok

  read_at-ResultOk :
      (size : ℕ) (r : Hit × ℕ) → HitOk IsPage r.0 → ResultOk IsPage (read_at o s size r)
  read_at-ResultOk size (hit, addr) ok =
      if-elim (ResultOk IsPage) (is_normal hit.reason)
        (with_head o s hit (collect_memory o s addr size)) (hit, false)
        (λ e.
          with_head-ResultOk hit (collect_memory o s addr size) ok
            (collect_memory-ResultOk addr size))
        (λ e. ok)

  -- `gtp_action_memory_read`, whatever it returns.
  pub memory_read-ResultOk :
      (reg : Option ℕ) (addr size : ℕ) (hit : Hit)
      → HitOk IsPage hit
      → ResultOk IsPage (memory_read o s reg addr size hit)
  unfolding memory_read
  memory_read-ResultOk reg addr size hit ok =
      read_at-ResultOk size (add_reg o s reg addr hit) (add_reg-HitOk reg addr hit ok)

  adjusted-Inside :
      (lo hi : ℕ) (ret : Option ℕ) (m₀ m : Memory) (a : ℕ)
      → lo ≤ a
      → a + 8 ≤ hi
      → Inside lo hi m₀ m
      → Inside lo hi m₀ (adjust_pc o s ret m a)
  adjusted-Inside lo hi (some ret) m₀ m a low high f = Inside-store lo hi 8 m₀ m a ret low high f
  adjusted-Inside lo hi none m₀ m a low high f =
      if-elim (Inside lo hi m₀) (need_adjust_pc o s)
        (store 8 m a ((load 8 m a + 2 ^ 64 - 1) % 2 ^ 64)) m
        (λ e. Inside-store lo hi 8 m₀ m a ((load 8 m a + 2 ^ 64 - 1) % 2 ^ 64) low high f) (λ e. f)

  put_regs-ResultOk :
      (rb₀ : Rb) (p : ℕ) (hit : Hit)
      → EntryOk IsPage rb₀ (frame_align (4 + o.regs_size)) p hit
      → ResultOk IsPage (put_regs o s p hit)
  put_regs-ResultOk rb₀ p hit e =
      let n = frame_align (4 + o.regs_size) in
      let room : 4 + o.regs_size ≤ n =
        frame_align-room IsPage (4 + o.regs_size) (omega (arith, behaves.regs_fit)) in
      let m = copy o.regs_size s.regs 0 (store 4 hit.rb.mem p fid_reg) (p + 4) in
      let written : Inside p (p + n) hit.rb.mem m =
        Inside-copy p (p + n) o.regs_size s.regs 0 hit.rb.mem (store 4 hit.rb.mem p fid_reg) (p + 4)
          (omega arith) (omega arith)
          (Inside-store p (p + n) 4 hit.rb.mem hit.rb.mem p fid_reg (omega arith) (omega arith)
            (Inside-refl p (p + n) hit.rb.mem)) in
      let a = p + 4 + o.reg_offset 16 in
      EntryOk-HitOk IsPage rb₀ n p (with_mem (adjust_pc o s s.ret_addr m a) hit) (
        fill-EntryOk IsPage rb₀ n p hit (adjust_pc o s s.ret_addr m a) e (
          adjusted-Inside p (p + n) s.ret_addr hit.rb.mem m a (omega arith)
            (omega (arith, behaves.pc_fits)) written))

  reg_entry-ResultOk : (hit : Hit) → HitOk IsPage hit → ResultOk IsPage (reg_entry o s hit)
  reg_entry-ResultOk hit ok =
      alloc-ResultOk IsPage o.circular (4 + o.regs_size) hit.id hit hit (put_regs o s) ok ok.held
        (put_regs-ResultOk hit.rb)

  pub action_r-ResultOk : (hit : Hit) → HitOk IsPage hit → ResultOk IsPage (action_r o s hit)
  unfolding action_r
  action_r-ResultOk hit ok = with_head-ResultOk hit (reg_entry o s) ok reg_entry-ResultOk
