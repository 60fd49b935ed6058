-- ===== src/Ring/Walk.antt =====
-- gtp_rb.c, `gtp_rb_walk`: from entry to entry of the ring buffer.
use kgtp.Base.{
  ℕ, zero, suc, ◌+◌, ◌%◌, ◌^◌, Bool, Option, none, some, leb, ltb, ◌==◌, ◌&&◌, ◌||◌, not,
  if◌then◌else◌,
}
use kgtp.Ring.Bytes.{Memory, load}
use kgtp.Ring.Pages.{
  page_end, frame_align, fid_head, fid_reg, fid_mem, fid_var, fid_page_begin, fid_page_end,
  page_begin_size, get_next, pointer_sub,
}

-- `enum gtp_rb_walk_reason`
pub data Reason : Type 0 where
  at_end at_end_page at_end_entry at_new_entry at_type at_step at_error : Reason

-- `struct gtp_rb_walk_s`: a field for each flag, and what it goes by.
pub record WalkArgs : Type 0 where
  pub check_end : Bool
  pub pass_page : Bool
  pub pass_entry : Bool
  pub check_id : Bool
  pub check_type : Bool
  pub count_steps : Bool
  pub last : ℕ
  pub id : ℕ
  pub type_fid : ℕ
  pub step_max : ℕ

-- The local variables: `ret`, `page_end` and `step`.
pub record Place : Type 0 where
  pub at : ℕ
  pub bound : ℕ
  pub steps : ℕ

pub data WalkRound : Type 0 where
  walk_on : Place → WalkRound
  walk_out : Reason → WalkRound

-- `GTP_FRAME_HEAD_SIZE`, `GTP_FRAME_MEM_SIZE` and `GTP_FRAME_VAR_SIZE`
abbrev pub head_size : ℕ
head_size = 4 + 8 + 8 + 8

abbrev pub mem_size : ℕ
mem_size = 4 + 16

abbrev pub var_size : ℕ
var_size = 4 + 16

-- `FRAME_ALIGN(GTP_FRAME_MEM_SIZE + gfm->size)`
abbrev pub mem_entry_size : Memory → ℕ → ℕ
mem_entry_size m at = frame_align ((mem_size + load 8 m (at + 12)) % 2 ^ 64)

abbrev pub forward : Place → ℕ → WalkRound
forward p n = walk_on (record p { at = p.at + n })

-- `regs_size` is `sizeof(struct pt_regs)`.
module _ (regs_size : ℕ) (m : Memory) (s : WalkArgs) where
  -- The `switch` on the FID.
  unfoldable pub pass_entry_at : ℕ → Place → WalkRound
  pass_entry_at fid p =
      if fid == fid_head
      then (if not s.pass_entry then walk_out at_new_entry else forward p (frame_align head_size))
      else if fid == fid_reg
      then forward p (frame_align (4 + regs_size))
      else if fid == fid_mem
      then forward p (mem_entry_size m p.at)
      else if fid == fid_var
      then forward p (frame_align var_size)
      else if fid == fid_page_begin
      then (if s.check_id && not (s.id == load 8 m (p.at + 4))
          then walk_out at_end_entry
          else forward p (frame_align page_begin_size))
      else walk_out at_error

  abbrev pub is_step : ℕ → Bool
  is_step fid = fid == fid_reg || fid == fid_mem || fid == fid_var

  unfoldable pub at_entry : ℕ → Place → WalkRound
  unfolding pass_entry_at
  at_entry fid p =
      if s.check_type && s.type_fid == fid
      then walk_out at_type
      else if s.count_steps && is_step fid
      then (if leb s.step_max p.steps
          then walk_out at_step
          else pass_entry_at fid (record p { steps = p.steps + 1 }))
      else pass_entry_at fid p

  -- `ret == page_end || page_end - ret < FID_SIZE || FID(ret) == FID_PAGE_END`
  abbrev pub page_is_over : Place → Bool
  page_is_over p =
      p.at == p.bound || ltb (pointer_sub p.bound p.at) 4 || load 4 m p.at == fid_page_end

  -- A round of the loop.
  unfoldable pub walk_round : Place → WalkRound
  unfolding at_entry
  walk_round p =
      if s.check_end && p.at == s.last
      then walk_out at_end
      else if page_is_over p
      then (if not s.pass_page
          then walk_out at_end_page
          else walk_on (record p { at = get_next m p.at; bound = page_end (get_next m p.at) }))
      else at_entry (load 4 m p.at) p

  unfoldable pub after_round :
      (Place → Option (Reason × ℕ)) → Place → WalkRound → Option (Reason × ℕ)
  after_round again p (walk_on q) = again q
  after_round again p (walk_out r) = some (r, p.at)

  -- The loop: `none` is too little fuel.
  unfoldable pub walk_loop : ℕ → Place → Option (Reason × ℕ)
  unfolding after_round walk_round
  walk_loop zero p = none
  walk_loop (suc fuel) p = after_round (walk_loop fuel) p (walk_round p)

  -- `gtp_rb_walk`: the reason, and the address that it returns
  unfoldable pub rb_walk : ℕ → ℕ → Option (Reason × ℕ)
  unfolding walk_loop
  rb_walk fuel ret = walk_loop fuel (record { at = ret; bound = page_end ret; steps = 0 })
