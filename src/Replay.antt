-- ===== src/Replay.antt =====
-- gtp.c, the replay of a step: what a trace frame holds, and the moves from frame to frame.
use kgtp.Base.{
  ℕ, zero, suc, ◌+◌, ◌^◌, ◌%◌, Bool, true, false, not, Option, none, some, List, [], ◌∷◌, ◌++◌,
  ◌==◌, ◌&&◌, ◌||◌, if◌then◌else◌,
}
use kgtp.Ring.Bytes.{load}
use kgtp.Ring.Pages.{Rb, frame_align, fid_reg, fid_var, pointer_sub}
use kgtp.Ring.Walk.{Reason, at_new_entry, at_type, WalkArgs, head_size, var_size, rb_walk}
pub mod Reverse
pub mod Forward
pub mod Breakpoints
mod Tests

-- `gtp_replay_step_*`, `gtp_frame_current_*` and `gtp_breakpoints`. `NULL` is 0, and `cpu` is the
-- processor of the ring buffer `gtp_frame_current_rb`.
pub record Replay : Type 0 where
  pub rb : Rb
  pub cpu : ℕ
  pub id : ℕ
  pub tpe : ℕ
  pub regs : ℕ
  pub step_id : ℕ
  pub step_tpe : ℕ
  pub step_begin : ℕ
  pub step_end : ℕ
  pub breakpoints : List ℕ

-- What a move returns: 0, 1, and `-EBUSY`.
pub data Move : Type 0 where
  move_ok move_end move_busy : Move

-- `GTP_VAR_CPU_ID` and `GTP_STEP_ID_ID`
abbrev pub cpu_id : ℕ
cpu_id = 2

abbrev pub step_id_num : ℕ
step_id_num = 45

-- `rbws` of a look for an entry of a frame
abbrev pub entry_args : Rb → ℕ → ℕ → WalkArgs
entry_args rb id fid = record {
  check_end = true;
  pass_page = true;
  pass_entry = false;
  check_id = true;
  check_type = true;
  count_steps = false;
  last = rb.w;
  id = id;
  type_fid = fid;
  step_max = 0;
}

-- `rbws` of a move
abbrev pub move_args : ℕ → WalkArgs
move_args last = record {
  check_end = true;
  pass_page = true;
  pass_entry = false;
  check_id = false;
  check_type = false;
  count_steps = false;
  last = last;
  id = 0;
  type_fid = 0;
  step_max = 0;
}

-- `gtp_rb_walk_reverse`, with 0 for `NULL`
abbrev pub walk_reverse : Rb → ℕ → ℕ → ℕ
walk_reverse rb buf begin = if buf == begin then 0 else load 8 rb.mem (buf + 4 + 8 + 8)

-- `gtp_rb_update_gtp_frame_current` behind `rp = tmp`
abbrev pub move_to : ℕ → Replay → Replay
move_to tmp st = record st {
  rb = record st.rb { rp = tmp + frame_align head_size };
  id = load 8 st.rb.mem (tmp + 4);
  tpe = load 8 st.rb.mem (tmp + 4 + 8);
  regs = 0;
}

-- `end_out` of the two moves
abbrev pub note_end : ℕ → Replay → Replay
note_end tmp st = if st.step_end == 0 then record st { step_end = tmp } else st

abbrev pub note_begin : ℕ → Replay → Replay
note_begin at st = if st.step_begin == 0 then record st { step_begin = at } else st

-- `gtp_replay_step_end ? gtp_replay_step_end : gtp_frame_current_rb->w`
abbrev pub last_of : Replay → ℕ
last_of st = if st.step_end == 0 then st.rb.w else st.step_end

-- Where it is known whether the entry is of the step
abbrev pub if_checked {ℓ} : {A : Type ℓ} → Option Bool → A → A → Option A
if_checked none ours other = none
if_checked (some true) ours other = some ours
if_checked (some false) ours other = some other

-- `gtp_breakpoints_find`
unfoldable pub breakpoints_find : List ℕ → ℕ → Bool
breakpoints_find [] addr = false
breakpoints_find (b ∷ bs) addr = b == addr || breakpoints_find bs addr

abbrev pub no_breakpoints : List ℕ → Bool
no_breakpoints [] = true
no_breakpoints (b ∷ bs) = false

-- `pc_at` is the offset of the field of `GTP_REGS_PC`, and `task` the value of the kernel's `current`.
module _ (regs_size walk_fuel pc_at task : ℕ) where
  abbrev pub look : Rb → WalkArgs → ℕ → Option (Reason × ℕ)
  look rb args at = rb_walk regs_size rb.mem args walk_fuel at

  abbrev pub on_var : Rb → ℕ → (ℕ → Option (Option ℕ)) → Option (Reason × ℕ) → Option (Option ℕ)
  on_var rb num again none = none
  on_var rb num again (some (at_type, tmp)) =
      let rest = again (tmp + frame_align var_size) in
      if load 4 rb.mem (tmp + 4) == num then some (some (load 8 rb.mem (tmp + 12))) else rest
  on_var rb num again (some (_, tmp)) = some none

  unfoldable pub tv_loop : Rb → ℕ → ℕ → ℕ → ℕ → Option (Option ℕ)
  tv_loop rb id num zero tmp = none
  tv_loop rb id num (suc fuel) tmp =
      on_var rb num (tv_loop rb id num fuel) (look rb (entry_args rb id fid_var) tmp)

  -- `gtp_rb_traceframe_get_tv`: `some none` is -1.
  unfoldable pub get_tv : Replay → ℕ → ℕ → ℕ → Option (Option ℕ)
  unfolding tv_loop
  get_tv st buf id num =
      if num == cpu_id then some (some st.cpu) else tv_loop st.rb id num walk_fuel buf

  abbrev pub same_step : ℕ → Option (Option ℕ) → Option Bool
  same_step step_id none = none
  same_step step_id (some none) = some false
  same_step step_id (some (some val)) = some (val == step_id)

  -- `gtp_traceframe_check`
  unfoldable pub traceframe_check : Replay → ℕ → Option Bool
  unfolding get_tv
  traceframe_check st entry =
      if not (load 8 st.rb.mem (entry + 4 + 8) == st.step_tpe)
      then some false
      else same_step st.step_id
          (get_tv st (entry + frame_align head_size) (load 8 st.rb.mem (entry + 4)) step_id_num)

  unfoldable pub forward_to : Replay → Option (Reason × ℕ) → Option (Move × Replay)
  unfolding traceframe_check
  forward_to st none = none
  forward_to st (some (at_new_entry, tmp)) =
      if st.step_end == 0
      then if_checked (traceframe_check st tmp) (move_ok, move_to tmp st)
          (move_end, note_end tmp st)
      else some (move_ok, move_to tmp st)
  forward_to st (some (_, tmp)) = some (move_end, note_end tmp st)

  -- `gtp_gdbrsp_step_forward`
  unfoldable pub step_forward : Replay → Option (Move × Replay)
  unfolding forward_to
  step_forward st =
      if st.step_id == 0
      then some (move_busy, st)
      else forward_to st (look st.rb (move_args (last_of st)) st.rb.rp)

  unfoldable pub reverse_to : Replay → ℕ → Option (Move × Replay)
  unfolding traceframe_check
  reverse_to st tmp =
      if tmp == 0
      then some (move_end, note_begin task st)
      else if st.step_begin == 0
      then if_checked (traceframe_check st tmp) (move_ok, move_to tmp st)
          (move_end, note_begin task st)
      else some (move_ok, move_to tmp st)

  -- `gtp_gdbrsp_step_reverse`, where `end_out` stores `current`
  unfoldable pub step_reverse : Replay → Option (Move × Replay)
  unfolding reverse_to
  step_reverse st =
      if st.step_id == 0
      then some (move_busy, st)
      else reverse_to st (
          walk_reverse st.rb (pointer_sub st.rb.rp (frame_align head_size))
            (if st.step_begin == 0 then st.rb.r else st.step_begin))

  abbrev pub found_regs : Replay → Option (Reason × ℕ) → Option Replay
  found_regs st none = none
  found_regs st (some (at_type, tmp)) = some (record st { regs = tmp + 4 })
  found_regs st (some (_, tmp)) = some st

  -- `gtp_rb_traceframe_get_regs`: the registers are in `regs`.
  unfoldable pub replay_regs : Replay → Option Replay
  replay_regs st =
      if st.regs == 0
      then found_regs st (look st.rb (entry_args st.rb st.id fid_reg) st.rb.rp)
      else some st

  abbrev pub stops_at : Option Replay → Option (Bool × Replay)
  stops_at none = none
  stops_at (some st) = some (
    not (st.regs == 0) && breakpoints_find st.breakpoints (load 8 st.rb.mem (st.regs + pc_at)),
    st,
  )

  -- Whether a breakpoint ends the loop, with the registers that are looked up for it
  unfoldable pub at_breakpoint : Bool → Replay → Option (Bool × Replay)
  unfolding breakpoints_find replay_regs
  at_breakpoint step st =
      if step || no_breakpoints st.breakpoints then some (false, st) else stops_at (replay_regs st)

  abbrev pub after_check :
      Bool → (Replay → Option (Move × Replay)) → Option (Bool × Replay) → Option (Move × Replay)
  after_check step again none = none
  after_check step again (some (hit, st)) =
      let rest = again st in if hit || step then some (move_ok, st) else rest

  unfoldable pub after_move :
      Bool → (Replay → Option (Move × Replay)) → Option (Move × Replay) → Option (Move × Replay)
  unfolding at_breakpoint
  after_move step again none = none
  after_move step again (some (move_ok, st)) = after_check step again (at_breakpoint step st)
  after_move step again (some (ret, st)) = some (ret, st)

  abbrev pub step_once : Bool → Replay → Option (Move × Replay)
  step_once reverse st = if reverse then step_reverse st else step_forward st

  unfoldable pub resume_loop : Bool → Bool → ℕ → Replay → Option (Move × Replay)
  unfolding after_move step_reverse step_forward
  resume_loop step reverse zero st = none
  resume_loop step reverse (suc fuel) st =
      after_move step (resume_loop step reverse fuel) (step_once reverse st)

  -- `gtp_gdbrsp_resume`: `move_end` is the reply `T05replaylog`, and `move_ok` is `S05`.
  unfoldable pub resume : Bool → Bool → ℕ → Replay → Option (Move × Replay)
  unfolding resume_loop
  resume step reverse fuel st =
      if st.step_id == 0 then some (move_busy, st) else resume_loop step reverse fuel st
