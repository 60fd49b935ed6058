-- ===== src/Replay/Reverse.antt =====
-- gtp.c, `gtp_gdbrsp_step_reverse` at the first frame of a step: what it stores as the begin of the
-- step is `current`, the kernel's pointer to the running task.
use kgtp.Base.{ℕ, ◌+◌, ◌≡◌, ◌≢◌, refl, sym, arith, true, false, some, ◌==◌}
use kgtp.Ring.Bytes.{load}
use kgtp.Ring.Pages.{frame_align, pointer_sub}
use kgtp.Ring.Walk.{head_size}
use kgtp.Replay.{Replay, move_ok, move_end, move_to, traceframe_check, reverse_to, step_reverse}

-- The head of the frame that is looked at, and the link to the frame before it.
abbrev pub current_head : Replay → ℕ
current_head st = pointer_sub st.rb.rp (frame_align head_size)

abbrev pub link_back : Replay → ℕ
link_back st = load 8 st.rb.mem (current_head st + 4 + 8 + 8)

module _ (regs_size walk_fuel pc_at task : ℕ) where
  is_false : (a b : ℕ) → a ≢ b → (a == b) ≡ false
  is_false a b ne = ground (arith, ne)

  -- In step replay mode, with no begin of the step known, at a frame behind which there is one that is
  -- not of the step, where the pointer to the task is not 0 and not that frame: a reverse step says
  -- that the begin is reached, and the next reverse step moves to the frame outside of the step.
  pub step_reverse-passes :
      (st : Replay)
      → st.step_id ≢ 0
      → st.step_begin ≡ 0
      → current_head st ≢ st.rb.r
      → link_back st ≢ 0
      → traceframe_check regs_size walk_fuel pc_at task st (link_back st) ≡ some false
      → task ≢ 0
      → task ≢ current_head st
      → (step_reverse regs_size walk_fuel pc_at task st
          ≡ some (move_end, record st { step_begin = task }))
        × (step_reverse regs_size walk_fuel pc_at task (record st { step_begin = task })
            ≡ some (move_ok, move_to (link_back st) (record st { step_begin = task })))
  unfolding step_reverse reverse_to
  step_reverse-passes st mode none_yet inside link outside running other =
      let stepping = is_false st.step_id 0 mode in
      let unknown : (st.step_begin == 0) ≡ true = ground (arith, none_yet) in
      let before = is_false (current_head st) st.rb.r inside in
      let linked = is_false (link_back st) 0 link in
      let known = is_false task 0 running in
      let apart = is_false (current_head st) task (λ e. other (sym e)) in
      (
        rw (stepping, unknown, before, linked, outside) refl,
        rw (stepping, known, apart, linked) refl,
      )
