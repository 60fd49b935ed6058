-- ===== src/Ring/Trail.antt =====
-- gtp_rb.c, `gtp_rb_walk` on entries that lie one behind the other, in one page or in several.
use kgtp.Base.{
  ℕ, suc, ◌+◌, ◌*◌, ◌/◌, ◌%◌, ◌^◌, ◌≤◌, ◌<◌, ◌≡◌, ◌≢◌, refl, ap, ◌∙◌, ◌⊎◌, arith, true, false, some,
  ◌==◌, ◌&&◌, not,
}
use kgtp.Ring.Bytes.{Memory, load}
use kgtp.Ring.Pages.{
  page_end, frame_align, fid_head, fid_reg, fid_mem, fid_var, fid_page_begin, fid_page_end,
  get_next,
}
use kgtp.Ring.Walk.{
  Reason, at_end, at_new_entry, WalkArgs, Place, walk_on, walk_out, pass_entry_at, at_entry,
  page_is_over, walk_round, after_round, walk_loop, rb_walk,
}

module _ (regs_size : ℕ) (m : Memory) (s : WalkArgs) where
  -- An entry of the frame at `a`, and its size.
  pub data FrameEntry (a : ℕ) : ℕ → Type 0 where
    regs : load 4 m a ≡ fid_reg → FrameEntry a (frame_align (4 + regs_size))
    memory :
        (k : ℕ)
        → load 4 m a ≡ fid_mem
        → load 8 m (a + 12) ≡ k
        → k ≤ 4096
        → FrameEntry a ((20 + k + 3) / 4 * 4)
    variable : load 4 m a ≡ fid_var → FrameEntry a 20
    mark : load 4 m a ≡ fid_page_begin → load 8 m (a + 4) ≡ s.id → FrameEntry a 12

  -- From `a`, in a page up to `bound`, to `b`, in a page up to `bound'`, by n entries or pages.
  pub data Trail (bound' b : ℕ) : ℕ → ℕ → ℕ → Type 0 where
    there : Trail bound' b bound' b 0
    entry :
        {bound a size n : ℕ}
        → a ≢ s.last
        → a + 4 ≤ bound
        → bound ≤ a + 4096
        → FrameEntry a size
        → Trail bound' b bound (a + size) n
        → Trail bound' b bound a (suc n)
    over :
        {bound a n : ℕ}
        → a ≢ s.last
        → a ≤ bound
        → (bound < a + 4) ⊎ (load 4 m a ≡ fid_page_end)
        → Trail bound' b (page_end (get_next m a)) (get_next m a) n
        → Trail bound' b bound a (suc n)

  -- What ends the walk at `b`.
  pub data Stops (bound b : ℕ) : Reason → Type 0 where
    writer : b ≡ s.last → Stops bound b at_end
    new_frame :
        b ≢ s.last
        → b + 4 ≤ bound
        → bound ≤ b + 4096
        → load 4 m b ≡ fid_head
        → Stops bound b at_new_entry

  module _ (ends : s.check_end ≡ true) (pages : s.pass_page ≡ true) (frame : s.pass_entry ≡ false)
      (untyped : s.check_type ≡ false) (unstepped : s.count_steps ≡ false) where
    inside :
        (p : Place) (fid : ℕ)
        → p.at ≢ s.last
        → p.at + 4 ≤ p.bound
        → p.bound ≤ p.at + 4096
        → load 4 m p.at ≡ fid
        → fid < 6
        → walk_round regs_size m s p ≡ pass_entry_at regs_size m s fid p
    unfolding walk_round at_entry
    inside p fid far room near e small =
        let c₁ : (s.check_end && p.at == s.last) ≡ false = ground (arith, far) in
        let c₂ : page_is_over regs_size m s p ≡ false = ground (arith, e, near, room) in
        rw (c₁, c₂, untyped, unstepped) (ap (λ x. pass_entry_at regs_size m s x p) e)

    entry_round :
        (p : Place) (size : ℕ)
        → p.at ≢ s.last
        → p.at + 4 ≤ p.bound
        → p.bound ≤ p.at + 4096
        → FrameEntry p.at size
        → walk_round regs_size m s p ≡ walk_on (record p { at = p.at + size })
    unfolding pass_entry_at
    entry_round p size far room near (regs e) = inside p fid_reg far room near e (omega arith)
    entry_round p size far room near (memory k e held small) =
        let same : (20 + load 8 m (p.at + 12)) % 2 ^ 64 ≡ 20 + k = omega (arith, held, small) in
        inside p fid_mem far room near e (omega arith)
        ∙ ap (λ x. walk_on (record p { at = p.at + x })) (omega (arith, same, small))
    entry_round p size far room near (variable e) = inside p fid_var far room near e (omega arith)
    entry_round p size far room near (mark e held) =
        let known : (s.check_id && not (s.id == load 8 m (p.at + 4))) ≡ false =
          ground (arith, held) in
        inside p fid_page_begin far room near e (omega arith) ∙ rw known refl

    over_round :
        (p : Place)
        → p.at ≢ s.last
        → p.at ≤ p.bound
        → (p.bound < p.at + 4) ⊎ (load 4 m p.at ≡ fid_page_end)
        → walk_round regs_size m s p
          ≡ walk_on (record p { at = get_next m p.at; bound = page_end (get_next m p.at) })
    unfolding walk_round
    over_round p far low done =
        let c₁ : (s.check_end && p.at == s.last) ≡ false = ground (arith, far) in
        let c₂ : page_is_over regs_size m s p ≡ true = ground (arith, done, low) in
        rw (c₁, c₂, pages) refl

    stop_round :
        (p : Place) (r : Reason) → Stops p.bound p.at r → walk_round regs_size m s p ≡ walk_out r
    unfolding walk_round pass_entry_at
    stop_round p r (writer e) =
        let c₁ : (s.check_end && p.at == s.last) ≡ true = ground (arith, e, ends) in rw c₁ refl
    stop_round p r (new_frame far room near e) =
        inside p fid_head far room near e (omega arith) ∙ rw frame refl

    along :
        (bound' b n : ℕ) (r : Reason) (p : Place)
        → Stops bound' b r
        → Trail bound' b p.bound p.at n
        → walk_loop regs_size m s (suc n) p ≡ some (r, b)
    unfolding walk_loop after_round
    along bound' b n r p stop there = rw (stop_round p r stop) refl
    along bound' b n r p stop (entry {size} far room near e t) =
        rw (entry_round p size far room near e)
          (along bound' b _ r (record p { at = p.at + size }) stop t)
    along bound' b n r p stop (over far low done t) = rw (over_round p far low done) (
        along bound' b _ r (record p { at = get_next m p.at; bound = page_end (get_next m p.at) })
          stop t)

    -- `gtp_rb_walk` with CHECK_END and PASS_PAGE, and without PASS_ENTRY, CHECK_TYPE and STEP: from
    -- `ret`, over entries of a frame that follow each other in a page or from page to page, none of
    -- them at `end`, it comes to `end` or to the head of a new frame, returns that address, and
    -- gives the reason. It takes one round for each entry and each page, and one more.
    pub rb_walk-reaches :
        (ret bound b n : ℕ) (r : Reason)
        → Stops bound b r
        → Trail bound b (page_end ret) ret n
        → rb_walk regs_size m s (suc n) ret ≡ some (r, b)
    unfolding rb_walk
    rb_walk-reaches ret bound b n r stop t =
        along bound b n r (record { at = ret; bound = page_end ret; steps = 0 }) stop t
