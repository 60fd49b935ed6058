-- ===== src/Replay/Forward.antt =====
-- gtp.c, `gtp_gdbrsp_step_forward` at the last frame of a step: it stays there.
use kgtp.Base.{
  ℕ, zero, suc, ◌≡◌, ◌≢◌, refl, sym, ap, ◌∙◌, arith, Bool, true, false, Option, none, some, ◌==◌,
  if◌then◌else◌, Bool-cases, ◌⊎◌, inl, inr,
}
use mathlib.Core.Path.{subst}
use kgtp.Ring.Bytes.{Memory, load}
use kgtp.Ring.Pages.{get_next, page_end}
use kgtp.Ring.Walk.{
  Reason, at_end, at_new_entry, Place, WalkRound, walk_on, walk_out, page_is_over, pass_entry_at,
  at_entry, walk_round, after_round, walk_loop, rb_walk,
}
use kgtp.Replay.{
  Replay, Move, move_ok, move_end, move_args, note_end, if_checked, last_of, traceframe_check,
  forward_to, step_forward,
}

module _ (regs_size : ℕ) (m : Memory) where
  -- A round behind the test for the end
  abbrev behind_test : Place → WalkRound
  behind_test p =
      if page_is_over regs_size m (move_args 0) p
      then walk_on (record p { at = get_next m p.at; bound = page_end (get_next m p.at) })
      else at_entry regs_size m (move_args 0) (load 4 m p.at) p

  round_on :
      (last : ℕ) (p : Place)
      → (p.at == last) ≡ false
      → walk_round regs_size m (move_args last) p ≡ behind_test p
  unfolding walk_round at_entry pass_entry_at
  round_on last p e = rw e refl

  round_ends :
      (last : ℕ) (p : Place)
      → (p.at == last) ≡ true
      → walk_round regs_size m (move_args last) p ≡ walk_out at_end
  unfolding walk_round
  round_ends last p e = rw e refl

  after_round-ends :
      (last fuel tmp : ℕ) (r : Reason) (p : Place) (w : WalkRound)
      → p.at ≢ tmp
      → after_round regs_size m (move_args last) (walk_loop regs_size m (move_args last) fuel) p w
        ≡ some (r, tmp)
      → ((q : Place)
          → walk_loop regs_size m (move_args last) fuel q ≡ some (r, tmp)
          → walk_loop regs_size m (move_args tmp) fuel q ≡ some (at_end, tmp))
      → after_round regs_size m (move_args tmp) (walk_loop regs_size m (move_args tmp) fuel) p w
        ≡ some (at_end, tmp)
  unfolding after_round
  after_round-ends last fuel tmp r p (walk_on q) ne e again = again q e
  after_round-ends last fuel tmp r p (walk_out r') ne e again = absurd (ne cc)

  -- A walk that stops somewhere stops there as well when that is its end.
  walk_loop-ends :
      (last fuel tmp : ℕ) (r : Reason) (p : Place)
      → walk_loop regs_size m (move_args last) fuel p ≡ some (r, tmp)
      → walk_loop regs_size m (move_args tmp) fuel p ≡ some (at_end, tmp)
  unfolding walk_loop after_round
  walk_loop-ends last zero tmp r p e = absurd cc
  walk_loop-ends last (suc fuel) tmp r p e =
      let round : (l : ℕ) → WalkRound → Option (Reason × ℕ) =
        λ l. after_round regs_size m (move_args l) (walk_loop regs_size m (move_args l) fuel) p in
      elim (Bool-cases (p.at == tmp)) [
        | inl here ↦
            ap (round tmp) (round_ends tmp p here)
            ∙ ap (λ x. some (at_end, x)) (ground (arith, here))
        | inr away ↦
            let ne : p.at ≢ tmp = λ f. absurd (ground (arith, away, f)) in
            elim (Bool-cases (p.at == last)) [
              | inl over ↦
                  let stopped = sym (ap (round last) (round_ends last p over)) ∙ e in
                  let same : p.at ≡ tmp = cc in absurd (ne same)
              | inr on ↦
                  ap (round tmp) (round_on tmp p away)
                  ∙ after_round-ends last fuel tmp r p (behind_test p) ne
                      (sym (ap (round last) (round_on last p on)) ∙ e)
                      (λ q. walk_loop-ends last fuel tmp r q)
            ]
      ]

module _ (regs_size walk_fuel pc_at task : ℕ) where
  abbrev NotesEnd : Replay → Option (Reason × ℕ) → Replay → Type 0
  NotesEnd st o st' = (r : Reason) × (tmp : ℕ) × (o ≡ some (r, tmp)) × (st' ≡ note_end tmp st)

  checked-end :
      (c : Option Bool) (ours other st' : Replay)
      → if_checked {A = Move × Replay} c (move_ok, ours) (move_end, other) ≡ some (move_end, st')
      → st' ≡ other
  checked-end none ours other st' e = absurd cc
  checked-end (some true) ours other st' e = absurd cc
  checked-end (some false) ours other st' e = cc

  if-split : {A : Type 0} (b : Bool) (x y z : A) → (if b then x else y) ≡ z → (x ≡ z) ⊎ (y ≡ z)
  if-split true x y z e = inl e
  if-split false x y z e = inr e

  forward_to-NotesEnd :
      (st st' : Replay) (o : Option (Reason × ℕ))
      → forward_to regs_size walk_fuel pc_at task st o ≡ some (move_end, st')
      → NotesEnd st o st'
  unfolding forward_to
  forward_to-NotesEnd st st' none e = absurd cc
  forward_to-NotesEnd st st' (some (at_new_entry, tmp)) e =
      elim (if-split (st.step_end == 0) _ _ _ e) [
        | inl f ↦ (
          at_new_entry,
          tmp,
          refl,
          checked-end (traceframe_check regs_size walk_fuel pc_at task st tmp) _ _ st' f,
        )
        | inr f ↦ absurd cc
      ]
  forward_to-NotesEnd st st' (some (r, tmp)) e = (r, tmp, refl, cc)

  -- In step replay mode
  forward-walks :
      (st : Replay) (o : Option (Move × Replay))
      → (st.step_id == 0) ≡ false
      → forward_to regs_size walk_fuel pc_at task st
          (rb_walk regs_size st.rb.mem (move_args (last_of st)) walk_fuel st.rb.rp)
        ≡ o
      → step_forward regs_size walk_fuel pc_at task st ≡ o
  unfolding step_forward
  forward-walks st o mode e = rw mode e

  is_stepping :
      (st st' : Replay)
      → step_forward regs_size walk_fuel pc_at task st ≡ some (move_end, st')
      → (st.step_id == 0) ≡ false
  unfolding step_forward
  is_stepping st st' e = elim (Bool-cases (st.step_id == 0)) [
    | inl idle ↦ absurd (let f = (rw idle at e) in cc)
    | inr mode ↦ mode
  ]

  walked :
      (st st' : Replay)
      → step_forward regs_size walk_fuel pc_at task st ≡ some (move_end, st')
      → NotesEnd st (rb_walk regs_size st.rb.mem (move_args (last_of st)) walk_fuel st.rb.rp) st'
  unfolding step_forward
  walked st st' e = let mode = is_stepping st st' e in forward_to-NotesEnd st st' _ (rw mode at e)

  -- The end that has been noted stops the walk.
  noted-stays :
      (st : Replay) (r : Reason) (tmp : ℕ)
      → (st.step_id == 0) ≡ false
      → (tmp == 0) ≡ false
      → rb_walk regs_size st.rb.mem (move_args (last_of st)) walk_fuel st.rb.rp ≡ some (r, tmp)
      → step_forward regs_size walk_fuel pc_at task (record st { step_end = tmp })
        ≡ some (move_end, record st { step_end = tmp })
  unfolding rb_walk forward_to step_forward
  noted-stays st r tmp mode there stop =
      let again =
        walk_loop-ends regs_size st.rb.mem (last_of st) walk_fuel tmp r
          (record { at = st.rb.rp; bound = page_end st.rb.rp; steps = 0 }) stop in
      rw (mode, there, again, there) refl

  -- Where a step forward says that the end is reached, the next one says so too, at the same frame.
  pub step_forward-stays :
      (st st' : Replay)
      → step_forward regs_size walk_fuel pc_at task st ≡ some (move_end, st')
      → step_forward regs_size walk_fuel pc_at task st' ≡ some (move_end, st')
  step_forward-stays st st' e =
      let (r, tmp, stop, is) = walked st st' e in
      let Stays : Replay → Type 0 =
        λ x. step_forward regs_size walk_fuel pc_at task x ≡ some (move_end, x) in
      let as_before : st' ≡ st → Stays st' = λ same.
        subst (λ x. step_forward regs_size walk_fuel pc_at task x ≡ some (move_end, st')) (sym same)
          e in
      elim (Bool-cases (st.step_end == 0)) [
        | inl open_end ↦ elim (Bool-cases (tmp == 0)) [
          | inl null ↦ as_before (
              is
              ∙ rw open_end (ap (λ x. record st { step_end = x }) (ground (arith, null, open_end))))
          | inr there ↦
              subst Stays (sym (is ∙ (rw open_end refl)))
                (noted-stays st r tmp (is_stepping st st' e) there stop)
        ]
        | inr known ↦ as_before (is ∙ (rw known refl))
      ]
