-- ===== src/Agent/Terminates.antt =====
-- gtp.c, the `while` loop of `gtp_check_x_simple` and its fuel.
use kgtp.Base.{
  ℕ, zero, suc, ◌+◌, ◌-◌, ◌<◌, ◌≤◌, ◌≡◌, ◌≢◌, ap, arith, length, get_elem?, lt-length_of_get,
  Option-cases, inl, inr,
}
use kgtp.Agent.Op.{DivOp, decode}
use kgtp.Agent.Word.{Shifts}
use kgtp.Agent.Fold.{Folded, folded, by_zero, wild, fold_step}
use kgtp.Agent.Tsv.{Config}
use kgtp.Agent.Round.{Simple, Round, go_on, at_end, release, crash, round}
use kgtp.Agent.Simple.{PathEnd, no_fuel, after_fold, check_round, on_round, on_code, walk}
use kgtp.Agent.Shape.{Shape, plain, jumps, branches, ends, unchecked, shape}
use kgtp.Agent.RoundShape.{Moves, Effect}
use kgtp.Agent.RoundEffect.{round-Effect}

module _ (s t : Simple) where
  Moves-forward : (x : Shape) → Moves s t x → s.pc ≤ t.pc
  Moves-forward (plain k n p) m = omega (arith, m.pc)
  Moves-forward jumps m = omega (arith, m.pc, m.forward)
  Moves-forward branches m = omega (arith, m.4)
  Moves-forward ends m = absurd m
  Moves-forward unchecked m = absurd m

  Moves-size : (x : Shape) → Moves s t x → length t.check.ebuf ≡ length s.check.ebuf
  Moves-size (plain k n p) m = m.kept.size
  Moves-size jumps m = ap length m.ebuf
  Moves-size branches m = ap length (m.3)
  Moves-size ends m = absurd m
  Moves-size unchecked m = absurd m

round_ends :
    (s : Simple) (x : Shape) (again : Simple → PathEnd) (r : Round)
    → Effect s x r
    → ((u : Simple) → s.pc ≤ u.pc → length u.check.ebuf ≡ length s.check.ebuf → again u ≢ no_fuel)
    → on_round again r ≢ no_fuel
unfolding on_round
round_ends s x again (go_on u) eff k = k u (Moves-forward s u x eff) (Moves-size s u x eff)
round_ends s x again (at_end u) eff k = cc
round_ends s x again (release r u) eff k = cc
round_ends s x again crash eff k = cc

module _ (cfg : Config) (shifts : Shifts) (do_div : DivOp → ℕ → ℕ → ℕ) where
  fold_ends :
      (s : Simple) (b : ℕ) (f : Folded) (again : Simple → PathEnd)
      → s.pc < length s.check.ebuf
      → ((u : Simple) → s.pc < u.pc → length u.check.ebuf ≡ length s.check.ebuf → again u ≢ no_fuel)
      → on_round again (after_fold cfg shifts do_div f (decode b) s) ≢ no_fuel
  unfolding after_fold on_round
  fold_ends s b (folded f) again lt k =
      let s₁ = record s { fold = f; pc = s.pc + 1 } in
      round_ends s₁ (shape (decode b)) again (round cfg (decode b) s₁)
        (round-Effect cfg s₁ (omega arith) (decode b)) (λ u le size. k u (omega arith) size)
  fold_ends s b by_zero again lt k = cc
  fold_ends s b wild again lt k = cc

  -- The `while` loop ends within one round for each byte from `pc` on, and one more: every round
  -- that goes on leaves `pc` at a later byte of a buffer of the same size.
  pub walk_terminates :
      (fuel : ℕ) (s : Simple)
      → length s.check.ebuf - s.pc < fuel
      → walk cfg shifts do_div fuel s ≢ no_fuel
  unfolding walk on_code check_round
  walk_terminates zero s enough = absurd (omega arith)
  walk_terminates (suc fuel) s enough = elim (Option-cases (get_elem? s.check.ebuf s.pc)) [
    | inl out ↦ rw out (cc)
    | inr (b, got) ↦ rw got (
        fold_ends s b (fold_step shifts do_div s.check.ebuf (decode b) s.pc s.sp s.fold)
          (walk cfg shifts do_div fuel) (lt-length_of_get s.check.ebuf s.pc got)
          (λ u lt size.
            walk_terminates fuel u (omega (arith, lt-length_of_get s.check.ebuf s.pc got))))
  ]
